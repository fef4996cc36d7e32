-- ===== src/Passthrough/Files/Saved.antt =====
-- What `persist_logical_file` leaves on the backing store, whatever faults it meets.
use crunch_fs.Base.{ℕ, ◌≡◌, ◌∙◌, List, ◌∷◌, length, concat, Str, some}
use crunch_fs.Base.Bytes.{Bytes}
use crunch_fs.Zstd.{Zstd, ZstdLaws}
use crunch_fs.Compresslib.Chunks.{Encodes, compress_file_chunks-Encodes}
use crunch_fs.Disk.{Disk, ◌>>◌}
use crunch_fs.Disk.Ends.{Ends, Ends-then, Ends-map}
use crunch_fs.Disk.Staged.{Untouched, Moved, replace-Moved}
use crunch_fs.Disk.OnlyAt.{OnlyAt}
use crunch_fs.Passthrough.Layout.{
  Config, meta_dir, data_dir, index_path, tmp, file_id_from_path, meta_path_for_fuse_path,
  data_path_for_fuse_path,
}
use crunch_fs.Passthrough.Layout.Apart.{
  Under, tmp-Under, Under-self, tmp_ne, meta-Under, data-Under, meta_ne_data, index_ne_meta,
  index_ne_data,
}
use crunch_fs.Passthrough.Meta.{FileMeta, meta_fields}
use crunch_fs.Passthrough.Index.{add_index_entry}
use crunch_fs.Passthrough.Index.Kept.{index_files, add_index_entry-Keeps}
use crunch_fs.Passthrough.Files.{
  chunk_rows, save_meta_atomic, save_data_atomic, persist_logical_file,
}

-- The metadata that `persist_logical_file` builds.
abbrev pub table : Bytes → List Bytes → FileMeta
table input chunks = record {
  logical_size = length input;
  chunks = chunk_rows 0 0 (length input) chunks;
}

module _ (z : Zstd) (hash : Str → ℕ) (cfg : Config) (path : Str) where
  abbrev pub meta_file : Str
  meta_file = meta_path_for_fuse_path hash cfg path

  abbrev pub data_file : Str
  data_file = data_path_for_fuse_path hash cfg path

  -- The data file holds the chunks of `input`, and the metadata file their table.
  pub record Saved (input : Bytes) (d : Disk) : Type 0 where
    pub chunks : List Bytes
    pub encoded : Encodes z chunks input
    pub blobs : d.files data_file ≡ some (concat chunks)
    pub header : d.files meta_file ≡ some (concat (meta_fields (table input chunks)))

  -- The files that belong to the path, those of the index, and their `.tmp` files.
  abbrev pub path_files : List Str
  path_files = data_file ∷ tmp data_file ∷ meta_file ∷ tmp meta_file ∷ index_files cfg

  pub meta-at : Under (meta_dir cfg) meta_file
  unfolding meta_path_for_fuse_path
  meta-at = meta-Under cfg (file_id_from_path hash path)

  pub data-at : Under (data_dir cfg) data_file
  unfolding data_path_for_fuse_path
  data-at = data-Under cfg (file_id_from_path hash path)

  pub save_data-Moved :
      (chunks : List Bytes) (d : Disk)
      → Ends
          (λ _. Moved d (tmp data_file) data_file (concat chunks))
          (Untouched d (tmp data_file))
          (save_data_atomic z hash cfg path chunks d)
  unfolding save_data_atomic
  save_data-Moved chunks d = replace-Moved d (tmp data_file) data_file chunks (tmp_ne data_file)

  -- The metadata file is replaced whole, or not at all.
  pub save_meta-Moved :
      (meta : FileMeta) (d : Disk)
      → Ends
          (λ _. Moved d (tmp meta_file) meta_file (concat (meta_fields meta)))
          (Untouched d (tmp meta_file))
          (save_meta_atomic z hash cfg path meta d)
  unfolding save_meta_atomic
  save_meta-Moved meta d =
      replace-Moved d (tmp meta_file) meta_file (meta_fields meta) (tmp_ne meta_file)

  index-Saved :
      (input : Bytes) (d₀ d : Disk)
      → Saved input d
      → OnlyAt path_files d₀ d
      → Ends
          (λ _ d'. Saved input d' × OnlyAt path_files d₀ d')
          (OnlyAt path_files d₀)
          (add_index_entry cfg path d)
  index-Saved input d₀ d saved near =
      let ip : Under (index_path cfg) (index_path cfg) = Under-self (index_path cfg) in
      let it = tmp-Under (index_path cfg) ip in
      Ends-map (λ _ d'. Saved input d' × OnlyAt path_files d₀ d') (OnlyAt path_files d₀)
        (λ _. OnlyAt (index_files cfg) d) (OnlyAt (index_files cfg) d) (add_index_entry cfg path d)
        (λ _ d' kept. (
          record {
            chunks = saved.chunks;
            encoded = saved.encoded;
            blobs =
                kept.others data_file
                  (index_ne_data cfg ip data-at, (index_ne_data cfg it data-at, tt))
                ∙ saved.blobs;
            header =
                kept.others meta_file
                  (index_ne_meta cfg ip meta-at, (index_ne_meta cfg it meta-at, tt))
                ∙ saved.header;
          },
          record {
            others = λ q (a, (b, (c, (e, (f, (g, _)))))).
                kept.others q (f, (g, tt)) ∙ near.others q (a, (b, (c, (e, (f, (g, tt))))));
          },
        ))
        (λ d' kept. record {
          others = λ q (a, (b, (c, (e, (f, (g, _)))))).
              kept.others q (f, (g, tt)) ∙ near.others q (a, (b, (c, (e, (f, (g, tt))))));
        })
        (add_index_entry-Keeps cfg path d)

  meta-Saved :
      (input : Bytes) (chunks : List Bytes) (d₀ d : Disk)
      → Encodes z chunks input
      → Moved d₀ (tmp data_file) data_file (concat chunks) d
      → Ends
          (λ _ d'. Saved input d' × OnlyAt path_files d₀ d')
          (OnlyAt path_files d₀)
          ((save_meta_atomic z hash cfg path (table input chunks) >> add_index_entry cfg path) d)
  meta-Saved input chunks d₀ d holds stored =
      let mt = tmp meta_file in
      let mt-at : Under (meta_dir cfg) mt = tmp-Under (meta_dir cfg) meta-at in
      Ends-then (λ _ d'. Saved input d' × OnlyAt path_files d₀ d') (OnlyAt path_files d₀)
        (λ _. Moved d mt meta_file (concat (meta_fields (table input chunks)))) (Untouched d mt)
        (save_meta_atomic z hash cfg path (table input chunks) d) (λ _. add_index_entry cfg path)
        (save_meta-Moved (table input chunks) d)
        (λ _ d' moved.
          index-Saved input d₀ d'
            (record {
              chunks = chunks;
              encoded = holds;
              blobs =
                  moved.others data_file (meta_ne_data cfg mt-at data-at)
                    (meta_ne_data cfg meta-at data-at)
                  ∙ stored.written;
              header = moved.written;
            })
            (record {
              others = λ q (a, (b, (c, (e, _)))). moved.others q e c ∙ stored.others q b a;
            }))
        (λ d' kept. record {
          others = λ q (a, (b, (c, (e, _)))). kept.others q e ∙ stored.others q b a;
        })

  -- Whatever faults the disk meets: a `true` means that the data file holds the chunks of the new
  -- content and the metadata file their table, and whether it is `true` or not, no file has changed but
  -- those of the path, those of the index, and their `.tmp` files.
  pub persist-Saved :
      ZstdLaws z
      → (input : Bytes) (d : Disk)
      → Ends
          (λ _ d'. Saved input d' × OnlyAt path_files d d')
          (OnlyAt path_files d)
          (persist_logical_file z hash cfg path input d)
  unfolding persist_logical_file
  persist-Saved laws input d =
      let (chunks, made, holds) = compress_file_chunks-Encodes z laws input in
      rw made (
        Ends-then (λ _ d'. Saved input d' × OnlyAt path_files d d') (OnlyAt path_files d)
          (λ _. Moved d (tmp data_file) data_file (concat chunks)) (Untouched d (tmp data_file))
          (save_data_atomic z hash cfg path chunks d) _ (save_data-Moved chunks d)
          (λ _ d' moved. meta-Saved input chunks d d' holds moved)
          (λ d' kept. record { others = λ q (a, (b, _)). kept.others q b }))
