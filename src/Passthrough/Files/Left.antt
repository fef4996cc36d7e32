-- ===== src/Passthrough/Files/Left.antt =====
-- What a save that may fail leaves of the file that was there.
use crunch_fs.Base.{ℕ, ◌≡◌, ◌∙◌, List, concat, Str, some, str_eq_comm, Result, ok, err}
use crunch_fs.Base.Bytes.{Bytes}
use crunch_fs.Zstd.{Zstd, ZstdLaws}
use crunch_fs.Compresslib.Chunks.{Encodes, compress_file_chunks-Encodes}
use crunch_fs.Disk.{Disk, ◌>>◌}
use crunch_fs.Disk.Ends.{Ends, Ends-then, Ends-map}
use crunch_fs.Disk.Staged.{Untouched, Moved}
use crunch_fs.Disk.OnlyAt.{OnlyAt}
use crunch_fs.Passthrough.Layout.{Config, meta_dir, data_dir, index_path, tmp}
use crunch_fs.Passthrough.Layout.Apart.{
  Under, tmp-Under, Under-self, tmp_ne, meta_ne_data, index_ne_meta, index_ne_data,
}
use crunch_fs.Passthrough.Meta.{meta_fields}
use crunch_fs.Passthrough.Index.{add_index_entry}
use crunch_fs.Passthrough.Index.Kept.{index_files, add_index_entry-Keeps}
use crunch_fs.Passthrough.Files.{save_meta_atomic, save_data_atomic, persist_logical_file}
use crunch_fs.Passthrough.Files.Saved.{
  Saved, table, meta_file, data_file, meta-at, data-at, save_data-Moved, save_meta-Moved,
}

-- Both ends of an action at once.
Ends-always : {A : Type 0} (P : Disk → Type 0) (r : Result A × Disk) → Ends (λ _. P) P r → P r.1
Ends-always P (ok a, d) h = h
Ends-always P (err e, d) h = h

module _ (z : Zstd) (hash : Str → ℕ) (cfg : Config) (path : Str) where
  -- The data file and the metadata file behind a save of `input` on the disk `d₀`: both as they were, the new
  -- data with the old metadata, or both new. Each of them is whole.
  pub data Left (input : Bytes) (d₀ d : Disk) : Type 0 where
    as_before :
        d.files (data_file z hash cfg path) ≡ d₀.files (data_file z hash cfg path)
        → d.files (meta_file z hash cfg path) ≡ d₀.files (meta_file z hash cfg path)
        → Left input d₀ d
    data_only :
        (chunks : List Bytes)
        → Encodes z chunks input
        → d.files (data_file z hash cfg path) ≡ some (concat chunks)
        → d.files (meta_file z hash cfg path) ≡ d₀.files (meta_file z hash cfg path)
        → Left input d₀ d
    both_new : Saved z hash cfg path input d → Left input d₀ d

  index_kept :
      (input : Bytes) (d₀ d d' : Disk)
      → Saved z hash cfg path input d
      → OnlyAt (index_files cfg) d d'
      → Left input d₀ d'
  index_kept input d₀ d d' saved kept =
      let ip : Under (index_path cfg) (index_path cfg) = Under-self (index_path cfg) in
      let it = tmp-Under (index_path cfg) ip in
      let da = data-at z hash cfg path in
      let ma = meta-at z hash cfg path in
      both_new (record {
        chunks = saved.chunks;
        encoded = saved.encoded;
        blobs =
            kept.others (data_file z hash cfg path)
              (index_ne_data cfg ip da, (index_ne_data cfg it da, tt))
            ∙ saved.blobs;
        header =
            kept.others (meta_file z hash cfg path)
              (index_ne_meta cfg ip ma, (index_ne_meta cfg it ma, tt))
            ∙ saved.header;
      })

  meta-Left :
      (input : Bytes) (chunks : List Bytes) (d₀ d : Disk)
      → Encodes z chunks input
      → Moved d₀ (tmp (data_file z hash cfg path)) (data_file z hash cfg path) (concat chunks) d
      → Ends
          (λ _. Left input d₀)
          (Left input d₀)
          ((save_meta_atomic z hash cfg path (table input chunks) >> add_index_entry cfg path) d)
  meta-Left input chunks d₀ d holds stored =
      let data_name = data_file z hash cfg path in
      let meta_name = meta_file z hash cfg path in
      let da = data-at z hash cfg path in
      let ma = meta-at z hash cfg path in
      let mt-at : Under (meta_dir cfg) (tmp meta_name) = tmp-Under (meta_dir cfg) ma in
      let dt-at : Under (data_dir cfg) (tmp data_name) = tmp-Under (data_dir cfg) da in
      Ends-then (λ _. Left input d₀) (Left input d₀)
        (λ _. Moved d (tmp meta_name) meta_name (concat (meta_fields (table input chunks))))
        (Untouched d (tmp meta_name)) (save_meta_atomic z hash cfg path (table input chunks) d)
        (λ _. add_index_entry cfg path) (save_meta-Moved z hash cfg path (table input chunks) d)
        (λ _ d' moved.
          let saved : Saved z hash cfg path input d' = record {
            chunks = chunks;
            encoded = holds;
            blobs =
                moved.others data_name (meta_ne_data cfg mt-at da) (meta_ne_data cfg ma da)
                ∙ stored.written;
            header = moved.written;
          } in
          Ends-map (λ _. Left input d₀) (Left input d₀) (λ _. OnlyAt (index_files cfg) d')
            (OnlyAt (index_files cfg) d') (add_index_entry cfg path d')
            (λ _ d'' kept. index_kept input d₀ d' d'' saved kept)
            (λ d'' kept. index_kept input d₀ d' d'' saved kept) (add_index_entry-Keeps cfg path d'))
        (λ d' kept.
          data_only chunks holds
            (kept.others data_name (meta_ne_data cfg mt-at da) ∙ stored.written)
            (kept.others meta_name (str_eq_comm _ _ ∙ tmp_ne meta_name)
              ∙ stored.others meta_name (str_eq_comm _ _ ∙ meta_ne_data cfg ma dt-at)
                  (str_eq_comm _ _ ∙ meta_ne_data cfg ma da)))

  -- Whatever faults the disk meets, and whatever the save returns: the data file and the metadata file are as
  -- they were before, or the data file holds the chunks of the new content and the metadata file is as before,
  -- or it holds the table of the new content too.
  pub persist-Left :
      ZstdLaws z
      → (input : Bytes) (d : Disk) → Left input d (persist_logical_file z hash cfg path input d).1
  unfolding persist_logical_file
  persist-Left laws input d =
      let (chunks, made, holds) = compress_file_chunks-Encodes z laws input in
      let data_name = data_file z hash cfg path in
      let ma = meta-at z hash cfg path in
      let dt-at : Under (data_dir cfg) (tmp data_name) =
        tmp-Under (data_dir cfg) (data-at z hash cfg path) in
      rw made (
        Ends-always (Left input d) _ (
          Ends-then (λ _. Left input d) (Left input d)
            (λ _. Moved d (tmp data_name) data_name (concat chunks)) (Untouched d (tmp data_name))
            (save_data_atomic z hash cfg path chunks d) _ (save_data-Moved z hash cfg path chunks d)
            (λ _ d' moved. meta-Left input chunks d d' holds moved)
            (λ d' kept. as_before (kept.others data_name (str_eq_comm _ _ ∙ tmp_ne data_name)) (
              kept.others (meta_file z hash cfg path)
                (str_eq_comm _ _ ∙ meta_ne_data cfg ma dt-at)))))
