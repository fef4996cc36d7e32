-- ===== src/Passthrough/Names/Renamed.antt =====
-- What a rename leaves: the files of the two paths, and the index.
use crunch_fs.Base.{ℕ, List, ◌≡◌, ◌∙◌, none, some, [], ◌∷◌, Str, ok}
use crunch_fs.Base.Bytes.{Bytes}
use crunch_fs.Zstd.{Zstd}
use crunch_fs.Disk.{Disk, update}
use crunch_fs.Disk.Ends.{Ends-both}
use crunch_fs.Disk.OnlyAt.{OnlyAt}
use crunch_fs.Passthrough.Layout.{Config, index_path}
use crunch_fs.Passthrough.Layout.Apart.{Under-self, tmp-Under, index_ne_meta, index_ne_data}
use crunch_fs.Passthrough.Index.{add_index_entry, remove_index_entry}
use crunch_fs.Passthrough.Index.Kept.{index_files, add_index_entry-Keeps, remove_index_entry-Keeps}
use crunch_fs.Passthrough.Index.Calm.{add_index_entry-Succeeds, remove_index_entry-Succeeds}
use crunch_fs.Passthrough.Files.Saved.{Saved, meta_file, data_file, meta-at, data-at}
use crunch_fs.Passthrough.Names.Unlink.{Gone}

module _ (z : Zstd) (hash : Str → ℕ) (cfg : Config) (p q : Str) where
  -- The files of `q` hold the content, and those of `p` are gone.
  pub record Renamed (input : Bytes) (d : Disk) : Type 0 where
    pub there : Saved z hash cfg q input d
    pub gone : Gone z hash cfg p d

  -- The index is no part of it.
  pub Renamed-index :
      (input : Bytes) (d d' : Disk)
      → OnlyAt (index_files cfg) d d'
      → Renamed input d
      → Renamed input d'
  Renamed-index input d d' kept r =
      let ip = Under-self (index_path cfg) in
      let it = tmp-Under (index_path cfg) ip in
      let meta = λ (x : Str). kept.others (meta_file z hash cfg x) (
        index_ne_meta cfg ip (meta-at z hash cfg x),
        (index_ne_meta cfg it (meta-at z hash cfg x), tt),
      ) in
      let data_ = λ (x : Str). kept.others (data_file z hash cfg x) (
        index_ne_data cfg ip (data-at z hash cfg x),
        (index_ne_data cfg it (data-at z hash cfg x), tt),
      ) in
      record {
        there = record {
          chunks = r.there.chunks;
          encoded = r.there.encoded;
          blobs = data_ q ∙ r.there.blobs;
          header = meta q ∙ r.there.header;
        };
        gone = record { header = meta p ∙ r.gone.header; blobs = data_ p ∙ r.gone.blobs };
      }

  -- The disk behind the two renames.
  abbrev pub moved : Bytes → Bytes → Disk → Disk
  moved header blobs d = record d {
    files =
        update
          (update
            (update (update d.files (meta_file z hash cfg p) none) (meta_file z hash cfg q)
              (some header))
            (data_file z hash cfg p) none)
          (data_file z hash cfg q) (some blobs);
  }

  -- The files that a rename may change.
  abbrev pub rename_files : List Str
  rename_files =
      data_file z hash cfg p
      ∷ meta_file z hash cfg p
      ∷ data_file z hash cfg q
      ∷ meta_file z hash cfg q
      ∷ index_files cfg

  -- Behind the two renames: the index follows.
  pub index-Renamed :
      (input : Bytes) (d₀ d : Disk)
      → d.faults ≡ []
      → Renamed input d
      → OnlyAt rename_files d₀ d
      → (d' : Disk) × (d₃ : Disk) × (remove_index_entry cfg p d ≡ (ok tt, d₃))
        × (add_index_entry cfg q d₃ ≡ (ok tt, d'))
        × (d'.faults ≡ [])
        × Renamed input d'
        × OnlyAt rename_files d₀ d'
  index-Renamed input d₀ d calm r near =
      let (_, d₃, e₃, calm₃, k₃) =
        Ends-both _ _ _ (remove_index_entry cfg p d) (remove_index_entry-Succeeds cfg p d calm)
          (remove_index_entry-Keeps cfg p d) in
      let (_, d', e', calm', k') =
        Ends-both _ _ _ (add_index_entry cfg q d₃) (add_index_entry-Succeeds cfg q d₃ calm₃)
          (add_index_entry-Keeps cfg q d₃) in
      (
        d',
        d₃,
        e₃,
        e',
        calm',
        Renamed-index input d₃ d' k' (Renamed-index input d d₃ k₃ r),
        record {
          others = λ f (a, (b, (c, (e, i)))).
              k'.others f i ∙ k₃.others f i ∙ near.others f (a, (b, (c, (e, i))));
        },
      )
