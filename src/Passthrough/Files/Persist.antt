-- ===== src/Passthrough/Files/Persist.antt =====
-- `persist_logical_file` as a whole: it succeeds where the disk does, what it saved is loaded, and
-- the files of other paths are left alone.
use crunch_fs.Base.{ℕ, ◌≡◌, ◌≤◌, List, [], length, Str, ok}
use crunch_fs.Base.Bytes.{Bytes}
use crunch_fs.Zstd.{Zstd, ZstdLaws}
use crunch_fs.Compresslib.Chunks.{compress_file_chunks-Encodes}
use crunch_fs.Disk.{Disk}
use crunch_fs.Disk.Ends.{Ends-then, Ends-both}
use crunch_fs.Disk.OnlyAt.{OnlyAt}
use crunch_fs.Disk.Calm.{Succeeds, replace-Succeeds}
use crunch_fs.Passthrough.Layout.{Config}
use crunch_fs.Passthrough.Meta.{FileMeta, meta_fields}
use crunch_fs.Passthrough.Index.Calm.{add_index_entry-Succeeds}
use crunch_fs.Passthrough.Files.{
  save_meta_atomic, save_data_atomic, persist_logical_file, load_logical_file,
}
use crunch_fs.Passthrough.Files.Saved.{table, path_files, persist-Saved}
use crunch_fs.Passthrough.Files.Loaded.{load-Saved}
use crunch_fs.Passthrough.Files.Table.{max_file}

module _ (z : Zstd) (hash : Str → ℕ) (cfg : Config) (path : Str) where
  save_data-Succeeds :
      (chunks : List Bytes) (d : Disk)
      → d.faults ≡ []
      → Succeeds (save_data_atomic z hash cfg path chunks d)
  unfolding save_data_atomic
  save_data-Succeeds chunks d calm = replace-Succeeds _ _ chunks d calm

  save_meta-Succeeds :
      (meta : FileMeta) (d : Disk)
      → d.faults ≡ []
      → Succeeds (save_meta_atomic z hash cfg path meta d)
  unfolding save_meta_atomic
  save_meta-Succeeds meta d calm = replace-Succeeds _ _ (meta_fields meta) d calm

  pub persist-Succeeds :
      ZstdLaws z
      → (input : Bytes) (d : Disk) → d.faults ≡ []
      → Succeeds (persist_logical_file z hash cfg path input d)
  unfolding persist_logical_file
  persist-Succeeds laws input d calm =
      let (chunks, made, holds) = compress_file_chunks-Encodes z laws input in
      rw made (
        Ends-then _ _ _ _ (save_data_atomic z hash cfg path chunks d) _
          (save_data-Succeeds chunks d calm)
          (λ _ d₁ c₁.
            Ends-then _ _ _ _ (save_meta_atomic z hash cfg path (table input chunks) d₁) _
              (save_meta-Succeeds (table input chunks) d₁ c₁)
              (λ _ d₂ c₂. add_index_entry-Succeeds cfg path d₂ c₂) (λ d₂ k. k))
          (λ d₁ k. k))

  -- With no faults to come, a file of up to 2^32 - 1 full chunks is saved and loaded back as it was, and
  -- no file of the backing store has changed but those of the path, those of the index, and their
  -- `.tmp` files.
  pub load-persist :
      ZstdLaws z
      → (input : Bytes) (d : Disk) → d.faults ≡ []
      → length input ≤ max_file
      → (d' : Disk) × (persist_logical_file z hash cfg path input d ≡ (ok tt, d'))
        × (load_logical_file z hash cfg path d' ≡ (ok input, d'))
        × OnlyAt (path_files z hash cfg path) d d'
  load-persist laws input d calm fits =
      let (_, d', done, calm', (saved, near)) =
        Ends-both _ _ _ (persist_logical_file z hash cfg path input d)
          (persist-Succeeds laws input d calm) (persist-Saved z hash cfg path laws input d) in
      (d', done, load-Saved z hash cfg path input d' calm' fits saved, near)
