-- ===== src/Passthrough/Handles/Truncate.antt =====
-- `cfs_truncate` without a handle.
use crunch_fs.Base.{ℕ, ◌≡◌, ◌≤◌, refl, [], length, Str, ok}
use crunch_fs.Base.Bytes.{Bytes}
use crunch_fs.Base.Int.{ℤ, pos}
use crunch_fs.Base.Buffer.{resize}
use crunch_fs.Zstd.{Zstd, ZstdLaws}
use crunch_fs.Disk.{Disk}
use crunch_fs.Disk.Ends.{Ends-both}
use crunch_fs.Disk.OnlyAt.{OnlyAt}
use crunch_fs.Passthrough.Path.{normalize_path}
use crunch_fs.Passthrough.Layout.{Config}
use crunch_fs.Passthrough.Files.{persist_logical_file}
use crunch_fs.Passthrough.Files.Saved.{Saved, path_files, persist-Saved}
use crunch_fs.Passthrough.Files.Table.{max_file}
use crunch_fs.Passthrough.Files.Loaded.{load-Saved, exists-Saved}
use crunch_fs.Passthrough.Files.Persist.{persist-Succeeds}
use crunch_fs.Passthrough.Handles.{Process, cfs_truncate}

module _ (z : Zstd) (hash : Str → ℕ) (cfg : Config) where
  -- Where the disk meets no fault, a truncate by its path of a saved file of up to 2^32 - 1 full chunks
  -- returns 0 and saves its content, cut or filled with zeros to the new size; no handle has changed, and no file but those of the
  -- path, those of the index, and their `.tmp` files.
  pub cfs_truncate-Saved :
      ZstdLaws z
      → (native_truncate : Str → ℕ → Disk → ℤ × Disk) (path normal : Str) (size : ℕ) (input : Bytes)
        (p : Process)
      → normalize_path path ≡ normal
      → p.disk.faults ≡ []
      → length input ≤ max_file
      → Saved z hash cfg normal input p.disk
      → (p' : Process) × (cfs_truncate z hash cfg native_truncate path (pos size) 0 p
          ≡ (ok (pos 0), p'))
        × Saved z hash cfg normal (resize size input) p'.disk
        × OnlyAt (path_files z hash cfg normal) p.disk p'.disk
        × (p'.handles ≡ p.handles)
  unfolding cfs_truncate
  cfs_truncate-Saved laws native_truncate path normal size input p norm calm fits s =
      let (_, d, saved, _, (s', near)) =
        Ends-both _ _ _ (persist_logical_file z hash cfg normal (resize size input) p.disk)
          (persist-Succeeds z hash cfg normal laws (resize size input) p.disk calm)
          (persist-Saved z hash cfg normal laws (resize size input) p.disk) in
      (
        record p { disk = d },
        rw
            (
              norm,
              exists-Saved z hash cfg normal input p.disk s,
              load-Saved z hash cfg normal input p.disk calm fits s,
              saved,
            )
            refl,
        s',
        near,
        refl,
      )
