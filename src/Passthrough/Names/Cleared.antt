-- ===== src/Passthrough/Names/Cleared.antt =====
-- The removals of `cfs_rename` where the disk meets no fault, and a rename of a file onto itself.
use crunch_fs.Base.{
  ℕ, ◌≡◌, refl, ◌∙◌, false, true, none, some, [], Str, str_eq, str_eq_refl, str_eq_comm, ok, err,
  failed,
}
use crunch_fs.Base.Bytes.{Bytes}
use crunch_fs.Base.Int.{ℤ, neg}
use crunch_fs.Zstd.{Zstd}
use crunch_fs.Disk.{Disk, remove, rename, update}
use crunch_fs.Disk.Calm.{attempt-calm}
use crunch_fs.Passthrough.Path.{normalize_path}
use crunch_fs.Passthrough.Layout.{Config}
use crunch_fs.Passthrough.Layout.Apart.{meta_ne_data}
use crunch_fs.Passthrough.Files.{logical_file_exists}
use crunch_fs.Passthrough.Files.Saved.{meta_file, data_file, meta-at, data-at}
use crunch_fs.Passthrough.Names.{Reply, or_return, remove_files, move_files, cfs_rename}
use crunch_fs.Passthrough.Names.Unlink.{Gone}

pub remove-calm :
    (p : Str) (d : Disk)
    → d.faults ≡ []
    → remove p d ≡ (ok tt, record d { files = update d.files p none })
unfolding remove
remove-calm p d calm = attempt-calm _ _ d calm

pub rename-calm :
    (src dst : Str) (b : Bytes) (d : Disk)
    → d.faults ≡ []
    → d.files src ≡ some b
    → rename src dst d ≡ (ok tt, record d { files = update (update d.files src none) dst (some b) })
unfolding rename
rename-calm src dst b d calm there = rw (attempt-calm _ _ d calm) (rw there refl)

rename_missing :
    (src dst : Str) (d : Disk)
    → d.faults ≡ []
    → d.files src ≡ none
    → rename src dst d ≡ (err failed, d)
unfolding rename
rename_missing src dst d calm missing = rw (attempt-calm _ _ d calm) (rw missing refl)

module _ (z : Zstd) (hash : Str → ℕ) (cfg : Config) (q : Str) where
  -- The disk behind `remove_files q`.
  abbrev pub cleared : Disk → Disk
  cleared d = record d {
    files = update (update d.files (meta_file z hash cfg q) none) (data_file z hash cfg q) none;
  }

  pub remove_files-cleared :
      (d : Disk) (rest : Reply)
      → d.faults ≡ []
      → remove_files z hash cfg q rest d ≡ rest (cleared d)
  unfolding remove_files or_return
  remove_files-cleared d rest calm =
      let d₁ : Disk = record d { files = update d.files (meta_file z hash cfg q) none } in
      rw (remove-calm (meta_file z hash cfg q) d calm, remove-calm (data_file z hash cfg q) d₁ calm)
        refl

  cleared-Gone : (d : Disk) → Gone z hash cfg q (cleared d)
  cleared-Gone d =
      let dm : str_eq (data_file z hash cfg q) (meta_file z hash cfg q) ≡ false =
        str_eq_comm _ _ ∙ meta_ne_data cfg (meta-at z hash cfg q) (data-at z hash cfg q) in
      record {
        header = rw (dm, str_eq_refl (meta_file z hash cfg q)) refl;
        blobs = rw (str_eq_refl (data_file z hash cfg q)) refl;
      }

  -- Where the disk meets no fault, a rename of a logical file to a spelling of its own path removes its
  -- files and returns the negative of `errno`.
  pub cfs_rename_self :
      (native_rename : Str → Str → Disk → ℤ × Disk) (errno : ℕ) (from_path to_path : Str) (d : Disk)
      → normalize_path from_path ≡ q
      → normalize_path to_path ≡ q
      → d.faults ≡ []
      → logical_file_exists z hash cfg q d ≡ true
      → (d' : Disk) × (cfs_rename z hash cfg native_rename errno from_path to_path 0 d
          ≡ (ok (neg errno), d'))
        × Gone z hash cfg q d'
  unfolding cfs_rename move_files or_return
  cfs_rename_self native_rename errno from_path to_path d np nq calm there =
      let missing =
        rename_missing (meta_file z hash cfg q) (meta_file z hash cfg q) (cleared d) calm
          (cleared-Gone d).header in
      (
        cleared d,
        rw (np, nq, there, remove_files-cleared d (move_files z hash cfg errno q q) calm, missing)
            refl,
        cleared-Gone d,
      )
