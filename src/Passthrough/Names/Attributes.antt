-- ===== src/Passthrough/Names/Attributes.antt =====
-- `cfs_getattr` of a logical file.
use crunch_fs.Base.{
  ℕ, ◌≡◌, ◌≤◌, refl, false, Bool, [], length, codes, Str, str_eq, ok, ◌⊎◌, inl, inr,
}
use crunch_fs.Base.Bytes.{Bytes}
use crunch_fs.Base.Int.{pos}
use crunch_fs.Zstd.{Zstd}
use crunch_fs.Disk.{Disk}
use crunch_fs.Passthrough.Path.{normalize_path, to_backing_path}
use crunch_fs.Passthrough.Layout.{Config, meta_path_for_fuse_path}
use crunch_fs.Passthrough.Meta.{FileMeta}
use crunch_fs.Passthrough.Files.Saved.{Saved, table}
use crunch_fs.Passthrough.Files.Table.{max_file}
use crunch_fs.Passthrough.Files.Loaded.{load_meta-Saved}
use crunch_fs.Passthrough.Names.{Stat, file_stat, cfs_getattr}

file_stat-fields :
    (z : Zstd) (hash : Str → ℕ) (cfg : Config) (uid gid : ℕ) (meta : FileMeta) (r : ℕ ⊎ Stat)
    → ((file_stat z hash cfg uid gid meta r).st_size ≡ meta.logical_size)
      × ((file_stat z hash cfg uid gid meta r).st_mode ≡ 33188)
unfolding file_stat
file_stat-fields z hash cfg uid gid meta (inl errno) = (refl, refl)
file_stat-fields z hash cfg uid gid meta (inr st) = (refl, refl)

module _ (z : Zstd) (hash : Str → ℕ) (cfg : Config) (lstat : Disk → Str → ℕ ⊎ Stat)
    (is_directory : Disk → Str → Bool) (uid gid : ℕ) where
  -- Where the disk meets no fault, `stat` of a saved file of up to 2^32 - 1 full chunks, whose path is
  -- neither "/" nor a directory of the host, shows a regular file with mode 0644 and the size of its content, whatever `lstat` says of its metadata file.
  pub cfs_getattr-Saved :
      (path normal : Str) (input : Bytes) (d : Disk)
      → normalize_path path ≡ normal
      → str_eq normal (codes "/") ≡ false
      → is_directory d (to_backing_path cfg.backing_dir path) ≡ false
      → d.faults ≡ []
      → length input ≤ max_file
      → Saved z hash cfg normal input d
      → (st : Stat) × (cfs_getattr z hash cfg lstat is_directory uid gid path d
          ≡ (ok (pos 0, st), d))
        × (st.st_size ≡ length input)
        × (st.st_mode ≡ 33188)
  unfolding cfs_getattr
  cfs_getattr-Saved path normal input d norm inside file calm fits s =
      let meta = table input s.chunks in
      let meta_st = lstat d (meta_path_for_fuse_path hash cfg normal) in
      let (size, mode) = file_stat-fields z hash cfg uid gid meta meta_st in
      (
        file_stat z hash cfg uid gid meta meta_st,
        rw (norm, inside, file, load_meta-Saved z hash cfg normal input d calm fits s) refl,
        size,
        mode,
      )
