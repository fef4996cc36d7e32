-- ===== src/Passthrough/Names.antt =====
-- The callbacks that take a path: attributes, removal and renaming. Where a path names no logical file
-- they pass a name of the backing store on to the host.
pub mod Unlink
pub mod Cleared
pub mod Renamed
pub mod Rename
pub mod Attributes
use crunch_fs.Base.{
  ℕ, ◌+◌, Bool, true, false, ◌||◌, ◌⊎◌, inl, inr, codes, if◌then◌else◌, ◌==◌, Str, str_eq, Result,
  ok, err, failed, Option, none, some,
}
use crunch_fs.Base.Bytes.{Bytes}
use crunch_fs.Base.Int.{ℤ, pos, negsuc, neg, eio, einval}
use crunch_fs.Zstd.{Zstd}
use crunch_fs.Disk.{Disk, remove, rename}
use crunch_fs.Passthrough.Path.{normalize_path, to_backing_path}
use crunch_fs.Passthrough.Layout.{Config, meta_path_for_fuse_path, data_path_for_fuse_path}
use crunch_fs.Passthrough.Meta.{FileMeta}
use crunch_fs.Passthrough.Index.{add_index_entry, remove_index_entry}
use crunch_fs.Passthrough.Files.{logical_file_exists, load_meta}

-- What a callback returns, with the disk that it leaves.
abbrev pub Reply : Type 0
Reply = Disk → Result ℤ × Disk

-- `if (!step) return rc;`
unfoldable pub or_return : Result (Unit {0}) × Disk → ℤ → Reply → Result ℤ × Disk
or_return (ok u, d) rc rest = rest d
or_return (err failed, d) rc rest = (ok rc, d)
or_return (err e, d) rc rest = (err e, d)

abbrev pub return_ : ℤ → Reply
return_ rc d = (ok rc, d)

-- A system call of the host: 0 or `-errno`, and what it does to the backing store.
host_call : ℤ × Disk → Result ℤ × Disk
host_call (rc, d) = (ok rc, d)

-- `struct stat`, with its times as numbers
pub record Stat : Type 0 where
  pub st_mode : ℕ
  pub st_nlink : ℕ
  pub st_size : ℕ
  pub st_uid : ℕ
  pub st_gid : ℕ
  pub st_atim : ℕ
  pub st_mtim : ℕ
  pub st_ctim : ℕ
  pub st_blksize : ℕ
  pub st_blocks : ℕ

abbrev pub zero_stat : Stat
zero_stat = record {
  st_mode = 0;
  st_nlink = 0;
  st_size = 0;
  st_uid = 0;
  st_gid = 0;
  st_atim = 0;
  st_mtim = 0;
  st_ctim = 0;
  st_blksize = 0;
  st_blocks = 0;
}

-- S_IFREG
abbrev pub regular : ℕ
regular = 32768

module _ (z : Zstd) (hash : Str → ℕ) (cfg : Config) where
  -- The two removals with their tests of `ec`, as `cfs_unlink` and `cfs_rename` have them.
  unfoldable pub remove_files : Str → Reply → Reply
  remove_files path rest d =
      or_return (remove (meta_path_for_fuse_path hash cfg path) d) (neg eio)
        λ d₁. or_return (remove (data_path_for_fuse_path hash cfg path) d₁) (neg eio) rest

  unfoldable pub cfs_unlink : (Str → Disk → ℤ × Disk) → Str → Reply
  unfolding remove_files host_call
  cfs_unlink unlink path d =
      let normalized = normalize_path path in
      let drop_entry : Reply =
        λ d₂. or_return (remove_index_entry cfg normalized d₂) (neg eio) (return_ (pos 0)) in
      if logical_file_exists z hash cfg normalized d
      then remove_files normalized drop_entry d
      else host_call (unlink (to_backing_path cfg.backing_dir path) d)

  -- `errno` is what a failed rename(2) leaves in it.
  unfoldable pub move_files : ℕ → Str → Str → Reply
  move_files errno from_norm to_norm d =
      or_return
        (rename (meta_path_for_fuse_path hash cfg from_norm)
          (meta_path_for_fuse_path hash cfg to_norm) d)
        (neg errno)
        λ d₁.
          or_return
            (rename (data_path_for_fuse_path hash cfg from_norm)
              (data_path_for_fuse_path hash cfg to_norm) d₁)
            (neg errno)
            λ d₂.
              or_return (remove_index_entry cfg from_norm d₂) (neg eio)
                λ d₃. or_return (add_index_entry cfg to_norm d₃) (neg eio) (return_ (pos 0))

  unfoldable pub cfs_rename : (Str → Str → Disk → ℤ × Disk) → ℕ → Str → Str → ℕ → Reply
  unfolding remove_files move_files host_call
  cfs_rename native_rename errno from_path to_path flags d =
      let from_norm = normalize_path from_path in
      let to_norm = normalize_path to_path in
      if flags == 0
      then (if logical_file_exists z hash cfg from_norm d
          then (if logical_file_exists z hash cfg to_norm d
              then remove_files to_norm (move_files errno from_norm to_norm) d
              else move_files errno from_norm to_norm d)
          else host_call (
              native_rename (to_backing_path cfg.backing_dir from_path)
                (to_backing_path cfg.backing_dir to_path) d))
      else (ok (neg einval), d)

  -- `st_mode` to `st_gid` of a logical file; the times and blocks are those of its metadata file.
  file_stat : ℕ → ℕ → FileMeta → ℕ ⊎ Stat → Stat
  file_stat uid gid meta (inl errno) = record zero_stat {
    st_mode = regular + 420;
    st_nlink = 1;
    st_size = meta.logical_size;
    st_uid = uid;
    st_gid = gid;
  }
  file_stat uid gid meta (inr meta_st) = record meta_st {
    st_mode = regular + 420;
    st_nlink = 1;
    st_size = meta.logical_size;
    st_uid = uid;
    st_gid = gid;
  }

  -- `if (lstat(…) == -1) return -errno; return 0;`
  lstat_reply : ℕ ⊎ Stat → Disk → Result (ℤ × Stat) × Disk
  lstat_reply (inl errno) d = (ok (neg errno, zero_stat), d)
  lstat_reply (inr st) d = (ok (pos 0, st), d)

  -- `lstat` and `is_directory` are calls of the host, and so are `uid` and `gid`.
  module _ (lstat : Disk → Str → ℕ ⊎ Stat) (is_directory : Disk → Str → Bool) (uid gid : ℕ) where
    meta_reply : Str → Str → Result FileMeta × Disk → Result (ℤ × Stat) × Disk
    unfolding file_stat lstat_reply
    meta_reply normalized real (ok meta, d) =
        let meta_st = lstat d (meta_path_for_fuse_path hash cfg normalized) in
        (ok (pos 0, file_stat uid gid meta meta_st), d)
    meta_reply normalized real (err failed, d) = lstat_reply (lstat d real) d
    meta_reply normalized real (err e, d) = (err e, d)

    unfoldable pub cfs_getattr : Str → Disk → Result (ℤ × Stat) × Disk
    unfolding meta_reply lstat_reply
    cfs_getattr path d =
        let normalized = normalize_path path in
        let real = to_backing_path cfg.backing_dir path in
        if str_eq normalized (codes "/") || is_directory d real
        then lstat_reply (lstat d real) d
        else meta_reply normalized real (load_meta z hash cfg normalized d)

  -- Permissions and owners of a logical file are not kept: a change of them does nothing.
  unfoldable pub cfs_chmod : (Str → ℕ → Disk → ℤ × Disk) → Str → ℕ → Reply
  unfolding host_call
  cfs_chmod chmod path mode d =
      if logical_file_exists z hash cfg (normalize_path path) d
      then (ok (pos 0), d)
      else host_call (chmod (to_backing_path cfg.backing_dir path) mode d)

  unfoldable pub cfs_chown : (Str → ℕ → ℕ → Disk → ℤ × Disk) → Str → ℕ → ℕ → Reply
  unfolding host_call
  cfs_chown lchown path uid gid d =
      if logical_file_exists z hash cfg (normalize_path path) d
      then (ok (pos 0), d)
      else host_call (lchown (to_backing_path cfg.backing_dir path) uid gid d)

  -- The second file is reached where the first call has returned 0.
  then_data : (Disk → ℤ × Disk) → ℤ × Disk → Result ℤ × Disk
  unfolding host_call
  then_data f (pos n, d) = host_call (f d)
  then_data f (negsuc n, d) = (ok (negsuc n), d)

  -- `tv` is the pair of times, and 256 is AT_SYMLINK_NOFOLLOW.
  unfoldable pub cfs_utimens : (Str → ℕ × ℕ → ℕ → Disk → ℤ × Disk) → Str → ℕ × ℕ → Reply
  unfolding then_data host_call
  cfs_utimens utimensat path tv d =
      let normalized = normalize_path path in
      if logical_file_exists z hash cfg normalized d
      then then_data (utimensat (data_path_for_fuse_path hash cfg normalized) tv 0)
          (utimensat (meta_path_for_fuse_path hash cfg normalized) tv 0 d)
      else host_call (utimensat (to_backing_path cfg.backing_dir path) tv 256 d)

  unfoldable pub cfs_access : (Str → ℕ → Disk → ℤ) → Str → ℕ → Reply
  cfs_access faccessat path mask d =
      let normalized = normalize_path path in
      if str_eq normalized (codes "/")
      then (ok (pos 0), d)
      else if logical_file_exists z hash cfg normalized d
      then (ok (pos 0), d)
      else (ok (faccessat (to_backing_path cfg.backing_dir path) mask d), d)
