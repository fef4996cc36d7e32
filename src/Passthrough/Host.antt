-- ===== src/Passthrough/Host.antt =====
-- The callbacks that pass a name on to the host, and what runs before the callbacks: the directories of
-- the backing store, and the arguments of `main`.
pub mod Startup
use crunch_fs.Base.{
  ℕ, ◌+◌, ◌-◌, ◌*◌, ◌/◌, ◌%◌, Bool, true, false, List, [], ◌∷◌, ◌++◌, Option, none, some, ◌⊎◌, inl,
  inr, if◌then◌else◌, ◌==◌, drop, Str, Result, ok, err, failed,
}
use crunch_fs.Base.Bytes.{Bytes, sub64}
use crunch_fs.Base.Int.{ℤ, pos, neg}
use crunch_fs.Disk.{Disk, Act, attempt, put, fail, content}
use crunch_fs.Passthrough.Path.{to_backing_path}
use crunch_fs.Passthrough.Layout.{Config, meta_dir, data_dir, index_path}

-- A system call of the host: 0 or `-errno`, and what it does to the backing store.
abbrev pub HostCall : Type 0
HostCall = Disk → ℤ × Disk

module _ (cfg : Config) where
  -- The link's text and the zero byte behind it go to `buf`.
  unfoldable pub cfs_readlink : (Str → ℕ → Disk → ℕ ⊎ Bytes) → Str → ℕ → Disk → ℤ × Bytes
  cfs_readlink readlink path size d =
      elim (readlink (to_backing_path cfg.backing_dir path) (sub64 size 1) d) [
        | inl errno ↦ (neg errno, [])
        | inr link ↦ (pos 0, link ++ 0 ∷ [])
      ]

  -- The kind of file in `mode`: 4096 is S_IFIFO and 15 * 4096 is S_IFMT.
  unfoldable pub cfs_mknod :
      (Str → ℕ → HostCall) → (Str → ℕ → ℕ → HostCall) → Str → ℕ → ℕ → HostCall
  cfs_mknod mkfifo mknod path mode rdev =
      let real = to_backing_path cfg.backing_dir path in
      if mode / 4096 % 16 == 1
      then mkfifo real (mode - 4096 * (mode / 4096 % 16))
      else mknod real mode rdev

  unfoldable pub cfs_mkdir : (Str → ℕ → HostCall) → Str → ℕ → HostCall
  cfs_mkdir mkdir path mode = mkdir (to_backing_path cfg.backing_dir path) mode

  unfoldable pub cfs_rmdir : (Str → HostCall) → Str → HostCall
  cfs_rmdir rmdir path = rmdir (to_backing_path cfg.backing_dir path)

  unfoldable pub cfs_symlink : (Str → Str → HostCall) → Str → Str → HostCall
  cfs_symlink symlink target linkpath = symlink target (to_backing_path cfg.backing_dir linkpath)

  unfoldable pub cfs_link : (Str → Str → HostCall) → Str → Str → HostCall
  cfs_link link from_path to_path =
      link (to_backing_path cfg.backing_dir from_path) (to_backing_path cfg.backing_dir to_path)

  -- `Vfs` is `struct statvfs`.
  unfoldable pub cfs_statfs : {Vfs : Type 0} → (Str → Disk → ℤ × Vfs) → Str → Disk → ℤ × Vfs
  cfs_statfs statvfs path d = statvfs (to_backing_path cfg.backing_dir path) d

  -- `std::ofstream touch(p, std::ios::app)` with its `good`
  touch : Str → Act (Unit {0})
  touch p = attempt (λ d. put p (some (content (d.files p))) d) fail

  touched : Result (Unit {0}) × Disk → Bool × Disk
  touched (ok u, d) = (true, d)
  touched (err e, d) = (false, d)

  -- `create_directories` tells whether it set no error.
  unfoldable pub ensure_storage_layout : (Str → Disk → Bool × Disk) → Disk → Bool × Disk
  unfolding touch touched
  ensure_storage_layout create_directories d =
      let (made_meta, d₁) = create_directories (meta_dir cfg) d in
      let (made_data, d₂) = create_directories (data_dir cfg) d₁ in
      if made_meta
      then (if made_data then touched (touch (index_path cfg) d₂) else (false, d₂))
      else (false, d₁)

-- `argv` without the backing store, as FUSE gets it.
unfoldable pub fuse_args : List Str → List Str
fuse_args [] = []
fuse_args (program ∷ args) = program ∷ drop 1 args

module _ (create_directories : Str → Disk → Bool × Disk) (realpath : Str → Option Str)
    (fuse_main : List Str → Config → Disk → ℕ × Disk) where
  mounted : List Str → Config → Bool × Disk → ℕ × Disk
  unfolding fuse_args
  mounted argv cfg (true, d) = fuse_main (fuse_args argv) cfg d
  mounted argv cfg (false, d) = (1, d)

  resolved : List Str → Option Str → Disk → ℕ × Disk
  unfolding mounted ensure_storage_layout
  resolved argv none d = (1, d)
  resolved argv (some backing) d =
      let cfg : Config = record { backing_dir = backing } in
      mounted argv cfg (ensure_storage_layout cfg create_directories d)

  -- Fewer than three arguments are refused.
  unfoldable pub main : List Str → Disk → ℕ × Disk
  unfolding resolved
  main (program ∷ backing ∷ mount ∷ options) d =
      resolved (program ∷ backing ∷ mount ∷ options) (realpath backing) d
  main argv d = (1, d)
