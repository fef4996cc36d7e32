-- ===== src/FuseOps/Volume/Absent.antt =====
-- The callbacks for a path that is no file of the tree, and `cfs_create` for one that is.
use crunch_fs.Base.{ℕ, ◌≤◌, ◌≡◌, refl, true, false, none, some, length, Str, ok, ◌==◌, arith}
use crunch_fs.Base.Bytes.{Bytes}
use crunch_fs.Base.Int.{ℤ, pos, neg, enoent, eexist}
use crunch_fs.Zstd.{Zstd}
use crunch_fs.Passthrough.Layout.{Config}
use crunch_fs.MetaStore.{Index}
use crunch_fs.FuseOps.Mount.{Mount, norm}
use crunch_fs.FuseOps.Calls.{loaded, cfs_write, cfs_truncate, cfs_utimens, cfs_chmod}
use crunch_fs.FuseOps.Names.{cfs_create, cfs_unlink, cfs_rename}
use crunch_fs.FuseOps.Volume.{Node, Tree, Shows}

module _ (order : Index → Index) (z : Zstd) (cfg : Config) (t : Tree) (m : Mount)
    (s : Shows z cfg t m) (path : Str) where
  pub cfs_write_nothing :
      (now : ℤ) (buf : Bytes) (offset : ℕ)
      → (length buf == 0) ≡ true
      → cfs_write cfg z now path buf offset m ≡ (ok (pos 0), m)
  unfolding cfs_write
  cfs_write_nothing now buf offset nothing = rw nothing refl

  module _ (absent : t (norm path) ≡ none) where
    pub cfs_write_absent :
        (now : ℤ) (buf : Bytes) (offset : ℕ)
        → 1 ≤ length buf
        → cfs_write cfg z now path buf offset m ≡ (ok (neg enoent), m)
    unfolding cfs_write loaded
    cfs_write_absent now buf offset some_bytes =
        let not_empty : (length buf == 0) ≡ false = ground arith in
        rw (not_empty, s.absent (norm path) absent) refl

    pub cfs_truncate_absent :
        (now : ℤ) (nsz : ℕ) → cfs_truncate cfg now path nsz m ≡ (ok (neg enoent), m)
    unfolding cfs_truncate loaded
    cfs_truncate_absent now nsz = rw (s.absent (norm path) absent) refl

    pub cfs_utimens_absent :
        (atime mtime : ℤ) → cfs_utimens cfg atime mtime path m ≡ (ok (neg enoent), m)
    unfolding cfs_utimens loaded
    cfs_utimens_absent atime mtime = rw (s.absent (norm path) absent) refl

    pub cfs_chmod_absent : (mode : ℕ) → cfs_chmod cfg path mode m ≡ (ok (neg enoent), m)
    unfolding cfs_chmod loaded
    cfs_chmod_absent mode = rw (s.absent (norm path) absent) refl

    pub cfs_unlink_absent : cfs_unlink order cfg path m ≡ (ok (neg enoent), m)
    unfolding cfs_unlink
    cfs_unlink_absent = rw (s.absent (norm path) absent) refl

    pub cfs_rename_absent : (to : Str) → cfs_rename order cfg path to m ≡ (ok (neg enoent), m)
    unfolding cfs_rename
    cfs_rename_absent to = rw (s.absent (norm path) absent) refl

  pub cfs_create_exists :
      (n : Node)
      → t (norm path) ≡ some n
      → (now : ℤ) (mode : ℕ) → cfs_create order cfg now path mode m ≡ (ok (neg eexist), m)
  unfolding cfs_create
  cfs_create_exists n there now mode =
      let f = (s.shown (norm path) n there).file in rw (f.found, f.named) refl
