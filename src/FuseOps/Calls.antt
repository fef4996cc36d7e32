-- ===== src/FuseOps/Calls.antt =====
-- src/fuse_ops.cpp: the callbacks that change a file. They are run one at a time, so that the locks are not part of the
-- state; the time and the print of the ratio, which is a floating point number, are parameters.
pub mod Files
pub mod Truncated
use Prim.Native.Nat.{bit_or}
use mathlib.Core.List.{map}
use crunch_fs.Base.{
  ℕ, zero, suc, ◌+◌, ◌-◌, ◌%◌, ◌^◌, min, max, Bool, true, false, not, ◌&&◌, List, [], ◌∷◌, ◌++◌,
  length, take, drop, Option, none, some, Str, str_eq, codes, leb, ltb, ◌==◌, if◌then◌else◌, Result,
  ok, err,
}
use crunch_fs.Base.Bytes.{Bytes, u64_mod}
use crunch_fs.Base.Int.{ℤ, pos, neg, to_int, enoent, eexist, eio}
use crunch_fs.Zstd.{Zstd}
use crunch_fs.Disk.{Disk}
use crunch_fs.Passthrough.Layout.{Config}
use crunch_fs.Passthrough.Index.{newline}
use crunch_fs.Numerals.{print}
use crunch_fs.MetaText.{FileMeta, default_meta}
use crunch_fs.MetaStore.{
  Index, find_id, hash_path, load, save, remove, index_add, index_remove, list_paths,
  accumulate_stats,
}
use crunch_fs.ChunkStore.{chunk_size, remove_chunks, chunk_disk_size}
use crunch_fs.FuseOps.{last_chunk, write_bytes, read_bytes, kept_chunks, shrink}
use crunch_fs.FuseOps.Mount.{
  Mount, Call, done, ◌>>=◌, ◌>>◌, store, plainly, changed, indexed, path_to_id, is_empty, norm,
  stats_vpath, Attributes, zeroed, directory, regular,
}

module _ (cfg : Config) where
  -- The part that the callbacks of a file begin with: its id and its metadata, or `-ENOENT`.
  unfoldable pub loaded : Str → (Str → FileMeta → Call ℤ) → Call ℤ
  loaded p f = do
    id ← path_to_id p
    if is_empty id then done (neg enoent) else (do
      (found, m) ← store (load cfg id default_meta)
      if found then f id m else done (neg enoent))

  -- `m.compressed_size`: `k` chunks from `i` on.
  unfoldable pub add_sizes : Str → ℕ → ℕ → ℕ → Call ℕ
  add_sizes id zero i sum = done sum
  add_sizes id (suc k) i sum = do
    n ← plainly (chunk_disk_size cfg id i)
    add_sizes id k (suc i) ((sum + n) % u64_mod)

  unfoldable pub saved : FileMeta → Call (Unit {0})
  saved m = do _ ← plainly (save cfg m); done tt

  unfoldable pub cfs_write : Zstd → ℤ → Str → Bytes → ℕ → Call ℤ
  cfs_write z now path buf offset =
      let size = length buf in
      let lc = last_chunk offset size in
      if size == 0
      then done (pos 0)
      else loaded (norm path) λ id m. do
        changed (write_bytes z cfg id m.n_chunks offset buf)
        let n_chunks = max m.n_chunks ((lc + 1) % u64_mod)
        sum ← add_sizes id n_chunks 0 0
        saved (record m {
          n_chunks = n_chunks;
          logical_size = max m.logical_size ((offset + size) % u64_mod);
          compressed_size = sum;
          mtime = now;
          ctime = now;
        })
        done (to_int size)

  unfoldable pub cfs_truncate : ℤ → Str → ℕ → Call ℤ
  cfs_truncate now path nsz = loaded (norm path) λ id m.
      if nsz == 0
      then (do
        store (remove_chunks cfg id m.n_chunks)
        saved (record m {
          n_chunks = 0;
          logical_size = 0;
          compressed_size = 0;
          mtime = now;
          ctime = now;
        })
        done (pos 0))
      else if ltb nsz m.logical_size
      then (do
        store (shrink cfg id m.n_chunks nsz)
        sum ← add_sizes id (kept_chunks nsz) 0 0
        saved (record m {
          n_chunks = kept_chunks nsz;
          logical_size = nsz;
          compressed_size = sum;
          mtime = now;
          ctime = now;
        })
        done (pos 0))
      else (do saved (record m { logical_size = nsz; mtime = now; ctime = now }); done (pos 0))

  unfoldable pub cfs_utimens : ℤ → ℤ → Str → Call ℤ
  cfs_utimens atime mtime path =
      loaded (norm path) λ id m. do saved (record m { atime = atime; mtime = mtime }); done (pos 0)

  -- `mode & 0777`
  unfoldable pub cfs_chmod : Str → ℕ → Call ℤ
  cfs_chmod path mode =
      loaded (norm path) λ id m. do saved (record m { mode = mode % 512 }); done (pos 0)
