-- ===== src/FuseOps/Names.antt =====
-- src/fuse_ops.cpp: the callbacks that look at a file or at its name.
pub mod Reads
pub mod Creates
pub mod Unlinks
pub mod Renames
use Prim.Native.Nat.{bit_or}
use mathlib.Core.List.{map}
use crunch_fs.Base.{
  ℕ, zero, suc, ◌+◌, ◌-◌, ◌%◌, ◌^◌, min, max, Bool, true, false, not, ◌&&◌, List, [], ◌∷◌, ◌++◌,
  length, take, drop, Option, none, some, Str, str_eq, codes, leb, ltb, ◌==◌, if◌then◌else◌, Result,
  ok, err,
}
use crunch_fs.Base.Bytes.{Bytes, u64_mod}
use crunch_fs.Base.Int.{ℤ, pos, neg, to_int, enoent, eexist, eio}
use crunch_fs.Zstd.{Zstd}
use crunch_fs.Disk.{Disk}
use crunch_fs.Passthrough.Layout.{Config}
use crunch_fs.Passthrough.Index.{newline}
use crunch_fs.Numerals.{print}
use crunch_fs.MetaText.{FileMeta, default_meta}
use crunch_fs.MetaStore.{
  Index, find_id, hash_path, load, save, remove, index_add, index_remove, list_paths,
  accumulate_stats,
}
use crunch_fs.ChunkStore.{chunk_size, remove_chunks, chunk_disk_size}
use crunch_fs.FuseOps.{last_chunk, write_bytes, read_bytes, kept_chunks, shrink}
use crunch_fs.FuseOps.Mount.{
  Mount, Call, done, ◌>>=◌, ◌>>◌, store, plainly, changed, indexed, path_to_id, is_empty, norm,
  stats_vpath, Attributes, zeroed, directory, regular,
}
use crunch_fs.FuseOps.Calls.{saved}

-- `-EIO`, or the number of the bytes that were copied, with them.
abbrev pub given : Option Bytes → ℤ × Bytes
given none = (neg eio, [])
given (some b) = (to_int (length b), b)

abbrev pub name_of : Str → Str
name_of [] = []
name_of (c ∷ []) = c ∷ []
name_of (c ∷ c' ∷ lp) = if c == b'/' then c' ∷ lp else c ∷ c' ∷ lp

unfoldable pub cfs_open : Str → Call ℤ
cfs_open path =
    let p = norm path in
    if str_eq p stats_vpath
    then done (pos 0)
    else (do id ← path_to_id p; done (if is_empty id then neg enoent else pos 0))

-- The metadata of a new file.
abbrev pub new_meta : ℤ → Str → ℕ → FileMeta
new_meta now p mode = record {
  path_id = hash_path p;
  logical_path = p;
  logical_size = 0;
  compressed_size = 0;
  chunk_size = chunk_size;
  n_chunks = 0;
  atime = now;
  mtime = now;
  ctime = now;
  mode = mode % 512;
}

module _ (order : Index → Index) (ratio : ℕ → ℕ → Str) (cfg : Config) where
  unfoldable pub stats_content : Call Str
  stats_content = do
    (l, c) ← (λ (m : Mount). store (accumulate_stats order cfg m.index) m)
    done (
        codes "logical_bytes "
        ++ print 10 l
        ++ newline ∷ []
        ++ codes "compressed_bytes "
        ++ print 10 c
        ++ newline ∷ []
        ++ codes "ratio "
        ++ ratio l c
        ++ newline ∷ [])

  unfoldable pub cfs_getattr : Str → Call (ℤ × Attributes)
  cfs_getattr path =
      let p = norm path in
      if str_eq p (codes "/")
      then done (pos 0, record zeroed { mode = directory + 493; nlink = 2 })
      else if str_eq p stats_vpath
      then (do
        sc ← stats_content
        done (pos 0, record zeroed { mode = regular + 292; nlink = 1; size = length sc }))
      else (do
        id ← path_to_id p
        if is_empty id then done (neg enoent, zeroed) else (do
          (found, m) ← store (load cfg id default_meta)
          if found
              then done (
                pos 0,
                record {
                  mode = bit_or regular m.mode;
                  nlink = 1;
                  size = m.logical_size;
                  atime = m.atime;
                  mtime = m.mtime;
                  ctime = m.ctime;
                },
              )
              else done (neg enoent, zeroed)))

  unfoldable pub cfs_read : Zstd → Str → ℕ → ℕ → Call (ℤ × Bytes)
  cfs_read z path size offset =
      let p = norm path in
      if str_eq p stats_vpath
      then (do
        sc ← stats_content
        let n = min size (length sc - offset)
        done (if leb (length sc) offset then (pos 0, []) else (to_int n, take n (drop offset sc))))
      else (do
        id ← path_to_id p
        if is_empty id then done (neg enoent, []) else (do
          (found, m) ← store (load cfg id default_meta)
          if found
              then (if leb m.logical_size offset then done (pos 0, []) else (do
                got ← plainly (read_bytes z cfg id (min size (m.logical_size - offset)) offset)
                done (given got)))
              else done (neg enoent, [])))

module _ (order : Index → Index) (cfg : Config) where
  -- The result and the names that the filler gets; what the filler returns is not looked at.
  unfoldable pub cfs_readdir : Str → Call (ℤ × List Str)
  cfs_readdir path m =
      if str_eq (norm path) (codes "/")
      then done
          (
            pos 0,
            codes "."
                ∷ codes ".."
                ∷ codes ".cfs_stats"
                ∷ map name_of (list_paths order cfg m.index),
          )
          m
      else done (neg enoent, []) m

  unfoldable pub cfs_create : ℤ → Str → ℕ → Call ℤ
  cfs_create now path mode =
      let p = norm path in
      path_to_id p >>= λ old.
      if is_empty old
      then (do
        saved cfg (new_meta now p mode)
        indexed (index_add order cfg p (hash_path p))
        done (pos 0))
      else done (neg eexist)

  unfoldable pub cfs_unlink : Str → Call ℤ
  cfs_unlink path =
      let p = norm path in
      path_to_id p >>= λ id. if is_empty id then done (neg enoent) else (do
        (found, m) ← store (load cfg id default_meta)
        (if found then store (remove_chunks cfg id m.n_chunks) else done tt)
        _ ← store (remove cfg id)
        indexed (index_remove order cfg p)
        done (pos 0))

  -- What `cfs_rename` removes first, where `to` is a file.
  unfoldable pub replaced : Str → Call (Unit {0})
  replaced tp = path_to_id tp >>= λ eid. if is_empty eid then done tt else (do
    (found, em) ← store (load cfg eid default_meta)
    store (remove_chunks cfg eid em.n_chunks)
    _ ← store (remove cfg eid)
    indexed (index_remove order cfg tp))

  unfoldable pub cfs_rename : Str → Str → Call ℤ
  cfs_rename from to =
      let fp = norm from in
      let tp = norm to in
      path_to_id fp >>= λ oid. if is_empty oid then done (neg enoent) else (do
        replaced tp
        (found, m) ← store (load cfg oid default_meta)
        saved cfg (record m { logical_path = tp })
        indexed (index_remove order cfg fp)
        indexed (index_add order cfg tp oid)
        done (pos 0))
