-- ===== src/FuseOps.antt =====
-- src/fuse_ops.cpp: the bytes of a file in chunks.
pub mod Placed
pub mod Merge
pub mod Stored
pub mod Writing
pub mod Reading
pub mod Shrinking
pub mod Mount
pub mod Calls
pub mod Names
pub mod Touches
pub mod Session
pub mod Locks
pub mod Volume
use crunch_fs.Base.{
  ℕ, zero, suc, ◌+◌, ◌-◌, ◌*◌, ◌/◌, ◌%◌, min, max, Bool, true, false, List, [], ◌∷◌, ◌++◌, length,
  take, drop, Option, none, some, Str, replicate, leb, ltb, ◌==◌, if◌then◌else◌,
}
use crunch_fs.Base.Bytes.{Bytes, u64_mod, sub64}
use crunch_fs.Base.Buffer.{overwrite}
use crunch_fs.Zstd.{Zstd}
use crunch_fs.Disk.{Disk, Act}
use crunch_fs.Passthrough.Layout.{Config}
use crunch_fs.ChunkStore.{chunk_size, write_chunk, read_chunk, remove_from, chunk_disk_size}

-- `cs`, `ws`, `bo`, `we` and `tc` of the loop in `cfs_write`, for chunk `ci` of a write of `size` bytes
-- at `offset`.
abbrev pub chunk_start : ℕ → ℕ
chunk_start ci = ci * chunk_size

abbrev pub write_start : ℕ → ℕ → ℕ
write_start offset ci = if ci == offset / chunk_size then offset - chunk_start ci else 0

abbrev pub buffer_start : ℕ → ℕ → ℕ
buffer_start offset ci =
    if ci == offset / chunk_size
    then 0
    else (ci - offset / chunk_size) * chunk_size - offset % chunk_size

abbrev pub write_end : ℕ → ℕ → ℕ → ℕ
write_end offset size ci = min chunk_size (sub64 ((offset + size) % u64_mod) (chunk_start ci))

abbrev pub copy_size : ℕ → ℕ → ℕ → ℕ
copy_size offset size ci =
    let tc = write_end offset size ci - write_start offset ci in
    let bo = buffer_start offset ci in if ltb size (bo + tc) then size - bo else tc

-- `existing` before the copy from `buf`: `old` is what `read_chunk` gave.
unfoldable pub existing_bytes : Bytes → Bytes
existing_bytes old = overwrite (replicate chunk_size 0) 0 (take (min (length old) chunk_size) old)

-- What goes to `write_chunk`.
unfoldable pub merged : ℕ → Bytes → ℕ → Bytes → Bytes
merged offset buf ci old =
    let size = length buf in
    let copied = take (copy_size offset size ci) (drop (buffer_start offset ci) buf) in
    take (max (min (length old) chunk_size) (write_end offset size ci))
      (overwrite (existing_bytes old) (write_start offset ci) copied)

-- `lc`, the last chunk of `size` bytes at `offset`.
abbrev pub last_chunk : ℕ → ℕ → ℕ
last_chunk offset size = sub64 ((offset + size) % u64_mod) 1 / chunk_size

module _ (z : Zstd) (cfg : Config) (id : Str) where
  -- What `tmp` holds, and is empty also where the chunk cannot be read.
  unfoldable pub old_chunk : ℕ → ℕ → Disk → Bytes × Disk
  old_chunk n_chunks ci d = if ltb ci n_chunks then read_chunk z cfg id ci d else ([], d)

  store_merged : ℕ → Bytes → ℕ → Bytes × Disk → Disk
  store_merged offset buf ci (old, d) = (write_chunk z cfg id ci (merged offset buf ci old) d).1

  -- One turn of the loop of `cfs_write`, which looks at no result.
  unfoldable pub rewrite_chunk : ℕ → ℕ → Bytes → ℕ → Disk → Disk
  unfolding store_merged
  rewrite_chunk n_chunks offset buf ci d = store_merged offset buf ci (old_chunk n_chunks ci d)

  -- `k` turns from chunk `ci` on.
  unfoldable pub rewrite_chunks : ℕ → ℕ → Bytes → ℕ → ℕ → Disk → Disk
  rewrite_chunks n_chunks offset buf zero ci d = d
  rewrite_chunks n_chunks offset buf (suc k) ci d =
      rewrite_chunks n_chunks offset buf k (suc ci) (rewrite_chunk n_chunks offset buf ci d)

  -- The loop of `cfs_write`, with `fc` and `lc`.
  unfoldable pub write_bytes : ℕ → ℕ → Bytes → Disk → Disk
  write_bytes n_chunks offset buf d =
      let fc = offset / chunk_size in
      rewrite_chunks n_chunks offset buf (suc (last_chunk offset (length buf)) - fc) fc d

  abbrev loaded : Bytes × Disk → Option Bytes × Disk
  loaded (x, d) = if length x == 0 then (none, d) else (some x, d)

  abbrev present : ℕ → ℕ × Disk → Option Bytes × Disk
  present ci (n, d) =
      if n == 0 then (some (replicate chunk_size 0), d) else loaded (read_chunk z cfg id ci d)

  -- The task of a chunk: `none` sets `err`.
  unfoldable pub fetch : ℕ → Disk → Option Bytes × Disk
  fetch ci d = present ci (chunk_disk_size cfg id ci d)

  abbrev cons_chunk : Bytes → Option (List Bytes) × Disk → Option (List Bytes) × Disk
  cons_chunk x (none, d) = (none, d)
  cons_chunk x (some xs, d) = (some (x ∷ xs), d)

  abbrev gather :
      (Disk → Option (List Bytes) × Disk) → Option Bytes × Disk → Option (List Bytes) × Disk
  gather rest (none, d) = (none, d)
  gather rest (some x, d) = cons_chunk x (rest d)

  -- `cdata` of `k` chunks from `ci` on, by tasks in the order of the queue; behind `err` the tasks do
  -- nothing.
  unfoldable pub fetch_all : ℕ → ℕ → Disk → Option (List Bytes) × Disk
  fetch_all zero ci d = (some [], d)
  fetch_all (suc k) ci d = gather (fetch_all k (suc ci)) (fetch ci d)

-- The copies into the reader's buffer, with `left` for `size - written`.
unfoldable pub copy_out : ℕ → ℕ → List Bytes → Bytes
copy_out left off [] = []
copy_out left off (cd ∷ cds) =
    let taken = min (length cd - off) left in
    let rest = copy_out (left - taken) 0 cds in
    if leb (length cd) off then [] else take taken (drop off cd) ++ rest

module _ (z : Zstd) (cfg : Config) (id : Str) where
  copied_out : ℕ → ℕ → Option (List Bytes) × Disk → Option Bytes × Disk
  copied_out size off (none, d) = (none, d)
  copied_out size off (some cds, d) = (some (copy_out size off cds), d)

  -- `cfs_read` behind the test of the size: `none` is `-EIO`.
  unfoldable pub read_bytes : ℕ → ℕ → Disk → Option Bytes × Disk
  unfolding copied_out
  read_bytes size offset d =
      let fc = offset / chunk_size in
      let nc = (sub64 (last_chunk offset size) fc + 1) % u64_mod in
      copied_out size (offset - chunk_start fc) (fetch_all z cfg id nc fc d)

-- `keep` of `cfs_truncate`, in `size_t`.
abbrev pub kept_chunks : ℕ → ℕ
kept_chunks nsz = sub64 ((nsz + chunk_size) % u64_mod) 1 / chunk_size

-- The loop of `cfs_truncate` to a size below the file's.
unfoldable pub shrink : Config → Str → ℕ → ℕ → Act (Unit {0})
shrink cfg id n_chunks nsz = remove_from cfg id (kept_chunks nsz) (n_chunks - kept_chunks nsz)
