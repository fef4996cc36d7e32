-- ===== src/ChunkStore.antt =====
-- src/chunk_store.cpp, src/chunk_store.hpp: the chunks of a file, each compressed in a file of its own.
-- The stream of a chunk file is closed where it goes out of scope, and no error of a write or of that
-- close is looked at.
pub mod Paths
pub mod RoundTrip
pub mod Removed
use crunch_fs.Base.{
  ℕ, zero, suc, ◌+◌, ◌*◌, Bool, true, false, Option, none, some, List, [], ◌∷◌, ◌++◌, length,
  if◌then◌else◌, ◌==◌, Str, codes, Result, ok, err, failed, thrown,
}
use crunch_fs.Base.Bytes.{Bytes}
use crunch_fs.Base.Buffer.{resize}
use crunch_fs.Zstd.{Zstd}
use crunch_fs.Compresslib.{compress_bound_zstd, compress_buffer_zstd, decompress_buffer_zstd}
use crunch_fs.Disk.{
  Disk, Act, ◌>>=◌, ◌>>◌, pure, attempt, open_trunc, open_read, write, close, rename, remove,
  content,
}
use crunch_fs.Passthrough.Layout.{Config, data_dir}
use crunch_fs.Numerals.{print}

-- ChunkStore::CHUNK_SIZE
abbrev pub chunk_size : ℕ
chunk_size = 262144

-- The exception of a call of `fs::remove` without an error code.
pub throws : Result (Unit {0}) × Disk → Result (Unit {0}) × Disk
throws (ok u, d) = (ok u, d)
throws (err e, d) = (err thrown, d)

module _ (cfg : Config) where
  unfoldable pub chunk_path : Str → ℕ → Str
  chunk_path path_id idx =
      data_dir cfg ++ codes "/" ++ path_id ++ codes "_" ++ print 10 idx ++ codes ".dat"

  unfoldable pub remove_chunk : Str → ℕ → Act (Unit {0})
  unfolding throws
  remove_chunk path_id chunk_idx d = throws (remove (chunk_path path_id chunk_idx) d)

  -- `n` chunks from `i` on, also for `cfs_truncate`.
  unfoldable pub remove_from : Str → ℕ → ℕ → Act (Unit {0})
  remove_from path_id i zero = pure tt
  remove_from path_id i (suc n) = do remove_chunk path_id i; remove_from path_id (suc i) n

  unfoldable pub remove_chunks : Str → ℕ → Act (Unit {0})
  unfolding remove_from
  remove_chunks path_id n_chunks = remove_from path_id 0 n_chunks

  rename_from : Str → Str → ℕ → ℕ → Act (Unit {0})
  rename_from old_id new_id i zero = pure tt
  rename_from old_id new_id i (suc n) = do
    rename (chunk_path old_id i) (chunk_path new_id i)
    rename_from old_id new_id (suc i) n

  unfoldable pub rename_chunks : Str → Str → ℕ → Act (Unit {0})
  unfolding rename_from
  rename_chunks old_id new_id n_chunks = rename_from old_id new_id 0 n_chunks

  unfoldable pub size_of : Option Bytes → ℕ
  size_of none = 0
  size_of (some b) = length b

  unfoldable pub sized : Result ℕ × Disk → ℕ × Disk
  sized (ok n, d) = (n, d)
  sized (err e, d) = (0, d)

  -- `fs::file_size`, or 0 with an error.
  unfoldable pub chunk_disk_size : Str → ℕ → Disk → ℕ × Disk
  unfolding size_of sized
  chunk_disk_size path_id chunk_idx d =
      let path = chunk_path path_id chunk_idx in
      sized (attempt (λ d'. (ok (size_of (d'.files path)), d')) (λ n d'. (err failed, d')) d)

module _ (z : Zstd) (cfg : Config) where
  -- Behind the test of the stream: the size is returned whatever becomes of the write.
  filled : Str → Bytes → Result (Unit {0}) × Disk → ℕ × Disk
  filled path buf (ok u, d) = (length buf, (close path (write path buf d).1).1)
  filled path buf (err e, d) = (0, d)

  -- The size of the compressed chunk, or 0.
  unfoldable pub write_chunk : Str → ℕ → Bytes → Disk → ℕ × Disk
  unfolding filled
  write_chunk path_id chunk_idx bytes d =
      let cap = compress_bound_zstd z (length bytes) in
      let buf = compress_buffer_zstd z bytes cap 1 in
      let path = chunk_path cfg path_id chunk_idx in
      if length buf == 0 then (0, d) else filled path buf (open_trunc path d)

  -- A read that fails leaves zeros in the rest of `cbuf`.
  unpacked : Str → Result (Bytes × Bool) × Disk → Bytes × Disk
  unpacked path (ok (bytes, intact), d) =
      let cbuf = resize (length (content (d.files path))) bytes in
      (decompress_buffer_zstd z cbuf (chunk_size * 2), d)
  unpacked path (err e, d) = ([], d)

  -- What is appended to `out`; its length is the result, and 0 is the failure.
  unfoldable pub read_chunk : Str → ℕ → Disk → Bytes × Disk
  unfolding unpacked
  read_chunk path_id chunk_idx d =
      let path = chunk_path cfg path_id chunk_idx in unpacked path (open_read path d)
