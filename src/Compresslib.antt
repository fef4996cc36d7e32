-- ===== src/Compresslib.antt =====
-- src/conpresslib.cpp and src/compresslib.h: the cut of a file into chunks, and its inverse. A pointer
-- with a size is the list of the bytes that it shows.
pub mod Frames
pub mod Chunks
pub mod RoundTrip
use crunch_fs.Base.{
  ℕ, zero, suc, ◌+◌, ◌-◌, ◌%◌, min, List, [], ◌∷◌, ◌++◌, none, some, length, take, drop, replicate,
  leb, ltb, if◌then◌else◌, Result, ok, err, thrown, undefined, stuck, ◌>>=◌,
}
use crunch_fs.Base.Bytes.{Bytes, u64_mod, sub64}
use crunch_fs.Zstd.{Zstd}

-- CHUNK_SIZE of src/compresslib.h
abbrev pub chunk_size : ℕ
chunk_size = 4096

module _ (z : Zstd) where
  unfoldable pub compress_chunk : Bytes → Result Bytes
  compress_chunk input =
      let max_compressed_size = z.compress_bound (length input) in
      elim (z.compress max_compressed_size input 1) [ none ↦ err thrown | some c ↦ ok c ]

  -- The buffer has the size that the frame states, and is zero behind what was written.
  unfoldable pub decompress_chunk : Bytes → Result Bytes
  decompress_chunk input = elim (z.frame_content_size input) [
    | none ↦ err thrown
    | some size ↦ elim (z.decompress size input) [
      | none ↦ err thrown
      | some out ↦ ok (out ++ replicate (size - length out) 0)
    ]
  ]

  -- The bytes from `bytes_processed` on, and `current_offset`. Each round takes a byte at least.
  pub compress_loop : ℕ → Bytes → ℕ → Result (List Bytes)
  compress_loop fuel [] current_offset = ok []
  compress_loop zero (b ∷ bs) current_offset = err stuck
  compress_loop (suc fuel) (b ∷ bs) current_offset =
      let space_in_chunk = chunk_size - current_offset % chunk_size in
      let bytes_to_take = min space_in_chunk (length (b ∷ bs)) in
      do
        chunk ← compress_chunk (take bytes_to_take (b ∷ bs))
        rest ←
            compress_loop fuel (drop bytes_to_take (b ∷ bs))
              ((current_offset + bytes_to_take) % u64_mod)
        ok (chunk ∷ rest)

  unfoldable pub compress_file_chunks : Bytes → ℕ → Result (List Bytes)
  unfolding compress_loop compress_chunk
  compress_file_chunks input offset = compress_loop (length input) input offset

  -- `available` wraps where the chunk is shorter than the offset in it; the iterators then point
  -- behind the chunk.
  pub decompress_loop : List Bytes → ℕ → ℕ → ℕ → Result Bytes
  decompress_loop [] current_offset size bytes_collected = ok []
  decompress_loop (chunk ∷ chunks) current_offset size bytes_collected =
      if leb size bytes_collected then ok [] else do
        decompressed ← decompress_chunk chunk
        let offset_in_chunk = current_offset % chunk_size
        let available = sub64 (length decompressed) offset_in_chunk
        let bytes_to_copy = min available (size - bytes_collected)
        if ltb (length decompressed) (offset_in_chunk + bytes_to_copy) then err undefined else do
          rest ←
              decompress_loop chunks ((current_offset + bytes_to_copy) % u64_mod) size
                (bytes_collected + bytes_to_copy)
          ok (take bytes_to_copy (drop offset_in_chunk decompressed) ++ rest)

  unfoldable pub decompress_file_chunks : List Bytes → ℕ → ℕ → Result Bytes
  unfolding decompress_loop decompress_chunk
  decompress_file_chunks chunks offset size = decompress_loop chunks offset size 0

  unfoldable pub compress_bound_zstd : ℕ → ℕ
  compress_bound_zstd src_size = z.compress_bound src_size

  -- The bytes written to `dst`, of which the function returns the number: none on an error.
  unfoldable pub compress_buffer_zstd : Bytes → ℕ → ℕ → Bytes
  compress_buffer_zstd src dst_capacity level = elim (z.compress dst_capacity src level) [
    | none ↦ []
    | some out ↦ out
  ]

  unfoldable pub decompress_buffer_zstd : Bytes → ℕ → Bytes
  decompress_buffer_zstd src dst_capacity = elim (z.decompress dst_capacity src) [
    | none ↦ []
    | some out ↦ out
  ]
