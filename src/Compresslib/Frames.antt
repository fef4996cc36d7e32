-- ===== src/Compresslib/Frames.antt =====
-- One chunk: what `compress_chunk` writes, `decompress_chunk` reads back.
use crunch_fs.Base.{ℕ, ◌+◌, ◌/◌, ◌-◌, ◌≤◌, ◌≡◌, some, append-nil, length, replicate, arith, ok}
use crunch_fs.Base.Bytes.{Bytes}
use crunch_fs.Zstd.{Zstd, ZstdLaws}
use crunch_fs.Compresslib.{compress_chunk, decompress_chunk}

module _ (z : Zstd) (laws : ZstdLaws z) where
  decompress_chunk-frame :
      (x c : Bytes) (room level : ℕ)
      → z.compress room x level ≡ some c
      → decompress_chunk z c ≡ ok x
  unfolding decompress_chunk replicate
  decompress_chunk-frame x c room level e =
      let none_left : length x - length x ≡ 0 = omega arith in
      rw
        (
          decompress_chunk,
          laws.content_size room level x c e,
          laws.decompress_frame room level (length x) x c e (omega arith),
          none_left,
        )
        (rw append-nil)

  compress_chunk-frame :
      (x c : Bytes)
      → z.compress (z.compress_bound (length x)) x 1 ≡ some c
      → (compress_chunk z x ≡ ok c)
        × (1 ≤ length c)
        × (length c ≤ length x + length x / 256 + 64)
        × (decompress_chunk z c ≡ ok x)
  unfolding compress_chunk
  compress_chunk-frame x c e = (
    rw (compress_chunk, e),
    (laws.frame_size (z.compress_bound (length x)) 1 x c e).0,
    omega (
      arith,
      (laws.frame_size (z.compress_bound (length x)) 1 x c e).1,
      laws.bound_formula (length x),
    ),
    decompress_chunk-frame x c (z.compress_bound (length x)) 1 e,
  )

  -- Compression of a chunk succeeds, with a frame that is not empty, is no longer than the
  -- bound, and reads back.
  pub compress_chunk-ok :
      (x : Bytes)
      → (c : Bytes) × (compress_chunk z x ≡ ok c)
        × (1 ≤ length c)
        × (length c ≤ length x + length x / 256 + 64)
        × (decompress_chunk z c ≡ ok x)
  compress_chunk-ok x =
      let (c, e) = laws.compress_fits (z.compress_bound (length x)) 1 x (omega arith) in
      let (made, full, small, back) = compress_chunk-frame x c e in (c, made, full, small, back)
