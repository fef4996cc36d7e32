-- ===== src/Zstd/Defs.antt =====
-- What the program calls of the zstd library, and what it relies on.
use crunch_fs.Base.{ℕ, ◌+◌, ◌/◌, ◌≤◌, ◌≡◌, Option, some, length}
use crunch_fs.Base.Bytes.{Bytes}

-- `none` is an error code, which `ZSTD_isError` tells from a size.
pub record Zstd : Type 0 where
  pub compress_bound : ℕ → ℕ
  -- capacity of the destination, source, level
  pub compress : ℕ → Bytes → ℕ → Option Bytes
  -- capacity of the destination, source
  pub decompress : ℕ → Bytes → Option Bytes
  -- `none` is ZSTD_CONTENTSIZE_ERROR or ZSTD_CONTENTSIZE_UNKNOWN
  pub frame_content_size : Bytes → Option ℕ

pub record ZstdLaws (z : Zstd) : Type 0 where
  -- ZSTD_COMPRESSBOUND of zstd.h
  pub bound_formula : (n : ℕ) → z.compress_bound n ≤ n + n / 256 + 64
  -- compression into `ZSTD_compressBound(srcSize)` bytes succeeds
  pub compress_fits :
      (cap level : ℕ) (x : Bytes)
      → z.compress_bound (length x) ≤ cap
      → (c : Bytes) × (z.compress cap x level ≡ some c)
  -- a frame is never empty, and fits the destination
  pub frame_size :
      (cap level : ℕ) (x c : Bytes)
      → z.compress cap x level ≡ some c
      → (1 ≤ length c) × (length c ≤ cap)
  -- a frame that `ZSTD_compress` wrote has the size of its content in its header
  pub content_size :
      (cap level : ℕ) (x c : Bytes)
      → z.compress cap x level ≡ some c
      → z.frame_content_size c ≡ some (length x)
  -- it decompresses to what was compressed, where the destination has room
  pub decompress_frame :
      (cap level room : ℕ) (x c : Bytes)
      → z.compress cap x level ≡ some c
      → length x ≤ room
      → z.decompress room c ≡ some x
