-- ===== src/ZstdBackend.antt =====
-- src/compression/zstd_backend.cpp: the calls of zstd with an error code turned to 0. A result is the
-- bytes that are written, and its length is the size that is returned.
use crunch_fs.Base.{ℕ, Option, none, some, []}
use crunch_fs.Base.Bytes.{Bytes}
use crunch_fs.Zstd.{Zstd}

abbrev or_nothing : Option Bytes → Bytes
or_nothing none = []
or_nothing (some b) = b

module _ (z : Zstd) where
  unfoldable pub compress_bound : ℕ → ℕ
  compress_bound src_size = z.compress_bound src_size

  unfoldable pub compress_chunk : Bytes → ℕ → ℕ → Bytes
  compress_chunk src dst_cap level = or_nothing (z.compress dst_cap src level)

  unfoldable pub decompress_chunk : Bytes → ℕ → Bytes
  decompress_chunk src dst_cap = or_nothing (z.decompress dst_cap src)
