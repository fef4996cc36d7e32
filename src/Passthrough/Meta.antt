-- ===== src/Passthrough/Meta.antt =====
-- The binary metadata file: the bytes that `save_meta_atomic` writes and the checks of `load_meta`.
pub mod RoundTrip
use crunch_fs.Base.{
  ℕ, zero, suc, ◌+◌, ◌%◌, List, [], ◌∷◌, ◌++◌, ◌&&◌, length, take, replicate, ◌==◌, str_eq, Str,
  codes, Result, ok, ◌>>=◌, ◌>>◌, guard,
}
use crunch_fs.Base.Bytes.{Bytes, u32_mod, u64_mod, le_bytes, take_bytes, read_le}
use crunch_fs.Compresslib.{chunk_size}

pub record ChunkMeta : Type 0 where
  pub logical_length : ℕ
  pub data_offset : ℕ
  pub compressed_size : ℕ

pub record FileMeta : Type 0 where
  pub logical_size : ℕ
  pub chunks : List ChunkMeta

abbrev pub meta_magic : Str
meta_magic = codes "CFM1"

abbrev pub meta_version : ℕ
meta_version = 1

abbrev pub meta_codec_id_zstd : ℕ
meta_codec_id_zstd = 1

-- The `write_le` calls of a row.
unfoldable pub row_fields : ℕ → ChunkMeta → List Bytes
row_fields i cm =
    le_bytes 4 i
    ∷ le_bytes 4 cm.logical_length
    ∷ le_bytes 8 cm.data_offset
    ∷ le_bytes 4 cm.compressed_size
    ∷ le_bytes 4 0
    ∷ []

unfoldable pub rows_fields : ℕ → List ChunkMeta → List Bytes
unfolding row_fields
rows_fields i [] = []
rows_fields i (cm ∷ cms) = row_fields i cm ++ rows_fields (i + 1) cms

-- The writes of `save_meta_atomic`, in order.
unfoldable pub meta_fields : FileMeta → List Bytes
unfolding rows_fields
meta_fields meta =
    let chunk_count = length meta.chunks % u32_mod in
    meta_magic
    ∷ le_bytes 1 meta_version
    ∷ le_bytes 1 meta_codec_id_zstd
    ∷ le_bytes 2 0
    ∷ le_bytes 8 meta.logical_size
    ∷ le_bytes 4 chunk_size
    ∷ le_bytes 4 chunk_count
    ∷ le_bytes 4 1
    ∷ le_bytes 4 0
    ∷ replicate 32 0
    ∷ rows_fields 0 (take chunk_count meta.chunks)

-- The loop over the rows, with the number of rows left.
unfoldable pub read_rows : ℕ → ℕ → Bytes → Result (List ChunkMeta)
read_rows zero i bytes = ok []
read_rows (suc left) i bytes = do
  (chunk_index, b₁) ← read_le 4 bytes
  (logical_length, b₂) ← read_le 4 b₁
  (data_offset, b₃) ← read_le 8 b₂
  (compressed_size, b₄) ← read_le 4 b₃
  (reserved, b₅) ← read_le 4 b₄
  guard (chunk_index == i)
  rows ← read_rows left (i + 1) b₅
  ok (
      record {
        logical_length = logical_length;
        data_offset = data_offset;
        compressed_size = compressed_size;
      }
      ∷ rows)

-- `uint64_t logical_sum`
unfoldable pub logical_sum : ℕ → List ChunkMeta → ℕ
logical_sum sum [] = sum
logical_sum sum (cm ∷ cms) = logical_sum ((sum + cm.logical_length) % u64_mod) cms

-- `load_meta`, from the bytes of the file on.
unfoldable pub parse_meta : Bytes → Result FileMeta
unfolding read_rows logical_sum
parse_meta bytes = do
  (magic, b₁) ← take_bytes 4 bytes
  guard (str_eq magic meta_magic)
  (version, b₂) ← read_le 1 b₁
  (codec_id, b₃) ← read_le 1 b₂
  (reserved16, b₄) ← read_le 2 b₃
  (logical_size, b₅) ← read_le 8 b₄
  (stored_chunk_size, b₆) ← read_le 4 b₅
  (chunk_count, b₇) ← read_le 4 b₆
  (zstd_level, b₈) ← read_le 4 b₇
  (flags, b₉) ← read_le 4 b₈
  (digest, b₁₀) ← take_bytes 32 b₉
  guard
      (version == meta_version && codec_id == meta_codec_id_zstd && stored_chunk_size == chunk_size)
  chunks ← read_rows chunk_count 0 b₁₀
  guard (logical_sum 0 chunks == logical_size)
  ok (record { logical_size = logical_size; chunks = chunks })
