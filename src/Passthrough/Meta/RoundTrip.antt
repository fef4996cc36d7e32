-- ===== src/Passthrough/Meta/RoundTrip.antt =====
-- What `save_meta_atomic` writes, `load_meta` reads back.
use crunch_fs.Base.{
  ℕ, suc, ◌+◌, ◌%◌, ◌<◌, ◌≤◌, ◌≡◌, refl, List, [], ◌∷◌, ◌++◌, append_assoc, length, take, replicate,
  take-all, length-replicate, All, concat, ==_iff, str_eq_refl, ok, arith,
}
use crunch_fs.Base.Bytes.{Bytes, u32_mod, u64_mod, read_le-le_bytes, take_bytes-append}
use crunch_fs.Compresslib.{chunk_size}
use crunch_fs.Passthrough.Meta.{
  ChunkMeta, FileMeta, row_fields, rows_fields, meta_fields, read_rows, logical_sum, parse_meta,
  meta_magic,
}

-- The fields of a row fit their integer types.
pub record RowFits (cm : ChunkMeta) : Type 0 where
  pub logical_length : cm.logical_length < u32_mod
  pub data_offset : cm.data_offset < u64_mod
  pub compressed_size : cm.compressed_size < u32_mod

pub record MetaFits (meta : FileMeta) : Type 0 where
  pub rows : All RowFits meta.chunks
  pub count : length meta.chunks < u32_mod
  pub size : meta.logical_size < u64_mod
  pub sum : logical_sum 0 meta.chunks ≡ meta.logical_size

read_row :
    (i left : ℕ) (cm : ChunkMeta) (rest : Bytes) (cms : List ChunkMeta)
    → i < u32_mod
    → RowFits cm
    → read_rows left (i + 1) rest ≡ ok cms
    → read_rows (suc left) i (concat (row_fields i cm) ++ rest) ≡ ok (cm ∷ cms)
unfolding read_rows row_fields concat
read_row i left cm rest cms small fits more =
    let idx = λ (r : Bytes). read_le-le_bytes 4 i r small in
    let len = λ (r : Bytes). read_le-le_bytes 4 cm.logical_length r fits.logical_length in
    let off = λ (r : Bytes). read_le-le_bytes 8 cm.data_offset r fits.data_offset in
    let csize = λ (r : Bytes). read_le-le_bytes 4 cm.compressed_size r fits.compressed_size in
    let zeros = λ (r : Bytes). read_le-le_bytes 4 0 r (omega arith) in
    simp (append_assoc, idx, len, off, csize, zeros, (==_iff i i).1 refl, more)

concat-append : (xs ys : List Bytes) → concat (xs ++ ys) ≡ concat xs ++ concat ys
unfolding concat
concat-append [] ys = refl
concat-append (x ∷ xs) ys = rw (concat-append xs ys, append_assoc)

read_rows-rows_fields :
    (i : ℕ) (cms : List ChunkMeta) (rest : Bytes)
    → All RowFits cms
    → i + length cms ≤ u32_mod
    → read_rows (length cms) i (concat (rows_fields i cms) ++ rest) ≡ ok cms
unfolding rows_fields
read_rows-rows_fields i [] rest fits room = unfold read_rows in refl
read_rows-rows_fields i (cm ∷ cms) rest (fit, fits) room =
    rw (concat-append (row_fields i cm) (rows_fields (i + 1) cms), append_assoc)
      (read_row i (length cms) cm (concat (rows_fields (i + 1) cms) ++ rest) cms (omega arith) fit
        (read_rows-rows_fields (i + 1) cms rest fits (omega arith)))

-- The metadata file of any metadata whose fields fit is read back as it was, whatever follows it.
pub parse_meta-meta_fields :
    (meta : FileMeta) (rest : Bytes)
    → MetaFits meta
    → parse_meta (concat (meta_fields meta) ++ rest) ≡ ok meta
unfolding parse_meta meta_fields concat
parse_meta-meta_fields meta rest fits =
    let n = length meta.chunks in
    let count : n % u32_mod ≡ n = omega (arith, fits.count) in
    let all : take n meta.chunks ≡ meta.chunks = take-all n meta.chunks (omega arith) in
    let magic = λ (r : Bytes). take_bytes-append 4 meta_magic r refl in
    let one = λ (r : Bytes). read_le-le_bytes 1 1 r (omega arith) in
    let two = λ (r : Bytes). read_le-le_bytes 2 0 r (omega arith) in
    let size = λ (r : Bytes). read_le-le_bytes 8 meta.logical_size r fits.size in
    let chunk = λ (r : Bytes). read_le-le_bytes 4 chunk_size r (omega arith) in
    let chunks = λ (r : Bytes). read_le-le_bytes 4 n r fits.count in
    let level = λ (r : Bytes). read_le-le_bytes 4 1 r (omega arith) in
    let flags = λ (r : Bytes). read_le-le_bytes 4 0 r (omega arith) in
    let digest =
      λ (r : Bytes). take_bytes-append 32 (replicate 32 0) r (length-replicate {A = ℕ} 32 0) in
    let rows = read_rows-rows_fields 0 meta.chunks rest fits.rows (omega (arith, fits.count)) in
    simp (count, all, append_assoc)
      (simp (
        magic,
        str_eq_refl meta_magic,
        one,
        two,
        size,
        chunk,
        chunks,
        level,
        flags,
        digest,
        rows,
        fits.sum,
        (==_iff meta.logical_size meta.logical_size).1 refl,
      ))
