-- ===== src/Passthrough/Files/Table.antt =====
-- The table of chunks that `persist_logical_file` builds: its rows fit their fields, their lengths
-- add up to the size of the file, and they find the chunks in the data file.
use crunch_fs.Base.{
  ℕ, suc, ◌+◌, ◌-◌, ◌*◌, ◌%◌, ◌^◌, ◌≤◌, ◌<◌, ◌≡◌, refl, ap, min, List, [], ◌∷◌, ◌++◌, append_assoc,
  length, drop, concat, All, length-append, length-drop, drop-append_seam, leb, false, arith, ok,
}
use crunch_fs.Base.Bytes.{Bytes, u32_mod, u64_mod, sub64, take_bytes-append}
use crunch_fs.Zstd.{Zstd}
use crunch_fs.Compresslib.{chunk_size}
use crunch_fs.Compresslib.Chunks.{Encodes, frame_max, length-Encodes}
use crunch_fs.Passthrough.Meta.{ChunkMeta, logical_sum}
use crunch_fs.Passthrough.Meta.RoundTrip.{RowFits, MetaFits}
use crunch_fs.Passthrough.Files.{chunk_rows, read_chunks}
use crunch_fs.Passthrough.Files.Saved.{table}

-- 2^32 - 1 chunks: the most that the field `chunk_count` can hold.
abbrev pub max_file : ℕ
max_file = (2 ^ 32 - 1) * chunk_size

-- While `rest` is still to be entered, nothing has wrapped.
pub record InRange (offset consumed size : ℕ) (chunks : List Bytes) (rest : Bytes) : Type 0 where
  pub size_left : consumed + length rest ≡ size
  pub size_fits : size ≤ max_file
  pub offset_fits : offset + frame_max * length chunks < 2 ^ 63

chunk_rows_step :
    (z : Zstd) (offset consumed size : ℕ) (c : Bytes) (cs : List Bytes) (rest : Bytes)
    → Encodes z (c ∷ cs) rest
    → InRange offset consumed size (c ∷ cs) rest
    → chunk_rows offset consumed size (c ∷ cs)
      ≡ record {
        logical_length = min chunk_size (length rest);
        data_offset = offset;
        compressed_size = length c;
      }
        ∷ chunk_rows (offset + length c) (consumed + min chunk_size (length rest)) size cs
unfolding chunk_rows
chunk_rows_step z offset consumed size c cs rest (_, _, small, _, _) r =
    let left : sub64 size consumed ≡ length rest = omega (arith, r.size_left, r.size_fits) in
    let len : min chunk_size (length rest) % u32_mod ≡ min chunk_size (length rest) = omega arith in
    let csize : length c % u32_mod ≡ length c = omega arith in
    let off : (offset + length c) % u64_mod ≡ offset + length c = omega (arith, r.offset_fits) in
    let con : (consumed + min chunk_size (length rest)) % u64_mod
        ≡ consumed + min chunk_size (length rest) =
      omega (arith, r.size_left, r.size_fits) in
    rw (left, len, csize, off, con)

InRange-next :
    (offset consumed size : ℕ) (c : Bytes) (cs : List Bytes) (rest : Bytes)
    → length c ≤ frame_max
    → InRange offset consumed size (c ∷ cs) rest
    → InRange
        (offset + length c)
        (consumed + min chunk_size (length rest))
        size
        cs
        (drop chunk_size rest)
InRange-next offset consumed size c cs rest small r = record {
  size_left = omega (arith, r.size_left, length-drop chunk_size rest);
  size_fits = r.size_fits;
  offset_fits = omega (arith, r.offset_fits);
}

no_rows : (offset consumed size : ℕ) → chunk_rows offset consumed size [] ≡ []
unfolding chunk_rows
no_rows offset consumed size = refl

sum_step :
    (sum size : ℕ) (cm : ChunkMeta) (cms : List ChunkMeta)
    → sum + cm.logical_length < u64_mod
    → logical_sum (sum + cm.logical_length) cms ≡ size
    → logical_sum sum (cm ∷ cms) ≡ size
unfolding logical_sum
sum_step sum size cm cms small h =
    let whole : (sum + cm.logical_length) % u64_mod ≡ sum + cm.logical_length = omega arith in
    rw whole h

-- The seek to the end of what was read, and the read of the next chunk.
read_step :
    (front c : Bytes) (cs : List Bytes) (len offset : ℕ) (cms : List ChunkMeta)
    → length front ≡ offset
    → offset < 2 ^ 63
    → read_chunks ((front ++ c) ++ concat cs) cms ≡ ok cs
    → read_chunks
        (front ++ concat (c ∷ cs))
        (record { logical_length = len; data_offset = offset; compressed_size = length c } ∷ cms)
      ≡ ok (c ∷ cs)
unfolding read_chunks concat
read_step front c cs len offset cms at small more =
    let positive : leb (2 ^ 63) offset ≡ false = ground arith in
    let more' : read_chunks (front ++ concat (c ∷ cs)) cms ≡ ok cs =
      rw (append_assoc front c (concat cs)) at more in
    rw (
      positive,
      drop-append_seam offset front (c ++ concat cs) at,
      take_bytes-append (length c) c (concat cs) refl,
      more',
    )

module _ (z : Zstd) where
  rows-RowFits :
      (offset consumed size : ℕ) (cs : List Bytes) (rest : Bytes)
      → Encodes z cs rest
      → InRange offset consumed size cs rest
      → All RowFits (chunk_rows offset consumed size cs)
  rows-RowFits offset consumed size [] rest h r = rw no_rows tt
  rows-RowFits offset consumed size (c ∷ cs) rest h r =
      rw (chunk_rows_step z offset consumed size c cs rest h r) (
        record {
          logical_length = omega arith;
          data_offset = omega (arith, r.offset_fits);
          compressed_size = omega (arith, h.2);
        },
        rows-RowFits (offset + length c) (consumed + min chunk_size (length rest)) size cs
            (drop chunk_size rest) h.4 (InRange-next offset consumed size c cs rest h.2 r),
      )

  sum-rows :
      (offset consumed size : ℕ) (cs : List Bytes) (rest : Bytes)
      → Encodes z cs rest
      → InRange offset consumed size cs rest
      → logical_sum consumed (chunk_rows offset consumed size cs) ≡ size
  sum-rows offset consumed size [] rest h r =
      rw no_rows (unfold logical_sum in omega (arith, r.size_left, ap length h))
  sum-rows offset consumed size (c ∷ cs) rest h r =
      let n = min chunk_size (length rest) in
      rw (chunk_rows_step z offset consumed size c cs rest h r) (
        sum_step consumed size _ _ (omega (arith, r.size_left, r.size_fits)) (
          sum-rows (offset + length c) (consumed + n) size cs (drop chunk_size rest) h.4
            (InRange-next offset consumed size c cs rest h.2 r)))

  read_chunks-rows :
      (offset consumed size : ℕ) (front : Bytes) (cs : List Bytes) (rest : Bytes)
      → Encodes z cs rest
      → InRange offset consumed size cs rest
      → length front ≡ offset
      → read_chunks (front ++ concat cs) (chunk_rows offset consumed size cs) ≡ ok cs
  read_chunks-rows offset consumed size front [] rest h r at =
      rw no_rows (unfold read_chunks in refl)
  read_chunks-rows offset consumed size front (c ∷ cs) rest h r at =
      let n = min chunk_size (length rest) in
      rw (chunk_rows_step z offset consumed size c cs rest h r) (
        read_step front c cs n offset _ at (omega (arith, r.offset_fits)) (
          read_chunks-rows (offset + length c) (consumed + n) size (front ++ c) cs
            (drop chunk_size rest) h.4 (InRange-next offset consumed size c cs rest h.2 r)
            (omega (arith, length-append front c))))

  length-rows :
      (cs : List Bytes) (offset consumed size : ℕ)
      → length (chunk_rows offset consumed size cs) ≡ length cs
  unfolding chunk_rows
  length-rows [] offset consumed size = refl
  length-rows (c ∷ cs) offset consumed size = ap suc (length-rows cs _ _ size)

  start-InRange :
      (cs : List Bytes) (input : Bytes)
      → Encodes z cs input
      → length input ≤ max_file
      → InRange 0 0 (length input) cs input
  start-InRange cs input h fits = record {
    size_left = omega arith;
    size_fits = fits;
    offset_fits = omega (arith, length-Encodes z cs input h);
  }

  -- Up to 2^32 - 1 chunks, the table fits the format and finds every chunk of the data file.
  pub table-MetaFits :
      (cs : List Bytes) (input : Bytes)
      → Encodes z cs input
      → length input ≤ max_file
      → MetaFits (table input cs)
  table-MetaFits cs input h fits =
      let r = start-InRange cs input h fits in
      record {
        rows = rows-RowFits 0 0 (length input) cs input h r;
        count = omega (arith, length-Encodes z cs input h, length-rows cs 0 0 (length input));
        size = omega arith;
        sum = sum-rows 0 0 (length input) cs input h r;
      }

  pub read_chunks-table :
      (cs : List Bytes) (input : Bytes)
      → Encodes z cs input
      → length input ≤ max_file
      → read_chunks (concat cs) (table input cs).chunks ≡ ok cs
  read_chunks-table cs input h fits =
      read_chunks-rows 0 0 (length input) [] cs input h (start-InRange cs input h fits) refl
