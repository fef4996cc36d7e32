-- ===== src/Compresslib/Chunks.antt =====
-- What `compress_file_chunks` returns from an aligned offset: a frame for each 4096 bytes.
use crunch_fs.Base.{
  ℕ, zero, suc, ◌+◌, ◌-◌, ◌/◌, ◌%◌, ◌≤◌, ◌≡◌, refl, min, List, [], ◌∷◌, length, take, drop,
  length-drop, length-take, take-min-length, drop-min-length, arith, ok, ◌⊎◌, inl, inr,
}
use native.Mathlib.Decide.{dec_le}
use crunch_fs.Base.Bytes.{Bytes, u64_mod}
use crunch_fs.Zstd.{Zstd, ZstdLaws}
use crunch_fs.Compresslib.{
  chunk_size, compress_chunk, decompress_chunk, compress_loop, compress_file_chunks,
}
use crunch_fs.Compresslib.Frames.{compress_chunk-ok}

-- ZSTD_COMPRESSBOUND of a whole chunk, or a little more
abbrev pub frame_max : ℕ
frame_max = 4176

-- The chunks hold `input`, cut every 4096 bytes, and none of them is an empty frame.
abbrev pub Encodes : Zstd → List Bytes → Bytes → Type 0
Encodes z [] input = input ≡ []
Encodes z (c ∷ cs) input =
    (1 ≤ length input)
    × (1 ≤ length c)
    × (length c ≤ frame_max)
    × (decompress_chunk z c ≡ ok (take chunk_size input))
    × Encodes z cs (drop chunk_size input)

-- Every chunk takes up to 4096 bytes of the input, so their number is the size divided, rounded up.
pub length-Encodes :
    (z : Zstd) (cs : List Bytes) (input : Bytes)
    → Encodes z cs input
    → length cs ≡ (length input + 4095) / chunk_size
length-Encodes z [] input h = rw h (omega arith)
length-Encodes z (c ∷ cs) input (h, _, _, _, more) =
    omega (arith, length-Encodes z cs (drop chunk_size input) more, length-drop chunk_size input)

-- After a round the offset is aligned again, or nothing is left.
next_aligned :
    (input : Bytes) (o : ℕ)
    → o % chunk_size ≡ 0
    → ((o + min chunk_size (length input)) % u64_mod % chunk_size ≡ 0)
      ⊎ (length (drop chunk_size input) ≡ 0)
next_aligned input o k = elim (dec_le chunk_size (length input)) [
  | yes p ↦ inl (omega arith)
  | no p ↦ inr (omega (arith, length-drop chunk_size input))
]

module _ (z : Zstd) (laws : ZstdLaws z) where
  -- One round: from an aligned offset it takes 4096 bytes, or what is left.
  compress_loop_round :
      (fuel : ℕ) (b : ℕ) (bs : Bytes) (o : ℕ) (c : Bytes) (cs : List Bytes)
      → o % chunk_size ≡ 0
      → compress_chunk z (take chunk_size (b ∷ bs)) ≡ ok c
      → compress_loop z fuel
          (drop chunk_size (b ∷ bs))
          ((o + min chunk_size (length (b ∷ bs))) % u64_mod)
        ≡ ok cs
      → compress_loop z (suc fuel) (b ∷ bs) o ≡ ok (c ∷ cs)
  unfolding compress_loop
  compress_loop_round fuel b bs o c cs k made more =
      let space : chunk_size - o % chunk_size ≡ chunk_size = omega arith in
      rw (
        space,
        take-min-length chunk_size (b ∷ bs),
        drop-min-length chunk_size (b ∷ bs),
        made,
        more,
      )

  compress_loop-Encodes :
      (fuel : ℕ) (input : Bytes) (o : ℕ)
      → length input ≤ fuel
      → (o % chunk_size ≡ 0) ⊎ (length input ≡ 0)
      → (cs : List Bytes) × (compress_loop z fuel input o ≡ ok cs) × Encodes z cs input
  unfolding compress_loop
  compress_loop-Encodes fuel [] o h k = ([], refl, refl)
  compress_loop-Encodes zero (b ∷ bs) o h k = absurd (omega arith)
  compress_loop-Encodes (suc fuel) (b ∷ bs) o h k =
      let input : Bytes = b ∷ bs in
      let aligned : o % chunk_size ≡ 0 = omega arith in
      let o' = (o + min chunk_size (length input)) % u64_mod in
      let shorter : length (drop chunk_size input) ≤ fuel =
        omega (arith, length-drop chunk_size input) in
      let (c, made, full, small, back) = compress_chunk-ok z laws (take chunk_size input) in
      let (cs, more, rest) =
        compress_loop-Encodes fuel (drop chunk_size input) o' shorter
          (next_aligned input o aligned) in
      (
        c ∷ cs,
        compress_loop_round fuel b bs o c cs aligned made more,
        (omega arith, full, omega (arith, length-take chunk_size input), back, rest),
      )

  -- Compression of a whole file throws nothing, and cuts it every 4096 bytes.
  pub compress_file_chunks-Encodes :
      (input : Bytes)
      → (cs : List Bytes) × (compress_file_chunks z input 0 ≡ ok cs) × Encodes z cs input
  unfolding compress_file_chunks
  compress_file_chunks-Encodes input =
      compress_loop-Encodes (length input) input 0 (omega arith) (inl (omega arith))
