-- ===== src/Compresslib/RoundTrip.antt =====
-- Decompression is a slice of what was compressed.
use crunch_fs.Base.{
  ℕ, ◌+◌, ◌-◌, ◌/◌, ◌%◌, ◌≤◌, ◌<◌, ◌≡◌, refl, sym, ap, ◌∙◌, min, List, [], ◌∷◌, ◌++◌, length, take,
  drop, drop-nil, slice_at_cut, length-drop, length-take, take-all, drop-all, true, false, arith,
  ok, leb, ltb, inl, inr, ◌⊎◌,
}
use native.Mathlib.Decide.{dec_le}
use crunch_fs.Base.Bytes.{Bytes, u64_mod, sub64}
use crunch_fs.Zstd.{Zstd, ZstdLaws}
use crunch_fs.Compresslib.{
  chunk_size, decompress_chunk, decompress_loop, compress_file_chunks, decompress_file_chunks,
}
use crunch_fs.Compresslib.Chunks.{Encodes, length-Encodes, compress_file_chunks-Encodes}

module _ (z : Zstd) where
  -- One round with `skip` bytes of the chunk passed over.
  decompress_loop_round :
      (c : Bytes) (cs : List Bytes) (input rest : Bytes) (o size got : ℕ)
      → got < size
      → length input < u64_mod
      → o % chunk_size ≤ length input
      → decompress_chunk z c ≡ ok (take chunk_size input)
      → (let n = min (min chunk_size (length input) - o % chunk_size) (size - got) in
          decompress_loop z cs ((o + n) % u64_mod) size (got + n) ≡ ok rest)
      → (let n = min (min chunk_size (length input) - o % chunk_size) (size - got) in
          decompress_loop z (c ∷ cs) o size got
          ≡ ok (take n (drop (o % chunk_size) (take chunk_size input)) ++ rest))
  unfolding decompress_loop
  decompress_loop_round c cs input rest o size got more fits inside made next =
      let room : sub64 (length (take chunk_size input)) (o % chunk_size)
          ≡ min chunk_size (length input) - o % chunk_size =
        omega (arith, length-take chunk_size input) in
      let open_ : leb size got ≡ false = ground arith in
      let bound : ltb (length (take chunk_size input))
            (o % chunk_size + min (min chunk_size (length input) - o % chunk_size) (size - got))
          ≡ false =
        ground (arith, length-take chunk_size input) in
      rw (open_, made, room, bound, next)

-- After a round the next one starts at the front of its chunk, or nothing more is wanted or left.
next_rest :
    (input : Bytes) (o want : ℕ)
    → o % chunk_size ≤ length input
    → (let n = min (min chunk_size (length input) - o % chunk_size) want in
        take (want - n) (drop ((o + n) % u64_mod % chunk_size) (drop chunk_size input))
        ≡ take (want - n) (drop chunk_size input))
next_rest input o want h =
    let n = min (min chunk_size (length input) - o % chunk_size) want in
    let rest = drop chunk_size input in
    elim (dec_le want n) [
      | yes p ↦ let e : want - n ≡ 0 = omega arith in rw e (unfold take in refl)
      | no p ↦ elim (dec_le chunk_size (length input)) [
        | yes q ↦
            let e : (o + n) % u64_mod % chunk_size ≡ 0 = omega arith in rw e (unfold drop in refl)
        | no q ↦ rw (
            drop-nil ((o + n) % u64_mod % chunk_size) rest
              (omega (arith, length-drop chunk_size input)))
      ]
    ]

-- The offset lies within what the chunks hold, or nothing more is read of them.
abbrev InChunks : Bytes → ℕ → ℕ → ℕ → Type 0
InChunks input o size got = (o % chunk_size ≤ length input) ⊎ ((size ≤ got) ⊎ (length input ≡ 0))

next_InChunks :
    (input : Bytes) (o size got : ℕ)
    → o % chunk_size ≤ length input
    → (let n = min (min chunk_size (length input) - o % chunk_size) (size - got) in
        InChunks (drop chunk_size input) ((o + n) % u64_mod) size (got + n))
next_InChunks input o size got h =
    elim (dec_le (size - got) (min chunk_size (length input) - o % chunk_size)) [
      | yes p ↦ inr (inl (omega arith))
      | no p ↦ elim (dec_le chunk_size (length input)) [
        | yes q ↦ inl (omega arith)
        | no q ↦ inr (inr (omega (arith, length-drop chunk_size input)))
      ]
    ]

-- The pieces of a round and of what follows it are the slice that is wanted.
round_slice :
    (input : Bytes) (o size got : ℕ)
    → o % chunk_size ≤ length input
    → (let n = min (min chunk_size (length input) - o % chunk_size) (size - got) in
        take n (drop (o % chunk_size) (take chunk_size input))
          ++ take (size - (got + n)) (drop ((o + n) % u64_mod % chunk_size) (drop chunk_size input))
        ≡ take (size - got) (drop (o % chunk_size) input))
round_slice input o size got h =
    let n = min (min chunk_size (length input) - o % chunk_size) (size - got) in
    let left : size - (got + n) ≡ size - got - n = omega arith in
    rw (left, next_rest input o (size - got) h)
      (slice_at_cut chunk_size (o % chunk_size) (size - got) input (omega arith))

module _ (z : Zstd) where
  decompress_loop-done :
      (cs : List Bytes) (o size got : ℕ) → size ≤ got → decompress_loop z cs o size got ≡ ok []
  unfolding decompress_loop
  decompress_loop-done [] o size got h = refl
  decompress_loop-done (c ∷ cs) o size got h =
      let done : leb size got ≡ true = ground arith in rw done

  take-none : (n : ℕ) (xs : Bytes) → n ≡ 0 → take n xs ≡ []
  unfolding take
  take-none n xs h = rw h

  decompress_loop-Encodes :
      (cs : List Bytes) (input : Bytes) (o size got : ℕ)
      → Encodes z cs input
      → length input < u64_mod
      → InChunks input o size got
      → decompress_loop z cs o size got ≡ ok (take (size - got) (drop (o % chunk_size) input))
  decompress_loop-Encodes [] input o size got h fits inside =
      rw
        (
          h,
          drop-all {A = ℕ} (o % chunk_size) [] (omega arith),
          take-all {A = ℕ} (size - got) [] (omega arith),
        )
        (unfold decompress_loop in refl)
  decompress_loop-Encodes (c ∷ cs) input o size got (some_left, _, _, made, more) fits inside =
      let n = min (min chunk_size (length input) - o % chunk_size) (size - got) in
      let ih = λ (k : InChunks (drop chunk_size input) ((o + n) % u64_mod) size (got + n)).
        decompress_loop-Encodes cs (drop chunk_size input) ((o + n) % u64_mod) size (got + n) more
          (omega (arith, length-drop chunk_size input)) k in
      elim (dec_le size got) [
        | yes p ↦
            decompress_loop-done (c ∷ cs) o size got p
            ∙ ap ok (sym (take-none (size - got) (drop (o % chunk_size) input) (omega arith)))
        | no p ↦
            let start : o % chunk_size ≤ length input = omega arith in
            decompress_loop_round z c cs input _ o size got (omega arith) fits start made
              (ih (next_InChunks input o size got start))
            ∙ ap ok (round_slice input o size got start)
      ]

module _ (z : Zstd) (laws : ZstdLaws z) where
  -- The chunks of a file, read from an offset in the first of them, are that slice of the file.
  pub decompress-compress :
      (input : Bytes) (offset size : ℕ)
      → length input < u64_mod
      → offset < chunk_size
      → offset ≤ length input
      → (cs : List Bytes) × (compress_file_chunks z input 0 ≡ ok cs)
        × (length cs ≡ (length input + 4095) / chunk_size)
        × (decompress_file_chunks z cs offset size ≡ ok (take size (drop offset input)))
  unfolding decompress_file_chunks
  decompress-compress input offset size fits small inside =
      let (cs, made, holds) = compress_file_chunks-Encodes z laws input in
      let at_front : offset % chunk_size ≡ offset = omega arith in
      let whole : size - 0 ≡ size = omega arith in
      (
        cs,
        made,
        length-Encodes z cs input holds,
        decompress_loop-Encodes z cs input offset size 0 holds fits (inl (omega arith))
            ∙ rw (at_front, whole),
      )

-- Any chunks that hold a file give the whole of it.
pub decompress-Encodes :
    (z : Zstd) (cs : List Bytes) (input : Bytes)
    → Encodes z cs input
    → length input < u64_mod
    → decompress_file_chunks z cs 0 (length input) ≡ ok input
unfolding decompress_file_chunks
decompress-Encodes z cs input holds fits =
    decompress_loop-Encodes z cs input 0 (length input) 0 holds fits (inl (omega arith))
    ∙ ap ok (unfold drop in take-all (length input - 0) input (omega arith))
