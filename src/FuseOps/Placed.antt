-- ===== src/FuseOps/Placed.antt =====
-- Where the bytes of a chunk that `cfs_write` stores come from.
use crunch_fs.Base.{
  ℕ, ◌+◌, ◌-◌, ◌*◌, ◌/◌, ◌%◌, ◌≤◌, ◌<◌, min, ◌≡◌, refl, ap, ◌∙◌, true, false, length, take,
  replicate, length-take, length-replicate, ltb, ◌==◌, if◌then◌else◌, Bool-cases, inl, inr, ◌⊎◌,
  arith,
}
use crunch_fs.Base.Bytes.{Bytes, u64_mod, sub64}
use crunch_fs.Base.Buffer.{
  get_or, get_or-take, get_or-replicate, get_or-behind, length-overwrite, get_or-overwrite,
}
use crunch_fs.ChunkStore.{chunk_size}
use crunch_fs.FuseOps.{chunk_start, write_start, buffer_start, write_end, copy_size, existing_bytes}

pub length-existing_bytes : (old : Bytes) → length (existing_bytes old) ≡ chunk_size
unfolding existing_bytes
length-existing_bytes old =
    let el = min (length old) chunk_size in
    let whole : length (replicate {A = ℕ} chunk_size 0) ≡ chunk_size =
      length-replicate chunk_size 0 in
    length-overwrite (replicate chunk_size 0) 0 (take el old)
      (omega (arith, whole, length-take el old))
    ∙ whole

pub get_or-existing_bytes :
    (old : Bytes) (j : ℕ)
    → length old ≤ chunk_size
    → get_or (existing_bytes old) j 0 ≡ get_or old j 0
unfolding existing_bytes
get_or-existing_bytes old j small =
    let el = min (length old) chunk_size in
    let whole : length (replicate {A = ℕ} chunk_size 0) ≡ chunk_size =
      length-replicate chunk_size 0 in
    let long : length (take el old) ≡ length old = omega (arith, length-take el old) in
    let same : j - 0 ≡ j = omega arith in
    get_or-overwrite (replicate chunk_size 0) 0 (take el old) j 0 (omega (arith, whole, long))
    ∙ rw (long, same, get_or-take el old j 0, get_or-replicate chunk_size 0 j)
        (ground (arith, get_or-behind old j 0))

-- Where the part of `buf` goes, for a chunk that the write touches.
module _ (offset size ci : ℕ) (fits : offset + size < u64_mod) (some_bytes : 1 ≤ size)
    (first : offset / chunk_size ≤ ci) (last : chunk_start ci < offset + size) where
  pub record Placed (ws bo we tc : ℕ) : Type 0 where
    pub end : ws + tc ≡ we
    pub room : we ≤ chunk_size
    pub inside : bo + tc ≤ size
    pub shift : chunk_start ci + ws ≡ offset + bo
    pub reach : we ≡ min chunk_size (offset + size - chunk_start ci)
    pub edge : (bo ≡ 0) ⊎ (ws ≡ 0)

  pub Placed-here :
      Placed
        (write_start offset ci)
        (buffer_start offset ci)
        (write_end offset size ci)
        (copy_size offset size ci)
  Placed-here =
      let whole : sub64 ((offset + size) % u64_mod) (chunk_start ci)
          ≡ offset + size - chunk_start ci =
        omega arith in
      elim (Bool-cases (ci == offset / chunk_size)) [
        | inl here ↦
            let e : ci ≡ offset / chunk_size = ground arith in
            let tc : (if ltb size (
                    0
                    + (min chunk_size (offset + size - chunk_start ci) - (offset - chunk_start ci)))
                  then size - 0
                  else min chunk_size (offset + size - chunk_start ci) - (offset - chunk_start ci))
                ≡ min chunk_size (offset + size - chunk_start ci) - (offset - chunk_start ci) =
              ground arith in
            rw (here, whole, tc)
              (record {
                end = omega arith;
                room = omega arith;
                inside = omega arith;
                shift = omega arith;
                reach = refl;
                edge = inl refl;
              })
        | inr behind ↦
            let below : offset / chunk_size < ci = ground arith in
            let bo = (ci - offset / chunk_size) * chunk_size - offset % chunk_size in
            let tc : (if ltb size (bo + (min chunk_size (offset + size - chunk_start ci) - 0))
                  then size - bo
                  else min chunk_size (offset + size - chunk_start ci) - 0)
                ≡ min chunk_size (offset + size - chunk_start ci) - 0 =
              ground arith in
            rw (behind, whole, tc)
              (record {
                end = omega arith;
                room = omega arith;
                inside = omega arith;
                shift = omega arith;
                reach = refl;
                edge = inr refl;
              })
      ]

-- The same byte, found by its place in the chunk and by its place in the file.
pub same_byte :
    (buf : Bytes) (a ws bo we tc cs offset j : ℕ)
    → ws + tc ≡ we
    → cs + ws ≡ offset + bo
    → we ≡ min chunk_size (offset + length buf - cs)
    → (bo ≡ 0) ⊎ (ws ≡ 0)
    → cs < offset + length buf
    → j < chunk_size
    → (if ltb j ws
        then a
        else if ltb j (ws + tc)
        then (if ltb (j - ws) tc then get_or buf (bo + (j - ws)) 0 else 0)
        else a)
      ≡ (if ltb (cs + j) offset
          then a
          else if ltb (cs + j) (offset + length buf)
          then get_or buf (cs + j - offset) 0
          else a)
same_byte buf a ws bo we tc cs offset j end shift reach (inl start) last lt =
    elim (Bool-cases (ltb j ws)) [
      | inl before ↦ let e : ltb (cs + j) offset ≡ true = ground arith in rw (before, e) refl
      | inr behind ↦
          let e : ltb (cs + j) offset ≡ false = ground arith in
          let place : ltb j (ws + tc) ≡ true → bo + (j - ws) ≡ cs + j - offset =
            λ h. ground arith in
          rw (behind, e)
            (ground
              (arith, λ (h : ltb j (ws + tc) ≡ true). ap (λ (k : ℕ). get_or buf k 0) (place h)))
    ]
same_byte buf a ws bo we tc cs offset j end shift reach (inr start) last lt =
    let before : ltb j ws ≡ false = ground arith in
    let e : ltb (cs + j) offset ≡ false = ground arith in
    let place : bo + (j - ws) ≡ cs + j - offset = omega arith in
    rw (before, e, place) (ground arith)
