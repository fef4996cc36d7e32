-- ===== src/FuseOps/Merge.antt =====
-- The chunk that `cfs_write` stores is that of the new content.
use crunch_fs.Base.{
  ℕ, ◌+◌, ◌-◌, ◌/◌, ◌≤◌, ◌<◌, min, max, ◌≡◌, ◌∙◌, sym, true, length, take, drop, length-take,
  length-drop, ltb, if◌then◌else◌, inl, inr, ◌⊎◌, arith,
}
use crunch_fs.Base.Bytes.{Bytes, u64_mod}
use crunch_fs.Base.Buffer.{
  overwrite, get_or, get_or-take, get_or-drop, length-overwrite, get_or-overwrite,
  get_or-overwrite_within, length-overwrite_within,
}
use crunch_fs.ChunkStore.{chunk_size}
use crunch_fs.FuseOps.{
  chunk_start, write_start, buffer_start, write_end, copy_size, existing_bytes, merged,
}
use crunch_fs.FuseOps.Placed.{
  length-existing_bytes, get_or-existing_bytes, Placed, Placed-here, same_byte,
}

-- The chunk `ci` of the content `c`: it may hold more bytes than the content has there, which nobody
-- reads.
pub record IsChunk (c : Bytes) (ci : ℕ) (x : Bytes) : Type 0 where
  pub small : length x ≤ chunk_size
  pub long : min chunk_size (length c - chunk_start ci) ≤ length x
  pub bytes :
      (j : ℕ)
      → j < min chunk_size (length c - chunk_start ci)
      → get_or x j 0 ≡ get_or c (chunk_start ci + j) 0

module _ (c buf old : Bytes) (offset ci : ℕ) (fits : offset + length buf < u64_mod)
    (some_bytes : 1 ≤ length buf) (first : offset / chunk_size ≤ ci)
    (last : chunk_start ci < offset + length buf) (within : offset ≤ length c)
    (was : IsChunk c ci old) where
  placed :
      Placed offset
        (length buf)
        ci
        fits
        some_bytes
        first
        last
        (write_start offset ci)
        (buffer_start offset ci)
        (write_end offset (length buf) ci)
        (copy_size offset (length buf) ci)
  placed = Placed-here offset (length buf) ci fits some_bytes first last

  copied : Bytes
  copied = take (copy_size offset (length buf) ci) (drop (buffer_start offset ci) buf)

  length-copied : length copied ≡ copy_size offset (length buf) ci
  unfolding copied
  length-copied =
      let tc = copy_size offset (length buf) ci in
      let bo = buffer_start offset ci in
      let inside : bo + tc ≤ length buf = placed.inside in
      length-take tc (drop bo buf) ∙ (rw (length-drop bo buf) (omega arith))

  written_room : write_start offset ci + length copied ≤ length (existing_bytes old)
  written_room =
      let end : write_start offset ci + copy_size offset (length buf) ci
          ≡ write_end offset (length buf) ci =
        placed.end in
      let room : write_end offset (length buf) ci ≤ chunk_size = placed.room in
      rw (length-copied, length-existing_bytes old, end) room

  length-merged :
      length (merged offset buf ci old)
      ≡ max (min (length old) chunk_size) (write_end offset (length buf) ci)
  unfolding merged copied
  length-merged =
      let room : write_end offset (length buf) ci ≤ chunk_size = placed.room in
      let whole : length (overwrite (existing_bytes old) (write_start offset ci) copied)
          ≡ chunk_size =
        length-overwrite (existing_bytes old) (write_start offset ci) copied written_room
        ∙ length-existing_bytes old in
      length-take (max (min (length old) chunk_size) (write_end offset (length buf) ci))
        (overwrite (existing_bytes old) (write_start offset ci) copied)
      ∙ rw whole (omega arith)

  -- The bytes of the chunk: those of `buf` where the write goes, and the old ones elsewhere.
  get_or-merged :
      (j : ℕ)
      → j < max (min (length old) chunk_size) (write_end offset (length buf) ci)
      → get_or (merged offset buf ci old) j 0 ≡ (
          if ltb (chunk_start ci + j) offset
          then get_or old j 0
          else if ltb (chunk_start ci + j) (offset + length buf)
          then get_or buf (chunk_start ci + j - offset) 0
          else get_or old j 0)
  unfolding merged copied
  get_or-merged j lt =
      let ws = write_start offset ci in
      let bo = buffer_start offset ci in
      let we = write_end offset (length buf) ci in
      let tc = copy_size offset (length buf) ci in
      let end : ws + tc ≡ we = placed.end in
      let shift : chunk_start ci + ws ≡ offset + bo = placed.shift in
      let reach : we ≡ min chunk_size (offset + length buf - chunk_start ci) = placed.reach in
      let ex = existing_bytes old in
      let there : ltb j (max (min (length old) chunk_size) we) ≡ true = ground arith in
      get_or-take (max (min (length old) chunk_size) we) (overwrite ex ws copied) j 0
      ∙ rw
          (
            there,
            get_or-overwrite ex ws copied j 0 written_room,
            length-copied,
            get_or-take tc (drop bo buf) (j - ws) 0,
            get_or-drop bo buf (j - ws) 0,
            get_or-existing_bytes old j was.small,
          )
          (same_byte buf (get_or old j 0) ws bo we tc (chunk_start ci) offset j end shift reach
            placed.edge last (omega (arith, was.small)))

  -- The chunk that `cfs_write` stores is that of the new content.
  pub merged-IsChunk : IsChunk (overwrite c offset buf) ci (merged offset buf ci old)
  merged-IsChunk =
      let we = write_end offset (length buf) ci in
      let reach : we ≡ min chunk_size (offset + length buf - chunk_start ci) = placed.reach in
      let size = length-overwrite_within c offset buf within in
      record {
        small = omega (arith, length-merged, was.small, reach);
        long = omega (arith, length-merged, was.small, was.long, reach, size);
        bytes = λ j lt.
            get_or-merged j (omega (arith, was.small, was.long, reach, size))
            ∙ (ground (arith, was.bytes j, size)
                ∙ sym (get_or-overwrite_within c offset buf (chunk_start ci + j) 0 within));
      }

-- A chunk that the write does not touch.
pub untouched-IsChunk :
    (c buf x : Bytes) (offset ci : ℕ)
    → offset ≤ length c
    → (ci < offset / chunk_size) ⊎ (offset + length buf ≤ chunk_start ci)
    → IsChunk c ci x
    → IsChunk (overwrite c offset buf) ci x
untouched-IsChunk c buf x offset ci within (inl before) was =
    let size = length-overwrite_within c offset buf within in
    record {
      small = was.small;
      long = omega (arith, was.long, size);
      bytes = λ j lt.
          was.bytes j (omega (arith, size))
          ∙ (ground arith
              ∙ sym (get_or-overwrite_within c offset buf (chunk_start ci + j) 0 within));
    }
untouched-IsChunk c buf x offset ci within (inr behind) was =
    let size = length-overwrite_within c offset buf within in
    record {
      small = was.small;
      long = omega (arith, was.long, size);
      bytes = λ j lt.
          was.bytes j (omega (arith, size))
          ∙ (ground arith
              ∙ sym (get_or-overwrite_within c offset buf (chunk_start ci + j) 0 within));
    }
