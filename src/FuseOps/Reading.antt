-- ===== src/FuseOps/Reading.antt =====
-- `cfs_read` gives the bytes of the content.
use crunch_fs.Base.{
  ℕ, zero, suc, ◌+◌, ◌-◌, ◌*◌, ◌/◌, ◌%◌, ◌≤◌, ◌<◌, min, ◌≡◌, refl, ap, ◌∙◌, sym, true, false, List,
  [], ◌∷◌, ◌++◌, length, Str, take, drop, take-add, drop-drop, length-take, length-drop, some, ltb,
  leb, ◌==◌, Bool-cases, inl, inr, arith,
}
use crunch_fs.Base.Bytes.{Bytes, u64_mod, sub64}
use crunch_fs.Base.Buffer.{get_or, get_or-take, get_or-drop, bytes_ext}
use crunch_fs.Zstd.{Zstd}
use crunch_fs.Disk.{Disk}
use crunch_fs.Passthrough.Layout.{Config}
use crunch_fs.ChunkStore.{chunk_size}
use crunch_fs.ChunkStore.RoundTrip.{read_chunk-Holds, chunk_disk_size-Holds}
use crunch_fs.FuseOps.{chunk_start, last_chunk, fetch, fetch_all, copy_out, copied_out, read_bytes}
use crunch_fs.FuseOps.Merge.{IsChunk}
use crunch_fs.FuseOps.Stored.{Stored}

-- Chunks of the content `c`, from `ci` on.
AreChunks : Bytes → ℕ → List Bytes → Type 0
AreChunks c ci [] = Unit
AreChunks c ci (x ∷ xs) = IsChunk c ci x × AreChunks c (suc ci) xs

module _ (z : Zstd) (cfg : Config) (id : Str) (n : ℕ) (c : Bytes) (d : Disk)
    (s : Stored z cfg id n c d) where
  fetch-Stored :
      (i : ℕ)
      → chunk_start i < length c
      → (x : Bytes) × (fetch z cfg id i d ≡ (some x, d)) × IsChunk c i x
  unfolding fetch
  fetch-Stored i before =
      let k = s.chunks i (omega (arith, s.enough)) in
      let on_disk : (length k.held.blob == 0) ≡ false = ground (arith, k.held.full) in
      let some_bytes : (length k.chunk == 0) ≡ false = ground (arith, k.part.long) in
      (
        k.chunk,
        rw
            (
              chunk_disk_size-Holds z cfg id i k.chunk d s.calm k.held,
              on_disk,
              read_chunk-Holds z cfg id i k.chunk d s.calm k.held,
              some_bytes,
            )
            refl,
        k.part,
      )

  fetch_all-Stored :
      (k ci : ℕ)
      → ((i : ℕ) → i < ci + k → chunk_start i < length c)
      → (xs : List Bytes) × (fetch_all z cfg id k ci d ≡ (some xs, d))
        × (length xs ≡ k)
        × AreChunks c ci xs
  unfolding fetch_all AreChunks
  fetch_all-Stored zero ci before = ([], refl, refl, tt)
  fetch_all-Stored (suc k) ci before =
      let (x, here, part) = fetch-Stored ci (before ci (omega arith)) in
      let (xs, later, size, parts) = fetch_all-Stored k (suc ci) (λ i lt. before i (omega arith)) in
      (x ∷ xs, rw (here, later) refl, ap suc size, (part, parts))

copy_nothing : (off : ℕ) (xs : List Bytes) → copy_out 0 off xs ≡ []
unfolding copy_out take
copy_nothing off [] = refl
copy_nothing off (x ∷ xs) =
    let t : min (length x - off) 0 ≡ 0 = omega arith in
    let rest = copy_nothing 0 xs in
    elim (Bool-cases (leb (length x) off)) [ inl e ↦ rw e refl | inr e ↦ rw (e, t, rest) refl ]

-- A part of a chunk is a part of the content.
take-IsChunk :
    (c x : Bytes) (ci off t : ℕ)
    → IsChunk c ci x
    → off + t ≤ min chunk_size (length c - chunk_start ci)
    → take t (drop off x) ≡ take t (drop (chunk_start ci + off) c)
take-IsChunk c x ci off t part inside =
    let lx : length (take t (drop off x)) ≡ t =
      length-take t (drop off x) ∙ rw (length-drop off x) (omega (arith, part.long)) in
    let lc : length (take t (drop (chunk_start ci + off) c)) ≡ t =
      length-take t (drop (chunk_start ci + off) c)
      ∙ rw (length-drop (chunk_start ci + off) c) (omega arith) in
    bytes_ext _ _ (lx ∙ sym lc) (λ j lt.
      let before : ltb j t ≡ true = ground arith in
      get_or-take t (drop off x) j 0
      ∙ rw (before, get_or-drop off x j 0)
          (part.bytes (off + j) (omega arith)
            ∙ sym (
                get_or-take t (drop (chunk_start ci + off) c) j 0
                ∙ rw (before, get_or-drop (chunk_start ci + off) c j 0)
                    (ap (λ (k : ℕ). get_or c k 0) (omega arith)))))

-- A part of a list, in two pieces.
take_pieces :
    (c : Bytes) (a t left : ℕ)
    → t ≤ left
    → take t (drop a c) ++ take (left - t) (drop (a + t) c) ≡ take left (drop a c)
take_pieces c a t left h =
    let e : t + (left - t) ≡ left = omega arith in
    sym (
      ap (λ (l : ℕ). take l (drop a c)) (sym e)
      ∙ take-add t (left - t) (drop a c)
      ∙ ap (λ (r : Bytes). take t (drop a c) ++ take (left - t) r) (drop-drop t a c))

copy_out-AreChunks :
    (c : Bytes) (xs : List Bytes) (ci left off : ℕ)
    → AreChunks c ci xs
    → off < chunk_size
    → chunk_start ci + off + left ≤ length c
    → off + left ≤ length xs * chunk_size
    → copy_out left off xs ≡ take left (drop (chunk_start ci + off) c)
unfolding copy_out AreChunks take
copy_out-AreChunks c [] ci left off parts low inside full =
    let e : left ≡ 0 = omega arith in rw e refl
copy_out-AreChunks c (x ∷ xs) ci left off (part, parts) low inside full =
    let t = min (length x - off) left in
    let a = chunk_start ci + off in
    elim (Bool-cases (left == 0)) [
      | inl e ↦
          let e' : left ≡ 0 = ground arith in
          ap (λ (l : ℕ). copy_out l off (x ∷ xs)) e'
          ∙ copy_nothing off (x ∷ xs)
          ∙ sym (ap (λ (l : ℕ). take l (drop a c)) e')
      | inr e ↦
          let some_left : 1 ≤ left = ground arith in
          let more : leb (length x) off ≡ false = ground (arith, part.long) in
          let piece = take-IsChunk c x ci off t part (omega (arith, part.small)) in
          let rest : copy_out (left - t) 0 xs ≡ take (left - t) (drop (a + t) c) =
            elim (Bool-cases (left - t == 0)) [
              | inl done ↦
                  let e' : left - t ≡ 0 = ground arith in
                  ap (λ (l : ℕ). copy_out l 0 xs) e'
                  ∙ copy_nothing 0 xs
                  ∙ sym (ap (λ (l : ℕ). take l (drop (a + t) c)) e')
              | inr goes ↦
                  let next : chunk_start (suc ci) + 0 ≡ a + t =
                    ground (arith, part.small, part.long) in
                  copy_out-AreChunks c xs (suc ci) (left - t) 0 parts (omega arith)
                    (ground (arith, next)) (omega arith)
                  ∙ ap (λ (k : ℕ). take (left - t) (drop k c)) next
            ] in
          rw (more, piece, rest) (take_pieces c a t left (omega arith))
    ]

module _ (z : Zstd) (cfg : Config) (id : Str) where
  -- Where the chunks of a file hold its content, a read of at least one byte inside it gives these bytes
  -- of the content, and leaves the disk as it was.
  pub read_bytes-Stored :
      (n : ℕ) (c : Bytes) (d : Disk)
      → Stored z cfg id n c d
      → (size offset : ℕ) → 1 ≤ size
      → offset + size ≤ length c
      → length c < u64_mod
      → read_bytes z cfg id size offset d ≡ (some (take size (drop offset c)), d)
  unfolding read_bytes copied_out
  read_bytes-Stored n c d s size offset some_bytes inside fits =
      let fc = offset / chunk_size in
      let lc = last_chunk offset size in
      let nc = (sub64 lc fc + 1) % u64_mod in
      let ends : (lc * chunk_size < offset + size)
          × (offset + size ≤ suc lc * chunk_size)
          × (fc ≤ lc) =
        omega arith in
      let count : nc ≡ suc lc - fc = omega (arith, ends) in
      let (xs, got, len, parts) =
        fetch_all-Stored z cfg id n c d s nc fc (λ i lt. omega (arith, ends, count)) in
      let off = offset - chunk_start fc in
      let at : chunk_start fc + off ≡ offset = omega arith in
      let copied =
        copy_out-AreChunks c xs fc size off parts (omega arith) (omega arith)
          (omega (arith, ends, count, len)) in
      rw (got, copied_out, copied, at) refl
