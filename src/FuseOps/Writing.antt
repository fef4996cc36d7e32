-- ===== src/FuseOps/Writing.antt =====
-- `cfs_write` keeps a file's chunks those of its content.
use mathlib.Core.Path.{subst}
use crunch_fs.Base.{
  ℕ, zero, suc, ◌+◌, ◌-◌, ◌*◌, ◌/◌, ◌≤◌, ◌<◌, max, ◌≡◌, refl, ◌∙◌, false, [], length, Str, ltb,
  ◌==◌, str_eq, Bool-cases, inl, inr, ◌⊎◌, arith,
}
use crunch_fs.Base.Bytes.{Bytes, u64_mod}
use crunch_fs.Base.Buffer.{overwrite, length-overwrite_within}
use crunch_fs.Zstd.{Zstd, ZstdLaws}
use crunch_fs.Disk.{Disk}
use crunch_fs.Passthrough.Layout.{Config}
use crunch_fs.ChunkStore.{chunk_size, chunk_path}
use crunch_fs.ChunkStore.Paths.{chunk_path_ne}
use crunch_fs.ChunkStore.RoundTrip.{Holds-same, read_chunk-Holds, write_chunk-Written}
use crunch_fs.FuseOps.{
  chunk_start, last_chunk, merged, old_chunk, store_merged, rewrite_chunk, rewrite_chunks,
  write_bytes,
}
use crunch_fs.FuseOps.Merge.{IsChunk, merged-IsChunk, untouched-IsChunk}
use crunch_fs.FuseOps.Stored.{Kept, Stored}

pub nothing-IsChunk : (c : Bytes) (i : ℕ) → length c ≤ chunk_start i → IsChunk c i []
nothing-IsChunk c i beyond = record {
  small = omega arith;
  long = omega arith;
  bytes = λ j lt. absurd (omega arith);
}

module _ (z : Zstd) (cfg : Config) (id : Str) where
  -- Only the file of the chunk decides.
  pub Kept-same :
      (c : Bytes) (i : ℕ) (d d' : Disk)
      → d'.files (chunk_path cfg id i) ≡ d.files (chunk_path cfg id i)
      → Kept z cfg id c i d
      → Kept z cfg id c i d'
  Kept-same c i d d' same k = record {
    chunk = k.chunk;
    held = Holds-same z cfg id i k.chunk d d' same k.held;
    part = k.part;
  }

  -- What the turns for the chunks from `ci` up to `stop` leave.
  pub record Rewritten (c : Bytes) (ci stop : ℕ) (d d' : Disk) : Type 0 where
    pub calm : d'.faults ≡ []
    pub chunks : (i : ℕ) → ci ≤ i → i < stop → Kept z cfg id c i d'
    pub others :
        (q : Str)
        → ((i : ℕ) → ci ≤ i → i < stop → str_eq (chunk_path cfg id i) q ≡ false)
        → d'.files q ≡ d.files q

module _ (z : Zstd) (laws : ZstdLaws z) (cfg : Config) (id : Str) (n : ℕ) (c buf : Bytes)
    (offset : ℕ) (fits : offset + length buf < u64_mod) (some_bytes : 1 ≤ length buf)
    (within : offset ≤ length c) (enough : length c ≤ n * chunk_size) (n_fits : n < u64_mod) where
  -- What `read_chunk` gave is the chunk of the old content.
  old_chunk-IsChunk :
      (ci : ℕ) (d : Disk)
      → d.faults ≡ []
      → (ci < n → Kept z cfg id c ci d)
      → (x : Bytes) × (old_chunk z cfg id n ci d ≡ (x, d)) × IsChunk c ci x
  unfolding old_chunk
  old_chunk-IsChunk ci d calm kept = elim (Bool-cases (ltb ci n)) [
    | inl there ↦
        let k = kept (ground arith) in
        rw there (k.chunk, read_chunk-Holds z cfg id ci k.chunk d calm k.held, k.part)
    | inr beyond ↦ rw beyond ([], refl, nothing-IsChunk c ci (ground arith))
  ]

  rewrite_chunk-Rewritten :
      (ci : ℕ) (d : Disk)
      → d.faults ≡ []
      → offset / chunk_size ≤ ci
      → chunk_start ci < offset + length buf
      → (ci < n → Kept z cfg id c ci d)
      → Rewritten z cfg id
          (overwrite c offset buf)
          ci
          (suc ci)
          d
          (rewrite_chunk z cfg id n offset buf ci d)
  unfolding rewrite_chunk store_merged
  rewrite_chunk-Rewritten ci d calm first last kept =
      let (old, was, part) = old_chunk-IsChunk ci d calm kept in
      let now = merged-IsChunk c buf old offset ci fits some_bytes first last within part in
      let (csz, d', wrote, _, w) =
        write_chunk-Written z cfg id laws ci (merged offset buf ci old) d calm
          (omega (arith, now.small)) in
      rw (was, store_merged, wrote)
        (record {
          calm = w.calm;
          chunks = λ i lo hi.
              let e : ci ≡ i = omega arith in
              subst (λ k. Kept z cfg id (overwrite c offset buf) k d') e
                (record { chunk = merged offset buf ci old; held = w.holds; part = now });
          others = λ q ne. w.others q (ne ci (omega arith) (omega arith));
        })

  rewrite_chunks-Rewritten :
      (k ci : ℕ) (d : Disk)
      → d.faults ≡ []
      → offset / chunk_size ≤ ci
      → ((i : ℕ) → i < ci + k → chunk_start i < offset + length buf)
      → ((i : ℕ) → ci ≤ i → i < n → Kept z cfg id c i d)
      → Rewritten z cfg id
          (overwrite c offset buf)
          ci
          (ci + k)
          d
          (rewrite_chunks z cfg id n offset buf k ci d)
  unfolding rewrite_chunks
  rewrite_chunks-Rewritten zero ci d calm first last kept = record {
    calm = calm;
    chunks = λ i lo hi. absurd (omega arith);
    others = λ q ne. refl;
  }
  rewrite_chunks-Rewritten (suc k) ci d calm first last kept =
      let c' = overwrite c offset buf in
      let d₁ = rewrite_chunk z cfg id n offset buf ci d in
      let here : chunk_start ci < offset + length buf = last ci (omega arith) in
      let one = rewrite_chunk-Rewritten ci d calm first here (λ lt. kept ci (omega arith) lt) in
      let apart : (i j : ℕ)
          → i ≡ ci
          → ci < j
          → j < u64_mod
          → str_eq (chunk_path cfg id i) (chunk_path cfg id j) ≡ false =
        λ i j e lt small. chunk_path_ne cfg id i j (omega arith) small (λ same. omega arith) in
      let rest =
        rewrite_chunks-Rewritten k (suc ci) d₁ one.calm (omega arith) (λ i lt. last i (omega arith))
          (λ i lo hi.
            Kept-same z cfg id c i d d₁
              (one.others (chunk_path cfg id i)
                (λ j jlo jhi. apart j i (omega arith) lo (omega arith)))
              (kept i (omega arith) hi)) in
      let far : (i : ℕ) → i < ci + suc k → i < u64_mod = λ i hi. omega (arith, last i hi) in
      let d₂ = rewrite_chunks z cfg id n offset buf k (suc ci) d₁ in
      record {
        calm = rest.calm;
        chunks = λ i lo hi. elim (Bool-cases (i == ci)) [
          | inl e ↦
              let e' : ci ≡ i = ground arith in
              Kept-same z cfg id c' i d₁ d₂
                (rest.others (chunk_path cfg id i) (λ j jlo jhi.
                  chunk_path_ne cfg id j i (far j (omega arith)) (far i hi) (λ same. omega arith)))
                (one.chunks i lo (omega arith))
          | inr ne ↦ rest.chunks i (ground arith) (omega arith)
        ];
        others = λ q ne.
            rest.others q (λ i lo hi. ne i (omega arith) (omega arith))
            ∙ one.others q (λ i lo hi. ne i (omega arith) (omega arith));
      }

  -- A write of at least one byte, at most at the end of the file and below 2^64, leaves the chunks of the
  -- content with the write in it, on a disk on which nothing but chunks of the file has changed.
  pub write_bytes-Stored :
      (d : Disk)
      → Stored z cfg id n c d
      → (Stored z cfg id
          (max n (suc (last_chunk offset (length buf))))
          (overwrite c offset buf)
          (write_bytes z cfg id n offset buf d))
        × ((q : Str)
            → ((i : ℕ) → i < u64_mod → str_eq (chunk_path cfg id i) q ≡ false)
            → (write_bytes z cfg id n offset buf d).files q ≡ d.files q)
  unfolding write_bytes
  write_bytes-Stored d s =
      let c' = overwrite c offset buf in
      let fc = offset / chunk_size in
      let lc = last_chunk offset (length buf) in
      let k = suc lc - fc in
      let d' = rewrite_chunks z cfg id n offset buf k fc d in
      let size = length-overwrite_within c offset buf within in
      let ends : (lc * chunk_size < offset + length buf)
          × (offset + length buf ≤ suc lc * chunk_size)
          × (fc ≤ lc) =
        omega arith in
      let w =
        rewrite_chunks-Rewritten k fc d s.calm (omega arith) (λ i lt. omega (arith, ends))
          (λ i lo hi. s.chunks i hi) in
      let untouched : (i : ℕ) → (i < fc) ⊎ (lc < i) → i < max n (suc lc) → Kept z cfg id c' i d' =
        λ i out hi.
          let old = s.chunks i (omega (arith, enough, ends, out)) in
          let moved =
            Kept-same z cfg id c i d d'
              (w.others (chunk_path cfg id i) (λ j jlo jhi.
                chunk_path_ne cfg id j i (omega (arith, ends)) (omega (arith, ends))
                  (λ same. omega (arith, out, ends))))
              old in
          record {
            chunk = moved.chunk;
            held = moved.held;
            part =
                untouched-IsChunk c buf moved.chunk offset i within
                  (elim out [ inl before ↦ inl before | inr behind ↦ inr (omega (arith, ends)) ])
                  moved.part;
          } in
      (
        record {
          calm = w.calm;
          enough = omega (arith, size, enough, ends);
          chunks = λ i hi. elim (Bool-cases (ltb i fc)) [
            | inl before ↦ untouched i (inl (ground arith)) hi
            | inr from ↦ elim (Bool-cases (ltb lc i)) [
              | inl behind ↦ untouched i (inr (ground arith)) hi
              | inr upto ↦ w.chunks i (ground arith) (ground (arith, ends))
            ]
          ];
        },
        λ q ne. w.others q (λ i lo hi. ne i (omega (arith, ends))),
      )
