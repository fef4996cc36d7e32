-- ===== src/ChunkStore/Removed.antt =====
-- The chunks that `remove_chunks` takes away.
use mathlib.Core.Path.{subst}
use crunch_fs.Base.{
  ℕ, zero, suc, ◌+◌, ◌≤◌, ◌<◌, ◌≡◌, refl, ◌∙◌, false, none, [], Str, str_eq, str_eq_refl, ok,
  Bool-cases, inl, inr, ◌==◌, arith,
}
use crunch_fs.Base.Bytes.{u64_mod}
use crunch_fs.Disk.{Disk, update, remove}
use crunch_fs.Disk.Calm.{attempt-calm}
use crunch_fs.Passthrough.Layout.{Config}
use crunch_fs.ChunkStore.{chunk_path, throws, remove_chunk, remove_from, remove_chunks}
use crunch_fs.ChunkStore.Paths.{chunk_path_ne}

module _ (cfg : Config) (id : Str) where
  -- The chunks from `i` up to `stop` are gone, and nothing else.
  pub record Removed (i stop : ℕ) (d d' : Disk) : Type 0 where
    pub calm : d'.faults ≡ []
    pub gone : (j : ℕ) → i ≤ j → j < stop → d'.files (chunk_path cfg id j) ≡ none
    pub others :
        (q : Str)
        → ((j : ℕ) → i ≤ j → j < stop → str_eq (chunk_path cfg id j) q ≡ false)
        → d'.files q ≡ d.files q

  remove_chunk-calm :
      (i : ℕ) (d : Disk)
      → d.faults ≡ []
      → remove_chunk cfg id i d
        ≡ (ok tt, record d { files = update d.files (chunk_path cfg id i) none })
  unfolding remove_chunk throws remove
  remove_chunk-calm i d calm = rw (attempt-calm _ _ d calm, throws) refl

  pub remove_from-Removed :
      (k i : ℕ) (d : Disk)
      → d.faults ≡ []
      → i + k ≤ u64_mod
      → (d' : Disk) × (remove_from cfg id i k d ≡ (ok tt, d')) × Removed i (i + k) d d'
  unfolding remove_from
  remove_from-Removed zero i d calm small = (
    d,
    refl,
    record { calm = calm; gone = λ j lo hi. absurd (omega arith); others = λ q ne. refl },
  )
  remove_from-Removed (suc k) i d calm small =
      let p = chunk_path cfg id i in
      let d₁ : Disk = record d { files = update d.files p none } in
      let (d', done, r) = remove_from-Removed k (suc i) d₁ calm (omega arith) in
      (
        d',
        rw (remove_chunk-calm i d calm) done,
        record {
          calm = r.calm;
          gone = λ j lo hi. elim (Bool-cases (j == i)) [
            | inl e ↦
                let e' : i ≡ j = ground arith in
                subst (λ m. d'.files (chunk_path cfg id m) ≡ none) e'
                  (r.others p (λ m mlo mhi.
                      chunk_path_ne cfg id m i (omega arith) (omega arith) (λ same. omega arith))
                    ∙ rw (str_eq_refl p) refl)
            | inr ne ↦ r.gone j (ground arith) (omega arith)
          ];
          others = λ q ne.
              r.others q (λ j lo hi. ne j (omega arith) (omega arith))
              ∙ rw (ne i (omega arith) (omega arith)) refl;
        },
      )

  -- Where the disk meets no fault, `remove_chunks` returns, the first `n` chunks are gone and every other
  -- file is as it was.
  pub remove_chunks-Removed :
      (n : ℕ) (d : Disk)
      → d.faults ≡ []
      → n ≤ u64_mod
      → (d' : Disk) × (remove_chunks cfg id n d ≡ (ok tt, d')) × Removed 0 n d d'
  unfolding remove_chunks
  remove_chunks-Removed n d calm small =
      let (d', done, r) = remove_from-Removed n 0 d calm (omega arith) in
      (
        d',
        done,
        record {
          calm = r.calm;
          gone = λ j lo hi. r.gone j lo (omega arith);
          others = λ q ne. r.others q (λ j lo hi. ne j lo (omega arith));
        },
      )
