-- ===== src/Disk/Calm.antt =====
-- A disk with no faults to come: the steps of a block succeed.
use crunch_fs.Base.{
  ℕ, ◌≡◌, refl, ◌∙◌, true, Option, none, some, List, [], ◌∷◌, ◌++◌, Str, str_eq_refl, Result, ok,
  err, failed, ◌⊎◌, inl, inr,
}
use crunch_fs.Base.Bytes.{Bytes}
use crunch_fs.Disk.{
  Disk, Act, meet, attempt, stream, open_read, open_trunc, write, write_all, close, rename, remove,
  content, update, ◌>>◌,
}
use crunch_fs.Disk.Ends.{Ends, Ends-then}

pub attempt-calm :
    {A : Type 0} (works : Act A) (fails : ℕ → Act A) (d : Disk)
    → d.faults ≡ []
    → attempt works fails d ≡ works d
unfolding attempt meet
attempt-calm works fails d e = rw (e, meet)

pub open_trunc-calm :
    (p : Str) (d : Disk)
    → d.faults ≡ []
    → open_trunc p d ≡ (ok tt, record d { files = update d.files p (some []) })
unfolding open_trunc
open_trunc-calm p d calm = attempt-calm _ _ d calm

pub write-calm :
    (p : Str) (b : Bytes) (d : Disk)
    → d.faults ≡ []
    → write p b d ≡ (ok tt, record d { files = update d.files p (some (content (d.files p) ++ b)) })
unfolding write
write-calm p b d calm = attempt-calm _ _ d calm

pub close-calm : (p : Str) (d : Disk) → d.faults ≡ [] → close p d ≡ (ok tt, d)
unfolding close
close-calm p d calm = attempt-calm _ _ d calm

pub open_read-calm :
    (p : Str) (b : Bytes) (d : Disk)
    → d.faults ≡ []
    → d.files p ≡ some b
    → open_read p d ≡ (ok (b, true), d)
unfolding open_read
open_read-calm p b d calm there =
    attempt-calm _ _ d calm ∙ rw (there, stream) (attempt-calm _ _ d calm)

pub open_read-missing :
    (p : Str) (d : Disk) → d.faults ≡ [] → d.files p ≡ none → open_read p d ≡ (err failed, d)
unfolding open_read
open_read-missing p d calm missing = attempt-calm _ _ d calm ∙ rw (missing, stream) refl

-- The action returns, and no fault is to come.
abbrev pub Succeeds : {A : Type 0} → Result A × Disk → Type 0
Succeeds r = Ends (λ _ d. d.faults ≡ []) (λ _. ⊥) r

-- No fault is to come, and the file is there.
record Ready (t : Str) (d : Disk) : Type 0 where
  calm : d.faults ≡ []
  bytes : Bytes
  there : d.files t ≡ some bytes

abbrev Readies : {A : Type 0} → Str → Result A × Disk → Type 0
Readies t r = Ends (λ _. Ready t) (λ _. ⊥) r

open_trunc-Ready : (t : Str) (d : Disk) → d.faults ≡ [] → Readies t (open_trunc t d)
unfolding open_trunc
open_trunc-Ready t d calm =
    rw (attempt-calm _ _ d calm) (record { calm = calm; bytes = []; there = rw (str_eq_refl t) })

write-Ready : (t : Str) (b : Bytes) (d : Disk) → Ready t d → Readies t (write t b d)
unfolding write
write-Ready t b d r =
    rw (attempt-calm _ _ d r.calm)
      (record { calm = r.calm; bytes = content (d.files t) ++ b; there = rw (str_eq_refl t) })

write_all-Ready : (t : Str) (bs : List Bytes) (d : Disk) → Ready t d → Readies t (write_all t bs d)
unfolding write_all
write_all-Ready t [] d r = r
write_all-Ready t (b ∷ bs) d r =
    Ends-then _ _ _ _ (write t b d) (λ _. write_all t bs) (write-Ready t b d r)
      (λ _ d' k. write_all-Ready t bs d' k) (λ d' k. k)

close-Ready : (t : Str) (d : Disk) → Ready t d → Readies t (close t d)
unfolding close
close-Ready t d r = rw (attempt-calm _ _ d r.calm) r

rename-Succeeds : (t p : Str) (d : Disk) → Ready t d → Succeeds (rename t p d)
unfolding rename
rename-Succeeds t p d r = rw (attempt-calm _ _ d r.calm) (rw r.there r.calm)

pub replace-Succeeds :
    (t p : Str) (bs : List Bytes) (d : Disk)
    → d.faults ≡ []
    → Succeeds ((do open_trunc t; write_all t bs; close t; rename t p) d)
replace-Succeeds t p bs d calm =
    Ends-then _ _ _ _ (open_trunc t d) _ (open_trunc-Ready t d calm)
      (λ _ d₁ opened.
        Ends-then _ _ _ _ (write_all t bs d₁) _ (write_all-Ready t bs d₁ opened)
          (λ _ d₂ full.
            Ends-then _ _ _ _ (close t d₂) _ (close-Ready t d₂ full)
              (λ _ d₃ closed. rename-Succeeds t p d₃ closed) (λ d₃ k. k))
          (λ d₂ k. k))
      (λ d₁ k. k)

pub remove-calm :
    (p : Str) (d : Disk)
    → d.faults ≡ []
    → remove p d ≡ (ok tt, record d { files = update d.files p none })
unfolding remove
remove-calm p d calm = attempt-calm _ _ d calm

remove-Succeeds : (p : Str) (d : Disk) → d.faults ≡ [] → Succeeds (remove p d)
unfolding remove
remove-Succeeds p d calm = rw (attempt-calm _ _ d calm) calm

-- With no fault to come a file that can be read is read, and one that is missing is a failure.
stream-calm :
    (o : Option Bytes) (d : Disk)
    → d.faults ≡ []
    → (stream o d ≡ (err failed, d)) ⊎ ((b : Bytes) × (stream o d ≡ (ok (b, true), d)))
stream-calm none d calm = inl refl
stream-calm (some b) d calm = inr (b, attempt-calm _ _ d calm)

pub open_read-cases :
    (p : Str) (d : Disk)
    → d.faults ≡ []
    → (open_read p d ≡ (err failed, d)) ⊎ ((b : Bytes) × (open_read p d ≡ (ok (b, true), d)))
unfolding open_read
open_read-cases p d calm = rw (attempt-calm _ _ d calm) (stream-calm (d.files p) d calm)
