-- ===== src/Disk/Ends.antt =====
-- What an action leaves, whichever way it ends.
use crunch_fs.Base.{ℕ, ◌≡◌, refl, Option, none, some, List, [], ◌∷◌, Result, ok, err}
use crunch_fs.Disk.{Disk, Act, follow, meet, attempt}

-- `good` of the value and the disk where the action returns, `bad` of the disk where it fails.
abbrev pub Ends : {A : Type 0} → (A → Disk → Type 0) → (Disk → Type 0) → Result A × Disk → Type 0
Ends good bad (ok a, d) = good a d
Ends good bad (err e, d) = bad d

module _ {A : Type 0} (good : A → Disk → Type 0) (bad : Disk → Type 0) where
  pub Ends-bind :
      {B : Type 0} (r : Result B × Disk) (f : B → Act A)
      → Ends (λ b d. Ends good bad (f b d)) bad r
      → Ends good bad (follow r f)
  Ends-bind (ok b, d) f h = h
  Ends-bind (err e, d) f h = h

  pub Ends-map :
      (good' : A → Disk → Type 0) (bad' : Disk → Type 0) (r : Result A × Disk)
      → ((a : A) (d : Disk) → good' a d → good a d)
      → ((d : Disk) → bad' d → bad d)
      → Ends good' bad' r
      → Ends good bad r
  Ends-map good' bad' (ok a, d) f g h = f a d h
  Ends-map good' bad' (err e, d) f g h = g d h

  -- The rest of a block, after a step of which both ends are known.
  pub Ends-then :
      {B : Type 0} (good' : B → Disk → Type 0) (bad' : Disk → Type 0) (r : Result B × Disk)
      (f : B → Act A)
      → Ends good' bad' r
      → ((b : B) (d : Disk) → good' b d → Ends good bad (f b d))
      → ((d : Disk) → bad' d → bad d)
      → Ends good bad (follow r f)
  Ends-then good' bad' (ok b, d) f h g k = g b d h
  Ends-then good' bad' (err e, d) f h g k = k d h

  Ends-meet :
      (fs : List (Option ℕ)) (works : Act A) (fails : ℕ → Act A) (d : Disk)
      → ((fs' : List (Option ℕ)) → Ends good bad (works (record d { faults = fs' })))
      → ((n : ℕ) (fs' : List (Option ℕ)) → Ends good bad (fails n (record d { faults = fs' })))
      → Ends good bad (meet fs works fails d)
  unfolding meet
  Ends-meet [] works fails d w f = w d.faults
  Ends-meet (none ∷ fs) works fails d w f = w fs
  Ends-meet (some n ∷ fs) works fails d w f = f n fs

  -- An operation ends as it ought to with a fault and without one.
  pub Ends-attempt :
      (works : Act A) (fails : ℕ → Act A) (d : Disk)
      → ((fs : List (Option ℕ)) → Ends good bad (works (record d { faults = fs })))
      → ((n : ℕ) (fs : List (Option ℕ)) → Ends good bad (fails n (record d { faults = fs })))
      → Ends good bad (attempt works fails d)
  unfolding attempt
  Ends-attempt works fails d w f = Ends-meet d.faults works fails d w f

-- Two facts about the same end, where the action cannot fail.
pub Ends-both :
    {A : Type 0} (good good' : A → Disk → Type 0) (bad : Disk → Type 0) (r : Result A × Disk)
    → Ends good (λ _. ⊥) r
    → Ends good' bad r
    → (a : A) × (d : Disk) × (r ≡ (ok a, d)) × good a d × good' a d
Ends-both good good' bad (ok a, d) g h = (a, d, refl, g, h)
Ends-both good good' bad (err e, d) g h = absurd g
