-- ===== src/FuseOps/Locks/Kept.antt =====
-- Which mutex a callback gets.
use crunch_fs.Base.{
  ℕ, ◌≡◌, ◌≢◌, ◌⊎◌, refl, ap, ◌∙◌, sym, true, false, List, [], ◌∷◌, ◌++◌, none, some, Str, str_eq,
  str_eq_refl, str_eq→eq, Bool-cases, Option-cases, inl, inr,
}
use crunch_fs.FuseOps.Locks.{Locks, find_lock, file_lock, drop_lock, Use, asks, unlinks, use_locks}

-- What `new` promises: its address is not that of a mutex that is alive.
abbrev pub IsNew : ℕ → Locks → Type 0
IsNew new s = (q : Str) → find_lock q s ≢ some new

-- Every lookup of the history has been offered a new address.
unfoldable pub AreNew : List Use → Locks → Type 0
AreNew [] s = Unit
AreNew (asks id new ∷ us) s = IsNew new s × AreNew us (file_lock id new s).1
AreNew (unlinks id ∷ us) s = AreNew us (drop_lock id s)

-- Different ids have different mutexes.
abbrev AreLocks : Locks → Type 0
AreLocks s =
    (p q : Str) (l : ℕ) → find_lock p s ≡ some l → find_lock q s ≡ some l → str_eq p q ≡ true

no_locks-AreLocks : AreLocks []
unfolding find_lock
no_locks-AreLocks p q l e e' = absurd cc

find_lock-drop :
    (p q : Str) (k : Locks) → str_eq q p ≡ false → find_lock p (drop_lock q k) ≡ find_lock p k
unfolding find_lock drop_lock
find_lock-drop p q [] ne = refl
find_lock-drop p q ((r, l) ∷ rest) ne = elim (Bool-cases (str_eq r q)) [
  | inl e ↦
      let other : str_eq r p ≡ false = ap (λ (x : Str). str_eq x p) (str_eq→eq r q e) ∙ ne in
      rw (e, other) (find_lock-drop p q rest ne)
  | inr e ↦ rw (e, find_lock-drop p q rest ne) refl
]

find_lock-dropped : (p : Str) (k : Locks) → find_lock p (drop_lock p k) ≡ none
unfolding find_lock drop_lock
find_lock-dropped p [] = refl
find_lock-dropped p ((r, l) ∷ rest) = elim (Bool-cases (str_eq r p)) [
  | inl e ↦ rw e (find_lock-dropped p rest)
  | inr e ↦ rw (e, e) (find_lock-dropped p rest)
]

-- The table has then only what there was.
dropped-find_lock :
    (p q : Str) (k : Locks) (l : ℕ) → find_lock p (drop_lock q k) ≡ some l → find_lock p k ≡ some l
dropped-find_lock p q k l e = elim (Bool-cases (str_eq q p)) [
  | inl same ↦
      let gone : find_lock p (drop_lock q k) ≡ none =
        ap (λ (x : Str). find_lock p (drop_lock x k)) (str_eq→eq q p same)
        ∙ find_lock-dropped p k in
      absurd cc
  | inr ne ↦ sym (find_lock-drop p q k ne) ∙ e
]

some_same : (a b : ℕ) → some a ≡ some b → a ≡ b
some_same a b e = cc

-- The entry of a new mutex.
new-find_lock :
    (p q : Str) (l n : ℕ) (k : Locks)
    → find_lock q ((p, n) ∷ k) ≡ some l
    → ((str_eq p q ≡ true) × (l ≡ n)) ⊎ ((str_eq p q ≡ false) × (find_lock q k ≡ some l))
unfolding find_lock
new-find_lock p q l n k e = elim (Bool-cases (str_eq p q)) [
  | inl same ↦ inl (same, some_same l n (sym e ∙ rw same refl))
  | inr ne ↦ inr (ne, sym (rw ne refl) ∙ e)
]

same_key : (p q r : Str) → str_eq p q ≡ true → str_eq p r ≡ true → str_eq q r ≡ true
same_key p q r e e' = ap (λ (x : Str). str_eq x r) (sym (str_eq→eq p q e)) ∙ e'

file_lock-AreLocks :
    (id : Str) (new : ℕ) (s : Locks) → IsNew new s → AreLocks s → AreLocks (file_lock id new s).1
unfolding file_lock
file_lock-AreLocks id new s unused h = elim (Option-cases (find_lock id s)) [
  | inr (l, e) ↦ rw e h
  | inl e ↦ rw e λ p q l e' e''. elim (new-find_lock id p l new s e') [
    | inl (same, is) ↦ elim (new-find_lock id q l new s e'') [
      | inl (same', is') ↦ same_key id p q same same'
      | inr (ne', old') ↦ absurd (unused q (old' ∙ ap some is))
    ]
    | inr (ne, old) ↦ elim (new-find_lock id q l new s e'') [
      | inl (same', is') ↦ absurd (unused p (old ∙ ap some is'))
      | inr (ne', old') ↦ h p q l old old'
    ]
  ]
]

use_locks-AreLocks :
    (us : List Use) (s : Locks) → AreNew us s → AreLocks s → AreLocks (use_locks us s)
unfolding use_locks AreNew
use_locks-AreLocks [] s fresh h = h
use_locks-AreLocks (asks id new ∷ us) s (unused, fresh) h =
    use_locks-AreLocks us (file_lock id new s).1 fresh (file_lock-AreLocks id new s unused h)
use_locks-AreLocks (unlinks id ∷ us) s fresh h =
    use_locks-AreLocks us (drop_lock id s) fresh
      (λ p q l e e'. h p q l (dropped-find_lock p id s l e) (dropped-find_lock q id s l e'))

file_lock_there :
    (id : Str) (new l : ℕ) (s : Locks) → find_lock id s ≡ some l → (file_lock id new s).0 ≡ l
unfolding file_lock
file_lock_there id new l s e = rw e refl

-- After `file_lock` the table has what it returned.
file_lock-find_lock :
    (id : Str) (new : ℕ) (s : Locks)
    → find_lock id (file_lock id new s).1 ≡ some (file_lock id new s).0
unfolding file_lock find_lock
file_lock-find_lock id new s = elim (Option-cases (find_lock id s)) [
  | inl e ↦ rw (e, str_eq_refl id) refl
  | inr (l, e) ↦ rw e e
]

file_lock_other :
    (id q : Str) (new l : ℕ) (s : Locks)
    → find_lock q s ≡ some l
    → find_lock q (file_lock id new s).1 ≡ some l
unfolding file_lock find_lock
file_lock_other id q new l s e = elim (Option-cases (find_lock id s)) [
  | inr (l', e') ↦ rw e' e
  | inl e' ↦ rw e' (elim (Bool-cases (str_eq id q)) [
    | inl same ↦
        let none_there : find_lock q s ≡ none =
          ap (λ (x : Str). find_lock x s) (sym (str_eq→eq id q same)) ∙ e' in
        absurd cc
    | inr ne ↦ rw ne e
  ])
]

-- No unlink of the id.
unfoldable pub Spares : Str → List Use → Type 0
Spares id [] = Unit
Spares id (asks q new ∷ us) = Spares id us
Spares id (unlinks q ∷ us) = (str_eq q id ≡ false) × Spares id us

use_locks-find_lock :
    (id : Str) (l : ℕ) (us : List Use) (s : Locks)
    → Spares id us
    → find_lock id s ≡ some l
    → find_lock id (use_locks us s) ≡ some l
unfolding use_locks Spares
use_locks-find_lock id l [] s spares e = e
use_locks-find_lock id l (asks q new ∷ us) s spares e =
    use_locks-find_lock id l us (file_lock q new s).1 spares (file_lock_other q id new l s e)
use_locks-find_lock id l (unlinks q ∷ us) s (ne, spares) e =
    use_locks-find_lock id l us (drop_lock q s) spares (find_lock-drop id q s ne ∙ e)

use_locks-append :
    (us vs : List Use) (s : Locks) → use_locks (us ++ vs) s ≡ use_locks vs (use_locks us s)
unfolding use_locks
use_locks-append [] vs s = refl
use_locks-append (asks id new ∷ us) vs s = use_locks-append us vs (file_lock id new s).1
use_locks-append (unlinks id ∷ us) vs s = use_locks-append us vs (drop_lock id s)

-- From the empty table on, whatever the callbacks have asked for and unlinked before, and where `new` never
-- gives the address of a mutex that is alive: until the id is unlinked, every `file_lock` of it returns one
-- and the same mutex, which no `file_lock` of another id returns in the meantime.
pub file_lock-use_locks :
    (id q : Str) (new other : ℕ) (before us : List Use)
    → AreNew (before ++ asks id new ∷ us) []
    → IsNew other (use_locks (before ++ asks id new ∷ us) [])
    → Spares id us
    → str_eq id q ≡ false
    → ((file_lock id other (use_locks (before ++ asks id new ∷ us) [])).0
        ≡ (file_lock id new (use_locks before [])).0)
      × ((file_lock q other (use_locks (before ++ asks id new ∷ us) [])).0
          ≢ (file_lock id new (use_locks before [])).0)
unfolding use_locks
file_lock-use_locks id q new other before us fresh unused spares ne =
    let s = use_locks before [] in
    let l = (file_lock id new s).0 in
    let s₁ = (file_lock id new s).1 in
    let s₂ = use_locks (before ++ asks id new ∷ us) [] in
    let kept : find_lock id s₂ ≡ some l =
      ap (find_lock id) (use_locks-append before (asks id new ∷ us) [])
      ∙ use_locks-find_lock id l us s₁ spares (file_lock-find_lock id new s) in
    let h : AreLocks s₂ =
      use_locks-AreLocks (before ++ asks id new ∷ us) [] fresh no_locks-AreLocks in
    let h' : AreLocks (file_lock q other s₂).1 = file_lock-AreLocks q other s₂ unused h in
    (
      file_lock_there id other l s₂ kept,
      λ e.
          let same : str_eq id q ≡ true =
            h' id q l (file_lock_other q id other l s₂ kept)
              (file_lock-find_lock q other s₂ ∙ ap some e) in
          cc,
    )
