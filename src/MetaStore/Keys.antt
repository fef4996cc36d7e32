-- ===== src/MetaStore/Keys.antt =====
-- The index as a map: its keys are different words, in whatever order it is gone through.
use mathlib.Core.List.{Permᴰ}
use mathlib.Core.Path.{subst}
use crunch_fs.Base.{
  ◌≡◌, ◌≤◌, length, refl, ap, ◌∙◌, sym, Bool, true, false, ◌||◌, [], ◌∷◌, Str, str_eq, str_eq_refl,
  str_eq→eq, str_eq_comm, if◌then◌else◌, Bool-cases, inl, inr, arith,
}
use crunch_fs.MetaText.Words.{IsWord}
use crunch_fs.MetaStore.{Index, find_id, assign, erase}

-- Whether the index has an entry of the path.
unfoldable pub has_key : Str → Index → Bool
has_key p [] = false
has_key p ((q, id) ∷ rest) = str_eq q p || has_key p rest

-- Paths and ids are words, and a path has one entry.
unfoldable pub AreEntries : Index → Type 0
AreEntries [] = Unit
AreEntries ((p, id) ∷ rest) = (has_key p rest ≡ false) × IsWord p × IsWord id × AreEntries rest

-- The lookups of one path after an assignment, and after an erasure.
pub find_id-assign : (p id : Str) (index : Index) → find_id p (assign p id index) ≡ id
unfolding find_id assign
find_id-assign p id [] = rw (str_eq_refl p) refl
find_id-assign p id ((q, old) ∷ rest) = elim (Bool-cases (str_eq q p)) [
  | inl e ↦ rw (e, e) refl
  | inr e ↦ rw (e, e) (find_id-assign p id rest)
]

-- Keys that are the same as one are not the same as another.
other_key : (q p r : Str) → str_eq q p ≡ true → str_eq p r ≡ false → str_eq q r ≡ false
other_key q p r e ne = ap (λ (s : Str). str_eq s r) (str_eq→eq q p e) ∙ ne

pub find_id-assign_other :
    (p q id : Str) (index : Index)
    → str_eq q p ≡ false
    → find_id p (assign q id index) ≡ find_id p index
unfolding find_id assign
find_id-assign_other p q id [] ne = rw ne refl
find_id-assign_other p q id ((r, old) ∷ rest) ne = elim (Bool-cases (str_eq r q)) [
  | inl e ↦ rw (e, other_key r q p e ne) refl
  | inr e ↦ rw (e, find_id-assign_other p q id rest ne) refl
]

pub find_id-erase : (p : Str) (index : Index) → find_id p (erase p index) ≡ []
unfolding find_id erase
find_id-erase p [] = refl
find_id-erase p ((q, id) ∷ rest) = elim (Bool-cases (str_eq q p)) [
  | inl e ↦ rw e (find_id-erase p rest)
  | inr e ↦ rw (e, e) (find_id-erase p rest)
]

pub find_id-erase_other :
    (p q : Str) (index : Index) → str_eq q p ≡ false → find_id p (erase q index) ≡ find_id p index
unfolding find_id erase
find_id-erase_other p q [] ne = refl
find_id-erase_other p q ((r, id) ∷ rest) ne = elim (Bool-cases (str_eq r q)) [
  | inl e ↦ rw (e, other_key r q p e ne) (find_id-erase_other p q rest ne)
  | inr e ↦ rw (e, find_id-erase_other p q rest ne) refl
]

pub has_key-assign :
    (p q id : Str) (index : Index) → has_key p (assign q id index) ≡ (str_eq q p || has_key p index)
unfolding has_key assign
has_key-assign p q id [] = refl
has_key-assign p q id ((r, old) ∷ rest) = elim (Bool-cases (str_eq r q)) [
  | inl e ↦
      let same : str_eq r p ≡ str_eq q p = ap (λ (s : Str). str_eq s p) (str_eq→eq r q e) in
      rw (e, same) (ground arith)
  | inr e ↦ rw (e, has_key-assign p q id rest) (ground arith)
]

has_key-erase :
    (p q : Str) (index : Index) → has_key p index ≡ false → has_key p (erase q index) ≡ false
unfolding has_key erase
has_key-erase p q [] h = refl
has_key-erase p q ((r, id) ∷ rest) h = ground (arith, has_key-erase p q rest)

pub assign-AreEntries :
    (p id : Str) (index : Index)
    → IsWord p
    → IsWord id
    → AreEntries index
    → AreEntries (assign p id index)
unfolding AreEntries assign has_key
assign-AreEntries p id [] wp wid h = (refl, wp, wid, tt)
assign-AreEntries p id ((q, old) ∷ rest) wp wid (new, wq, wold, h) =
    elim (Bool-cases (str_eq q p)) [
      | inl e ↦ rw e (new, wq, wid, h)
      | inr e ↦
          let ne : str_eq p q ≡ false = str_eq_comm p q ∙ e in
          rw e (
            has_key-assign q p id rest ∙ rw (ne, new) refl,
            wq,
            wold,
            assign-AreEntries p id rest wp wid h,
          )
    ]

pub erase-AreEntries : (p : Str) (index : Index) → AreEntries index → AreEntries (erase p index)
unfolding AreEntries erase
erase-AreEntries p [] h = tt
erase-AreEntries p ((q, id) ∷ rest) (new, wq, wid, h) = elim (Bool-cases (str_eq q p)) [
  | inl e ↦ rw e (erase-AreEntries p rest h)
  | inr e ↦ rw e (has_key-erase q p rest new, wq, wid, erase-AreEntries p rest h)
]

-- A path without an entry has no id.
pub find_id_missing : (p : Str) (index : Index) → has_key p index ≡ false → find_id p index ≡ []
unfolding find_id has_key
find_id_missing p [] h = refl
find_id_missing p ((q, id) ∷ rest) h = ground (arith, find_id_missing p rest)

-- A path with an entry has one that is not empty.
pub find_id_there :
    (p : Str) (index : Index)
    → AreEntries index
    → has_key p index ≡ true
    → 1 ≤ length (find_id p index)
unfolding find_id has_key AreEntries
find_id_there p [] h k = absurd cc
find_id_there p ((q, id) ∷ rest) (new, wq, wid, h) k = elim (Bool-cases (str_eq q p)) [
  | inl e ↦ rw e wid.long
  | inr e ↦ rw e (find_id_there p rest h (sym (rw e refl) ∙ k))
]

or_swap : (a b c : Bool) → (a || (b || c)) ≡ (b || (a || c))
or_swap true true c = refl
or_swap true false c = refl
or_swap false b c = refl

or_left : (a b : Bool) → (a || b) ≡ false → a ≡ false
or_left false b h = refl
or_left true b h = h

or_right : (a b : Bool) → (a || b) ≡ false → b ≡ false
or_right false b h = h
or_right true b h = absurd cc

-- The order of the entries does not matter.
pub has_key-Perm : (p : Str) (k l : Index) → Permᴰ k l → has_key p k ≡ has_key p l
unfolding has_key
has_key-Perm p k l Permᴰ.nil = refl
has_key-Perm p k l (Permᴰ.cons {a} {b} {l₁} {l₂} e d) = rw (e, has_key-Perm p l₁ l₂ d) refl
has_key-Perm p k l (Permᴰ.swap {a} {b} {a'} {b'} {l = r} e e') =
    rw (e, e') (or_swap (str_eq b'.0 p) (str_eq a'.0 p) (has_key p r))
has_key-Perm p k l (Permᴰ.trans {l₂ = m} d d') = has_key-Perm p k m d ∙ has_key-Perm p m l d'

pub Perm-AreEntries : (k l : Index) → Permᴰ k l → AreEntries k → AreEntries l
unfolding AreEntries has_key
Perm-AreEntries k l Permᴰ.nil h = h
Perm-AreEntries k l (Permᴰ.cons {a} {b} {l₁} {l₂} e d) (new, wp, wid, h) =
    subst (λ (x : Str × Str). AreEntries (x ∷ l₂)) e
      (sym (has_key-Perm a.0 l₁ l₂ d) ∙ new, wp, wid, Perm-AreEntries l₁ l₂ d h)
Perm-AreEntries k l (Permᴰ.swap {a} {b} {a'} {b'} {l = r} e e')
      (new, wp, wid, (new', wp', wid', h)) =
    let apart : str_eq a.0 b.0 ≡ false =
      str_eq_comm a.0 b.0 ∙ or_left (str_eq b.0 a.0) (has_key a.0 r) new in
    let swapped : AreEntries (b ∷ a ∷ r) = (
      rw (apart, new') refl,
      wp',
      wid',
      (or_right (str_eq b.0 a.0) (has_key a.0 r) new, wp, wid, h),
    ) in
    subst (λ (x : Str × Str). AreEntries (x ∷ b' ∷ r)) e'
      (subst (λ (y : Str × Str). AreEntries (b ∷ y ∷ r)) e swapped)
Perm-AreEntries k l (Permᴰ.trans {l₂ = m} d d') h = Perm-AreEntries m l d' (Perm-AreEntries k m d h)

find_id-swap :
    (p : Str) (a b : Str × Str) (r : Index)
    → str_eq b.0 a.0 ≡ false
    → find_id p (a ∷ b ∷ r) ≡ find_id p (b ∷ a ∷ r)
unfolding find_id
find_id-swap p a b r ne = elim (Bool-cases (str_eq a.0 p)) [
  | inl e ↦
      let ne' : str_eq b.0 p ≡ false =
        ap (λ (s : Str). str_eq b.0 s) (sym (str_eq→eq a.0 p e)) ∙ ne in
      rw (e, ne') refl
  | inr e ↦ rw e refl
]

pub find_id-Perm : (p : Str) (k l : Index) → Permᴰ k l → AreEntries k → find_id p k ≡ find_id p l
unfolding find_id AreEntries has_key
find_id-Perm p k l Permᴰ.nil h = refl
find_id-Perm p k l (Permᴰ.cons {a} {b} {l₁} {l₂} e d) (new, wp, wid, h) =
    rw (e, find_id-Perm p l₁ l₂ d h) refl
find_id-Perm p k l (Permᴰ.swap {a} {b} {a'} {b'} {l = r} e e') (new, wp, wid, h) =
    find_id-swap p a b r (or_left (str_eq b.0 a.0) (has_key a.0 r) new)
    ∙ ap (λ (x : Str × Str). find_id p (x ∷ a ∷ r)) e'
    ∙ ap (λ (y : Str × Str). find_id p (a' ∷ y ∷ r)) e
find_id-Perm p k l (Permᴰ.trans {l₂ = m} d d') h =
    find_id-Perm p k m d h ∙ find_id-Perm p m l d' (Perm-AreEntries k m d h)

-- The entries that `load_index` finds, after those that are there.
unfoldable pub assigns : Index → Index → Index
assigns index [] = index
assigns index ((p, id) ∷ rest) = assigns (assign p id index) rest

pub find_id-assigns :
    (p : Str) (index l : Index)
    → AreEntries l
    → find_id p (assigns index l) ≡ (if has_key p l then find_id p l else find_id p index)
unfolding assigns has_key find_id AreEntries
find_id-assigns p index [] h = refl
find_id-assigns p index ((q, id) ∷ rest) (new, wq, wid, h) = elim (Bool-cases (str_eq q p)) [
  | inl e ↦
      let same : q ≡ p = str_eq→eq q p e in
      let new' : has_key p rest ≡ false = ap (λ (s : Str). has_key s rest) (sym same) ∙ new in
      find_id-assigns p (assign q id index) rest h
      ∙ rw (new', e)
          (ap (λ (s : Str). find_id p (assign s id index)) same ∙ find_id-assign p id index)
  | inr e ↦
      find_id-assigns p (assign q id index) rest h
      ∙ rw (e, find_id-assign_other p q id index e) refl
]

pub assigns-AreEntries :
    (index l : Index) → AreEntries l → AreEntries index → AreEntries (assigns index l)
unfolding assigns AreEntries
assigns-AreEntries index [] h k = k
assigns-AreEntries index ((q, id) ∷ rest) (new, wq, wid, h) k =
    assigns-AreEntries (assign q id index) rest h (assign-AreEntries q id index wq wid k)
