-- ===== src/Passthrough/Index/Sorted.antt =====
-- The order of the index: the list of a set is sorted, so that no path comes twice.
use crunch_fs.Base.{
  ◌≡◌, refl, ap, ◌∙◌, sym, Bool, true, false, not, ◌&&◌, List, [], ◌∷◌, Str, str_eq, str_eq→eq,
  Bool-cases, inl, inr, arith,
}
use crunch_fs.Passthrough.Path.{normalize_path}
use crunch_fs.Passthrough.Index.{has, str_lt, set_insert, set_erase, c_str, insert_lines}
use crunch_fs.Passthrough.Index.Entries.{has-set_insert}

str_lt_irrefl : (s : Str) → str_lt s s ≡ false
unfolding str_lt
str_lt_irrefl [] = refl
str_lt_irrefl (c ∷ s) = ground (arith, str_lt_irrefl s)

str_lt_trans : (a b c : Str) → str_lt a b ≡ true → str_lt b c ≡ true → str_lt a c ≡ true
unfolding str_lt
str_lt_trans [] [] c h k = absurd cc
str_lt_trans [] (y ∷ b) [] h k = absurd cc
str_lt_trans [] (y ∷ b) (z ∷ c) h k = refl
str_lt_trans (x ∷ a) [] c h k = absurd cc
str_lt_trans (x ∷ a) (y ∷ b) [] h k = absurd cc
str_lt_trans (x ∷ a) (y ∷ b) (z ∷ c) h k = ground (arith, str_lt_trans a b c)

str_lt_total : (a b : Str) → str_eq a b ≡ false → str_lt a b ≡ false → str_lt b a ≡ true
unfolding str_lt str_eq
str_lt_total [] [] h k = absurd cc
str_lt_total [] (y ∷ b) h k = absurd cc
str_lt_total (x ∷ a) [] h k = refl
str_lt_total (x ∷ a) (y ∷ b) h k = ground (arith, str_lt_total a b)

abbrev pub Below : Str → List Str → Type 0
Below s xs = (p : Str) → has p xs ≡ true → str_lt s p ≡ true

unfoldable pub IsSorted : List Str → Type 0
IsSorted [] = Unit
IsSorted (x ∷ xs) = Below x xs × IsSorted xs

Below-trans : (s x : Str) (xs : List Str) → str_lt s x ≡ true → Below x xs → Below s (x ∷ xs)
unfolding has
Below-trans s x xs lt b p m = elim (Bool-cases (str_eq p x)) [
  | inl e ↦ let same : p ≡ x = str_eq→eq p x e in rw same lt
  | inr e ↦ str_lt_trans s x p lt (b p (sym (rw e refl) ∙ m))
]

pub set_insert-IsSorted : (s : Str) (xs : List Str) → IsSorted xs → IsSorted (set_insert s xs)
unfolding IsSorted set_insert has
set_insert-IsSorted s [] h = (λ p m. absurd cc, tt)
set_insert-IsSorted s (x ∷ xs) (b, h) = elim (Bool-cases (str_eq s x)) [
  | inl e ↦ rw e (b, h)
  | inr e ↦ elim (Bool-cases (str_lt s x)) [
    | inl lt ↦ rw (e, lt) (Below-trans s x xs lt b, (b, h))
    | inr ge ↦
        rw (e, ge)
          (
            λ p m. elim (Bool-cases (str_eq p s)) [
              | inl same ↦ let q : p ≡ s = str_eq→eq p s same in rw q (str_lt_total s x e ge)
              | inr other ↦ b p (sym (rw (has-set_insert p s xs, other) refl) ∙ m)
            ],
            set_insert-IsSorted s xs h,
          )
  ]
]

-- What an erasure leaves.
Below-has : (x : Str) (xs : List Str) → Below x xs → has x xs ≡ false
Below-has x xs b = elim (Bool-cases (has x xs)) [
  | inl m ↦ let lt : str_lt x x ≡ true = b x m in let no = str_lt_irrefl x in absurd cc
  | inr e ↦ e
]

pub has-set_erase :
    (p s : Str) (xs : List Str)
    → IsSorted xs
    → has p (set_erase s xs) ≡ (not (str_eq p s) && has p xs)
unfolding has set_erase IsSorted
has-set_erase p s [] h = ground arith
has-set_erase p s (x ∷ xs) (b, h) = elim (Bool-cases (str_eq s x)) [
  | inl e ↦
      let here : s ≡ x = str_eq→eq s x e in
      let gone : has s xs ≡ false = ap (λ (y : Str). has y xs) here ∙ Below-has x xs b in
      rw (e, sym here)
        (elim (Bool-cases (str_eq p s)) [
          | inl same ↦ let q : p ≡ s = str_eq→eq p s same in rw (same, q, gone) refl
          | inr other ↦ rw other refl
        ])
  | inr e ↦
      rw (e, has-set_erase p s xs h)
        (elim (Bool-cases (str_eq p s)) [
          | inl same ↦
              let q : p ≡ s = str_eq→eq p s same in
              let no : str_eq p x ≡ false = ap (λ (y : Str). str_eq y x) q ∙ e in rw (same, no) refl
          | inr other ↦ rw other refl
        ])
]

pub and_right : (a b : Bool) → (a && b) ≡ true → b ≡ true
and_right true b h = h
and_right false b h = absurd cc

pub insert_lines-IsSorted : (out ls : List Str) → IsSorted out → IsSorted (insert_lines out ls)
unfolding insert_lines
insert_lines-IsSorted out [] h = h
insert_lines-IsSorted out ([] ∷ ls) h = insert_lines-IsSorted out ls h
insert_lines-IsSorted out ((c ∷ s) ∷ ls) h =
    insert_lines-IsSorted (set_insert (normalize_path (c_str (c ∷ s))) out) ls
      (set_insert-IsSorted (normalize_path (c_str (c ∷ s))) out h)
