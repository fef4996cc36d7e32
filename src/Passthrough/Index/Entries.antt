-- ===== src/Passthrough/Index/Entries.antt =====
-- The entries of the index: what is saved is loaded, as a set of paths.
use crunch_fs.Base.{
  ℕ, ◌≡◌, refl, ap, ◌∙◌, Bool, true, false, ◌||◌, List, [], ◌∷◌, ◌++◌, append_assoc, All, All-mono,
  concat, Str, str_eq, str_eq_refl, str_eq→eq, ◌==◌, Bool-cases, inl, inr, arith,
}
use crunch_fs.Passthrough.Path.{normalize_path}
use crunch_fs.Passthrough.Index.{
  has, str_lt, set_insert, newline, split_lines, lines, c_str, insert_lines, index_lines,
}

-- A normal path without a newline and without a zero byte.
pub record IsEntry (path : Str) : Type 0 where
  pub first : ℕ
  pub rest : Str
  pub is_some : path ≡ first ∷ rest
  pub is_text : All (λ c. ((c == newline) ≡ false) × ((c == 0) ≡ false)) path
  pub is_normal : normalize_path path ≡ path

abbrev pub AreEntries : List Str → Type 0
AreEntries xs = (p : Str) → has p xs ≡ true → IsEntry p

entries-head : (x : Str) (xs : List Str) → AreEntries (x ∷ xs) → IsEntry x
unfolding has
entries-head x xs h = h x (rw (str_eq_refl x) refl)

entries-tail : (x : Str) (xs : List Str) → AreEntries (x ∷ xs) → AreEntries xs
unfolding has
entries-tail x xs h p m = h p (ground (arith, m))

or_twice : (a b : Bool) → (a || b) ≡ (a || (a || b))
or_twice true b = refl
or_twice false b = refl

or_swap : (a b c : Bool) → (a || (b || c)) ≡ (b || (a || c))
or_swap true true c = refl
or_swap true false c = refl
or_swap false b c = refl

or_rotate : (a b c : Bool) → (a || (b || c)) ≡ ((b || a) || c)
or_rotate true true c = refl
or_rotate true false c = refl
or_rotate false true c = refl
or_rotate false false c = refl

pub has-set_insert :
    (p s : Str) (xs : List Str) → has p (set_insert s xs) ≡ (str_eq p s || has p xs)
unfolding has set_insert
has-set_insert p s [] = refl
has-set_insert p s (x ∷ xs) = elim (Bool-cases (str_eq s x)) [
  | inl same ↦
      let e : s ≡ x = str_eq→eq s x same in rw same (rw e (or_twice (str_eq p x) (has p xs)))
  | inr other ↦ elim (Bool-cases (str_lt s x)) [
    | inl before ↦ rw (other, before) refl
    | inr behind ↦
        rw (other, behind, has-set_insert p s xs) (or_swap (str_eq p x) (str_eq p s) (has p xs))
  ]
]

split_lines-line :
    (a s : Str)
    → All (λ c. (c == newline) ≡ false) a
    → split_lines (a ++ newline ∷ s) ≡ (a, lines s)
unfolding split_lines lines
split_lines-line [] s h = refl
split_lines-line (c ∷ a) s (h, hs) = rw (split_lines-line a s hs, h) refl

pub lines_empty : lines [] ≡ [] ∷ []
unfolding lines split_lines
lines_empty = refl

-- A line of a text, and the lines behind it.
pub lines-line :
    (a s : Str) → All (λ c. (c == newline) ≡ false) a → lines (a ++ newline ∷ s) ≡ a ∷ lines s
unfolding lines
lines-line a s h = rw (split_lines-line a s h) refl

pub lines-index_lines :
    (xs : List Str) → AreEntries xs → lines (concat (index_lines xs)) ≡ xs ++ ([] ∷ [])
unfolding lines split_lines concat
lines-index_lines [] h = refl
lines-index_lines (x ∷ xs) h =
    rw
      (
        append_assoc,
        split_lines-line x (concat (index_lines xs))
            (All-mono _ (λ c. (c == newline) ≡ false) x (λ c t. t.0) (entries-head x xs h).is_text),
        lines-index_lines xs (entries-tail x xs h),
      )
      refl

c_str-text : (a : Str) → All (λ c. ((c == newline) ≡ false) × ((c == 0) ≡ false)) a → c_str a ≡ a
unfolding c_str
c_str-text [] h = refl
c_str-text (c ∷ a) ((_, h), hs) = rw (h, c_str-text a hs) refl

insert_lines_step :
    (out : List Str) (x : Str) (rest : List Str)
    → IsEntry x
    → insert_lines out (x ∷ rest) ≡ insert_lines (set_insert x out) rest
unfolding insert_lines
insert_lines_step out [] rest e = absurd (cc e.is_some)
insert_lines_step out (c ∷ s) rest e = rw (c_str-text (c ∷ s) e.is_text, e.is_normal) refl

pub has-insert_lines :
    (p : Str) (out xs : List Str)
    → AreEntries xs
    → has p (insert_lines out (xs ++ ([] ∷ []))) ≡ (has p xs || has p out)
has-insert_lines p out [] h = unfold has in unfold insert_lines in refl
has-insert_lines p out (x ∷ xs) h =
    ap (has p) (insert_lines_step out x (xs ++ ([] ∷ [])) (entries-head x xs h))
    ∙ has-insert_lines p (set_insert x out) xs (entries-tail x xs h)
    ∙ ap (λ b. has p xs || b) (has-set_insert p x out)
    ∙ unfold has in or_rotate (has p xs) (str_eq p x) (has p out)
