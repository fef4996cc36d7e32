-- ===== src/Passthrough/Path/Normal.antt =====
-- `normalize_path` against the components of a path: it is the one text for each list of names.
use mathlib.Core.List.{reverse, reverse-cons}
use crunch_fs.Base.{
  ℕ, ◌≡◌, refl, sym, ap, ◌∙◌, ◌↔◌, true, false, List, [], ◌∷◌, ◌++◌, append-nil, append_assoc, All,
  Str, ◌==◌, ==_iff, if◌then◌else◌, Bool-cases, inl, inr,
}
use crunch_fs.Passthrough.Path.{slash, root, collapse, pop_slashes, or_root, normalize_path}

add_name : Str → List Str → List Str
add_name [] names = names
add_name (c ∷ name) names = (c ∷ name) ∷ names

-- What stands before the first slash, and the names behind it.
parts : Str → Str × List Str
parts [] = ([], [])
parts (c ∷ p) =
    let (name, names) = parts p in
    if c == slash then ([], add_name name names) else (c ∷ name, names)

-- The names of a path: what stands between its slashes and is not empty.
pub components : Str → List Str
components p = let (name, names) = parts p in add_name name names

unfoldable pub slashed : List Str → Str
slashed [] = []
slashed (name ∷ names) = slash ∷ (name ++ slashed names)

-- The canonical text of a list of names.
unfoldable pub render : List Str → Str
render [] = root
render (name ∷ names) = slashed (name ∷ names)

-- What `collapse` and `pop_slashes` make of the rest of a path: behind a byte that is no slash, and
-- behind a slash.
after_slash : Str → List Str → Str
after_slash [] [] = root
after_slash before names = reverse before ++ slashed names

abbrev NoSlash : Str → Type 0
NoSlash [] = ⊥
NoSlash (c ∷ s) = (c == slash) ≡ false

abbrev EmptyOr : Str → Type 0
EmptyOr [] = Unit {0}
EmptyOr (c ∷ s) = (c == slash) ≡ false

abbrev InName : Str → Type 0
InName p =
    (out : Str)
    → NoSlash out
    → or_root (pop_slashes (collapse false out p))
      ≡ reverse out ++ ((parts p).0 ++ slashed (parts p).1)

abbrev BehindSlash : Str → Type 0
BehindSlash p =
    (out : Str)
    → EmptyOr out
    → or_root (pop_slashes (collapse true (slash ∷ out) p)) ≡ after_slash out (components p)

InName-end : InName []
unfolding collapse pop_slashes or_root parts slashed
InName-end [] h = absurd h
InName-end (c ∷ []) h = sym (append-nil (reverse (c ∷ [])))
InName-end (c ∷ d ∷ out) h = rw h (sym (append-nil (reverse (c ∷ d ∷ out))))

BehindSlash-end : BehindSlash []
unfolding collapse pop_slashes or_root parts components slashed after_slash add_name
BehindSlash-end [] h = refl
BehindSlash-end (c ∷ []) h = sym (append-nil (reverse (c ∷ [])))
BehindSlash-end (c ∷ d ∷ out) h = rw h (sym (append-nil (reverse (c ∷ d ∷ out))))

reverse-push : (ch : ℕ) (out x : Str) → reverse (ch ∷ out) ++ x ≡ reverse out ++ (ch ∷ x)
reverse-push ch out x =
    ap (λ (t : Str). t ++ x) (reverse-cons ch out) ∙ append_assoc (reverse out) (ch ∷ []) x

after_slash-cons :
    (out name : Str) (names : List Str)
    → after_slash out (name ∷ names) ≡ reverse out ++ slashed (name ∷ names)
unfolding after_slash
after_slash-cons [] name names = refl
after_slash-cons (c ∷ out) name names = refl

InName-step : (ch : ℕ) (p : Str) → InName p → BehindSlash p → InName (ch ∷ p)
unfolding collapse parts components slashed after_slash add_name
InName-step ch p name behind [] h = absurd h
InName-step ch p name behind (c ∷ out) h = elim (Bool-cases (ch == slash)) [
  | inl e ↦ rw (e, (==_iff ch slash).0 e) (behind (c ∷ out) h)
  | inr e ↦ rw e (name (ch ∷ c ∷ out) e ∙ reverse-push ch (c ∷ out) _)
]

BehindSlash-step : (ch : ℕ) (p : Str) → InName p → BehindSlash p → BehindSlash (ch ∷ p)
unfolding collapse parts components slashed after_slash add_name
BehindSlash-step ch p name behind out h = elim (Bool-cases (ch == slash)) [
  | inl e ↦ rw e (behind out h)
  | inr e ↦ rw e (
      name (ch ∷ slash ∷ out) e
      ∙ reverse-push ch (slash ∷ out) _
      ∙ reverse-push slash out _
      ∙ sym (after_slash-cons out (ch ∷ (parts p).0) (parts p).1))
]

rest_of_path : (p : Str) → InName p × BehindSlash p
rest_of_path [] = (InName-end, BehindSlash-end)
rest_of_path (ch ∷ p) =
    let (name, behind) = rest_of_path p in
    (InName-step ch p name behind, BehindSlash-step ch p name behind)

after_slash-render : (names : List Str) → after_slash [] names ≡ render names
unfolding after_slash render
after_slash-render [] = refl
after_slash-render (name ∷ names) = refl

normalize_path-slash : (p : Str) → normalize_path (slash ∷ p) ≡ render (components (slash ∷ p))
unfolding normalize_path components parts add_name
normalize_path-slash p = (rest_of_path p).1 [] tt ∙ after_slash-render (components p)

-- The normal form of a path is the canonical text of its names.
pub normalize_path-render : (p : Str) → normalize_path p ≡ render (components p)
unfolding normalize_path
normalize_path-render [] = unfold render components parts add_name in refl
normalize_path-render (ch ∷ p) = elim (Bool-cases (ch == slash)) [
  | inl e ↦ rw ((==_iff ch slash).0 e) (normalize_path-slash p)
  | inr e ↦ rw e ((rest_of_path (ch ∷ p)).1 [] tt ∙ after_slash-render (components (ch ∷ p)))
]

-- A name has a byte and no slash.
abbrev pub HasNoSlash : Str → Type 0
HasNoSlash name = All (λ c. (c == slash) ≡ false) name

abbrev pub IsName : Str → Type 0
IsName [] = ⊥
IsName (c ∷ name) = HasNoSlash (c ∷ name)

add_name-IsName :
    (name : Str) (names : List Str)
    → HasNoSlash name
    → All IsName names
    → All IsName (add_name name names)
unfolding add_name
add_name-IsName [] names h hs = hs
add_name-IsName (c ∷ name) names h hs = (h, hs)

parts-IsName : (p : Str) → HasNoSlash (parts p).0 × All IsName (parts p).1
unfolding parts
parts-IsName [] = (tt, tt)
parts-IsName (c ∷ p) =
    let (h, hs) = parts-IsName p in
    elim (Bool-cases (c == slash)) [
      | inl e ↦ rw e (tt, add_name-IsName (parts p).0 (parts p).1 h hs)
      | inr e ↦ rw e ((e, h), hs)
    ]

pub components-IsName : (p : Str) → All IsName (components p)
unfolding components
components-IsName p = let (h, hs) = parts-IsName p in add_name-IsName (parts p).0 (parts p).1 h hs

parts-append :
    (name rest : Str)
    → HasNoSlash name
    → parts (name ++ rest) ≡ (name ++ (parts rest).0, (parts rest).1)
unfolding parts
parts-append [] rest h = refl
parts-append (c ∷ name) rest (e, h) = rw (e, parts-append name rest h)

add_name-name : (name : Str) (names : List Str) → IsName name → add_name name names ≡ name ∷ names
unfolding add_name
add_name-name [] names h = absurd h
add_name-name (c ∷ name) names h = refl

pub no_slash : (name : Str) → IsName name → HasNoSlash name
no_slash [] h = absurd h
no_slash (c ∷ name) h = h

parts-slashed : (names : List Str) → All IsName names → parts (slashed names) ≡ ([], names)
unfolding parts slashed
parts-slashed [] h = refl
parts-slashed (name ∷ names) (h, hs) =
    rw (parts-append name (slashed names) (no_slash name h), parts-slashed names hs, append-nil)
      (rw (add_name-name name names h))

-- The names of the canonical text are the names that it was made of.
pub components-render : (names : List Str) → All IsName names → components (render names) ≡ names
unfolding components render
components-render [] h = unfold parts add_name in refl
components-render (name ∷ names) h = rw (parts-slashed (name ∷ names) h) (unfold add_name in refl)

-- The names of a path are those of its normal form.
pub components-normalize_path : (p : Str) → components (normalize_path p) ≡ components p
components-normalize_path p =
    rw (normalize_path-render p) (components-render (components p) (components-IsName p))

-- The normal form is a normal form: normalizing it again changes nothing.
pub normalize_path-normalize_path : (p : Str) → normalize_path (normalize_path p) ≡ normalize_path p
normalize_path-normalize_path p =
    normalize_path-render (normalize_path p)
    ∙ ap render (components-normalize_path p)
    ∙ sym (normalize_path-render p)

-- Two paths have the same normal form exactly when they have the same names in the same order,
-- whatever slashes stand around them; and the normal form is normalized to itself.
pub normalize_path_iff :
    (p q : Str)
    → ((normalize_path p ≡ normalize_path q) ↔ (components p ≡ components q))
      × (normalize_path (normalize_path p) ≡ normalize_path p)
normalize_path_iff p q = (
  (
    λ e. sym (components-normalize_path p) ∙ ap components e ∙ components-normalize_path q,
    λ e. normalize_path-render p ∙ ap render e ∙ sym (normalize_path-render q),
  ),
  normalize_path-normalize_path p,
)
