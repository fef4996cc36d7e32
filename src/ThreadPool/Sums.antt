-- ===== src/ThreadPool/Sums.antt =====
-- Sums over the first threads, and what a change of one thread does to them.
use crunch_fs.Base.{
  ℕ, zero, suc, ◌+◌, ◌≤◌, ◌<◌, ◌≡◌, refl, ap, Bool, true, false, List, [], ◌∷◌, ◌++◌, ◌==◌, ◌⊎◌,
  inl, inr, if◌then◌else◌, Bool-cases, arith,
}
use crunch_fs.ThreadPool.{put}

pub sum_below : (ℕ → ℕ) → ℕ → ℕ
sum_below f zero = 0
sum_below f (suc n) = sum_below f n + f n

pub sum_below-eq :
    (f g : ℕ → ℕ) (n : ℕ) → ((i : ℕ) → i < n → f i ≡ g i) → sum_below f n ≡ sum_below g n
unfolding sum_below
sum_below-eq f g zero h = refl
sum_below-eq f g (suc n) h =
    omega (arith, sum_below-eq f g n (λ i lt. h i (omega arith)), h n (omega arith))

pub sum_below-le :
    (f g : ℕ → ℕ) (n : ℕ) → ((i : ℕ) → i < n → f i ≤ g i) → sum_below f n ≤ sum_below g n
unfolding sum_below
sum_below-le f g zero h = omega arith
sum_below-le f g (suc n) h =
    omega (arith, sum_below-le f g n (λ i lt. h i (omega arith)), h n (omega arith))

-- Each summand grows by at most one.
pub sum_below-le_suc :
    (f g : ℕ → ℕ) (n : ℕ) → ((i : ℕ) → i < n → f i ≤ g i + 1) → sum_below f n ≤ sum_below g n + n
unfolding sum_below
sum_below-le_suc f g zero h = omega arith
sum_below-le_suc f g (suc n) h =
    omega (arith, sum_below-le_suc f g n (λ i lt. h i (omega arith)), h n (omega arith))

pub sum_below_zero : (f : ℕ → ℕ) (n : ℕ) → ((i : ℕ) → i < n → f i ≡ 0) → sum_below f n ≡ 0
unfolding sum_below
sum_below_zero f zero h = refl
sum_below_zero f (suc n) h =
    omega (arith, sum_below_zero f n (λ i lt. h i (omega arith)), h n (omega arith))

module _ {ℓ} {A : Type ℓ} (w : A → ℕ) where
  -- The weight of the threads when thread `i` goes over to `a`.
  pub sum_below-put :
      (f : ℕ → A) (i : ℕ) (a : A) (n : ℕ)
      → i < n
      → sum_below (λ j. w (put f i a j)) n + w (f i) ≡ sum_below (λ j. w (f j)) n + w a
  unfolding sum_below
  sum_below-put f i a zero lt = absurd (omega arith)
  sum_below-put f i a (suc n) lt = elim (Bool-cases (i == n)) [
    | inl here ↦
        let e : i ≡ n = ground arith in
        let front : sum_below (λ j. w (put f i a j)) n ≡ sum_below (λ j. w (f j)) n =
          sum_below-eq _ _ n (λ j below. let ne : (i == j) ≡ false = ground arith in rw ne) in
        rw here (omega (arith, front, ap (λ (k : ℕ). w (f k)) e))
    | inr other ↦ rw other (omega (arith, sum_below-put f i a n (ground arith)))
  ]

-- A search over the first threads.
pub find_below :
    (p : ℕ → Bool) (n : ℕ) → ((i : ℕ) × (i < n) × (p i ≡ true)) ⊎ ((i : ℕ) → i < n → p i ≡ false)
find_below p zero = inr (λ i lt. absurd (omega arith))
find_below p (suc n) = elim (Bool-cases (p n)) [
  | inl here ↦ inl (n, omega arith, here)
  | inr not_here ↦ elim (find_below p n) [
    | inl (i, lt, found) ↦ inl (i, omega arith, found)
    | inr none_below ↦ inr (λ i lt. elim (Bool-cases (i == n)) [
      | inl e ↦ let same : i ≡ n = ground arith in rw same not_here
      | inr ne ↦ none_below i (ground arith)
    ])
  ]
]

-- How often a task stands in a list.
unfoldable pub count : ℕ → List ℕ → ℕ
count a [] = 0
count a (t ∷ ts) = (if a == t then 1 else 0) + count a ts

pub count-append : (a : ℕ) (xs ys : List ℕ) → count a (xs ++ ys) ≡ count a xs + count a ys
unfolding count
count-append a [] ys = omega arith
count-append a (x ∷ xs) ys = omega (arith, count-append a xs ys)

pub count_one : (a t : ℕ) → count a (t ∷ []) ≡ (if a == t then 1 else 0)
unfolding count
count_one a t = omega arith

module _ {ℓ} {A : Type ℓ} (f : ℕ → A) (i : ℕ) (a : A) where
  pub put_self : put f i a i ≡ a
  put_self = let e : (i == i) ≡ true = ground arith in rw e

  -- What a thread is after the change it was before, or it is the one that changed.
  pub put_was : (x : A) (j : ℕ) → put f i a j ≡ x → (a ≡ x) ⊎ (f j ≡ x)
  put_was x j h = elim (Bool-cases (i == j)) [ inl e ↦ inl (rw e at h) | inr e ↦ inr (rw e at h) ]
