-- ===== src/Base/Text.antt =====
-- Text as the list of its bytes.
use Prim.Native.Nat.{ℕ}
use Prim.Native.Char.{code}
use Prim.Native.String.{String}
use Prim.Native.Nat.{◌≤◌}
use mathlib.Core.Path.{◌≡◌, refl, ap}
use mathlib.Core.Logic.{◌≢◌}
use mathlib.Core.Bool.{Bool, true, false, ◌&&◌}
use mathlib.Core.List.{List, [], ◌∷◌, ◌++◌, append_assoc}
use native.Mathlib.Omega.{arith}
use crunch_fs.Base.Tests.{◌==◌}
use crunch_fs.Base.Lists.{length, length-append}

abbrev pub Str : Type 0
Str = List ℕ

abbrev pub codes : String → Str
codes String.[] = []
codes (String.◌∷◌ c s) = code c ∷ codes s

unfoldable pub str_eq : Str → Str → Bool
str_eq [] [] = true
str_eq [] (b ∷ bs) = false
str_eq (a ∷ cs) [] = false
str_eq (a ∷ cs) (b ∷ bs) = a == b && str_eq cs bs

pub str_eq_refl : (a : Str) → str_eq a a ≡ true
unfolding str_eq
str_eq_refl [] = refl
str_eq_refl (x ∷ xs) = ground (arith, str_eq_refl xs)

pub str_eq→eq : (a b : Str) → str_eq a b ≡ true → a ≡ b
unfolding str_eq
str_eq→eq [] [] h = refl
str_eq→eq [] (b ∷ bs) h = cc
str_eq→eq (a ∷ cs) [] h = cc
str_eq→eq (a ∷ cs) (b ∷ bs) h = ground (arith, str_eq→eq cs bs)

pub str_eq_ne : (a b : Str) → a ≢ b → str_eq a b ≡ false
str_eq_ne a b h = ground (arith, str_eq→eq a b)

-- A common front does not matter.
pub str_eq-append : (p a b : Str) → str_eq (p ++ a) (p ++ b) ≡ str_eq a b
unfolding str_eq
str_eq-append [] a b = refl
str_eq-append (x ∷ p) a b = ground (arith, str_eq-append p a b)

-- A text with something behind it is another text.
pub str_eq-append_longer :
    (p s : Str) → 1 ≤ length s → (str_eq (p ++ s) p ≡ false) × (str_eq p (p ++ s) ≡ false)
str_eq-append_longer p s h = (
  str_eq_ne (p ++ s) p (λ e. omega (arith, ap length e, length-append p s)),
  str_eq_ne p (p ++ s) (λ e. omega (arith, ap length e, length-append p s)),
)

pub str_eq_comm : (a b : Str) → str_eq a b ≡ str_eq b a
unfolding str_eq
str_eq_comm [] [] = refl
str_eq_comm [] (b ∷ bs) = refl
str_eq_comm (a ∷ cs) [] = refl
str_eq_comm (a ∷ cs) (b ∷ bs) = ground (arith, str_eq_comm cs bs)

-- Texts that differ within their fronts differ whatever follows.
pub str_eq-front :
    (p a b x y : Str)
    → ((u v : Str) → str_eq (a ++ u) (b ++ v) ≡ false)
    → str_eq ((p ++ a) ++ x) ((p ++ b) ++ y) ≡ false
str_eq-front p a b x y h = rw (append_assoc p a x, append_assoc p b y, str_eq-append) (h x y)

-- Texts with different fronts of one length.
pub str_eq-fronts :
    (a b x y : Str) → length a ≡ length b → str_eq a b ≡ false → str_eq (a ++ x) (b ++ y) ≡ false
unfolding str_eq
str_eq-fronts [] [] x y len ne = absurd cc
str_eq-fronts [] (c ∷ b) x y len ne = absurd (omega (arith, len))
str_eq-fronts (c ∷ a) [] x y len ne = absurd (omega (arith, len))
str_eq-fronts (c ∷ a) (c' ∷ b) x y len ne = ground (arith, str_eq-fronts a b x y)
