-- ===== src/Numerals/Signed.antt =====
-- A signed number is read back from its print.
use crunch_fs.Base.{
  ℕ, suc, ◌≤◌, ◌<◌, ◌≡◌, refl, ◌∙◌, true, [], ◌∷◌, length, All, Str, ok, ltb, arith,
}
use crunch_fs.Base.Bytes.{u64_mod}
use crunch_fs.Base.Int.{ℤ, pos, negsuc}
use crunch_fs.Numerals.{print, print_signed, plus, minus, unsigned, stoull, stoll, i64_end}
use crunch_fs.Numerals.RoundTrip.{ten, IsDigit, print_long, print-IsDigit, stoull-print}

-- The range of `long long`.
pub data IsLong : ℤ → Type 0 where
  up : {n : ℕ} → n < i64_end → IsLong (pos n)
  down : {n : ℕ} → n < i64_end → IsLong (negsuc n)

-- Digits have no sign.
unsigned-digits : (s : Str) → 1 ≤ length s → All (IsDigit 10) s → unsigned 10 s ≡ stoull 10 s
unfolding stoull
unsigned-digits [] long h = absurd (omega arith)
unsigned-digits (c ∷ s) long (h, hs) = ground arith

unsigned-print : (n : ℕ) → n < u64_mod → unsigned 10 (print 10 n) ≡ ok n
unsigned-print n small =
    unsigned-digits (print 10 n) (print_long 10 ten n) (print-IsDigit 10 ten n)
    ∙ stoull-print 10 ten n small

stoll-digits : (s : Str) → 1 ≤ length s → All (IsDigit 10) s → stoll s ≡ plus (unsigned 10 s)
unfolding stoll
stoll-digits [] long h = absurd (omega arith)
stoll-digits (c ∷ s) long (h, hs) = ground arith

-- Every number of the range of `long long` is read back from its print.
pub stoll-print_signed : (t : ℤ) → IsLong t → stoll (print_signed t) ≡ ok t
unfolding print_signed stoll plus minus
stoll-print_signed (pos n) (up small) =
    let fits : ltb n i64_end ≡ true = ground arith in
    stoll-digits (print 10 n) (print_long 10 ten n) (print-IsDigit 10 ten n)
    ∙ rw (unsigned-print n (omega arith), plus, fits) refl
stoll-print_signed (negsuc n) (down small) =
    let fits : ltb n i64_end ≡ true = ground arith in
    rw (unsigned-print (suc n) (omega arith), minus, fits) refl
