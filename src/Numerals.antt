-- ===== src/Numerals.antt =====
-- Numbers as text: what `std::to_string` and `operator<<` print, and what `std::stoull` and its kin
-- read.
pub mod RoundTrip
pub mod Signed
use crunch_fs.Base.{
  ℕ, zero, suc, ◌+◌, ◌-◌, ◌*◌, ◌/◌, ◌%◌, ◌^◌, ◌≡◌, refl, Bool, ◌&&◌, List, [], ◌∷◌, ◌==◌, leb, ltb,
  if◌then◌else◌, Str, codes, Result, ok, err, thrown,
}
use crunch_fs.Base.Bytes.{u64_mod}
use crunch_fs.Base.Int.{ℤ, pos, negsuc}

module _ (base : ℕ) where
  digits : ℕ → ℕ → Str → Str
  digits zero n out = out
  digits (suc fuel) n out =
      let more = digits fuel (n / base) ((b'0' + n % base) ∷ out) in
      if n / base == 0 then (b'0' + n % base) ∷ out else more

  -- Numbers below 2^64 have at most 64 digits.
  pub print : ℕ → Str
  unfolding digits
  print n = digits 64 n []

  -- `strtoull` behind the sign: digits are read as far as they go.
  scan : Str → ℕ → Result ℕ
  scan [] n = ok n
  scan (c ∷ s) n =
      let next = n * base + (c - b'0') in
      if leb b'0' c && ltb c (b'0' + base)
      then (if ltb next u64_mod then scan s next else err thrown)
      else ok n

  starts_with_digit : Str → Bool
  starts_with_digit [] = Bool.false
  starts_with_digit (c ∷ s) = leb b'0' c && ltb c (b'0' + base)

  -- Without a digit, and where the number is too large, the call throws.
  unsigned : Str → Result ℕ
  unfolding scan starts_with_digit
  unsigned s = if starts_with_digit s then scan s 0 else err thrown

  -- `strtoull` takes a sign, and negates in `unsigned long long`.
  negated : Result ℕ → Result ℕ
  negated (ok n) = ok ((u64_mod - n) % u64_mod)
  negated (err e) = err e

  pub stoull : Str → Result ℕ
  unfolding unsigned negated
  stoull [] = err thrown
  stoull (c ∷ s) =
      if c == b'-' then negated (unsigned s) else if c == b'+' then unsigned s else unsigned (c ∷ s)

-- `std::to_string` of a signed number, in base 10.
unfoldable pub print_signed : ℤ → Str
print_signed (pos n) = print 10 n
print_signed (negsuc n) = b'-' ∷ print 10 (suc n)

abbrev pub i64_end : ℕ
i64_end = 2 ^ 63

plus : Result ℕ → Result ℤ
plus (ok n) = if ltb n i64_end then ok (pos n) else err thrown
plus (err e) = err e

minus : Result ℕ → Result ℤ
minus (ok zero) = ok (pos 0)
minus (ok (suc n)) = if ltb n i64_end then ok (negsuc n) else err thrown
minus (err e) = err e

-- `std::stoll` in base 10: out of range it throws.
unfoldable pub stoll : Str → Result ℤ
unfolding unsigned plus minus
stoll [] = err thrown
stoll (c ∷ s) =
    if c == b'-'
    then minus (unsigned 10 s)
    else if c == b'+'
    then plus (unsigned 10 s)
    else plus (unsigned 10 (c ∷ s))
