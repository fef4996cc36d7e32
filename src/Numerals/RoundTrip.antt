-- ===== src/Numerals/RoundTrip.antt =====
-- A printed number is read back, and is a word.
use crunch_fs.Base.{
  ℕ, zero, suc, ◌+◌, ◌-◌, ◌*◌, ◌/◌, ◌%◌, ◌^◌, ◌≤◌, ◌<◌, ◌≡◌, sym, ap, ◌∙◌, [], ◌∷◌, ◌==◌, All,
  length, Bool-cases, inl, inr, Str, Result, ok, arith,
}
use crunch_fs.Base.Bytes.{u64_mod}
use crunch_fs.Numerals.{digits, print, scan, starts_with_digit, unsigned, stoull}

-- What the two bases of the program, 8 and 10, have in common.
pub record IsBase (base : ℕ) : Type 0 where
  pub large : 2 ≤ base
  pub halves : (n : ℕ) → n / base ≤ n / 2
  pub splits : (n : ℕ) → n / base * base + n % base ≡ n
  pub remains : (n : ℕ) → n % base < base

pub ten : IsBase 10
ten = record {
  large = omega arith;
  halves = λ n. omega arith;
  splits = λ n. omega arith;
  remains = λ n. omega arith;
}

pub eight : IsBase 8
eight = record {
  large = omega arith;
  halves = λ n. omega arith;
  splits = λ n. omega arith;
  remains = λ n. omega arith;
}

-- The digits of the base.
abbrev pub IsDigit : ℕ → ℕ → Type 0
IsDigit base c = (b'0' ≤ c) × (c < b'0' + base)

ok-injective : {m n : ℕ} → ◌≡◌ {A = Result ℕ} (ok m) (ok n) → m ≡ n
ok-injective e = cc

module _ (base : ℕ) (b : IsBase base) where
  scan_last :
      (n : ℕ) (out : Str)
      → n < u64_mod
      → scan base ((b'0' + n % base) ∷ out) (n / base) ≡ scan base out n
  unfolding scan
  scan_last n out fits =
      let whole : n / base * base + (b'0' + n % base - b'0') ≡ n = omega (arith, b.splits n) in
      rw whole (ground (arith, b.remains n))

  scan-digits :
      (fuel n : ℕ) (out : Str)
      → n < 2 ^ fuel
      → n < u64_mod
      → scan base (digits base fuel n out) 0 ≡ scan base out n
  unfolding digits
  scan-digits zero n out enough fits = ap (scan base out) (omega arith)
  scan-digits (suc fuel) n out enough fits = elim (Bool-cases (n / base == 0)) [
    | inl last ↦
        let e : n / base ≡ 0 = ground arith in
        rw last (ap (scan base ((b'0' + n % base) ∷ out)) (sym e) ∙ scan_last n out fits)
    | inr more ↦ rw more (
        scan-digits fuel (n / base) ((b'0' + n % base) ∷ out) (omega (arith, b.halves n))
          (omega (arith, b.halves n))
        ∙ scan_last n out fits)
  ]

  digits-IsDigit :
      (fuel n : ℕ) (out : Str)
      → All (IsDigit base) out
      → All (IsDigit base) (digits base fuel n out)
  unfolding digits
  digits-IsDigit zero n out h = h
  digits-IsDigit (suc fuel) n out h =
      let d : IsDigit base (b'0' + n % base) = omega (arith, b.remains n) in
      elim (Bool-cases (n / base == 0)) [
        | inl last ↦ rw last (d, h)
        | inr more ↦ rw more (digits-IsDigit fuel (n / base) ((b'0' + n % base) ∷ out) (d, h))
      ]

  digits_long : (fuel n : ℕ) (out : Str) → 1 ≤ length out → 1 ≤ length (digits base fuel n out)
  unfolding digits
  digits_long zero n out h = h
  digits_long (suc fuel) n out h = elim (Bool-cases (n / base == 0)) [
    | inl last ↦ rw last (omega arith)
    | inr more ↦ rw more (digits_long fuel (n / base) ((b'0' + n % base) ∷ out) (omega arith))
  ]

  pub print-IsDigit : (n : ℕ) → All (IsDigit base) (print base n)
  unfolding print
  print-IsDigit n = digits-IsDigit 64 n [] tt

  pub print_long : (n : ℕ) → 1 ≤ length (print base n)
  unfolding print digits
  print_long n = elim (Bool-cases (n / base == 0)) [
    | inl last ↦ rw last (omega arith)
    | inr more ↦ rw more (digits_long 63 (n / base) ((b'0' + n % base) ∷ []) (omega arith))
  ]

  stoull_of_digits : (s : Str) → 1 ≤ length s → All (IsDigit base) s → stoull base s ≡ scan base s 0
  unfolding stoull unsigned starts_with_digit
  stoull_of_digits [] long h = absurd (omega arith)
  stoull_of_digits (c ∷ s) long (h, hs) = ground (arith, b.large)

  -- Every 64-bit number is read back from its print.
  pub stoull-print : (n : ℕ) → n < u64_mod → stoull base (print base n) ≡ ok n
  unfolding print scan
  stoull-print n fits =
      stoull_of_digits (print base n) (print_long n) (print-IsDigit n)
      ∙ scan-digits 64 n [] (omega arith) fits

  -- Different numbers have different prints.
  pub print-injective : (m n : ℕ) → m < u64_mod → n < u64_mod → print base m ≡ print base n → m ≡ n
  print-injective m n small small' e =
      ok-injective (sym (stoull-print m small) ∙ ap (stoull base) e ∙ stoull-print n small')
