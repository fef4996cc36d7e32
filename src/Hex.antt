-- ===== src/Hex.antt =====
-- `std::hex << std::setw(16) << std::setfill('0') << h`: a 64-bit number in 16 hexadecimal digits.
use crunch_fs.Base.{
  ℕ, zero, suc, ◌+◌, ◌-◌, ◌*◌, ◌/◌, ◌%◌, ◌^◌, ◌<◌, ◌≤◌, ◌≡◌, refl, ap, sym, ◌∙◌, [], ◌∷◌, ◌++◌,
  length, length-append, replicate, length-replicate, Str, ltb, if◌then◌else◌, arith, All,
  All-append, All-replicate, Bool-cases, inl, inr,
}

hex_digit : ℕ → ℕ
hex_digit d = if ltb d 10 then b'0' + d else b'a' + (d - 10)

-- The digits with no zeros in front; 16 rounds are enough for 64 bits.
hex_digits : ℕ → ℕ → Str
hex_digits zero h = []
hex_digits (suc rounds) h =
    let front = hex_digits rounds (h / 16) in
    if ltb h 16 then hex_digit h ∷ [] else front ++ hex_digit (h % 16) ∷ []

unfoldable pub hex16 : ℕ → Str
unfolding hex_digit hex_digits replicate
hex16 h = let s = hex_digits 16 h in replicate (16 - length s) b'0' ++ s

length-hex_digits : (rounds h : ℕ) → length (hex_digits rounds h) ≤ rounds
unfolding hex_digits
length-hex_digits zero h = omega arith
length-hex_digits (suc rounds) h = ground (
  arith,
  length-hex_digits rounds (h / 16),
  length-append (hex_digits rounds (h / 16)) (hex_digit (h % 16) ∷ []),
)

pub length-hex16 : (h : ℕ) → length (hex16 h) ≡ 16
unfolding hex16
length-hex16 h = omega (
  arith,
  length-append (replicate (16 - length (hex_digits 16 h)) b'0') (hex_digits 16 h),
  length-replicate {A = ℕ} (16 - length (hex_digits 16 h)) b'0',
  length-hex_digits 16 h,
)

-- Reading the digits back.
digit_value : ℕ → ℕ
digit_value c = if ltb c b'a' then c - b'0' else c - b'a' + 10

value : ℕ → Str → ℕ
value n [] = n
value n (c ∷ s) = value (n * 16 + digit_value c) s

value-append : (n : ℕ) (s t : Str) → value n (s ++ t) ≡ value (value n s) t
unfolding value
value-append n [] t = refl
value-append n (c ∷ s) t = value-append (n * 16 + digit_value c) s t

digit_value-hex_digit : (d : ℕ) → d < 16 → digit_value (hex_digit d) ≡ d
unfolding digit_value hex_digit
digit_value-hex_digit d h = ground arith

value-hex_digits : (rounds h : ℕ) → h < 16 ^ rounds → value 0 (hex_digits rounds h) ≡ h
unfolding hex_digits value
value-hex_digits zero h k = omega arith
value-hex_digits (suc rounds) h k = ground (
  arith,
  value-hex_digits rounds (h / 16) (omega arith),
  value-append 0 (hex_digits rounds (h / 16)) (hex_digit (h % 16) ∷ []),
  digit_value-hex_digit (h % 16),
  digit_value-hex_digit h,
)

value-zeros : (n : ℕ) → value 0 (replicate n b'0') ≡ 0
unfolding value replicate digit_value
value-zeros zero = refl
value-zeros (suc n) = value-zeros n

value-hex16 : (h : ℕ) → h < 2 ^ 64 → value 0 (hex16 h) ≡ h
unfolding hex16
value-hex16 h k =
    value-append 0 (replicate (16 - length (hex_digits 16 h)) b'0') (hex_digits 16 h)
    ∙ rw (value-zeros (16 - length (hex_digits 16 h))) (value-hex_digits 16 h (omega arith))

-- Two 64-bit numbers have the same digits only if they are the same.
pub hex16-injective : (g h : ℕ) → g < 2 ^ 64 → h < 2 ^ 64 → hex16 g ≡ hex16 h → g ≡ h
hex16-injective g h small small' e =
    sym (value-hex16 g small) ∙ ap (value 0) e ∙ value-hex16 h small'

visible-hex_digit : (d : ℕ) → b'0' ≤ hex_digit d
unfolding hex_digit
visible-hex_digit d = ground arith

visible-hex_digits : (rounds h : ℕ) → All (λ c. b'0' ≤ c) (hex_digits rounds h)
unfolding hex_digits
visible-hex_digits zero h = tt
visible-hex_digits (suc rounds) h = elim (Bool-cases (ltb h 16)) [
  | inl e ↦ rw e (visible-hex_digit h, tt)
  | inr e ↦ rw e (
      All-append (λ c. b'0' ≤ c) (hex_digits rounds (h / 16)) (hex_digit (h % 16) ∷ [])
        (visible-hex_digits rounds (h / 16)) (visible-hex_digit (h % 16), tt))
]

-- No digit is white space or a control character.
pub visible-hex16 : (h : ℕ) → All (λ c. b'0' ≤ c) (hex16 h)
unfolding hex16
visible-hex16 h =
    All-append (λ c. b'0' ≤ c) (replicate (16 - length (hex_digits 16 h)) b'0') (hex_digits 16 h)
      (All-replicate (λ c. b'0' ≤ c) (16 - length (hex_digits 16 h)) b'0' (omega arith))
      (visible-hex_digits 16 h)
