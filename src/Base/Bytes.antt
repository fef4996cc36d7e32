-- ===== src/Base/Bytes.antt =====
-- Little-endian integers: the bytes that `reinterpret_cast` of an integer shows on the machines
-- that the program is built for, and reads of them from the front of a byte list.
use crunch_fs.Base.Tests.{leb, if◌then◌else◌}
use crunch_fs.Base.Lists.{length, take, drop, length-append, take-append_seam, drop-append_seam}
use crunch_fs.Base.Outcome.{Result, ok, err, failed, ◌>>=◌}
use Prim.Native.Nat.{ℕ, zero, suc, ◌+◌, ◌-◌, ◌*◌, ◌/◌, ◌%◌, ◌^◌, ◌≤◌, ◌<◌}
use mathlib.Core.Path.{◌≡◌, refl, ap}
use mathlib.Core.List.{List, [], ◌∷◌, ◌++◌}
use native.Mathlib.Omega.{arith}

abbrev pub Bytes : Type 0
Bytes = List ℕ

abbrev pub u32_mod : ℕ
u32_mod = 2 ^ 32

abbrev pub u64_mod : ℕ
u64_mod = 2 ^ 64

-- The first size that is too large for an `off_t`.
abbrev pub off_end : ℕ
off_end = 2 ^ 63

-- `a - b` on `size_t`.
abbrev pub sub64 : ℕ → ℕ → ℕ
sub64 a b = (a + u64_mod - b) % u64_mod

pub sub64_le : (a b : ℕ) → a < u64_mod → b ≤ a → sub64 a b + b ≡ a
sub64_le a b h k = omega arith

unfoldable pub le_bytes : ℕ → ℕ → Bytes
le_bytes zero v = []
le_bytes (suc n) v = (v % 256) ∷ le_bytes n (v / 256)

unfoldable pub of_le : Bytes → ℕ
of_le [] = 0
of_le (b ∷ bs) = b + 256 * of_le bs

pub length-le_bytes : (n v : ℕ) → length (le_bytes n v) ≡ n
unfolding le_bytes
length-le_bytes zero v = refl
length-le_bytes (suc n) v = ap suc (length-le_bytes n (v / 256))

pub of_le-le_bytes : (n v : ℕ) → v < 256 ^ n → of_le (le_bytes n v) ≡ v
unfolding le_bytes of_le
of_le-le_bytes zero v h = omega arith
of_le-le_bytes (suc n) v h = omega (arith, of_le-le_bytes n (v / 256) (omega arith))

-- `in.read(buf, n)` that is checked by `in.good()`: `n` bytes, or a failure at the end of the file.
unfoldable pub take_bytes : ℕ → Bytes → Result (Bytes × Bytes)
take_bytes n bs = if leb n (length bs) then ok (take n bs, drop n bs) else err failed

unfoldable pub read_le : ℕ → Bytes → Result (ℕ × Bytes)
read_le n bs = do (x, rest) ← take_bytes n bs; ok (of_le x, rest)

pub take_bytes-append :
    (n : ℕ) (xs rest : Bytes) → length xs ≡ n → take_bytes n (xs ++ rest) ≡ ok (xs, rest)
unfolding take_bytes
take_bytes-append n xs rest h =
    rw (take-append_seam n xs rest h, drop-append_seam n xs rest h)
      (ground (arith, length-append xs rest))

pub read_le-le_bytes :
    (n v : ℕ) (rest : Bytes) → v < 256 ^ n → read_le n (le_bytes n v ++ rest) ≡ ok (v, rest)
unfolding read_le
read_le-le_bytes n v rest h =
    rw (take_bytes-append n (le_bytes n v) rest (length-le_bytes n v), of_le-le_bytes n v h)

-- A read that succeeds has taken its bytes from the front.
pub take_bytes_ok :
    (n : ℕ) (bs : Bytes) {x rest : Bytes}
    → take_bytes n bs ≡ ok (x, rest)
    → (x ≡ take n bs) × (rest ≡ drop n bs) × (n ≤ length bs)
unfolding take_bytes
take_bytes_ok n bs h = ground arith
