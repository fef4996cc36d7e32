-- ===== src/Base/Buffer.antt =====
-- A `std::vector<uint8_t>` that is resized, written and read in place, and its bytes by their index.
use Prim.Native.Nat.{ℕ, zero, suc, ◌+◌, ◌-◌, ◌≤◌, ◌<◌, max}
use mathlib.Core.Path.{◌≡◌, refl, ap, ◌∙◌}
use mathlib.Core.List.{[], ◌∷◌, ◌++◌}
use native.Mathlib.Omega.{arith}
use crunch_fs.Base.Tests.{ltb, if◌then◌else◌}
use crunch_fs.Base.Lists.{
  length, take, drop, replicate, length-append, length-take, length-drop, length-replicate,
  take-append_seam, drop-append_seam,
}
use crunch_fs.Base.Bytes.{Bytes}

-- `v.resize(n, 0)`
unfoldable pub resize : ℕ → Bytes → Bytes
resize n xs = take n xs ++ replicate (n - length xs) 0

-- `memcpy(v.data() + off, buf, size)`, where the range lies within `v`
unfoldable pub overwrite : Bytes → ℕ → Bytes → Bytes
overwrite xs off buf = take off xs ++ (buf ++ drop (off + length buf) xs)

-- the byte at `i`, and `v` behind the end
abbrev pub get_or : Bytes → ℕ → ℕ → ℕ
get_or [] i v = v
get_or (x ∷ xs) zero v = x
get_or (x ∷ xs) (suc i) v = get_or xs i v

pub get_or-append :
    (xs ys : Bytes) (i v : ℕ)
    → get_or (xs ++ ys) i v
      ≡ (if ltb i (length xs) then get_or xs i v else get_or ys (i - length xs) v)
get_or-append [] ys i v = let e : i - 0 ≡ i = omega arith in rw e (ground arith)
get_or-append (x ∷ xs) ys zero v = ground arith
get_or-append (x ∷ xs) ys (suc i) v =
    let e : suc i - suc (length xs) ≡ i - length xs = omega arith in
    rw e (get_or-append xs ys i v ∙ ground arith)

pub get_or-take :
    (n : ℕ) (xs : Bytes) (i v : ℕ) → get_or (take n xs) i v ≡ (if ltb i n then get_or xs i v else v)
unfolding take
get_or-take zero xs i v = ground arith
get_or-take (suc n) [] i v = ground arith
get_or-take (suc n) (x ∷ xs) zero v = ground arith
get_or-take (suc n) (x ∷ xs) (suc i) v = get_or-take n xs i v ∙ ground arith

pub get_or-drop : (n : ℕ) (xs : Bytes) (i v : ℕ) → get_or (drop n xs) i v ≡ get_or xs (n + i) v
unfolding drop
get_or-drop zero xs i v = let e : 0 + i ≡ i = omega arith in rw e
get_or-drop (suc n) [] i v = refl
get_or-drop (suc n) (x ∷ xs) i v =
    let e : suc n + i ≡ suc (n + i) = omega arith in rw e (get_or-drop n xs i v)

pub get_or-replicate : (n v i : ℕ) → get_or (replicate n v) i v ≡ v
unfolding replicate
get_or-replicate zero v i = refl
get_or-replicate (suc n) v zero = refl
get_or-replicate (suc n) v (suc i) = get_or-replicate n v i

pub get_or-behind : (xs : Bytes) (i v : ℕ) → length xs ≤ i → get_or xs i v ≡ v
get_or-behind [] i v h = refl
get_or-behind (x ∷ xs) zero v h = absurd (omega arith)
get_or-behind (x ∷ xs) (suc i) v h = get_or-behind xs i v (omega arith)

pub length-resize : (n : ℕ) (xs : Bytes) → length (resize n xs) ≡ n
unfolding resize
length-resize n xs = omega (
  arith,
  length-append (take n xs) (replicate (n - length xs) 0),
  length-take n xs,
  length-replicate {A = ℕ} (n - length xs) 0,
)

-- Resizing keeps the bytes below both sizes, and reads as zero elsewhere.
pub get_or-resize :
    (n : ℕ) (xs : Bytes) (i : ℕ) → get_or (resize n xs) i 0 ≡ (if ltb i n then get_or xs i 0 else 0)
unfolding resize
get_or-resize n xs i = ground (
  arith,
  get_or-append (take n xs) (replicate (n - length xs) 0) i 0,
  get_or-take n xs i 0,
  get_or-replicate (n - length xs) 0 (i - length (take n xs)),
  length-take n xs,
  get_or-behind xs i 0,
)

pub length-overwrite :
    (xs : Bytes) (off : ℕ) (buf : Bytes)
    → off + length buf ≤ length xs
    → length (overwrite xs off buf) ≡ length xs
unfolding overwrite
length-overwrite xs off buf h = omega (
  arith,
  length-append (take off xs) (buf ++ drop (off + length buf) xs),
  length-append buf (drop (off + length buf) xs),
  length-take off xs,
  length-drop (off + length buf) xs,
)

-- A write that begins within the buffer or at its end may make it longer.
pub get_or-overwrite_within :
    (xs : Bytes) (off : ℕ) (buf : Bytes) (i v : ℕ)
    → off ≤ length xs
    → get_or (overwrite xs off buf) i v ≡ (
        if ltb i off
        then get_or xs i v
        else if ltb i (off + length buf)
        then get_or buf (i - off) v
        else get_or xs i v)
unfolding overwrite
get_or-overwrite_within xs off buf i v h =
    let behind = drop (off + length buf) xs in
    let front : length (take off xs) ≡ off = omega (arith, length-take off xs) in
    let back : off + length buf ≤ i
        → get_or xs (off + length buf + (i - off - length buf)) v ≡ get_or xs i v =
      λ k. ap (λ (j : ℕ). get_or xs j v) (omega arith) in
    rw
      (
        get_or-append (take off xs) (buf ++ behind) i v,
        front,
        get_or-take off xs i v,
        get_or-append buf behind (i - off) v,
        get_or-drop (off + length buf) xs (i - off - length buf) v,
      )
      (ground (arith, back))

pub length-overwrite_within :
    (xs : Bytes) (off : ℕ) (buf : Bytes)
    → off ≤ length xs
    → length (overwrite xs off buf) ≡ max (length xs) (off + length buf)
unfolding overwrite
length-overwrite_within xs off buf h = omega (
  arith,
  length-append (take off xs) (buf ++ drop (off + length buf) xs),
  length-append buf (drop (off + length buf) xs),
  length-take off xs,
  length-drop (off + length buf) xs,
)

pub get_or-overwrite :
    (xs : Bytes) (off : ℕ) (buf : Bytes) (i v : ℕ)
    → off + length buf ≤ length xs
    → get_or (overwrite xs off buf) i v ≡ (
        if ltb i off
        then get_or xs i v
        else if ltb i (off + length buf)
        then get_or buf (i - off) v
        else get_or xs i v)
get_or-overwrite xs off buf i v h = get_or-overwrite_within xs off buf i v (omega arith)

-- Buffers of one length with the same bytes are the same.
pub bytes_ext :
    (a b : Bytes)
    → length a ≡ length b
    → ((i : ℕ) → i < length a → get_or a i 0 ≡ get_or b i 0)
    → a ≡ b
bytes_ext [] [] e h = refl
bytes_ext [] (y ∷ b) e h = absurd (omega arith)
bytes_ext (x ∷ a) [] e h = absurd (omega arith)
bytes_ext (x ∷ a) (y ∷ b) e h =
    let rest = bytes_ext a b (omega arith) (λ i lt. h (suc i) (omega arith)) in
    let first : x ≡ y = h 0 (omega arith) in rw (first, rest) refl

-- What was written is read back from where it was written.
pub take-drop-overwrite :
    (xs : Bytes) (off : ℕ) (buf : Bytes)
    → off + length buf ≤ length xs
    → take (length buf) (drop off (overwrite xs off buf)) ≡ buf
unfolding overwrite
take-drop-overwrite xs off buf h =
    let front : length (take off xs) ≡ off = omega (arith, length-take off xs) in
    rw (drop-append_seam off (take off xs) (buf ++ drop (off + length buf) xs) front)
      (take-append_seam (length buf) buf (drop (off + length buf) xs) refl)
