-- ===== src/Disk.antt =====
-- The backing store as the program's streams and system calls see it: the files by their names, and
-- the faults that the next operations meet. The files of the operating system are no code of the
-- repository: their operations are what <fstream>, <filesystem> and rename(2) document.
pub mod Ends
pub mod Staged
pub mod OnlyAt
pub mod Calm
use crunch_fs.Base.{
  ℕ, ◌≡◌, Bool, true, false, Option, none, some, List, [], ◌∷◌, ◌++◌, take, drop, length, leb,
  Result, ok, err, failed, Str, str_eq, if◌then◌else◌,
}
use crunch_fs.Base.Bytes.{Bytes}

-- `none` is an operation that works, `some n` one that fails after `n` bytes; behind the end of the
-- list all operations work.
pub record Disk : Type 0 where
  pub files : Str → Option Bytes
  pub faults : List (Option ℕ)

abbrev pub update : (Str → Option Bytes) → Str → Option Bytes → Str → Option Bytes
update f p v q = if str_eq p q then v else f q

-- Actions that a `return false` or an exception ends.
abbrev pub Act : Type 0 → Type 0
Act A = Disk → Result A × Disk

abbrev pub pure : {A : Type 0} → A → Act A
pure a d = (ok a, d)

abbrev pub lift : {A : Type 0} → Result A → Act A
lift r d = (r, d)

abbrev pub follow : {A B : Type 0} → Result A × Disk → (A → Act B) → Result B × Disk
follow (ok a, d) f = f a d
follow (err e, d) f = (err e, d)

infixl 5 ◌>>=◌ ◌>>◌
abbrev pub ◌>>=◌ : {A B : Type 0} → Act A → (A → Act B) → Act B
◌>>=◌ m f d = follow (m d) f

abbrev pub ◌>>◌ : {B : Type 0} → Act (Unit {0}) → Act B → Act B
m >> k = m >>= λ _. k

abbrev pub content : Option Bytes → Bytes
content none = []
content (some b) = b

meet : {A : Type 0} → List (Option ℕ) → Act A → (ℕ → Act A) → Act A
meet [] works fails d = works d
meet (none ∷ fs) works fails d = works (record d { faults = fs })
meet (some n ∷ fs) works fails d = fails n (record d { faults = fs })

-- An operation meets the next fault.
unfoldable pub attempt : {A : Type 0} → Act A → (ℕ → Act A) → Act A
unfolding meet
attempt works fails d = meet d.faults works fails d

abbrev pub fail : {A : Type 0} → ℕ → Act A
fail n d = (err failed, d)

abbrev pub put : Str → Option Bytes → Act (Unit {0})
put p b d = (ok tt, record d { files = update d.files p b })

-- `std::ofstream out(p, std::ios::trunc)` with its `is_open`
unfoldable pub open_trunc : Str → Act (Unit {0})
unfolding attempt
open_trunc p = attempt (put p (some [])) fail

abbrev append : Str → Bytes → Disk → Disk
append p b d = record d { files = update d.files p (some (content (d.files p) ++ b)) }

-- `out.write` with its `good`: a write that fails may have written some of its bytes.
unfoldable pub write : Str → Bytes → Act (Unit {0})
unfolding attempt
write p b = attempt (λ d. (ok tt, append p b d)) (λ n d. (err failed, append p (take n b) d))

unfoldable pub write_all : Str → List Bytes → Act (Unit {0})
write_all p [] = pure tt
write_all p (b ∷ bs) = do write p b; write_all p bs

-- `out.close()` with its `good`: what was still in the buffer may be lost.
unfoldable pub close : Str → Act (Unit {0})
unfolding attempt
close p = attempt (pure tt) (λ n d.
    (err failed, record d { files = update d.files p (some (take n (content (d.files p)))) }))

abbrev move : Str → Str → Option Bytes → Act (Unit {0})
move src dst none d = (err failed, d)
move src dst (some b) d =
    (ok tt, record d { files = update (update d.files src none) dst (some b) })

-- `::rename(src, dst) == 0`
unfoldable pub rename : Str → Str → Act (Unit {0})
unfolding attempt
rename src dst = attempt (λ d. move src dst (d.files src) d) fail

abbrev stream : Option Bytes → Act (Bytes × Bool)
stream none = λ d. (err failed, d)
stream (some b) = attempt (pure (b, true)) (λ n. pure (take n b, false))

-- `std::ifstream in(p)` with its `is_open`: the bytes that the reads will see, and whether no read
-- error cuts them short.
unfoldable pub open_read : Str → Act (Bytes × Bool)
unfolding attempt
open_read p = attempt (λ d. stream (d.files p) d) fail

-- `fs::remove(p, ec)` with its test of `ec`: a file that is not there is no error.
unfoldable pub remove : Str → Act (Unit {0})
unfolding attempt
remove p = attempt (put p none) fail

abbrev pub is_there : Option Bytes → Bool
is_there none = false
is_there (some b) = true

-- `fs::exists(p)`
abbrev pub exists : Disk → Str → Bool
exists d p = is_there (d.files p)
