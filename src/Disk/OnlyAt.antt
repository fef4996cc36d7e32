-- ===== src/Disk/OnlyAt.antt =====
-- Which files an action may change, whichever way it ends.
use crunch_fs.Base.{
  ◌≡◌, refl, false, Option, none, some, List, [], All, Str, str_eq, Result, ok, err,
}
use crunch_fs.Base.Bytes.{Bytes}
use crunch_fs.Disk.{Disk, stream, open_read}
use crunch_fs.Disk.Ends.{Ends, Ends-attempt}

-- No file but those listed differs from the disk `d₀`.
pub record OnlyAt (ps : List Str) (d₀ d : Disk) : Type 0 where
  pub others : (q : Str) → All (λ p. str_eq p q ≡ false) ps → d.files q ≡ d₀.files q

-- An action that changes at most the files listed.
abbrev pub Keeps : {A : Type 0} → List Str → Disk → Result A × Disk → Type 0
Keeps ps d₀ r = Ends (λ _. OnlyAt ps d₀) (OnlyAt ps d₀) r

-- From another disk, and another list of files.
pub Keeps-from :
    {A : Type 0} (ps qs : List Str) (d₀ d : Disk) (r : Result A × Disk)
    → ((d' : Disk) → OnlyAt qs d d' → OnlyAt ps d₀ d')
    → Keeps qs d r
    → Keeps ps d₀ r
Keeps-from ps qs d₀ d (ok a, d') f h = f d' h
Keeps-from ps qs d₀ d (err e, d') f h = f d' h

stream-Keeps : (o : Option Bytes) (d : Disk) → Keeps [] d (stream o d)
stream-Keeps none d = record { others = λ q _. refl }
stream-Keeps (some b) d =
    Ends-attempt _ _ _ _ d (λ fs. record { others = λ q _. refl })
      (λ n fs. record { others = λ q _. refl })

pub open_read-Keeps : (p : Str) (d : Disk) → Keeps [] d (open_read p d)
unfolding open_read
open_read-Keeps p d =
    Ends-attempt _ _ _ _ d
      (λ fs.
        Keeps-from [] [] d (record d { faults = fs })
          (stream (d.files p) (record d { faults = fs }))
          (λ d' same. record { others = same.others })
          (stream-Keeps (d.files p) (record d { faults = fs })))
      (λ n fs. record { others = λ q _. refl })
