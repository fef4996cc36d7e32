-- ===== src/FuseOps/Volume/Runs.antt =====
-- Every run of calls does what the specification says.
use mathlib.Core.List.{Permᴰ}
use crunch_fs.Base.{ℕ, ◌≤◌, ◌≡◌, refl, false, List, [], ◌∷◌, Str, str_eq, if◌then◌else◌, ok}
use crunch_fs.Base.Bytes.{Bytes}
use crunch_fs.Base.Int.{ℤ, pos, neg, enoent}
use crunch_fs.Zstd.{Zstd, ZstdLaws}
use crunch_fs.Passthrough.Layout.{Config}
use crunch_fs.MetaStore.{Index}
use crunch_fs.FuseOps.Volume.Looks.{bytes_at, is_some, cfs_read-Shows, cfs_open-Shows}
use crunch_fs.FuseOps.Mount.{stats_vpath, Mount, Call, done, ◌>>=◌, norm}
use crunch_fs.FuseOps.Names.{cfs_read, cfs_open}
use crunch_fs.FuseOps.Volume.{Tree, Shows}
use crunch_fs.FuseOps.Volume.Answers.{Op, exec, answer, IsPlain, exec-answer}

-- The calls that an application sees: the changes, and reads and opens between them.
pub data Event : Type 0 where
  does : Op → Event
  reads : Str → ℕ → ℕ → Event
  opens : Str → Event

abbrev without_bytes : Call ℤ → Call (ℤ × Bytes)
without_bytes c = c >>= λ r. done (r, [])

-- What the code does.
unfoldable pub react : (Index → Index) → (ℕ → ℕ → Str) → Zstd → Config → Event → Call (ℤ × Bytes)
react order ratio z cfg (does o) = without_bytes (exec order z cfg o)
react order ratio z cfg (reads path size offset) = cfs_read order ratio cfg z path size offset
react order ratio z cfg (opens path) = without_bytes (cfs_open path)

-- What the specification says: the result of the call with the bytes that it reads, and the next tree.
unfoldable pub reply : Event → Tree → (ℤ × Bytes) × Tree
reply (does o) t = (((answer o t).0, []), (answer o t).1)
reply (reads path size offset) t = (bytes_at (t (norm path)) size offset, t)
reply (opens path) t = ((if is_some (t (norm path)) then pos 0 else neg enoent, []), t)

-- The changes are plain; a read is of at least one byte, and the file of the statistics is left out.
unfoldable pub IsSpoken : Event → Tree → Type 0
IsSpoken (does o) t = IsPlain o t
IsSpoken (reads path size offset) t = (str_eq (norm path) stats_vpath ≡ false) × (1 ≤ size)
IsSpoken (opens path) t = str_eq (norm path) stats_vpath ≡ false

-- A run of calls, and its results.
unfoldable pub play : {A E : Type 0} → (E → Call A) → List E → Call (List A)
play call [] = done []
play call (o ∷ os) = do r ← call o; rs ← play call os; done (r ∷ rs)

unfoldable pub replies : List Event → Tree → List (ℤ × Bytes) × Tree
replies [] t = ([], t)
replies (o ∷ os) t = let (r, t') = reply o t in let (rs, t'') = replies os t' in (r ∷ rs, t'')

unfoldable pub AreSpoken : List Event → Tree → Type 0
AreSpoken [] t = Unit
AreSpoken (o ∷ os) t = IsSpoken o t × AreSpoken os (reply o t).1

module _ (order : Index → Index) (ratio : ℕ → ℕ → Str)
    (shuffles : (index : Index) → Permᴰ index (order index)) (z : Zstd) (laws : ZstdLaws z)
    (cfg : Config) where
  react-reply :
      (o : Event) (t : Tree) (m : Mount)
      → Shows z cfg t m
      → IsSpoken o t
      → (m' : Mount) × (react order ratio z cfg o m ≡ (ok (reply o t).0, m'))
        × Shows z cfg (reply o t).1 m'
  unfolding react reply IsSpoken
  react-reply (does o) t m s plain =
      let (m', ran, s') = exec-answer order shuffles z laws cfg o t m s plain in
      (m', rw ran refl, s')
  react-reply (reads path size offset) t m s (other, some_bytes) =
      (m, cfs_read-Shows order ratio z cfg t m s path other size offset some_bytes, s)
  react-reply (opens path) t m s other =
      (m, rw (cfs_open-Shows order ratio z cfg t m s path other) refl, s)

  -- A run of calls that the specification speaks of, on a mount that shows a tree, returns its results, with
  -- the bytes of every read, and the mount then shows its tree.
  pub play-replies :
      (os : List Event) (t : Tree) (m : Mount)
      → Shows z cfg t m
      → AreSpoken os t
      → (m' : Mount) × (play (react order ratio z cfg) os m ≡ (ok (replies os t).0, m'))
        × Shows z cfg (replies os t).1 m'
  unfolding play replies AreSpoken
  play-replies [] t m s spoken = (m, refl, s)
  play-replies (o ∷ os) t m s (spoken, more) =
      let (m₁, done₁, s₁) = react-reply o t m s spoken in
      let (m₂, done₂, s₂) = play-replies os (reply o t).1 m₁ s₁ more in
      (m₂, rw (done₁, done₂) refl, s₂)
