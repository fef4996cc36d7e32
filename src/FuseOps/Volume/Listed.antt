-- ===== src/FuseOps/Volume/Listed.antt =====
-- `cfs_readdir`, on a mount that shows a tree.
use mathlib.Core.List.{map, Permᴰ}
use crunch_fs.Base.{
  ℕ, ◌≡◌, refl, ap, ◌∙◌, Bool, true, false, ◌||◌, some, List, [], ◌∷◌, Str, str_eq, str_eq_refl,
  codes, if◌then◌else◌, ok, Bool-cases, inl, inr,
}
use crunch_fs.Base.Int.{pos, neg, enoent}
use crunch_fs.Zstd.{Zstd}
use crunch_fs.Passthrough.Layout.{Config}
use crunch_fs.Passthrough.Index.{has}
use crunch_fs.MetaStore.{Index, list_paths}
use crunch_fs.FuseOps.Mount.{Mount, norm}
use crunch_fs.FuseOps.Names.{cfs_readdir, name_of}
use crunch_fs.FuseOps.Volume.{Node, Tree, Shows}
use crunch_fs.FuseOps.Volume.Steps.{Option-cases}
use crunch_fs.FuseOps.Volume.Looks.{is_some, AreApart, list_paths-Shows}

-- The path begins with a slash and goes on behind it.
abbrev pub IsRooted : Str → Type 0
IsRooted p = (c : ℕ) × (q : Str) × (p ≡ b'/' ∷ c ∷ q)

-- The paths of a tree that FUSE names.
abbrev pub AreRooted : Tree → Type 0
AreRooted t = (p : Str) (n : Node) → t p ≡ some n → IsRooted p

abbrev HasRooted : List Str → Type 0
HasRooted ps = (p : Str) → has p ps ≡ true → IsRooted p

first-HasRooted : (p : Str) (ps : List Str) → HasRooted (p ∷ ps) → IsRooted p
unfolding has
first-HasRooted p ps h = h p (rw (str_eq_refl p) refl)

or_true : (b : Bool) → (b || true) ≡ true
or_true true = refl
or_true false = refl

rest-HasRooted : (p : Str) (ps : List Str) → HasRooted (p ∷ ps) → HasRooted ps
unfolding has
rest-HasRooted p ps h q there = h q (rw (there, or_true (str_eq q p)) refl)

str_eq-name_of : (n p : Str) → IsRooted p → str_eq n (name_of p) ≡ str_eq (b'/' ∷ n) p
unfolding str_eq
str_eq-name_of n p (c, q, e) = rw e refl

slash-name_of : (p : Str) → IsRooted p → b'/' ∷ name_of p ≡ p
slash-name_of p (c, q, e) = rw e refl

has-name_of : (n : Str) (ps : List Str) → HasRooted ps → has n (map name_of ps) ≡ has (b'/' ∷ n) ps
unfolding has
has-name_of n [] h = refl
has-name_of n (p ∷ ps) h =
    rw (str_eq-name_of n p (first-HasRooted p ps h), has-name_of n ps (rest-HasRooted p ps h)) refl

names-AreApart : (ps : List Str) → HasRooted ps → AreApart ps → AreApart (map name_of ps)
unfolding AreApart
names-AreApart [] h apart = tt
names-AreApart (p ∷ ps) h (new, apart) =
    let rest = rest-HasRooted p ps h in
    (
      has-name_of (name_of p) ps rest
          ∙ ap (λ (x : Str). has x ps) (slash-name_of p (first-HasRooted p ps h))
          ∙ new,
      names-AreApart ps rest apart,
    )

module _ (order : Index → Index) (shuffles : (index : Index) → Permᴰ index (order index)) (z : Zstd)
    (cfg : Config) (t : Tree) (m : Mount) (s : Shows z cfg t m) (rooted : AreRooted t) where
  list_paths-HasRooted : HasRooted (list_paths order cfg m.index)
  list_paths-HasRooted p there = elim (Option-cases (t p)) [
    | inl e ↦
        let same = (list_paths-Shows order shuffles z cfg t m s).1 p in
        let none_there : is_some (t p) ≡ false = ap is_some e in absurd cc
    | inr (n, e) ↦ rooted p n e
  ]

  -- On a mount that shows a tree whose paths begin with "/" and go on behind it: `cfs_readdir` of "/" returns
  -- 0 and lists ".", ".." and ".cfs_stats", and behind these, once each and in whatever order the index is
  -- gone through, just the names for which the tree has a file at "/" and the name; of any other path it
  -- returns `-ENOENT` and lists nothing. It changes nothing.
  pub cfs_readdir-Shows :
      (path : Str)
      → (names : List Str) × (cfs_readdir order cfg path m ≡ (
        ok (
            if str_eq (norm path) (codes "/")
            then (pos 0, codes "." ∷ codes ".." ∷ codes ".cfs_stats" ∷ names)
            else (neg enoent, [])),
        m,
      ))
        × AreApart names
        × ((n : Str) → has n names ≡ is_some (t (b'/' ∷ n)))
  unfolding cfs_readdir
  cfs_readdir-Shows path =
      let paths = list_paths order cfg m.index in
      let (apart, members) = list_paths-Shows order shuffles z cfg t m s in
      (
        map name_of paths,
        elim (Bool-cases (str_eq (norm path) (codes "/"))) [
          | inl e ↦ rw e refl
          | inr e ↦ rw e refl
        ],
        names-AreApart paths list_paths-HasRooted apart,
        λ n. has-name_of n paths list_paths-HasRooted ∙ members (b'/' ∷ n),
      )
