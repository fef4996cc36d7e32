-- ===== src/FuseOps/Volume/Looks.antt =====
-- The callbacks that only look, on a mount that shows a tree.
use mathlib.Core.List.{map, Permᴰ}
use crunch_fs.Base.{
  List, ℕ, ◌≤◌, ◌≡◌, refl, ap, ◌∙◌, sym, Bool, true, false, none, some, Option, [], ◌∷◌, length,
  take, drop, Str, str_eq, str_eq_comm, if◌then◌else◌, ok, inl, inr, Bool-cases, arith,
}
use crunch_fs.Base.Bytes.{Bytes}
use Prim.Native.Nat.{bit_or}
use crunch_fs.Base.Int.{ℤ, pos, neg, to_int, enoent}
use crunch_fs.Zstd.{Zstd}
use crunch_fs.Passthrough.Layout.{Config}
use crunch_fs.Passthrough.Index.{has}
use crunch_fs.MetaStore.{Index, find_id, first, list_paths}
use crunch_fs.MetaStore.Keys.{
  has_key, AreEntries, Perm-AreEntries, has_key-Perm, find_id_missing, find_id_there,
}
use crunch_fs.FuseOps.Mount.{Mount, Attributes, zeroed, regular, norm, stats_vpath, is_empty}
use crunch_fs.FuseOps.Names.{cfs_read, cfs_open}
use crunch_fs.FuseOps.Names.Reads.{cfs_read-File}
use crunch_fs.FuseOps.Volume.{Node, Tree, Shows}
use crunch_fs.FuseOps.Volume.Steps.{Option-cases}

-- What a read gives of a path of the tree.
unfoldable pub bytes_at : Option Node → ℕ → ℕ → ℤ × Bytes
bytes_at none size offset = (neg enoent, [])
bytes_at (some n) size offset =
    let part = take size (drop offset n.bytes) in (to_int (length part), part)

abbrev pub is_some : Option Node → Bool
is_some none = false
is_some (some n) = true

-- What `stat` shows of a path of the tree: a regular file with one link and the size of the content.
unfoldable pub Attributed : Option Node → ℤ × Attributes → Type 0
Attributed none r = r ≡ (neg enoent, zeroed)
Attributed (some n) (rc, a) =
    (rc ≡ pos 0)
    × ((permissions : ℕ) × (a.mode ≡ bit_or regular permissions))
    × (a.nlink ≡ 1)
    × (a.size ≡ length n.bytes)

module _ (order : Index → Index) (ratio : ℕ → ℕ → Str) (z : Zstd) (cfg : Config) (t : Tree)
    (m : Mount) (s : Shows z cfg t m) (path : Str)
    (plain : str_eq (norm path) stats_vpath ≡ false) where
  -- On a mount that shows a tree, a read of at least one byte of a path that is not the file of the
  -- statistics gives the bytes of the tree from the offset on, as many as asked for or as there are, or
  -- `-ENOENT` where the tree has no file, and changes nothing.
  pub cfs_read-Shows :
      (size offset : ℕ)
      → 1 ≤ size
      → cfs_read order ratio cfg z path size offset m
        ≡ (ok (bytes_at (t (norm path)) size offset), m)
  unfolding cfs_read bytes_at
  cfs_read-Shows size offset some_bytes = elim (Option-cases (t (norm path))) [
    | inl e ↦ rw (e, plain, s.absent (norm path) e) refl
    | inr (n, e) ↦
        let sh = s.shown (norm path) n e in
        rw e (
          cfs_read-File order ratio z cfg path n.bytes sh.meta m sh.file plain size offset
            some_bytes)
  ]

  -- On a mount that shows a tree, `cfs_open` of a path that is not the file of the statistics returns 0 for a
  -- file of the tree and `-ENOENT` for another path, and changes nothing.
  pub cfs_open-Shows :
      cfs_open path m ≡ (ok (if is_some (t (norm path)) then pos 0 else neg enoent), m)
  unfolding cfs_open
  cfs_open-Shows = elim (Option-cases (t (norm path))) [
    | inl e ↦ rw (e, plain, s.absent (norm path) e) refl
    | inr (n, e) ↦ let f = (s.shown (norm path) n e).file in rw (e, plain, f.found, f.named) refl
  ]

has-map : (q : Str) (l : Index) → has q (map first l) ≡ has_key q l
unfolding has has_key
has-map q [] = refl
has-map q ((p, id) ∷ l) = rw (has-map q l, str_eq_comm q p) refl

-- No path comes twice.
unfoldable pub AreApart : List Str → Type 0
AreApart [] = Unit
AreApart (p ∷ ps) = (has p ps ≡ false) × AreApart ps

map-AreApart : (l : Index) → AreEntries l → AreApart (map first l)
unfolding AreApart AreEntries
map-AreApart [] h = tt
map-AreApart ((p, id) ∷ rest) (new, wp, wid, h) = (has-map p rest ∙ new, map-AreApart rest h)

no_entry :
    (p : Str) (index : Index) → AreEntries index → find_id p index ≡ [] → has_key p index ≡ false
no_entry p index entries none_there = elim (Bool-cases (has_key p index)) [
  | inl there ↦
      let long : 1 ≤ length (find_id p index) = find_id_there p index entries there in
      let short : length (find_id p index) ≡ 0 = ap length none_there in absurd (omega arith)
  | inr e ↦ e
]

an_entry : (p : Str) (index : Index) → is_empty (find_id p index) ≡ false → has_key p index ≡ true
an_entry p index named = elim (Bool-cases (has_key p index)) [
  | inl there ↦ there
  | inr e ↦
      let empty : is_empty (find_id p index) ≡ true = ap is_empty (find_id_missing p index e) in
      absurd cc
]

module _ (order : Index → Index) (shuffles : (index : Index) → Permᴰ index (order index)) (z : Zstd)
    (cfg : Config) (t : Tree) (m : Mount) (s : Shows z cfg t m) where
  pub has_key-Shows : (p : Str) → has_key p m.index ≡ is_some (t p)
  has_key-Shows p = elim (Option-cases (t p)) [
    | inl e ↦ rw e (no_entry p m.index s.entries (s.absent p e))
    | inr (n, e) ↦
        let f = (s.shown p n e).file in rw e (an_entry p m.index (ap is_empty f.found ∙ f.named))
  ]

  -- On a mount that shows a tree, the paths of the index, in whatever order it is gone through, are those of
  -- the tree, each of them once.
  pub list_paths-Shows :
      AreApart (list_paths order cfg m.index)
      × ((p : Str) → has p (list_paths order cfg m.index) ≡ is_some (t p))
  unfolding list_paths
  list_paths-Shows = (
    map-AreApart (order m.index)
        (Perm-AreEntries m.index (order m.index) (shuffles m.index) s.entries),
    λ p.
        has-map p (order m.index)
        ∙ sym (has_key-Perm p m.index (order m.index) (shuffles m.index))
        ∙ has_key-Shows p,
  )
