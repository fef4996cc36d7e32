-- ===== src/FuseOps/Volume/Totals.antt =====
-- The totals of the statistics, on a mount that shows a tree.
use mathlib.Core.Path.{subst}
use mathlib.Core.List.{map, Permᴰ}
use crunch_fs.Base.{
  ℕ, ◌+◌, ◌%◌, ◌<◌, ◌≡◌, refl, ap, ◌∙◌, sym, true, false, none, some, Option, List, [], ◌∷◌, length,
  Str, str_eq, str_eq_refl, str_eq→eq, All, ok, Bool-cases, inl, inr, arith,
}
use crunch_fs.Base.Bytes.{u64_mod}
use crunch_fs.Numerals.RoundTrip.{ten, stoull-print}
use crunch_fs.Zstd.{Zstd}
use crunch_fs.Disk.{Disk}
use crunch_fs.Disk.Calm.{open_read-calm}
use crunch_fs.Passthrough.Layout.{Config}
use crunch_fs.MetaText.{FileMeta, fields, meta_text}
use crunch_fs.MetaText.Words.{flat}
use crunch_fs.MetaStore.{
  Index, first, find_id, meta_path, add_field, add_fields, add_files, accumulate_stats, list_paths,
}
use crunch_fs.MetaStore.Saved.{MetaFits, words-meta_text}
use crunch_fs.MetaStore.Keys.{AreEntries, has_key, has_key-Perm, find_id-Perm, Perm-AreEntries}
use crunch_fs.FuseOps.Mount.{Mount}
use crunch_fs.FuseOps.Volume.{Node, Tree, Shows}
use crunch_fs.FuseOps.Volume.Steps.{Option-cases}
use crunch_fs.FuseOps.Volume.Looks.{is_some, has_key-Shows}

-- The size of what the tree has at a path, and of what it has at several.
abbrev size_at : Option Node → ℕ
size_at none = 0
size_at (some n) = length n.bytes

unfoldable pub total_size : Tree → List Str → ℕ
total_size t [] = 0
total_size t (p ∷ ps) = size_at (t p) + total_size t ps

add_fields-fields :
    (cfg : Config) (m : FileMeta) (l c : ℕ)
    → MetaFits m
    → add_fields cfg (flat (fields m)) (l, c)
      ≡ ok ((l + m.logical_size) % u64_mod, (c + m.compressed_size) % u64_mod)
unfolding add_fields add_field fields flat str_eq
add_fields-fields cfg m l c f =
    let num = λ (n : ℕ) (h : n < u64_mod). stoull-print 10 ten n h in
    rw (num m.logical_size f.logical_size, num m.compressed_size f.compressed_size) refl

-- An entry of the index whose metadata are there, and have the size of the tree's file.
record Counted (cfg : Config) (t : Tree) (d : Disk) (e : Str × Str) : Type 0 where
  pub meta : FileMeta
  pub text : d.files (meta_path cfg e.1) ≡ some (meta_text meta)
  pub fits : MetaFits meta
  pub size : meta.logical_size ≡ size_at (t e.0)

small : (l : ℕ) → l < u64_mod → (l + 0) % u64_mod ≡ l
small l h = omega arith

from_zero : (n : ℕ) → (0 + n) % u64_mod ≡ n % u64_mod
from_zero n = omega arith

sum_mod : (l n r k : ℕ) → k ≡ n → ((l + k) % u64_mod + r) % u64_mod ≡ (l + (n + r)) % u64_mod
sum_mod l n r k e = omega arith

add_files-total :
    (cfg : Config) (t : Tree) (d : Disk)
    → d.faults ≡ []
    → (k : Index) → All (Counted cfg t d) k
    → (l c : ℕ) → l < u64_mod
    → (c' : ℕ) × (add_files cfg k (l, c) d
        ≡ (ok ((l + total_size t (map first k)) % u64_mod, c'), d))
unfolding add_files total_size
add_files-total cfg t d calm [] h l c lt = (c, rw (small l lt) refl)
add_files-total cfg t d calm ((p, id) ∷ rest) (e, h) l c lt =
    let l' = (l + e.meta.logical_size) % u64_mod in
    let (c', done) =
      add_files-total cfg t d calm rest h l' ((c + e.meta.compressed_size) % u64_mod)
        (omega arith) in
    let sum : (l' + total_size t (map first rest)) % u64_mod
        ≡ (l + (size_at (t p) + total_size t (map first rest))) % u64_mod =
      sum_mod l (size_at (t p)) (total_size t (map first rest)) e.meta.logical_size e.size in
    (
      c',
      rw
          (
            open_read-calm (meta_path cfg id) (meta_text e.meta) d calm e.text,
            words-meta_text e.meta e.fits,
            add_fields-fields cfg e.meta l c e.fits,
            done,
            sum,
          )
          refl,
    )

-- Every entry is what a lookup of its path finds.
entries-All :
    (P : Str × Str → Type 0) (k : Index)
    → AreEntries k
    → ((p : Str) → has_key p k ≡ true → P (p, find_id p k))
    → All P k
unfolding AreEntries has_key find_id
entries-All P [] h f = tt
entries-All P ((p, id) ∷ rest) (new, wp, wid, h) f = (
  subst (λ (i : Str). P (p, i)) (rw (str_eq_refl p) refl) (f p (rw (str_eq_refl p) refl)),
  entries-All P rest h (λ q there. elim (Bool-cases (str_eq p q)) [
    | inl e ↦
        let gone : has_key q rest ≡ false =
          ap (λ (x : Str). has_key x rest) (sym (str_eq→eq p q e)) ∙ new in
        absurd cc
    | inr e ↦ subst (λ (i : Str). P (q, i)) (rw e refl) (f q (rw e there))
  ]),
)

module _ (order : Index → Index) (shuffles : (index : Index) → Permᴰ index (order index)) (z : Zstd)
    (cfg : Config) (t : Tree) (m : Mount) (s : Shows z cfg t m) where
  counted :
      (p : Str)
      → has_key p (order m.index) ≡ true
      → Counted cfg t m.disk (p, find_id p (order m.index))
  counted p there = elim (Option-cases (t p)) [
    | inl e ↦
        let no : has_key p (order m.index) ≡ false =
          sym (has_key-Perm p m.index (order m.index) (shuffles m.index))
          ∙ has_key-Shows order shuffles z cfg t m s p
          ∙ ap is_some e in
        absurd cc
    | inr (n, e) ↦
        let f = (s.shown p n e).file in
        let same =
          sym (find_id-Perm p m.index (order m.index) (shuffles m.index) s.entries) ∙ f.found in
        record {
          meta = (s.shown p n e).meta;
          text = rw same f.text;
          fits = f.fits;
          size = rw e f.size;
        }
  ]

  -- On a mount that shows a tree, `accumulate_stats` changes nothing, and its first total is the sum of the
  -- sizes of the files at the paths that `list_paths` gives, modulo 2^64.
  pub accumulate_stats-Shows :
      (c : ℕ) × (accumulate_stats order cfg m.index m.disk
        ≡ (ok (total_size t (list_paths order cfg m.index) % u64_mod, c), m.disk))
  unfolding accumulate_stats list_paths
  accumulate_stats-Shows =
      let (c, done) =
        add_files-total cfg t m.disk s.calm (order m.index)
          (entries-All (Counted cfg t m.disk) (order m.index)
            (Perm-AreEntries m.index (order m.index) (shuffles m.index) s.entries) counted)
          0 0 (omega arith) in
      (c, done ∙ rw (from_zero (total_size t (map first (order m.index)))) refl)
