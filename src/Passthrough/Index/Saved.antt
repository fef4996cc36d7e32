-- ===== src/Passthrough/Index/Saved.antt =====
-- What `save_index_atomic` writes, `load_index` reads, where the disk meets no fault.
use crunch_fs.Base.{
  ◌≡◌, refl, Bool, true, false, ◌||◌, List, [], ◌∷◌, ◌++◌, concat, some, Str, str_eq, str_eq→eq, ok,
  Bool-cases, inl, inr,
}
use crunch_fs.Disk.{Disk}
use crunch_fs.Disk.Ends.{Ends}
use crunch_fs.Disk.Staged.{Moved, Untouched, replace-Moved}
use crunch_fs.Disk.Calm.{open_read-calm}
use crunch_fs.Passthrough.Layout.{Config, index_path, tmp}
use crunch_fs.Passthrough.Layout.Apart.{tmp_ne}
use crunch_fs.Passthrough.Index.{
  has, set_insert, insert_lines, index_lines, index_entries, load_index, save_index_atomic,
}
use crunch_fs.Passthrough.Index.Entries.{IsEntry, AreEntries, has-set_insert, lines-index_lines}

pub or_none : (a : Bool) → (a || false) ≡ a
or_none true = refl
or_none false = refl

pub set_insert-AreEntries :
    (s : Str) (xs : List Str) → IsEntry s → AreEntries xs → AreEntries (set_insert s xs)
set_insert-AreEntries s xs e h p m = elim (Bool-cases (str_eq p s)) [
  | inl same ↦ let q : p ≡ s = str_eq→eq p s same in rw q e
  | inr other ↦ let found : has p xs ≡ true = rw (has-set_insert p s xs, other) at m in h p found
]

pub save_index-Moved :
    (cfg : Config) (entries : List Str) (d : Disk)
    → Ends
        (λ _. Moved d (tmp (index_path cfg)) (index_path cfg) (concat (index_lines entries)))
        (Untouched d (tmp (index_path cfg)))
        (save_index_atomic cfg entries d)
unfolding save_index_atomic
save_index-Moved cfg entries d =
    replace-Moved d (tmp (index_path cfg)) (index_path cfg) (index_lines entries)
      (tmp_ne (index_path cfg))

pub load_index-file :
    (cfg : Config) (xs : List Str) (d : Disk)
    → d.faults ≡ []
    → AreEntries xs
    → d.files (index_path cfg) ≡ some (concat (index_lines xs))
    → load_index cfg d ≡ (ok (insert_lines [] (xs ++ ([] ∷ []))), d)
unfolding load_index index_entries
load_index-file cfg xs d calm h there =
    rw
      (
        open_read-calm (index_path cfg) (concat (index_lines xs)) d calm there,
        lines-index_lines xs h,
      )
      refl
