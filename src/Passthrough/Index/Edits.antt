-- ===== src/Passthrough/Index/Edits.antt =====
-- Runs of `add_index_entry` and `remove_index_entry`, where the disk meets no fault.
use mathlib.Core.Path.{subst}
use crunch_fs.Base.{
  ◌≡◌, refl, ap, ◌∙◌, sym, Bool, true, false, not, ◌&&◌, ◌||◌, List, [], ◌∷◌, ◌++◌, Str, str_eq,
  Result, ok, err,
}
use crunch_fs.Base.Bytes.{Bytes}
use crunch_fs.Disk.{Disk, Act, pure, ◌>>◌, open_read}
use crunch_fs.Disk.Ends.{Ends-both}
use crunch_fs.Passthrough.Layout.{Config, index_path}
use crunch_fs.Passthrough.Index.{
  has, set_insert, set_erase, insert_lines, index_entries, lines, load_index, save_index_atomic,
  add_index_entry, remove_index_entry,
}
use crunch_fs.Passthrough.Index.Calm.{save_index-Succeeds}
use crunch_fs.Passthrough.Index.Entries.{IsEntry, AreEntries, has-insert_lines, has-set_insert}
use crunch_fs.Passthrough.Index.Sorted.{and_right, IsSorted, insert_lines-IsSorted, has-set_erase}
use crunch_fs.Passthrough.Index.Saved.{
  or_none, set_insert-AreEntries, save_index-Moved, load_index-file,
}

pub data Edit : Type 0 where
  adds : Str → Edit
  removes : Str → Edit

unfoldable pub edit : Config → List Edit → Act (Unit {0})
edit cfg [] = pure tt
edit cfg (adds p ∷ es) = do add_index_entry cfg p; edit cfg es
edit cfg (removes p ∷ es) = do remove_index_entry cfg p; edit cfg es

-- Whether a path is in the index after the edits, where it was there before them or not.
unfoldable pub is_member : Str → List Edit → Bool → Bool
is_member p [] before = before
is_member p (adds q ∷ es) before = is_member p es (str_eq p q || before)
is_member p (removes q ∷ es) before = is_member p es (not (str_eq p q) && before)

unfoldable pub AreAdded : List Edit → Type 0
AreAdded [] = Unit
AreAdded (adds p ∷ es) = IsEntry p × AreAdded es
AreAdded (removes p ∷ es) = AreAdded es

index_entries-IsSorted :
    (r : Result (Bytes × Bool) × Disk) (entries : List Str) (d : Disk)
    → index_entries r ≡ (ok entries, d)
    → IsSorted entries
unfolding index_entries IsSorted
index_entries-IsSorted (err e, d') entries d h =
    let same : [] ≡ entries = cc in subst IsSorted same tt
index_entries-IsSorted (ok (bytes, true), d') entries d h =
    let same : insert_lines [] (lines bytes) ≡ entries = cc in
    subst IsSorted same (insert_lines-IsSorted [] (lines bytes) tt)
index_entries-IsSorted (ok (bytes, false), d') entries d h = absurd cc

load_index-IsSorted :
    (cfg : Config) (entries : List Str) (d d' : Disk)
    → load_index cfg d ≡ (ok entries, d')
    → IsSorted entries
unfolding load_index
load_index-IsSorted cfg entries d d' h =
    index_entries-IsSorted (open_read (index_path cfg) d) entries d' h

-- A disk without faults whose index has the paths for which `is_in` is true.
record Indexed (cfg : Config) (is_in : Str → Bool) (d : Disk) : Type 0 where
  pub calm : d.faults ≡ []
  pub entries : List Str
  pub loaded : load_index cfg d ≡ (ok entries, d)
  pub normal : AreEntries entries
  pub members : (p : Str) → has p entries ≡ is_in p

module _ (cfg : Config) where
  saved-Indexed :
      (xs : List Str) (is_in : Str → Bool) (d : Disk)
      → d.faults ≡ []
      → AreEntries xs
      → ((p : Str) → has p xs ≡ is_in p)
      → (d' : Disk) × (save_index_atomic cfg xs d ≡ (ok tt, d')) × Indexed cfg is_in d'
  saved-Indexed xs is_in d calm normal members =
      let (_, d', saved, calm', moved) =
        Ends-both _ _ _ (save_index_atomic cfg xs d) (save_index-Succeeds cfg xs d calm)
          (save_index-Moved cfg xs d) in
      let same : (p : Str) → has p (insert_lines [] (xs ++ ([] ∷ []))) ≡ has p xs =
        λ p. has-insert_lines p [] xs normal ∙ unfold has in or_none (has p xs) in
      (
        d',
        saved,
        record {
          calm = calm';
          entries = insert_lines [] (xs ++ ([] ∷ []));
          loaded = load_index-file cfg xs d' calm' normal moved.written;
          normal = λ p m. normal p (sym (same p) ∙ m);
          members = λ p. same p ∙ members p;
        },
      )

  add-Indexed :
      (q : Str) (is_in : Str → Bool) (d : Disk)
      → IsEntry q
      → Indexed cfg is_in d
      → (d' : Disk) × (add_index_entry cfg q d ≡ (ok tt, d'))
        × Indexed cfg (λ p. str_eq p q || is_in p) d'
  unfolding add_index_entry
  add-Indexed q is_in d new i =
      let (d', saved, i') =
        saved-Indexed (set_insert q i.entries) (λ p. str_eq p q || is_in p) d i.calm
          (set_insert-AreEntries q i.entries new i.normal)
          (λ p. has-set_insert p q i.entries ∙ ap (λ b. str_eq p q || b) (i.members p)) in
      (d', rw (i.loaded, saved) refl, i')

  remove-Indexed :
      (q : Str) (is_in : Str → Bool) (d : Disk)
      → Indexed cfg is_in d
      → (d' : Disk) × (remove_index_entry cfg q d ≡ (ok tt, d'))
        × Indexed cfg (λ p. not (str_eq p q) && is_in p) d'
  unfolding remove_index_entry
  remove-Indexed q is_in d i =
      let erased =
        λ (p : Str). has-set_erase p q i.entries (load_index-IsSorted cfg i.entries d d i.loaded) in
      let (d', saved, i') =
        saved-Indexed (set_erase q i.entries) (λ p. not (str_eq p q) && is_in p) d i.calm
          (λ p m. i.normal p (and_right (not (str_eq p q)) (has p i.entries) (sym (erased p) ∙ m)))
          (λ p. erased p ∙ ap (λ b. not (str_eq p q) && b) (i.members p)) in
      (d', rw (i.loaded, saved) refl, i')

  edit-Indexed :
      (es : List Edit) (is_in : Str → Bool) (d : Disk)
      → AreAdded es
      → Indexed cfg is_in d
      → (d' : Disk) × (edit cfg es d ≡ (ok tt, d')) × Indexed cfg (λ p. is_member p es (is_in p)) d'
  unfolding edit is_member AreAdded
  edit-Indexed [] is_in d h i = (d, refl, i)
  edit-Indexed (adds q ∷ es) is_in d (new, h) i =
      let (d₁, done, i₁) = add-Indexed q is_in d new i in
      let (d₂, done', i₂) = edit-Indexed es (λ p. str_eq p q || is_in p) d₁ h i₁ in
      (d₂, rw (done, done') refl, i₂)
  edit-Indexed (removes q ∷ es) is_in d h i =
      let (d₁, done, i₁) = remove-Indexed q is_in d i in
      let (d₂, done', i₂) = edit-Indexed es (λ p. not (str_eq p q) && is_in p) d₁ h i₁ in
      (d₂, rw (done, done') refl, i₂)

  -- Where the disk meets no fault and the index holds normal paths without newlines and zero bytes, any
  -- sequence of additions of paths of this kind and removals of any paths succeeds, and the index that is then
  -- loaded holds just the paths that were added and not removed later, or that were there and not removed.
  pub load_index-edit :
      (es : List Edit) (entries : List Str) (d : Disk)
      → d.faults ≡ []
      → load_index cfg d ≡ (ok entries, d)
      → AreEntries entries
      → AreAdded es
      → (d' : Disk) × (entries' : List Str) × (edit cfg es d ≡ (ok tt, d'))
        × (load_index cfg d' ≡ (ok entries', d'))
        × ((p : Str) → has p entries' ≡ is_member p es (has p entries))
  load_index-edit es entries d calm loaded normal h =
      let (d', done, i) =
        edit-Indexed es (λ p. has p entries) d h
          (record {
            calm = calm;
            entries = entries;
            loaded = loaded;
            normal = normal;
            members = λ p. refl;
          }) in
      (d', i.entries, done, i.loaded, i.members)
