-- ===== src/Passthrough/Index/Kept.antt =====
-- The index operations change no file but the index and its temporary file.
use crunch_fs.Base.{◌∙◌, true, false, Bool, List, [], ◌∷◌, concat, Str, Result, ok, err}
use crunch_fs.Base.Bytes.{Bytes}
use crunch_fs.Disk.{Disk, open_read}
use crunch_fs.Disk.Ends.{Ends-then, Ends-map}
use crunch_fs.Disk.Staged.{Moved, Untouched, replace-Moved}
use crunch_fs.Disk.OnlyAt.{OnlyAt, Keeps, open_read-Keeps}
use crunch_fs.Passthrough.Layout.{Config, index_path, tmp}
use crunch_fs.Passthrough.Layout.Apart.{tmp_ne}
use crunch_fs.Passthrough.Index.{
  load_index, index_entries, save_index_atomic, add_index_entry, remove_index_entry, index_lines,
  set_insert, set_erase,
}

index_entries-Keeps :
    (d : Disk) (r : Result (Bytes × Bool) × Disk) → Keeps [] d r → Keeps [] d (index_entries r)
unfolding index_entries
index_entries-Keeps d (err e, d') h = h
index_entries-Keeps d (ok (bytes, true), d') h = h
index_entries-Keeps d (ok (bytes, false), d') h = h

module _ (cfg : Config) where
  abbrev pub index_files : List Str
  index_files = index_path cfg ∷ tmp (index_path cfg) ∷ []

  pub load_index-Keeps : (d : Disk) → Keeps [] d (load_index cfg d)
  unfolding load_index
  load_index-Keeps d =
      index_entries-Keeps d (open_read (index_path cfg) d) (open_read-Keeps (index_path cfg) d)

  save_index-Keeps :
      (d d' : Disk) (entries : List Str)
      → OnlyAt [] d d'
      → Keeps index_files d (save_index_atomic cfg entries d')
  unfolding save_index_atomic
  save_index-Keeps d d' entries same =
      let t = tmp (index_path cfg) in
      Ends-map (λ _. OnlyAt index_files d) (OnlyAt index_files d)
        (λ _. Moved d' t (index_path cfg) (concat (index_lines entries))) (Untouched d' t)
        (save_index_atomic cfg entries d')
        (λ _ d'' moved. record {
          others = λ q (ne, (ne_t, _)). moved.others q ne_t ne ∙ same.others q tt;
        })
        (λ d'' kept. record { others = λ q (ne, (ne_t, _)). kept.others q ne_t ∙ same.others q tt })
        (replace-Moved d' (tmp (index_path cfg)) (index_path cfg) (index_lines entries)
          (tmp_ne (index_path cfg)))

  pub add_index_entry-Keeps :
      (path : Str) (d : Disk) → Keeps index_files d (add_index_entry cfg path d)
  unfolding add_index_entry
  add_index_entry-Keeps path d =
      Ends-then _ _ _ _ (load_index cfg d) _ (load_index-Keeps d)
        (λ entries d' same. save_index-Keeps d d' (set_insert path entries) same)
        (λ d' same. record { others = λ q _. same.others q tt })

  pub remove_index_entry-Keeps :
      (path : Str) (d : Disk) → Keeps index_files d (remove_index_entry cfg path d)
  unfolding remove_index_entry
  remove_index_entry-Keeps path d =
      Ends-then _ _ _ _ (load_index cfg d) _ (load_index-Keeps d)
        (λ entries d' same. save_index-Keeps d d' (set_erase path entries) same)
        (λ d' same. record { others = λ q _. same.others q tt })
