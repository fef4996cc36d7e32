-- ===== src/Passthrough/Index/Calm.antt =====
-- With no faults to come the index operations succeed.
use crunch_fs.Base.Bytes.{Bytes}
use crunch_fs.Base.{refl, none, some, ok, ◌≡◌, List, [], Str, inl, inr}
use crunch_fs.Disk.{Disk}
use crunch_fs.Disk.Ends.{Ends-then}
use crunch_fs.Disk.Calm.{
  Succeeds, replace-Succeeds, open_read-cases, open_read-calm, open_read-missing,
}
use crunch_fs.Passthrough.Layout.{Config, index_path, tmp}
use crunch_fs.Passthrough.Index.{
  load_index, index_entries, lines, insert_lines, save_index_atomic, add_index_entry,
  remove_index_entry, index_lines, set_insert, set_erase,
}

module _ (cfg : Config) (d : Disk) (calm : d.faults ≡ []) where
  load_index-Succeeds : Succeeds (load_index cfg d)
  unfolding load_index index_entries
  load_index-Succeeds = elim (open_read-cases (index_path cfg) d calm) [
    | inl e ↦ rw e calm
    | inr (b, e) ↦ rw e calm
  ]

pub save_index-Succeeds :
    (cfg : Config) (entries : List Str) (d : Disk)
    → d.faults ≡ []
    → Succeeds (save_index_atomic cfg entries d)
unfolding save_index_atomic
save_index-Succeeds cfg entries d calm =
    replace-Succeeds (tmp (index_path cfg)) (index_path cfg) (index_lines entries) d calm

module _ (cfg : Config) (path : Str) (d : Disk) (calm : d.faults ≡ []) where
  pub add_index_entry-Succeeds : Succeeds (add_index_entry cfg path d)
  unfolding add_index_entry
  add_index_entry-Succeeds =
      Ends-then _ _ _ _ (load_index cfg d) _ (load_index-Succeeds cfg d calm)
        (λ entries d' calm'. save_index-Succeeds cfg (set_insert path entries) d' calm') (λ d' k. k)

  pub remove_index_entry-Succeeds : Succeeds (remove_index_entry cfg path d)
  unfolding remove_index_entry
  remove_index_entry-Succeeds =
      Ends-then _ _ _ _ (load_index cfg d) _ (load_index-Succeeds cfg d calm)
        (λ entries d' calm'. save_index-Succeeds cfg (set_erase path entries) d' calm') (λ d' k. k)

-- A missing file and an empty one are the same index.
pub load_index_missing :
    (cfg : Config) (d : Disk)
    → d.faults ≡ []
    → d.files (index_path cfg) ≡ none
    → load_index cfg d ≡ (ok [], d)
unfolding load_index index_entries
load_index_missing cfg d calm missing = rw (open_read-missing (index_path cfg) d calm missing) refl

pub load_index_there :
    (cfg : Config) (b : Bytes) (d : Disk)
    → d.faults ≡ []
    → d.files (index_path cfg) ≡ some b
    → load_index cfg d ≡ (ok (insert_lines [] (lines b)), d)
unfolding load_index index_entries
load_index_there cfg b d calm there = rw (open_read-calm (index_path cfg) b d calm there) refl
