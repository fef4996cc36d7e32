-- ===== src/Passthrough/Host/Startup.antt =====
-- The index behind the start of the program.
use crunch_fs.Base.{◌≡◌, refl, ◌∙◌, Bool, true, [], some, Option-cases, inl, inr, Str, str_eq_refl}
use crunch_fs.Base.Bytes.{Bytes}
use crunch_fs.Disk.{Disk, content, update}
use crunch_fs.Disk.Calm.{attempt-calm}
use crunch_fs.Passthrough.Layout.{Config, meta_dir, data_dir, index_path}
use crunch_fs.Passthrough.Index.{load_index, lines, insert_lines}
use crunch_fs.Passthrough.Index.Calm.{load_index_missing, load_index_there}
use crunch_fs.Passthrough.Host.{ensure_storage_layout}

-- Where the directories can be made and the disk meets no fault, the start of the program succeeds and
-- leaves an index file, and the index that is loaded is the one that was loaded before.
pub ensure_storage_layout-index :
    (cfg : Config) (create_directories : Str → Disk → Bool × Disk) (d : Disk)
    → d.faults ≡ []
    → ((p : Str) (d' : Disk) → create_directories p d' ≡ (true, d'))
    → (d' : Disk) × (ensure_storage_layout cfg create_directories d ≡ (true, d'))
      × ((load_index cfg d').0 ≡ (load_index cfg d).0)
      × ((b : Bytes) × (d'.files (index_path cfg) ≡ some b))
unfolding ensure_storage_layout
ensure_storage_layout-index cfg create_directories d calm makes =
    let b = content (d.files (index_path cfg)) in
    let d' : Disk = record d { files = update d.files (index_path cfg) (some b) } in
    let there : d'.files (index_path cfg) ≡ some b = rw (str_eq_refl (index_path cfg)) refl in
    (
      d',
      rw (makes (meta_dir cfg) d, makes (data_dir cfg) d, attempt-calm _ _ d calm) refl,
      elim (Option-cases (d.files (index_path cfg))) [
        | inl missing ↦
            let empty : d'.files (index_path cfg) ≡ some [] = there ∙ rw missing refl in
            rw (load_index_there cfg [] d' calm empty, load_index_missing cfg d calm missing)
              (unfold lines insert_lines in refl)
        | inr (c, old) ↦
            let same : d'.files (index_path cfg) ≡ some c = there ∙ rw old refl in
            rw (load_index_there cfg c d' calm same, load_index_there cfg c d calm old) refl
      ],
      (b, there),
    )
