-- ===== src/Tests/Names.antt =====
-- Callbacks that take a path.
use crunch_fs.Base.{
  ℕ, ◌≡◌, refl, true, false, Bool, codes, ok, inl, ◌⊎◌, arith, length, Str, str_eq, [],
}
use crunch_fs.Base.Int.{ℤ, pos, neg}
use crunch_fs.Base.Buffer.{resize}
use crunch_fs.Zstd.Stored.{stored, stored-ZstdLaws}
use crunch_fs.Disk.{Disk}
use crunch_fs.Disk.Ends.{Ends}
use crunch_fs.Disk.OnlyAt.{OnlyAt}
use crunch_fs.Passthrough.Path.{normalize_path}
use crunch_fs.Passthrough.Files.{logical_file_exists}
use crunch_fs.Passthrough.Files.Saved.{Saved, path_files}
use crunch_fs.Passthrough.Files.Loaded.{exists-Saved}
use crunch_fs.Passthrough.Handles.{Process, cfs_truncate}
use crunch_fs.Passthrough.Handles.Truncate.{cfs_truncate-Saved}
use crunch_fs.Passthrough.Names.{Stat, cfs_getattr, cfs_unlink, cfs_rename}
use crunch_fs.Passthrough.Names.Attributes.{cfs_getattr-Saved}
use crunch_fs.Passthrough.Names.Unlink.{Gone, Unlinked, cfs_unlink-Gone}
use crunch_fs.Passthrough.Names.Cleared.{cfs_rename_self}
use crunch_fs.Passthrough.Names.Rename.{cfs_rename-Renamed}
use crunch_fs.Passthrough.Names.Renamed.{Renamed, rename_files}
use crunch_fs.Tests.{cfg, by_length, note, report, hello, running}
use crunch_fs.Tests.Store.{with_note, with_note-Saved, with_note_is_calm}

-- Calls of a host that has none of the files.
abbrev no_unlink : Str → Disk → ℤ × Disk
no_unlink p d = (neg 2, d)

abbrev no_rename : Str → Str → Disk → ℤ × Disk
no_rename p q d = (neg 2, d)

abbrev no_truncate : Str → ℕ → Disk → ℤ × Disk
no_truncate p n d = (neg 2, d)

abbrev no_lstat : Disk → Str → ℕ ⊎ Stat
no_lstat d p = inl 2

abbrev no_directory : Disk → Str → Bool
no_directory d p = false

abbrev with_note_open : Process
with_note_open = record running { disk = with_note }

note_normal : normalize_path note ≡ note
unfolding normalize_path
note_normal = refl

report_normal : normalize_path report ≡ report
unfolding normalize_path
report_normal = refl

note_there : logical_file_exists stored by_length cfg note with_note ≡ true
note_there = exists-Saved stored by_length cfg note hello with_note with_note-Saved

cfs_unlink-Gone_example :
    Ends
      (Unlinked stored by_length cfg (normalize_path note) with_note)
      (OnlyAt (path_files stored by_length cfg (normalize_path note)) with_note)
      (cfs_unlink stored by_length cfg no_unlink note with_note)
cfs_unlink-Gone_example =
    cfs_unlink-Gone stored by_length cfg no_unlink note with_note (rw note_normal note_there)

cfs_rename_self_example :
    (d' : Disk) × (cfs_rename stored by_length cfg no_rename 2 note note 0 with_note
      ≡ (ok (neg 2), d'))
    × Gone stored by_length cfg note d'
cfs_rename_self_example =
    cfs_rename_self stored by_length cfg note no_rename 2 note note with_note note_normal
      note_normal with_note_is_calm note_there

cfs_rename-Renamed_example :
    (d' : Disk) × (cfs_rename stored by_length cfg no_rename 2 note report 0 with_note
      ≡ (ok (pos 0), d'))
    × (d'.faults ≡ [])
    × Renamed stored by_length cfg note report hello d'
    × OnlyAt (rename_files stored by_length cfg note report) with_note d'
cfs_rename-Renamed_example =
    cfs_rename-Renamed stored by_length cfg note report (omega arith) (omega arith) (omega arith)
      no_rename 2 note report hello with_note note_normal report_normal with_note_is_calm
      with_note-Saved

note_is_no_root : str_eq note (codes "/") ≡ false
unfolding str_eq
note_is_no_root = refl

cfs_getattr-Saved_example :
    (st : Stat) × (cfs_getattr stored by_length cfg no_lstat no_directory 7 7 note with_note
      ≡ (ok (pos 0, st), with_note))
    × (st.st_size ≡ length hello)
    × (st.st_mode ≡ 33188)
cfs_getattr-Saved_example =
    cfs_getattr-Saved stored by_length cfg no_lstat no_directory 7 7 note note hello with_note
      note_normal note_is_no_root refl with_note_is_calm (omega arith) with_note-Saved

cfs_truncate-Saved_example :
    (p' : Process) × (cfs_truncate stored by_length cfg no_truncate note (pos 9) 0 with_note_open
      ≡ (ok (pos 0), p'))
    × Saved stored by_length cfg note (resize 9 hello) p'.disk
    × OnlyAt (path_files stored by_length cfg note) with_note p'.disk
    × (p'.handles ≡ running.handles)
cfs_truncate-Saved_example =
    cfs_truncate-Saved stored by_length cfg stored-ZstdLaws no_truncate note note 9 hello
      with_note_open note_normal with_note_is_calm (omega arith) with_note-Saved
