-- ===== src/Tests/Store.antt =====
-- The backing store.
use crunch_fs.Base.{
  [], ◌≡◌, refl, codes, ok, err, failed, arith, str_eq, take, drop, replicate, concat, Result, sym,
}
use mathlib.Core.Path.{subst}
use crunch_fs.Base.Bytes.{le_bytes, read_le, take_bytes, of_le}
use crunch_fs.Hex.{hex16}
use crunch_fs.Zstd.Stored.{stored, stored-ZstdLaws}
use crunch_fs.Compresslib.{compress_file_chunks, decompress_file_chunks}
use crunch_fs.Disk.{Disk, open_trunc, write_all, write, close, rename, open_read}
use crunch_fs.Disk.Ends.{Ends, Ends-both}
use crunch_fs.Disk.OnlyAt.{OnlyAt}
use crunch_fs.Passthrough.Path.{normalize_path}
use crunch_fs.Passthrough.Layout.{
  meta_path_for_fuse_path, data_path_for_fuse_path, meta_path_for_id, data_path_for_id, meta_dir,
  data_dir, index_path, crunch_root, file_id_from_path,
}
use crunch_fs.Passthrough.Meta.{meta_fields, parse_meta}
use crunch_fs.Passthrough.Index.{add_index_entry, lines, insert_lines, set_insert, str_lt}
use crunch_fs.Passthrough.Files.{chunk_rows, read_chunks, persist_logical_file, load_logical_file}
use crunch_fs.Passthrough.Files.Left.{Left, persist-Left}
use crunch_fs.Passthrough.Files.Saved.{Saved, path_files, persist-Saved}
use crunch_fs.Passthrough.Files.Persist.{load-persist, persist-Succeeds}
use crunch_fs.Passthrough.Files.Others.{persist-keeps_others}
use crunch_fs.Tests.{cfg, by_length, blank, failing, note, report, hello}

load-persist_example :
    (d' : Disk) × (persist_logical_file stored by_length cfg note hello blank ≡ (ok tt, d'))
    × (load_logical_file stored by_length cfg note d' ≡ (ok hello, d'))
    × OnlyAt (path_files stored by_length cfg note) blank d'
load-persist_example =
    load-persist stored by_length cfg note stored-ZstdLaws hello blank refl (omega arith)

persist-Saved_example :
    Ends
      (λ _ d'.
        Saved stored by_length cfg note hello d'
        × OnlyAt (path_files stored by_length cfg note) failing d')
      (OnlyAt (path_files stored by_length cfg note) failing)
      (persist_logical_file stored by_length cfg note hello failing)
persist-Saved_example = persist-Saved stored by_length cfg note stored-ZstdLaws hello failing

persist-Left_example :
    Left stored by_length cfg note hello failing
      (persist_logical_file stored by_length cfg note hello failing).1
persist-Left_example = persist-Left stored by_length cfg note stored-ZstdLaws hello failing

-- The backing store with "/note" in it.
abbrev pub with_note : Disk
with_note = (persist_logical_file stored by_length cfg note hello blank).1

-- The save of "/note" ends with its content saved, and no fault is to come.
with_note_made :
    (d : Disk) × (persist_logical_file stored by_length cfg note hello blank ≡ (ok tt, d))
    × (d.faults ≡ [])
    × Saved stored by_length cfg note hello d
with_note_made =
    let (_, d, made, calm, (s, _)) =
      Ends-both _ _ _ (persist_logical_file stored by_length cfg note hello blank)
        (persist-Succeeds stored by_length cfg note stored-ZstdLaws hello blank refl)
        (persist-Saved stored by_length cfg note stored-ZstdLaws hello blank) in
    (d, made, calm, s)

pub with_note-Saved : Saved stored by_length cfg note hello with_note
with_note-Saved =
    let (_, made, _, s) = with_note_made in
    subst (λ (r : Result (Unit {0}) × Disk). Saved stored by_length cfg note hello r.1) (sym made) s

pub with_note_is_calm : with_note.faults ≡ []
with_note_is_calm =
    let (_, made, calm, _) = with_note_made in
    subst (λ (r : Result (Unit {0}) × Disk). r.1.faults ≡ []) (sym made) calm

persist-keeps_others_example :
    Ends
      (λ _. Saved stored by_length cfg note hello)
      (Saved stored by_length cfg note hello)
      (persist_logical_file stored by_length cfg report (codes "bye") with_note)
persist-keeps_others_example =
    persist-keeps_others stored by_length cfg report note (omega arith) (omega arith) (omega arith)
      stored-ZstdLaws (codes "bye") hello with_note with_note-Saved

-- The run of a save and a load.
saved_and_loaded :
    (load_logical_file stored by_length cfg note
      (persist_logical_file stored by_length cfg note hello blank).1).0
    ≡ ok hello
unfolding persist_logical_file load_logical_file compress_file_chunks decompress_file_chunks
    add_index_entry open_trunc write_all write close rename open_read meta_path_for_fuse_path
    data_path_for_fuse_path meta_path_for_id data_path_for_id meta_dir data_dir index_path
    crunch_root file_id_from_path hex16 str_eq meta_fields le_bytes chunk_rows parse_meta read_le
    take_bytes of_le read_chunks take drop replicate concat lines insert_lines set_insert str_lt
    normalize_path
saved_and_loaded = refl

-- The save fails where its first file cannot be opened.
not_saved : (persist_logical_file stored by_length cfg note hello failing).0 ≡ err failed
unfolding persist_logical_file compress_file_chunks open_trunc take drop
not_saved = refl
