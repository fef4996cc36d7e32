-- ===== src/Tests/Open.antt =====
-- Open files.
use crunch_fs.Base.{◌≡◌, refl, ok, none, false, arith, length, str_eq, take, drop, replicate, codes}
use crunch_fs.Base.Bytes.{le_bytes}
use crunch_fs.Base.Int.{pos, neg, eio, to_int}
use crunch_fs.Hex.{hex16}
use crunch_fs.Zstd.Stored.{stored, stored-ZstdLaws}
use crunch_fs.Compresslib.{compress_file_chunks}
use crunch_fs.Disk.{open_trunc, write_all, write, close, rename, open_read}
use crunch_fs.Passthrough.Path.{normalize_path}
use crunch_fs.Passthrough.Layout.{
  meta_path_for_fuse_path, data_path_for_fuse_path, meta_path_for_id, data_path_for_id, meta_dir,
  data_dir, index_path, crunch_root, file_id_from_path,
}
use crunch_fs.Passthrough.Meta.{meta_fields}
use crunch_fs.Passthrough.Index.{add_index_entry, lines, insert_lines, set_insert, str_lt}
use crunch_fs.Passthrough.Files.{chunk_rows, persist_logical_file}
use crunch_fs.Passthrough.Files.Saved.{Saved}
use crunch_fs.Passthrough.Handles.{
  Process, allocate, cfs_read, cfs_write, cfs_flush, cfs_open, cfs_release,
}
use crunch_fs.Passthrough.Handles.Buffers.{OnlyHandle, cfs_read-cfs_write}
use crunch_fs.Passthrough.Handles.Sessions.{cfs_open-cfs_release, cfs_flush-Saved, cfs_flush-failed}
use crunch_fs.Tests.{cfg, by_length, note, hello, handle, running, starved}

cfs_read-cfs_write_example :
    (p' : Process) × (cfs_write 3 hello (pos 2) running ≡ (ok (to_int (length hello)), p'))
    × (cfs_read 3 (length hello) (pos 2) p' ≡ (ok (to_int (length hello), hello), p'))
    × OnlyHandle 3 running p'
cfs_read-cfs_write_example =
    cfs_read-cfs_write 3 handle running refl (omega arith) hello 2 (omega arith)

note_is_normal : normalize_path (codes "note") ≡ note
unfolding normalize_path
note_is_normal = refl

cfs_open-cfs_release_example :
    (p' : Process) × (cfs_release stored by_length cfg 3 running ≡ (ok (pos 0), p'))
    × (p'.handles 3 ≡ none)
    × (cfs_open stored by_length cfg (λ q. false) (codes "note") false p'
        ≡ (ok (pos 0), allocate (record { path = note; content = hello; dirty = false }) p'))
cfs_open-cfs_release_example =
    cfs_open-cfs_release stored by_length cfg stored-ZstdLaws (λ q. false) (codes "note") false 3
      handle running (omega arith) refl refl note_is_normal refl (omega arith)

abbrev flushed_process : Process
flushed_process = (cfs_flush stored by_length cfg 3 running).1

flush_runs : cfs_flush stored by_length cfg 3 running ≡ (ok (pos 0), flushed_process)
unfolding cfs_flush persist_logical_file compress_file_chunks add_index_entry open_trunc write_all
    write close rename open_read meta_path_for_fuse_path data_path_for_fuse_path meta_path_for_id
    data_path_for_id meta_dir data_dir index_path crunch_root file_id_from_path hex16 str_eq
    meta_fields le_bytes chunk_rows take drop replicate lines insert_lines set_insert str_lt
    normalize_path
flush_runs = refl

cfs_flush-Saved_example : Saved stored by_length cfg note hello flushed_process.disk
cfs_flush-Saved_example =
    cfs_flush-Saved stored by_length cfg stored-ZstdLaws 3 handle running flushed_process refl refl
      flush_runs

abbrev starved_process : Process
starved_process = (cfs_flush stored by_length cfg 3 starved).1

flush_fails : cfs_flush stored by_length cfg 3 starved ≡ (ok (neg eio), starved_process)
unfolding cfs_flush persist_logical_file compress_file_chunks open_trunc take drop
flush_fails = refl

cfs_flush-failed_example : starved_process.handles ≡ starved.handles
cfs_flush-failed_example =
    cfs_flush-failed stored by_length cfg 3 handle starved starved_process refl refl flush_fails
