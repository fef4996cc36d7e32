-- ===== src/Tests/Kept.antt =====
-- Saved metadata, the saved index and the table of locks of the chunked file system.
use crunch_fs.Base.{
  ℕ, ◌≡◌, ◌≢◌, refl, true, false, List, [], ◌∷◌, ◌++◌, Str, str_eq, codes, ok, arith,
}
use crunch_fs.Base.Int.{pos, negsuc}
use crunch_fs.Disk.{Disk}
use crunch_fs.Numerals.Signed.{up, down}
use crunch_fs.MetaText.{FileMeta, default_meta}
use crunch_fs.MetaStore.{Index, find_id, meta_path, load, save, save_index, load_index}
use crunch_fs.MetaStore.Saved.{MetaFits, load-save}
use crunch_fs.MetaStore.Keys.{AreEntries, has_key}
use crunch_fs.MetaStore.Reloaded.{load_index-save_index}
use crunch_fs.Passthrough.Layout.{index_path}
use crunch_fs.FuseOps.Locks.{Locks, file_lock, find_lock, drop_lock, Use, asks, unlinks, use_locks}
use crunch_fs.FuseOps.Locks.Kept.{Spares, IsNew, AreNew, file_lock-use_locks}
use crunch_fs.Tests.{cfg, blank, note}
use crunch_fs.Tests.Mounted.{as_listed, note-IsWord, same_entries}

abbrev id : Str
id = codes "a1"

abbrev start_meta : FileMeta
start_meta = record {
  path_id = id;
  logical_path = note;
  logical_size = 0;
  compressed_size = 0;
  chunk_size = 262144;
  n_chunks = 0;
  atime = pos 3;
  mtime = negsuc 2;
  ctime = pos 4;
  mode = 420;
}

start_fits : MetaFits start_meta
start_fits = record {
  id_word = record { long = omega arith; solid = (refl, (refl, tt)) };
  path_word = record { long = omega arith; solid = (refl, (refl, (refl, (refl, (refl, tt))))) };
  logical_size = omega arith;
  compressed_size = omega arith;
  chunk_size = omega arith;
  n_chunks = omega arith;
  atime = up (omega arith);
  mtime = down (omega arith);
  ctime = up (omega arith);
  mode = omega arith;
}

abbrev entries : Index
entries = (note, id) ∷ []

entries-AreEntries : AreEntries entries
unfolding AreEntries has_key
entries-AreEntries = (refl, note-IsWord, start_fits.id_word, tt)

load_index-save_index_example :
    (index' : Index) × (load_index cfg (save_index as_listed cfg entries blank)
      ≡ (index', save_index as_listed cfg entries blank))
    × AreEntries index'
    × ((p : Str) → find_id p index' ≡ find_id p entries)
    × ((q : Str)
        → str_eq (index_path cfg) q ≡ false
        → (save_index as_listed cfg entries blank).files q ≡ blank.files q)
load_index-save_index_example =
    load_index-save_index as_listed same_entries cfg entries blank refl entries-AreEntries

-- The mutex of the id is deleted, and the next one gets its address.
abbrev used : List Use
used = asks id 16 ∷ unlinks id ∷ []

abbrev meanwhile : List Use
meanwhile = asks (codes "b2") 32 ∷ unlinks (codes "b2") ∷ []

abbrev held : Locks
held = use_locks (used ++ asks id 16 ∷ meanwhile) []

held_lem : held ≡ (id, 16) ∷ []
unfolding use_locks file_lock find_lock drop_lock str_eq
held_lem = refl

none_IsNew : (n : ℕ) → IsNew n []
unfolding find_lock
none_IsNew n q e = absurd cc

one_IsNew : (p : Str) (l n : ℕ) → l ≢ n → IsNew n ((p, l) ∷ [])
unfolding find_lock
one_IsNew p l n ne q e = ground arith

used-AreNew : AreNew (used ++ asks id 16 ∷ meanwhile) []
unfolding AreNew file_lock find_lock drop_lock str_eq
used-AreNew = (none_IsNew 16, (none_IsNew 16, (one_IsNew id 16 32 (λ e. omega arith), tt)))

meanwhile-Spares : Spares id meanwhile
unfolding Spares str_eq
meanwhile-Spares = (refl, tt)

ids_apart : str_eq id (codes "b2") ≡ false
unfolding str_eq
ids_apart = refl

held_IsNew : IsNew 32 held
held_IsNew = rw held_lem (one_IsNew id 16 32 (λ e. omega arith))

file_lock-use_locks_example :
    ((file_lock id 32 held).0 ≡ (file_lock id 16 (use_locks used [])).0)
    × ((file_lock (codes "b2") 32 held).0 ≢ (file_lock id 16 (use_locks used [])).0)
file_lock-use_locks_example =
    file_lock-use_locks id (codes "b2") 16 32 used meanwhile used-AreNew held_IsNew meanwhile-Spares
      ids_apart

load-save_example :
    (d' : Disk) × (save cfg start_meta blank ≡ (true, d'))
    × (load cfg id default_meta d' ≡ (ok (true, start_meta), d'))
    × (d'.faults ≡ [])
    × ((q : Str) → str_eq (meta_path cfg id) q ≡ false → d'.files q ≡ blank.files q)
load-save_example = load-save cfg start_meta default_meta blank refl start_fits
