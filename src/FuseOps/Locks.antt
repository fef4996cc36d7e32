-- ===== src/FuseOps/Locks.antt =====
-- src/fuse_ops.cpp: the table `g_file_locks` of one mutex for each file's id. A mutex is its address. The
-- address that `new` gives is an argument of the call: the address of a mutex that was deleted may come
-- again.
pub mod Kept
use crunch_fs.Base.{ℕ, Bool, List, [], ◌∷◌, Option, none, some, Str, str_eq, if◌then◌else◌}

-- The table, whose mutexes are those that are alive.
abbrev pub Locks : Type 0
Locks = List (Str × ℕ)

unfoldable pub find_lock : Str → Locks → Option ℕ
find_lock id [] = none
find_lock id ((q, l) ∷ rest) = if str_eq q id then some l else find_lock id rest

abbrev pub there_or_new : Str → ℕ → Locks → Option ℕ → ℕ × Locks
there_or_new id new s (some l) = (l, s)
there_or_new id new s none = (new, (id, new) ∷ s)

unfoldable pub file_lock : Str → ℕ → Locks → ℕ × Locks
file_lock id new s = there_or_new id new s (find_lock id s)

-- The end of `cfs_unlink`: the mutex is deleted, and its entry erased.
unfoldable pub drop_lock : Str → Locks → Locks
drop_lock id [] = []
drop_lock id ((q, l) ∷ rest) = if str_eq q id then drop_lock id rest else (q, l) ∷ drop_lock id rest

-- What the callbacks do with the table, in the order in which `g_locks_mu` lets them; a lookup comes with
-- the address that `new` has for it.
pub data Use : Type 0 where
  asks : Str → ℕ → Use
  unlinks : Str → Use

unfoldable pub use_locks : List Use → Locks → Locks
use_locks [] s = s
use_locks (asks id new ∷ us) s = use_locks us (file_lock id new s).1
use_locks (unlinks id ∷ us) s = use_locks us (drop_lock id s)
