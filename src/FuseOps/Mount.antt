-- ===== src/FuseOps/Mount.antt =====
-- What the callbacks of src/fuse_ops.cpp work on, and the calls of the two stores.
use crunch_fs.Base.{ℕ, Bool, true, false, [], ◌∷◌, Str, codes, Result, ok, err}
use crunch_fs.Base.Int.{ℤ, pos}
use crunch_fs.Disk.{Disk}
use crunch_fs.MetaStore.{Index, find_id}

-- What `g_meta` and `g_store` work on.
pub record Mount : Type 0 where
  pub disk : Disk
  pub index : Index

-- A callback: an exception of the stores leaves it.
abbrev pub Call : Type 0 → Type 0
Call A = Mount → Result A × Mount

abbrev pub done : {A : Type 0} → A → Call A
done a m = (ok a, m)

abbrev pub goes_on : {A B : Type 0} → Result A × Mount → (A → Call B) → Result B × Mount
goes_on (ok a, m) f = f a m
goes_on (err e, m) f = (err e, m)

infixl 5 ◌>>=◌ ◌>>◌
abbrev pub ◌>>=◌ : {A B : Type 0} → Call A → (A → Call B) → Call B
◌>>=◌ c f m = goes_on (c m) f

abbrev pub ◌>>◌ : {B : Type 0} → Call (Unit {0}) → Call B → Call B
c >> k = c >>= λ _. k

-- The calls of the two stores.
abbrev pub with_disk : {A : Type 0} → Mount → Result A × Disk → Result A × Mount
with_disk m (r, d) = (r, record m { disk = d })

abbrev pub store : {A : Type 0} → (Disk → Result A × Disk) → Call A
store f m = with_disk m (f m.disk)

abbrev pub with_result : {A : Type 0} → Mount → A × Disk → Result A × Mount
with_result m (a, d) = (ok a, record m { disk = d })

abbrev pub plainly : {A : Type 0} → (Disk → A × Disk) → Call A
plainly f m = with_result m (f m.disk)

abbrev pub changed : (Disk → Disk) → Call (Unit {0})
changed f m = (ok tt, record m { disk = f m.disk })

abbrev pub with_index : Index × Disk → Result (Unit {0}) × Mount
with_index (i, d) = (ok tt, record { disk = d; index = i })

abbrev pub indexed : (Index → Disk → Index × Disk) → Call (Unit {0})
indexed f m = with_index (f m.index m.disk)

-- `g_meta->path_to_id(p)`
abbrev pub path_to_id : Str → Call Str
path_to_id p m = (ok (find_id p m.index), m)

abbrev pub is_empty : Str → Bool
is_empty [] = true
is_empty (c ∷ s) = false

unfoldable pub norm : Str → Str
norm [] = codes "/"
norm (c ∷ s) = c ∷ s

abbrev pub stats_vpath : Str
stats_vpath = codes "/.cfs_stats"

-- `struct stat`, as far as it is set.
pub record Attributes : Type 0 where
  pub mode : ℕ
  pub nlink : ℕ
  pub size : ℕ
  pub atime : ℤ
  pub mtime : ℤ
  pub ctime : ℤ

-- What `memset` leaves.
abbrev pub zeroed : Attributes
zeroed = record { mode = 0; nlink = 0; size = 0; atime = pos 0; mtime = pos 0; ctime = pos 0 }

-- S_IFDIR and S_IFREG
abbrev pub directory : ℕ
directory = 16384

abbrev pub regular : ℕ
regular = 32768
