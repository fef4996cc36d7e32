-- ===== src/FuseOps/Volume/Answers.antt =====
-- Every call that changes something answers what the specification says.
use mathlib.Core.List.{Permᴰ}
use crunch_fs.Base.{
  ℕ, ◌+◌, ◌≤◌, ◌<◌, ◌≡◌, false, none, some, Option, [], length, take, Str, str_eq, ◌==◌,
  if◌then◌else◌, ok, Bool-cases, inl, inr, arith,
}
use crunch_fs.Base.Bytes.{Bytes, off_end, u64_mod}
use crunch_fs.Base.Buffer.{overwrite}
use crunch_fs.Base.Int.{ℤ, pos, neg, to_int, enoent, eexist}
use crunch_fs.Zstd.{Zstd, ZstdLaws}
use crunch_fs.Passthrough.Layout.{Config}
use crunch_fs.Numerals.Signed.{IsLong}
use crunch_fs.MetaText.Words.{IsWord}
use crunch_fs.MetaStore.{Index, hash_path}
use crunch_fs.FuseOps.Mount.{Mount, Call, norm}
use crunch_fs.FuseOps.Calls.{cfs_write, cfs_truncate, cfs_utimens, cfs_chmod}
use crunch_fs.FuseOps.Names.{cfs_create, cfs_unlink, cfs_rename}
use crunch_fs.FuseOps.Volume.{Node, Tree, set, Shows}
use crunch_fs.FuseOps.Volume.Steps.{Option-cases}
use crunch_fs.FuseOps.Volume.Contents.{
  cfs_write-Shows, cfs_truncate-Shows, cfs_utimens-Shows, cfs_chmod-Shows,
}
use crunch_fs.FuseOps.Volume.Entries.{cfs_create-Shows, cfs_unlink-Shows}
use crunch_fs.FuseOps.Volume.Renames.{cfs_rename-Shows}
use crunch_fs.FuseOps.Volume.Absent.{
  cfs_write_nothing, cfs_write_absent, cfs_truncate_absent, cfs_utimens_absent, cfs_chmod_absent,
  cfs_unlink_absent, cfs_rename_absent, cfs_create_exists,
}

-- A call, with the time at which it is made.
pub data Op : Type 0 where
  create : ℤ → Str → ℕ → Op
  write : ℤ → Str → Bytes → ℕ → Op
  truncate : ℤ → Str → ℕ → Op
  unlink : Str → Op
  rename : Str → Str → Op
  utimens : ℤ → ℤ → Str → Op
  chmod : Str → ℕ → Op

-- What the code does.
unfoldable pub exec : (Index → Index) → Zstd → Config → Op → Call ℤ
exec order z cfg (create now path mode) = cfs_create order cfg now path mode
exec order z cfg (write now path buf offset) = cfs_write cfg z now path buf offset
exec order z cfg (truncate now path nsz) = cfs_truncate cfg now path nsz
exec order z cfg (unlink path) = cfs_unlink order cfg path
exec order z cfg (rename from to) = cfs_rename order cfg from to
exec order z cfg (utimens atime mtime path) = cfs_utimens cfg atime mtime path
exec order z cfg (chmod path mode) = cfs_chmod cfg path mode

-- `-ENOENT` without a file; with one, a result and what is left at the path.
abbrev for_file : Option Node → Str → Tree → ℤ → (Node → Option Node) → ℤ × Tree
for_file none p t result f = (neg enoent, t)
for_file (some n) p t result f = (result, set t p (f n))

abbrev if_free : Option Node → Str → Tree → ℤ × Tree
if_free none p t = (pos 0, set t p (some (record { id = hash_path p; bytes = [] })))
if_free (some n) p t = (neg eexist, t)

abbrev to_name : Option Node → Str → Str → Tree → ℤ × Tree
to_name none p q t = (neg enoent, t)
to_name (some n) p q t = (pos 0, set (set t p none) q (some n))

abbrev as_it_is : Option Node → Tree → ℤ × Tree
as_it_is none t = (neg enoent, t)
as_it_is (some n) t = (pos 0, t)

-- What the specification says: the result of the call, and the next tree.
unfoldable pub answer : Op → Tree → ℤ × Tree
answer (create now path mode) t = if_free (t (norm path)) (norm path) t
answer (write now path buf offset) t =
    if length buf == 0
    then (pos 0, t)
    else for_file (t (norm path)) (norm path) t (to_int (length buf))
        (λ n. some (record { id = n.id; bytes = overwrite n.bytes offset buf }))
answer (truncate now path nsz) t =
    for_file (t (norm path)) (norm path) t (pos 0)
      (λ n. some (record { id = n.id; bytes = take nsz n.bytes }))
answer (unlink path) t = for_file (t (norm path)) (norm path) t (pos 0) (λ n. none)
answer (rename from to) t = to_name (t (norm from)) (norm from) (norm to) t
answer (utimens atime mtime path) t = as_it_is (t (norm path)) t
answer (chmod path mode) t = as_it_is (t (norm path)) t

-- The calls that the specification speaks of: times are in the range of `long long`, new paths are words;
-- a write begins at most at the end of the file, and a truncation is to a size that `off_t` holds and makes no file longer; a new file's hash is
-- the id of no other, and no file is renamed to itself.
unfoldable pub IsPlain : Op → Tree → Type 0
IsPlain (create now path mode) t =
    IsLong now
    × IsWord (norm path)
    × ((q : Str) (a : Node) → t q ≡ some a → str_eq (hash_path (norm path)) a.id ≡ false)
IsPlain (write now path buf offset) t =
    IsLong now
    × (offset + length buf < u64_mod)
    × ((n : Node) → t (norm path) ≡ some n → offset ≤ length n.bytes)
IsPlain (truncate now path nsz) t =
    IsLong now × (nsz < off_end) × ((n : Node) → t (norm path) ≡ some n → nsz ≤ length n.bytes)
IsPlain (unlink path) t = Unit
IsPlain (rename from to) t = IsWord (norm to) × (str_eq (norm to) (norm from) ≡ false)
IsPlain (utimens atime mtime path) t = IsLong atime × IsLong mtime
IsPlain (chmod path mode) t = Unit

module _ (order : Index → Index) (shuffles : (index : Index) → Permᴰ index (order index)) (z : Zstd)
    (laws : ZstdLaws z) (cfg : Config) where
  -- A plain call of create, write, truncate, unlink, rename, utimens or chmod on a mount that shows a tree
  -- returns what the specification says, `-ENOENT` and `-EEXIST` included, and the mount then shows the next
  -- tree.
  pub exec-answer :
      (o : Op) (t : Tree) (m : Mount)
      → Shows z cfg t m
      → IsPlain o t
      → (m' : Mount) × (exec order z cfg o m ≡ (ok (answer o t).0, m'))
        × Shows z cfg (answer o t).1 m'
  unfolding exec answer IsPlain
  exec-answer (create now path mode) t m s (time, word, unused) =
      elim (Option-cases (t (norm path))) [
        | inl e ↦
            rw e (cfs_create-Shows order shuffles z cfg now time path mode t m s word e unused)
        | inr (n, e) ↦ rw e (m, cfs_create_exists order z cfg t m s path n e now mode, s)
      ]
  exec-answer (write now path buf offset) t m s (time, fits, within) =
      elim (Bool-cases (length buf == 0)) [
        | inl nothing ↦
            rw nothing (m, cfs_write_nothing order z cfg t m s path now buf offset nothing, s)
        | inr something ↦
            let some_bytes : 1 ≤ length buf = ground arith in
            elim (Option-cases (t (norm path))) [
              | inl e ↦
                  rw (something, e)
                    (m, cfs_write_absent order z cfg t m s path e now buf offset some_bytes, s)
              | inr (n, e) ↦
                  rw (something, e)
                    (cfs_write-Shows z cfg laws now time path buf offset n t m s e some_bytes
                      (within n e) fits)
            ]
      ]
  exec-answer (truncate now path nsz) t m s (time, off, fewer) =
      elim (Option-cases (t (norm path))) [
        | inl e ↦ rw e (m, cfs_truncate_absent order z cfg t m s path e now nsz, s)
        | inr (n, e) ↦ rw e (cfs_truncate-Shows z cfg now time path nsz n t m s e (fewer n e) off)
      ]
  exec-answer (unlink path) t m s plain = elim (Option-cases (t (norm path))) [
    | inl e ↦ rw e (m, cfs_unlink_absent order z cfg t m s path e, s)
    | inr (n, e) ↦ rw e (cfs_unlink-Shows order shuffles z cfg path n t m s e)
  ]
  exec-answer (rename from to) t m s (word, ne) = elim (Option-cases (t (norm from))) [
    | inl e ↦ rw e (m, cfs_rename_absent order z cfg t m s from e to, s)
    | inr (n, e) ↦ rw e (cfs_rename-Shows order shuffles z cfg from to n t m s e word ne)
  ]
  exec-answer (utimens atime mtime path) t m s (fa, fm) = elim (Option-cases (t (norm path))) [
    | inl e ↦ rw e (m, cfs_utimens_absent order z cfg t m s path e atime mtime, s)
    | inr (n, e) ↦ rw e (cfs_utimens-Shows z cfg atime mtime fa fm path n t m s e)
  ]
  exec-answer (chmod path mode) t m s plain = elim (Option-cases (t (norm path))) [
    | inl e ↦ rw e (m, cfs_chmod_absent order z cfg t m s path e mode, s)
    | inr (n, e) ↦ rw e (cfs_chmod-Shows z cfg path mode n t m s e)
  ]
