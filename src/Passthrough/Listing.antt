-- ===== src/Passthrough/Listing.antt =====
-- `cfs_readdir`: the entries of a directory of the host, and below them the logical files and the
-- directories that their paths name.
pub mod HostNames
pub mod Children
use crunch_fs.Base.{
  ℕ, Bool, true, false, not, ◌&&◌, ◌||◌, Option, none, some, List, [], ◌∷◌, ◌++◌, ◌⊎◌, inl, inr,
  if◌then◌else◌, Str, str_eq, codes, Result, ok, err, failed,
}
use crunch_fs.Base.Int.{ℤ, pos, neg, eio, enoent}
use crunch_fs.Disk.{Disk}
use crunch_fs.Passthrough.Path.{normalize_path, to_backing_path, path_is_direct_child}
use crunch_fs.Passthrough.Layout.{Config}
use crunch_fs.Passthrough.Index.{has, set_insert, load_index}

-- A call of `filler`: a name, with the kind of file where a `struct stat` goes with it.
abbrev pub Entry : Type 0
Entry = Str × Option Bool

abbrev pub is_special : Str → Bool
is_special name =
    str_eq name (codes ".") || str_eq name (codes "..") || str_eq name (codes ".crunchfs")

-- What the loops have made: the set `added`, the calls of `filler`, and whether it took the last.
pub record Listed : Type 0 where
  pub added : List Str
  pub out : List Entry
  pub going : Bool

-- `accepts` tells of the calls that were made whether `filler` takes another.
module _ (accepts : List Entry → Bool) where
  -- The loop over `readdir`.
  unfoldable pub list_host : List Str → Listed → Listed
  list_host [] l = l
  list_host (name ∷ names) l =
      let added = set_insert name l.added in
      let skipped = list_host names l in
      let taken =
        list_host names
          (record { added = added; out = l.out ++ (name, none) ∷ []; going = true }) in
      if is_special name
      then skipped
      else if accepts l.out
      then taken
      else record { added = added; out = l.out; going = false }

  -- A round of the loop over the index. `added.insert(name).second` is whether the name was new.
  next_child : Option (Str × Bool) → Listed → (Listed → Listed) → Listed
  next_child none l rest = rest l
  next_child (some (name, is_dir)) l rest =
      let added = set_insert name l.added in
      if has name l.added
      then rest (record l { added = added })
      else if accepts l.out
      then rest (record { added = added; out = l.out ++ (name, some is_dir) ∷ []; going = true })
      else record { added = added; out = l.out; going = false }

  unfoldable pub list_index : Str → List Str → Listed → Listed
  unfolding next_child
  list_index directory [] l = l
  list_index directory (path ∷ paths) l =
      next_child (path_is_direct_child directory path) l (list_index directory paths)

  -- Behind the two loops: the index is read only if `filler` has taken every entry of the host.
  list_logical : Str → Listed → Result (List Str) × Disk → Result (ℤ × List Entry) × Disk
  list_logical directory l (ok paths, d) = (ok (pos 0, (list_index directory paths l).out), d)
  list_logical directory l (err failed, d) = (ok (neg eio, l.out), d)
  list_logical directory l (err e, d) = (err e, d)

  -- `is_directory`, and `opendir` with the names that `readdir` returns, are calls of the host.
  unfoldable pub cfs_readdir :
      (Disk → Str → Bool)
      → (Disk → Str → ℕ ⊎ List Str)
      → Config
      → Str
      → Disk
      → Result (ℤ × List Entry) × Disk
  unfolding list_logical list_host
  cfs_readdir is_directory opendir cfg path d =
      let real = to_backing_path cfg.backing_dir path in
      let directory = normalize_path path in
      let one : List Entry = (codes ".", none) ∷ [] in
      let two : List Entry = one ++ (codes "..", none) ∷ [] in
      if not (is_directory d real)
      then (ok (neg enoent, []), d)
      else if not (accepts [])
      then (ok (pos 0, []), d)
      else if not (accepts one)
      then (ok (pos 0, one), d)
      else elim (opendir d real) [
        | inl errno ↦ (ok (neg errno, two), d)
        | inr names ↦
            let l = list_host names (record { added = []; out = two; going = true }) in
            if l.going then list_logical directory l (load_index cfg d) else (ok (pos 0, l.out), d)
      ]
