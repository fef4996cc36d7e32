-- ===== src/Tests/Mounted.antt =====
-- The chunked file system, from a blank disk on.
use mathlib.Core.List.Permᴰ
use mathlib.Core.List.{Permᴰ}
use crunch_fs.Base.{
  ℕ, ◌%◌, ◌≡◌, refl, sym, false, none, some, List, [], ◌∷◌, length, take, Str, str_eq, str_eq→eq,
  codes, Result, ok, Bool-cases, inl, inr, arith,
}
use crunch_fs.Base.Buffer.{overwrite}
use crunch_fs.Base.Bytes.{u64_mod}
use crunch_fs.Base.Int.{pos, to_int}
use crunch_fs.Zstd.Stored.{stored, stored-ZstdLaws}
use crunch_fs.Disk.{Disk}
use crunch_fs.Numerals.Signed.{up}
use crunch_fs.MetaText.Words.{IsWord}
use crunch_fs.MetaStore.{accumulate_stats, Index, find_id, hash_path, list_paths}
use crunch_fs.Passthrough.Index.{has}
use crunch_fs.FuseOps.Mount.{Mount, norm, stats_vpath}
use crunch_fs.FuseOps.Calls.{cfs_write, cfs_truncate}
use crunch_fs.FuseOps.Names.{cfs_read, cfs_readdir, cfs_create, cfs_unlink, cfs_rename}
use crunch_fs.FuseOps.Volume.{Node, Tree, empty_tree, set, Shows}
use crunch_fs.FuseOps.Volume.Contents.{cfs_write-Shows, cfs_truncate-Shows}
use crunch_fs.FuseOps.Volume.Entries.{cfs_create-Shows}
use crunch_fs.FuseOps.Volume.Renames.{cfs_rename-Shows}
use crunch_fs.FuseOps.Volume.Looks.{bytes_at, is_some, AreApart, cfs_read-Shows}
use crunch_fs.FuseOps.Volume.Listed.{AreRooted, cfs_readdir-Shows}
use crunch_fs.FuseOps.Volume.Totals.{total_size, accumulate_stats-Shows}
use crunch_fs.FuseOps.Names.Unlinks.{Unlinked, cfs_unlink-Unlinked}
use crunch_fs.FuseOps.Volume.Remounts.{fresh-Shows}
use crunch_fs.Tests.{cfg, blank, note, report, hello}

pub note-IsWord : IsWord note
note-IsWord = record { long = omega arith; solid = (refl, (refl, (refl, (refl, (refl, tt))))) }

pub norm-note-IsWord : IsWord (norm note)
unfolding norm
norm-note-IsWord = note-IsWord

pub report-IsWord : IsWord (norm report)
unfolding norm
report-IsWord = record {
  long = omega arith;
  solid = (refl, (refl, (refl, (refl, (refl, (refl, (refl, tt)))))));
}

-- The index is gone through as it stands.
abbrev pub as_listed : Index → Index
as_listed i = i

pub same_entries : (index : Index) → Permᴰ index (as_listed index)
same_entries index = Permᴰ.refl index

abbrev pub made : Str → Disk → Result (Unit {0}) × Disk
made p d = (ok tt, d)

abbrev pub unformatted : Mount
unformatted = record { disk = blank; index = [] }

pub unformatted-Shows : Shows stored cfg empty_tree unformatted
unformatted-Shows = fresh-Shows stored cfg blank refl refl

-- One empty file, and what a write puts in it.
abbrev pub node : Node
node = record { id = hash_path (norm note); bytes = [] }

abbrev pub full : Node
full = record { id = hash_path (norm note); bytes = overwrite [] 0 hello }

abbrev pub one : Tree
one = set empty_tree (norm note) (some node)

abbrev pub two : Tree
two = set one (norm note) (some full)

pub one_there : one (norm note) ≡ some node
unfolding set norm str_eq
one_there = refl

pub two_there : two (norm note) ≡ some full
unfolding set norm str_eq
two_there = refl

pub apart_names : str_eq (norm report) (norm note) ≡ false
unfolding norm str_eq
apart_names = refl

pub not_stats : str_eq (norm note) stats_vpath ≡ false
unfolding norm str_eq
not_stats = refl

pub nothing_yet :
    (q : Str) (a : Node) → empty_tree q ≡ some a → str_eq (hash_path (norm note)) a.id ≡ false
nothing_yet q a e = absurd cc

abbrev pub created :
    (m' : Mount) × (cfs_create as_listed cfg (pos 9) note 420 unformatted ≡ (ok (pos 0), m'))
    × Shows stored cfg one m'
created =
    cfs_create-Shows as_listed same_entries stored cfg (pos 9) (up (omega arith)) note 420
      empty_tree unformatted unformatted-Shows norm-note-IsWord refl nothing_yet

cfs_write-Shows_example :
    (m' : Mount) × (cfs_write cfg stored (pos 9) note hello 0 created.0
      ≡ (ok (to_int (length hello)), m'))
    × Shows stored cfg two m'
cfs_write-Shows_example =
    cfs_write-Shows stored cfg stored-ZstdLaws (pos 9) (up (omega arith)) note hello 0 node one
      created.0 created.2 one_there (omega arith) (omega arith) (omega arith)

abbrev pub written :
    (m' : Mount) × (cfs_write cfg stored (pos 9) note hello 0 created.0
      ≡ (ok (to_int (length hello)), m'))
    × Shows stored cfg two m'
written =
    cfs_write-Shows stored cfg stored-ZstdLaws (pos 9) (up (omega arith)) note hello 0 node one
      created.0 created.2 one_there (omega arith) (omega arith) (omega arith)

cfs_read-Shows_example :
    cfs_read as_listed (λ l c. codes "1") cfg stored note 3 1 written.0
    ≡ (ok (bytes_at (two (norm note)) 3 1), written.0)
cfs_read-Shows_example =
    cfs_read-Shows as_listed (λ l c. codes "1") stored cfg two written.0 written.2 note not_stats 3
      1 (omega arith)

cfs_truncate-Shows_example :
    (m' : Mount) × (cfs_truncate cfg (pos 10) note 0 written.0 ≡ (ok (pos 0), m'))
    × Shows stored cfg
        (set two (norm note) (some (record { id = full.id; bytes = take 0 full.bytes })))
        m'
cfs_truncate-Shows_example =
    cfs_truncate-Shows stored cfg (pos 10) (up (omega arith)) note 0 full two written.0 written.2
      two_there (omega arith) (omega arith)

cfs_unlink-Unlinked_example :
    (m' : Mount) × (cfs_unlink as_listed cfg note written.0 ≡ (ok (pos 0), m'))
    × (find_id (norm note) m'.index ≡ [])
    × Unlinked cfg (written.2.shown (norm note) full two_there).meta m'.disk
cfs_unlink-Unlinked_example =
    cfs_unlink-Unlinked as_listed stored cfg note full.bytes
      (written.2.shown (norm note) full two_there).meta written.0
      (written.2.shown (norm note) full two_there).file

cfs_rename-Shows_example :
    (m' : Mount) × (cfs_rename as_listed cfg note report written.0 ≡ (ok (pos 0), m'))
    × Shows stored cfg (set (set two (norm note) none) (norm report) (some full)) m'
cfs_rename-Shows_example =
    cfs_rename-Shows as_listed same_entries stored cfg note report full two written.0 written.2
      two_there report-IsWord apart_names

two-AreRooted : AreRooted two
unfolding set norm
two-AreRooted p n e = elim (Bool-cases (str_eq note p)) [
  | inl same ↦ (b'n', codes "ote", sym (str_eq→eq note p same))
  | inr ne ↦ let gone : two p ≡ none = rw ne refl in absurd cc
]

cfs_readdir-Shows_example :
    (names : List Str) × (cfs_readdir as_listed cfg (codes "/") written.0
      ≡ (ok (pos 0, codes "." ∷ codes ".." ∷ codes ".cfs_stats" ∷ names), written.0))
    × AreApart names
    × ((n : Str) → has n names ≡ is_some (two (b'/' ∷ n)))
unfolding norm str_eq
cfs_readdir-Shows_example =
    cfs_readdir-Shows as_listed same_entries stored cfg two written.0 written.2 two-AreRooted
      (codes "/")

accumulate_stats-Shows_example :
    (c : ℕ) × (accumulate_stats as_listed cfg written.0.index written.0.disk ≡ (
      ok (total_size two (list_paths as_listed cfg written.0.index) % u64_mod, c),
      written.0.disk,
    ))
accumulate_stats-Shows_example =
    accumulate_stats-Shows as_listed same_entries stored cfg two written.0 written.2
