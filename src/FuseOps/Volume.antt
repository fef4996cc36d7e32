-- ===== src/FuseOps/Volume.antt =====
-- The specification of the chunked file system: a tree of paths, each with an id and a content, and what
-- it means that a mount shows it.
pub mod Steps
pub mod Contents
pub mod Entries
pub mod Renames
pub mod Absent
pub mod Looks
pub mod Listed
pub mod Totals
pub mod Answers
pub mod Runs
pub mod Remounts
use crunch_fs.Base.{◌≡◌, false, none, some, Option, [], length, Str, str_eq, if◌then◌else◌}
use crunch_fs.Base.Bytes.{Bytes}
use crunch_fs.Zstd.{Zstd}
use crunch_fs.Passthrough.Layout.{Config}
use crunch_fs.MetaText.{FileMeta}
use crunch_fs.MetaStore.{find_id}
use crunch_fs.MetaStore.Keys.{AreEntries}
use crunch_fs.MetaStore.Reloaded.{IsSaved}
use crunch_fs.FuseOps.Mount.{Mount}
use crunch_fs.FuseOps.Calls.Files.{File}

-- A file: its id, which a rename keeps, and its bytes.
pub record Node : Type 0 where
  pub id : Str
  pub bytes : Bytes

abbrev pub Tree : Type 0
Tree = Str → Option Node

abbrev pub empty_tree : Tree
empty_tree p = none

unfoldable pub set : Tree → Str → Option Node → Tree
set t p v q = if str_eq p q then v else t q

-- The file at the path, with the metadata that the mount has for it.
pub record Shown (z : Zstd) (cfg : Config) (p : Str) (n : Node) (m : Mount) : Type 0 where
  pub meta : FileMeta
  pub file : File z cfg p n.bytes meta m
  pub own : meta.path_id ≡ n.id

-- The mount shows the tree: the disk meets no fault, every path of the tree is a file with its bytes, every
-- other path is none, different files have different ids, and the index file stands for the index.
pub record Shows (z : Zstd) (cfg : Config) (t : Tree) (m : Mount) : Type 0 where
  pub calm : m.disk.faults ≡ []
  pub shown : (p : Str) (n : Node) → t p ≡ some n → Shown z cfg p n m
  pub absent : (p : Str) → t p ≡ none → find_id p m.index ≡ []
  pub apart :
      (p q : Str) (a b : Node)
      → t p ≡ some a
      → t q ≡ some b
      → str_eq p q ≡ false
      → str_eq a.id b.id ≡ false
  pub sized : (p : Str) (n : Node) → t p ≡ some n → length n.id ≡ 16
  pub entries : AreEntries m.index
  pub saved : IsSaved cfg m.index m.disk
