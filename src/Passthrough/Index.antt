-- ===== src/Passthrough/Index.antt =====
-- The index: the set of the logical paths, and the text file that holds it, a path on each line.
pub mod Kept
pub mod Calm
pub mod Entries
pub mod Sorted
pub mod Saved
pub mod Edits
use mathlib.Core.List.{map}
use crunch_fs.Base.{
  ℕ, Bool, true, false, ◌&&◌, ◌||◌, List, [], ◌∷◌, ◌++◌, Str, str_eq, ltb, ◌==◌, if◌then◌else◌,
  Result, ok, err, failed,
}
use crunch_fs.Base.Bytes.{Bytes}
use crunch_fs.Disk.{Disk, Act, follow, ◌>>=◌, ◌>>◌, open_read, open_trunc, write_all, close, rename}
use crunch_fs.Passthrough.Path.{normalize_path}
use crunch_fs.Passthrough.Layout.{Config, index_path, tmp}

-- `std::set<std::string>` is a list in the order of its keys.
unfoldable pub str_lt : Str → Str → Bool
str_lt [] [] = false
str_lt [] (b ∷ bs) = true
str_lt (a ∷ cs) [] = false
str_lt (a ∷ cs) (b ∷ bs) = ltb a b || (a == b && str_lt cs bs)

unfoldable pub set_insert : Str → List Str → List Str
set_insert s [] = s ∷ []
set_insert s (x ∷ xs) =
    let rest = set_insert s xs in
    if str_eq s x then x ∷ xs else if str_lt s x then s ∷ x ∷ xs else x ∷ rest

unfoldable pub set_erase : Str → List Str → List Str
set_erase s [] = []
set_erase s (x ∷ xs) = let rest = set_erase s xs in if str_eq s x then xs else x ∷ rest

-- Whether `s` is in the set.
unfoldable pub has : Str → List Str → Bool
has s [] = false
has s (x ∷ xs) = str_eq s x || has s xs

abbrev pub newline : ℕ
newline = 10

-- The lines that `std::getline` reads; an empty one behind the last newline is skipped below.
split_lines : Bytes → Str × List Str
split_lines [] = ([], [])
split_lines (c ∷ s) =
    let (line, rest) = split_lines s in if c == newline then ([], line ∷ rest) else (c ∷ line, rest)

unfoldable pub lines : Bytes → List Str
unfolding split_lines
lines s = let (line, rest) = split_lines s in line ∷ rest

-- `line.c_str()` ends at the first zero byte.
unfoldable pub c_str : Str → Str
c_str [] = []
c_str (c ∷ s) = let rest = c_str s in if c == 0 then [] else c ∷ rest

unfoldable pub insert_lines : List Str → List Str → List Str
unfolding c_str
insert_lines out [] = out
insert_lines out ([] ∷ rest) = insert_lines out rest
insert_lines out ((c ∷ s) ∷ rest) =
    insert_lines (set_insert (normalize_path (c_str (c ∷ s))) out) rest

-- A file that cannot be opened is an empty index; a read error is a failure.
index_entries : Result (Bytes × Bool) × Disk → Result (List Str) × Disk
index_entries (err e, d) = (ok [], d)
index_entries (ok (bytes, true), d) = (ok (insert_lines [] (lines bytes)), d)
index_entries (ok (bytes, false), d) = (err failed, d)

unfoldable pub load_index : Config → Act (List Str)
unfolding index_entries
load_index cfg d = index_entries (open_read (index_path cfg) d)

abbrev pub index_lines : List Str → List Bytes
index_lines = map (λ path. path ++ newline ∷ [])

unfoldable pub save_index_atomic : Config → List Str → Act (Unit {0})
save_index_atomic cfg entries = do
  let tmp_path = tmp (index_path cfg)
  open_trunc tmp_path
  write_all tmp_path (index_lines entries)
  close tmp_path
  rename tmp_path (index_path cfg)

unfoldable pub add_index_entry : Config → Str → Act (Unit {0})
unfolding load_index save_index_atomic
add_index_entry cfg path = do
  entries ← load_index cfg
  save_index_atomic cfg (set_insert path entries)

unfoldable pub remove_index_entry : Config → Str → Act (Unit {0})
unfolding load_index save_index_atomic
remove_index_entry cfg path = do
  entries ← load_index cfg
  save_index_atomic cfg (set_erase path entries)
