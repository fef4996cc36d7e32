-- ===== src/MetaStore.antt =====
-- src/metadata.cpp, src/metadata.hpp: the files of the metadata and the index of the paths. A
-- `std::unordered_map` is a list of its entries; the order in which the library goes through them is a
-- parameter, as it is open.
pub mod Keys
pub mod Paths
pub mod Reloaded
pub mod Saved
use Prim.Native.Nat.{bit_xor}
use mathlib.Core.List.{map}
use crunch_fs.Base.{
  ℕ, ◌+◌, ◌*◌, ◌%◌, Bool, true, false, ◌||◌, ◌&&◌, leb, List, [], ◌∷◌, ◌++◌, if◌then◌else◌, ◌==◌,
  Str, str_eq, codes, Result, ok, err, thrown, Option, none, some,
}
use crunch_fs.Base.{◌>>=◌ as then_result}
use crunch_fs.Base.Bytes.{Bytes, u32_mod, u64_mod}
use crunch_fs.Base.Int.{ℤ, pos}
use crunch_fs.Disk.{Disk, open_read, open_trunc, write, close, exists}
use crunch_fs.Disk.{remove as remove_file}
use crunch_fs.Passthrough.Layout.{Config, meta_dir, index_path}
use crunch_fs.Passthrough.Index.{newline, lines}
use crunch_fs.Hex.{hex16}
use crunch_fs.Numerals.{print, stoull, print_signed, stoll}
use crunch_fs.MetaText.{FileMeta, words, set_fields, meta_text}

-- `index_`
abbrev pub Index : Type 0
Index = List (Str × Str)

unfoldable pub find_id : Str → Index → Str
find_id p [] = []
find_id p ((q, id) ∷ rest) = let found = find_id p rest in if str_eq q p then id else found

-- `index_[p] = id`
unfoldable pub assign : Str → Str → Index → Index
assign p id [] = (p, id) ∷ []
assign p id ((q, old) ∷ rest) =
    let more = assign p id rest in if str_eq q p then (q, id) ∷ rest else (q, old) ∷ more

unfoldable pub erase : Str → Index → Index
erase p [] = []
erase p ((q, id) ∷ rest) = let more = erase p rest in if str_eq q p then more else (q, id) ∷ more

abbrev put_before : ℕ → Option (Str × Str) → Option (Str × Str)
put_before c none = none
put_before c (some (front, back)) = some (c ∷ front, back)

-- `line.find('\t')`, with what stands before it and behind it.
unfoldable pub at_tab : Str → Option (Str × Str)
at_tab [] = none
at_tab (c ∷ s) = let found = put_before c (at_tab s) in if c == 9 then some ([], s) else found

abbrev add_line : Index → Option (Str × Str) → Index
add_line index none = index
add_line index (some (p, id)) = assign p id index

unfoldable pub read_lines : Index → List Str → Index
read_lines index [] = index
read_lines index (l ∷ ls) = read_lines (add_line index (at_tab l)) ls

unfoldable pub index_text : Index → Bytes
index_text [] = []
index_text ((p, id) ∷ rest) = p ++ 9 ∷ id ++ newline ∷ index_text rest

abbrev pub first : {A B : Type 0} → A × B → A
first (a, b) = a

-- `hash_path`, and the same loop in `cfs_create`: FNV-1a.
unfoldable pub fnv : ℕ → Str → ℕ
fnv h [] = h
fnv h (c ∷ p) = fnv ((bit_xor h c * 1099511628211) % u64_mod) p

unfoldable pub hash_path : Str → Str
hash_path p = hex16 (fnv 14695981039346656037 p)

-- A stream that is opened for a new text, gets it and is closed; whether it opened.
abbrev streamed : Str → Bytes → Result (Unit {0}) × Disk → Bool × Disk
streamed p b (ok u, d) = (true, (close p (write p b d).1).1)
streamed p b (err e, d) = (false, d)

unfoldable pub replace_text : Str → Bytes → Disk → Bool × Disk
replace_text p b d = streamed p b (open_trunc p d)

module _ (cfg : Config) where
  unfoldable pub meta_path : Str → Str
  meta_path path_id = meta_dir cfg ++ codes "/" ++ path_id ++ codes ".meta"

  -- A read error ends the text early, as its end does.
  abbrev read_index : Result (Bytes × Bool) × Disk → Index × Disk
  read_index (ok (b, intact), d) = (read_lines [] (lines b), d)
  read_index (err e, d) = ([], d)

  unfoldable pub load_index : Disk → Index × Disk
  load_index d = read_index (open_read (index_path cfg) d)

  abbrev parsed : FileMeta → Result (Bytes × Bool) × Disk → Result (Bool × FileMeta) × Disk
  parsed m (ok (b, intact), d) = (then_result (set_fields (words b) m) λ m'. ok (true, m'), d)
  parsed m (err e, d) = (ok (false, m), d)

  -- The result and `out`; `m` is what `out` held.
  unfoldable pub load : Str → FileMeta → Disk → Result (Bool × FileMeta) × Disk
  load path_id m d = parsed m (open_read (meta_path path_id) d)

  unfoldable pub save : FileMeta → Disk → Bool × Disk
  save m d = replace_text (meta_path m.path_id) (meta_text m) d

  abbrev removed : Bool → Result (Unit {0}) × Disk → Result Bool × Disk
  removed was (ok u, d) = (ok was, d)
  removed was (err e, d) = (err thrown, d)

  unfoldable pub remove : Str → Disk → Result Bool × Disk
  remove path_id d = removed (exists d (meta_path path_id)) (remove_file (meta_path path_id) d)

  -- One turn of the inner loop of `accumulate_stats`.
  unfoldable pub add_field : Str → Str → ℕ × ℕ → Result (ℕ × ℕ)
  add_field key val (l, c) =
      if str_eq key (codes "logical_size")
      then then_result (stoull 10 val) (λ n. ok ((l + n) % u64_mod, c))
      else if str_eq key (codes "comp_size")
      then then_result (stoull 10 val) (λ n. ok (l, (c + n) % u64_mod))
      else ok (l, c)

  unfoldable pub add_fields : List Str → ℕ × ℕ → Result (ℕ × ℕ)
  add_fields [] sums = ok sums
  add_fields (key ∷ []) sums = ok sums
  add_fields (key ∷ val ∷ rest) sums = then_result (add_field key val sums) (add_fields rest)

  abbrev add_text : ℕ × ℕ → Result (Bytes × Bool) × Disk → Result (ℕ × ℕ) × Disk
  add_text sums (ok (b, intact), d) = (add_fields (words b) sums, d)
  add_text sums (err e, d) = (ok sums, d)

  abbrev then_stats :
      (ℕ × ℕ → Disk → Result (ℕ × ℕ) × Disk) → Result (ℕ × ℕ) × Disk → Result (ℕ × ℕ) × Disk
  then_stats rest (ok sums, d) = rest sums d
  then_stats rest (err e, d) = (err e, d)

  unfoldable pub add_files : Index → ℕ × ℕ → Disk → Result (ℕ × ℕ) × Disk
  add_files [] sums d = (ok sums, d)
  add_files ((p, id) ∷ rest) sums d =
      then_stats (add_files rest) (add_text sums (open_read (meta_path id) d))

module _ (order : Index → Index) (cfg : Config) where
  unfoldable pub save_index : Index → Disk → Disk
  save_index index d = (replace_text (index_path cfg) (index_text (order index)) d).1

  unfoldable pub index_add : Str → Str → Index → Disk → Index × Disk
  index_add p id index d = let index' = assign p id index in (index', save_index index' d)

  unfoldable pub index_remove : Str → Index → Disk → Index × Disk
  index_remove p index d = let index' = erase p index in (index', save_index index' d)

  unfoldable pub list_paths : Index → List Str
  list_paths index = map first (order index)

  unfoldable pub accumulate_stats : Index → Disk → Result (ℕ × ℕ) × Disk
  accumulate_stats index d = add_files cfg (order index) (0, 0) d
