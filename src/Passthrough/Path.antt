-- ===== src/Passthrough/Path.antt =====
-- Paths of src/passthrough_cfs.cpp. A C string is the list of its bytes; a null pointer takes the
-- branch of the empty string.
pub mod Normal
pub mod Child
use mathlib.Core.List.{reverse}
use crunch_fs.Base.{
  ℕ, Bool, true, false, ◌&&◌, [], ◌∷◌, ◌++◌, Option, none, some, length, drop, Str, str_eq, ◌==◌,
  if◌then◌else◌,
}

abbrev pub slash : ℕ
slash = b'/'

abbrev pub root : Str
root = slash ∷ []

-- `for (char ch : p)`: `out` is kept with its back in front.
collapse : Bool → Str → Str → Str
collapse prev_slash out [] = out
collapse prev_slash out (ch ∷ p) =
    collapse (ch == slash) (if ch == slash && prev_slash then out else ch ∷ out) p

-- `while (out.size() > 1 && out.back() == '/') out.pop_back();`
pop_slashes : Str → Str
pop_slashes (ch ∷ before ∷ out) =
    let rest = pop_slashes (before ∷ out) in if ch == slash then rest else ch ∷ before ∷ out
pop_slashes out = out

or_root : Str → Str
or_root [] = root
or_root (ch ∷ out) = reverse (ch ∷ out)

absolute : ℕ → Str → Str
absolute ch p = if ch == slash then ch ∷ p else slash ∷ ch ∷ p

unfoldable pub normalize_path : Str → Str
unfolding collapse pop_slashes or_root absolute
normalize_path [] = root
normalize_path (ch ∷ p) = or_root (pop_slashes (collapse false [] (absolute ch p)))

-- `to_backing_path`
unfoldable pub to_backing_path : Str → Str → Str
to_backing_path backing_dir fuse_path =
    let normalized = normalize_path fuse_path in
    if str_eq normalized root then backing_dir else backing_dir ++ normalized

starts_with : Str → Str → Bool
starts_with [] s = true
starts_with (a ∷ p) [] = false
starts_with (a ∷ p) (b ∷ s) = a == b && starts_with p s

-- `remain.substr(0, remain.find('/'))`, and whether there was a slash
cut_at_slash : Str → Str × Bool
cut_at_slash [] = ([], false)
cut_at_slash (ch ∷ s) =
    let (name, found) = cut_at_slash s in if ch == slash then ([], true) else (ch ∷ name, found)

named : Str × Bool → Option (Str × Bool)
named ([], is_dir) = none
named (ch ∷ name, is_dir) = some (ch ∷ name, is_dir)

-- `none` is the result `false`; `some` holds `*out_name` and `*out_is_dir`.
unfoldable pub path_is_direct_child : Str → Str → Option (Str × Bool)
unfolding starts_with cut_at_slash named
path_is_direct_child parent child =
    let p = normalize_path parent in
    let c = normalize_path child in
    let prefix = if str_eq p root then root else p ++ root in
    if str_eq p c
    then none
    else if starts_with prefix c
    then named (cut_at_slash (drop (length prefix) c))
    else none
