-- ===== src/Passthrough/Listing/Children.antt =====
-- What `cfs_readdir` lists where `filler` takes every call: each name once.
use mathlib.Core.List.{map}
use crunch_fs.Base.{
  ℕ, ◌≡◌, refl, sym, ap, ◌∙◌, Bool, true, false, not, ◌&&◌, ◌||◌, Option, none, some, List, [], ◌∷◌,
  ◌++◌, append-nil, append_assoc, ◌⊎◌, inl, inr, Bool-cases, Option-cases, Str, str_eq, str_eq→eq,
  str_eq_refl, codes, ok,
}
use crunch_fs.Base.Int.{pos}
use crunch_fs.Disk.{Disk}
use crunch_fs.Passthrough.Path.{normalize_path, to_backing_path, path_is_direct_child}
use crunch_fs.Passthrough.Path.Normal.{components, components-normalize_path}
use crunch_fs.Passthrough.Path.Child.{child, path_is_direct_child_lem}
use crunch_fs.Passthrough.Layout.{Config}
use crunch_fs.Passthrough.Index.{has, set_insert, load_index}
use crunch_fs.Passthrough.Index.Entries.{has-set_insert}
use crunch_fs.Passthrough.Listing.{Entry, Listed, list_host, list_index, cfs_readdir}
use crunch_fs.Passthrough.Listing.HostNames.{takes_all, host_names, plain, list_host-HostListed}

add_child : Option (Str × Bool) → List Str → List Str
add_child none names = names
add_child (some (name, is_dir)) names = name ∷ names

-- The names that the logical paths have in the directory.
pub child_names : List Str → List Str → List Str
child_names directory [] = []
child_names directory (path ∷ paths) =
    add_child (child directory (components path)) (child_names directory paths)

abbrev pub names_of : List Entry → List Str
names_of = map (λ (e : Entry). e.0)

-- No name stands twice in the list.
abbrev pub AreDistinct : List Str → Type 0
AreDistinct [] = Unit {0}
AreDistinct (x ∷ xs) = (has x xs ≡ false) × AreDistinct xs

-- The Boolean steps of the induction: `b` is whether a name is the one at hand.
and_false : (b : Bool) → (b && false) ≡ false
and_false true = refl
and_false false = refl

known_step :
    (b : Bool) (x y : Bool) → (b ≡ true → x ≡ true) → (not (b || x) && y) ≡ (not x && (b || y))
known_step true x y h = rw (h refl) refl
known_step false x y h = refl

fresh_step :
    (b : Bool) (x y : Bool)
    → (b ≡ true → x ≡ false)
    → (b || (not (b || x) && y)) ≡ (not x && (b || y))
fresh_step true x y h = rw (h refl) refl
fresh_step false x y h = refl

has_same : (n name : Str) (xs : List Str) → str_eq n name ≡ true → has n xs ≡ has name xs
has_same n name xs h = ap (λ (t : Str). has t xs) (str_eq→eq n name h)

-- An entry that some path of the index accounts for: its name is that of a child, and its kind says
-- whether the path goes on behind the name.
abbrev pub IsShown : List Str → List Str → Entry → Type 0
IsShown directory paths (name, kind) =
    (path : Str) × (is_dir : Bool) × (has path paths ≡ true)
    × (child directory (components path) ≡ some (name, is_dir))
    × (kind ≡ some is_dir)

unfoldable pub AreShown : List Str → List Str → List Entry → Type 0
AreShown directory paths [] = Unit {0}
AreShown directory paths (e ∷ es) = IsShown directory paths e × AreShown directory paths es

or_true : (b : Bool) → (b || true) ≡ true
or_true true = refl
or_true false = refl

AreShown-more :
    (directory : List Str) (path : Str) (paths : List Str) (es : List Entry)
    → AreShown directory paths es
    → AreShown directory (path ∷ paths) es
unfolding AreShown has
AreShown-more directory path paths [] h = tt
AreShown-more directory path paths ((name, kind) ∷ es) ((q, is_dir, there, is, same), h) = (
  (q, is_dir, rw (there, or_true (str_eq q path)) refl, is, same),
  AreShown-more directory path paths es h,
)

-- What a loop adds: each name that is neither in the set nor added before, once, with the kind that a
-- path gives it.
abbrev Adds : List Str → Listed → List Str → Listed → Type 0
Adds directory l paths l' =
    (ls : List Entry) × (l'.out ≡ l.out ++ ls)
    × ((n : Str)
        → has n (names_of ls) ≡ (not (has n l.added) && has n (child_names directory paths)))
    × AreDistinct (names_of ls)
    × AreShown directory paths ls

list_index-Adds :
    (directory : Str) (paths : List Str) (l : Listed)
    → Adds (components directory) l paths (list_index takes_all directory paths l)
unfolding list_index child_names has add_child AreShown
list_index-Adds directory [] l =
    ([], sym (append-nil l.out), λ n. sym (and_false (not (has n l.added))), tt, tt)
list_index-Adds directory (path ∷ paths) l =
    elim (Option-cases (path_is_direct_child directory path)) [
      | inl e ↦
          let e' = sym (path_is_direct_child_lem directory path) ∙ e in
          let (ls, same, members, distinct, shown) = list_index-Adds directory paths l in
          (
            ls,
            rw e same,
            λ n. rw e' (members n),
            distinct,
            AreShown-more (components directory) path paths ls shown,
          )
      | inr ((name, is_dir), e) ↦
          let e' = sym (path_is_direct_child_lem directory path) ∙ e in
          elim (Bool-cases (has name l.added)) [
            | inl known ↦
                let (ls, same, members, distinct, shown) =
                  list_index-Adds directory paths (record l { added = set_insert name l.added }) in
                (
                  ls,
                  rw (e, known) same,
                  λ n.
                      members n
                      ∙ rw e' (
                          rw (has-set_insert n name l.added) (
                            known_step (str_eq n name) (has n l.added) _
                              (λ b. has_same n name l.added b ∙ known))),
                  distinct,
                  AreShown-more (components directory) path paths ls shown,
                )
            | inr new ↦
                let (ls, same, members, distinct, shown) = list_index-Adds directory paths (record {
                  added = set_insert name l.added;
                  out = l.out ++ (name, some is_dir) ∷ [];
                  going = true;
                }) in
                (
                  (name, some is_dir) ∷ ls,
                  rw (e, new) (same ∙ append_assoc l.out ((name, some is_dir) ∷ []) ls),
                  λ n.
                      rw (members n, e', has-set_insert n name l.added)
                        (fresh_step (str_eq n name) (has n l.added) _
                          (λ b. has_same n name l.added b ∙ new)),
                  (
                    rw (members name, has-set_insert name name l.added, str_eq_refl name) refl,
                    distinct,
                  ),
                  (
                    (path, is_dir, rw (str_eq_refl path) refl, e', refl),
                    AreShown-more (components directory) path paths ls shown,
                  ),
                )
          ]
    ]

-- Where `filler` takes every call and the host and the index can be read, a directory is listed as "."
-- and "..", the names that the host has there but ".", ".." and ".crunchfs", and behind these, once each,
-- the names that the logical paths have in the directory and the host has not, each with the kind that one
-- of these paths gives it: a directory where the path goes on behind the name, else a file.
pub cfs_readdir_lem :
    (is_directory : Disk → Str → Bool) (opendir : Disk → Str → ℕ ⊎ List Str) (cfg : Config)
    (path : Str) (names paths : List Str) (d d' : Disk)
    → is_directory d (to_backing_path cfg.backing_dir path) ≡ true
    → opendir d (to_backing_path cfg.backing_dir path) ≡ inr names
    → load_index cfg d ≡ (ok paths, d')
    → (ls : List Entry) × (cfs_readdir takes_all is_directory opendir cfg path d ≡ (
      ok (
        pos 0,
        (((codes ".", none) ∷ (codes "..", none) ∷ []) ++ map plain (host_names names)) ++ ls,
      ),
      d',
    ))
      × ((n : Str)
          → has n (names_of ls)
            ≡ (not (has n (host_names names)) && has n (child_names (components path) paths)))
      × AreDistinct (names_of ls)
      × AreShown (components path) paths ls
unfolding cfs_readdir
cfs_readdir_lem is_directory opendir cfg path names paths d d' dir there loaded =
    let l₀ : Listed = record {
      added = [];
      out = (codes ".", none) ∷ (codes "..", none) ∷ [];
      going = true;
    } in
    let l = list_host takes_all names l₀ in
    let h = list_host-HostListed names l₀ refl in
    let (ls, same, members, distinct, shown) = list_index-Adds (normalize_path path) paths l in
    (
      ls,
      rw (dir, there, h.going, loaded) (rw (same, h.out) refl),
      λ n. members n ∙ rw (h.members n, components-normalize_path path) (unfold has in refl),
      distinct,
      rw (components-normalize_path path) at shown,
    )
