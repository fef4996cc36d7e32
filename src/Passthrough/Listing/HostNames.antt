-- ===== src/Passthrough/Listing/HostNames.antt =====
-- What the loop of `cfs_readdir` over the names of the host lists where `filler` takes every call.
use mathlib.Core.List.{map}
use crunch_fs.Base.{
  ◌≡◌, refl, sym, ◌∙◌, Bool, true, false, ◌||◌, none, List, [], ◌∷◌, ◌++◌, append-nil, append_assoc,
  inl, inr, if◌then◌else◌, Bool-cases, Str, str_eq, codes,
}
use crunch_fs.Passthrough.Index.{has, set_insert}
use crunch_fs.Passthrough.Index.Entries.{has-set_insert}
use crunch_fs.Passthrough.Listing.{Entry, is_special, Listed, list_host}

abbrev pub takes_all : List Entry → Bool
takes_all out = true

-- The names of the host that no directory shows: its own, its parent's, and the program's directory.
abbrev pub hidden : List Str
hidden = codes "." ∷ codes ".." ∷ codes ".crunchfs" ∷ []

-- The names that the host gives, without the hidden ones.
unfoldable pub host_names : List Str → List Str
host_names [] = []
host_names (name ∷ names) = if has name hidden then host_names names else name ∷ host_names names

or_three : (a b c : Bool) → (a || b || c) ≡ (a || (b || (c || false)))
or_three true b c = refl
or_three false true c = refl
or_three false false true = refl
or_three false false false = refl

-- The three tests of the loop are for the hidden names.
is_special_lem : (name : Str) → is_special name ≡ has name hidden
unfolding has
is_special_lem name =
    or_three (str_eq name (codes ".")) (str_eq name (codes "..")) (str_eq name (codes ".crunchfs"))

abbrev pub plain : Str → Entry
plain name = (name, none)

-- What the loop over the host's names leaves.
pub record HostListed (names : List Str) (l l' : Listed) : Type 0 where
  pub out : l'.out ≡ l.out ++ map plain (host_names names)
  pub members : (n : Str) → has n l'.added ≡ (has n l.added || has n (host_names names))
  pub going : l'.going ≡ true

or_false : (b : Bool) → (b || false) ≡ b
or_false true = refl
or_false false = refl

or_move : (a b c : Bool) → ((a || b) || c) ≡ (b || (a || c))
or_move true true c = refl
or_move true false c = refl
or_move false b c = refl

pub list_host-HostListed :
    (names : List Str) (l : Listed)
    → l.going ≡ true
    → HostListed names l (list_host takes_all names l)
unfolding list_host host_names has
list_host-HostListed [] l going = record {
  out = sym (append-nil l.out);
  members = λ n. sym (or_false (has n l.added));
  going = going;
}
list_host-HostListed (name ∷ names) l going = elim (Bool-cases (has name hidden)) [
  | inl out_of_sight ↦
      let special = is_special_lem name ∙ out_of_sight in
      let ih = list_host-HostListed names l going in
      record {
        out = rw (special, out_of_sight) ih.out;
        members = λ n. rw (special, out_of_sight) (ih.members n);
        going = rw special ih.going;
      }
  | inr shown ↦
      let usual = is_special_lem name ∙ shown in
      let ih =
        list_host-HostListed names
          (record {
            added = set_insert name l.added;
            out = l.out ++ (name, none) ∷ [];
            going = true;
          })
          refl in
      record {
        out =
            rw (usual, shown)
              (ih.out ∙ append_assoc l.out ((name, none) ∷ []) (map plain (host_names names)));
        members = λ n.
            rw (usual, shown)
              (ih.members n
                ∙ rw (has-set_insert n name l.added)
                    (or_move (str_eq n name) (has n l.added) (has n (host_names names))));
        going = rw usual ih.going;
      }
]
