-- ===== src/Tests/Index.antt =====
-- The index.
use crunch_fs.Base.{
  ◌≡◌, refl, List, [], ◌∷◌, ◌++◌, none, some, Str, str_eq, str_eq→eq, if◌then◌else◌, codes, ok,
  Bool-cases, inl, inr,
}
use crunch_fs.Disk.{Disk, open_read}
use crunch_fs.Passthrough.Path.{normalize_path}
use crunch_fs.Passthrough.Layout.{index_path, crunch_root}
use crunch_fs.Passthrough.Index.{has, load_index, lines, insert_lines, c_str, set_insert, str_lt}
use crunch_fs.Passthrough.Index.Entries.{IsEntry, AreEntries}
use crunch_fs.Passthrough.Index.Edits.{
  Edit, adds, removes, edit, is_member, AreAdded, load_index-edit,
}
use crunch_fs.Tests.{cfg, note, report}

-- The index lists "/note".
abbrev pub listed : Disk
listed = record {
  files = λ q. if str_eq q (codes "/b/.crunchfs/index.txt") then some (note ++ 10 ∷ []) else none;
  faults = [];
}

pub listed_loads : load_index cfg listed ≡ (ok (note ∷ []), listed)
unfolding load_index open_read index_path crunch_root str_eq lines insert_lines c_str set_insert
    str_lt normalize_path
listed_loads = refl

note-IsEntry : IsEntry note
unfolding normalize_path
note-IsEntry = record {
  first = 47;
  rest = codes "note";
  is_some = refl;
  is_text = ((refl, refl), ((refl, refl), ((refl, refl), ((refl, refl), ((refl, refl), tt)))));
  is_normal = refl;
}

report-IsEntry : IsEntry report
unfolding normalize_path
report-IsEntry = record {
  first = 47;
  rest = codes "report";
  is_some = refl;
  is_text = (
    (refl, refl),
    (
      (refl, refl),
      ((refl, refl), ((refl, refl), ((refl, refl), ((refl, refl), ((refl, refl), tt))))),
    ),
  );
  is_normal = refl;
}

listed-AreEntries : AreEntries (note ∷ [])
unfolding has
listed-AreEntries p m = elim (Bool-cases (str_eq p note)) [
  | inl same ↦ let q : p ≡ note = str_eq→eq p note same in rw q note-IsEntry
  | inr other ↦ absurd (cc (rw other at m))
]

abbrev edits : List Edit
edits = adds report ∷ removes note ∷ []

edits-AreAdded : AreAdded edits
unfolding AreAdded
edits-AreAdded = (report-IsEntry, tt)

load_index-edit_example :
    (d' : Disk) × (entries' : List Str) × (edit cfg edits listed ≡ (ok tt, d'))
    × (load_index cfg d' ≡ (ok entries', d'))
    × ((p : Str) → has p entries' ≡ is_member p edits (has p (note ∷ [])))
load_index-edit_example =
    load_index-edit cfg edits (note ∷ []) listed refl listed_loads listed-AreEntries edits-AreAdded
