-- ===== src/Tests/Remounted.antt =====
-- Runs of calls on the chunked file system, and a remount.
use crunch_fs.Base.{
  drop, replicate, ◌≤◌, ◌≡◌, refl, false, List, [], ◌∷◌, take, str_eq, codes, ok, arith,
}
use crunch_fs.Base.Buffer.{overwrite}
use crunch_fs.Base.Int.{neg, enoent, pos, to_int}
use crunch_fs.Zstd.Stored.{stored, stored-ZstdLaws}
use crunch_fs.Numerals.Signed.{up}
use crunch_fs.FuseOps.Mount.{Mount, norm, stats_vpath}
use crunch_fs.FuseOps.Session.{Session, cfs_init, cfs_destroy}
use crunch_fs.FuseOps.Volume.{empty_tree, set, Shows}
use crunch_fs.FuseOps.Volume.Looks.{bytes_at}
use crunch_fs.FuseOps.Volume.Answers.{
  Op, create, write, unlink, rename, exec, answer, IsPlain, exec-answer,
}
use crunch_fs.FuseOps.Volume.Runs.{
  Event, does, reads, opens, react, play, reply, replies, IsSpoken, AreSpoken,
}
use crunch_fs.FuseOps.Volume.Remounts.{cfs_init-Shows, cfs_init-play}
use crunch_fs.Tests.{cfg, blank, note, report, hello}
use crunch_fs.Tests.Mounted.{
  apart_names, as_listed, created, made, norm-note-IsWord, not_stats, nothing_yet, one,
  report-IsWord, same_entries, two, written,
}

abbrev again : Op
again = write (pos 11) note hello 0

again-IsPlain : IsPlain again one
unfolding IsPlain
again-IsPlain = (up (omega arith), omega arith, λ n e. omega arith)

exec-answer_example :
    (m' : Mount) × (exec as_listed stored cfg again created.0 ≡ (ok (answer again one).0, m'))
    × Shows stored cfg (answer again one).1 m'
exec-answer_example =
    exec-answer as_listed same_entries stored stored-ZstdLaws cfg again one created.0 created.2
      again-IsPlain

abbrev before : List Event
before = does (create (pos 9) note 420) ∷ does (write (pos 9) note hello 0) ∷ reads note 3 1 ∷ []

abbrev behind : List Event
behind = does (rename note report) ∷ reads report 9 0 ∷ opens note ∷ does (unlink note) ∷ []

before-AreSpoken : AreSpoken before empty_tree
unfolding AreSpoken IsSpoken IsPlain
before-AreSpoken = (
  (up (omega arith), norm-note-IsWord, nothing_yet),
  ((up (omega arith), omega arith, λ n e. omega arith), ((not_stats, omega arith), tt)),
)

report_not_stats : str_eq (norm report) stats_vpath ≡ false
unfolding norm str_eq
report_not_stats = refl

behind-AreSpoken : AreSpoken behind (replies before empty_tree).1
unfolding AreSpoken IsSpoken IsPlain
behind-AreSpoken =
    ((report-IsWord, apart_names), ((report_not_stats, omega arith), (not_stats, (tt, tt))))

cfs_init-Shows_example :
    (w : Session) × (cfs_init made 8 cfg (cfs_destroy written.0) ≡ (ok w, written.0.disk))
    × (1 ≤ w.workers)
    × Shows stored cfg two w.mount
cfs_init-Shows_example = cfs_init-Shows made (λ p d. refl) stored cfg 8 two written.0 written.2

cfs_init-play_example :
    (w w' : Session) × (m m' : Mount) × (cfs_init made 8 cfg blank ≡ (ok w, blank))
    × (play (react as_listed (λ l c. codes "1") stored cfg) before w.mount
        ≡ (ok (replies before empty_tree).0, m))
    × (cfs_init made 8 cfg (cfs_destroy m) ≡ (ok w', m.disk))
    × (play (react as_listed (λ l c. codes "1") stored cfg) behind w'.mount
        ≡ (ok (replies behind (replies before empty_tree).1).0, m'))
    × Shows stored cfg (replies behind (replies before empty_tree).1).1 m'
cfs_init-play_example =
    cfs_init-play made (λ p d. refl) as_listed (λ l c. codes "1") same_entries stored
      stored-ZstdLaws cfg 8 blank before behind refl refl before-AreSpoken behind-AreSpoken

-- What the specification answers to these calls.
replies-before :
    (replies before empty_tree).0 ≡ (pos 0, []) ∷ (pos 5, []) ∷ (pos 3, codes "ell") ∷ []
unfolding replies reply answer set norm str_eq bytes_at to_int overwrite take drop replicate
replies-before = refl

replies-behind :
    (replies behind (replies before empty_tree).1).0
    ≡ (pos 0, []) ∷ (pos 5, hello) ∷ (neg enoent, []) ∷ (neg enoent, []) ∷ []
unfolding replies reply answer set norm str_eq bytes_at to_int overwrite take drop replicate
replies-behind = refl
