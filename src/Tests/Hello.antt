-- ===== src/Tests/Hello.antt =====
-- The demonstration file system.
use crunch_fs.Base.{◌≡◌, refl, codes, [], ◌∷◌, str_eq}
use crunch_fs.Base.Int.{pos, neg, enoent}
use crunch_fs.HelloFs.{cfs_readdir}
use crunch_fs.CfsMain.{fuse_argv}

-- The root is refused, and every other path is listed.
root_refused : (cfs_readdir (codes "/")).0 ≡ neg enoent
unfolding cfs_readdir str_eq
root_refused = refl

other_listed : (cfs_readdir (codes "/x")).0 ≡ pos 0
unfolding cfs_readdir str_eq
other_listed = refl

argv_shifted :
    fuse_argv (codes "cfs" ∷ codes "/b" ∷ codes "/m" ∷ []) ≡ codes "cfs" ∷ codes "/m" ∷ []
unfolding fuse_argv
argv_shifted = refl
