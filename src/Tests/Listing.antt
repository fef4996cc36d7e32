-- ===== src/Tests/Listing.antt =====
-- Listing a directory, and the start of the program.
use mathlib.Core.List.{map}
use crunch_fs.Base.{
  drop, ◌≡◌, refl, true, not, ◌&&◌, none, some, List, [], ◌∷◌, ◌++◌, inr, Str, str_eq, codes, ok,
}
use crunch_fs.Base.Bytes.{Bytes}
use crunch_fs.Base.Int.{pos}
use crunch_fs.Disk.{Disk}
use crunch_fs.Passthrough.Layout.{index_path}
use crunch_fs.Passthrough.Index.{has, load_index}
use crunch_fs.Passthrough.Path.Normal.{components}
use crunch_fs.Passthrough.Listing.{Entry, cfs_readdir}
use crunch_fs.Passthrough.Listing.HostNames.{host_names, plain, takes_all}
use crunch_fs.Passthrough.Listing.Children.{
  child_names, names_of, AreDistinct, AreShown, cfs_readdir_lem,
}
use crunch_fs.Passthrough.Host.{ensure_storage_layout, fuse_args}
use crunch_fs.Passthrough.Host.Startup.{ensure_storage_layout-index}
use crunch_fs.Tests.{cfg, note, blank}
use crunch_fs.Tests.Index.{listed, listed_loads}

-- A host whose directories all hold a file "a" and the program's own directory.
abbrev host : List Str
host = codes "a" ∷ codes ".crunchfs" ∷ []

cfs_readdir_lem_example :
    (ls : List Entry) × (cfs_readdir takes_all
        (λ d q. true)
        (λ d q. inr host)
        cfg
        (codes "/")
        listed
      ≡ (
        ok (
          pos 0,
          (((codes ".", none) ∷ (codes "..", none) ∷ []) ++ map plain (codes "a" ∷ [])) ++ ls,
        ),
        listed,
      ))
    × ((n : Str)
        → has n (names_of ls) ≡ (
            not (has n (codes "a" ∷ []))
            && has n (child_names (components (codes "/")) (note ∷ []))))
    × AreDistinct (names_of ls)
    × AreShown (components (codes "/")) (note ∷ []) ls
unfolding host_names has str_eq
cfs_readdir_lem_example =
    cfs_readdir_lem (λ d q. true) (λ d q. inr host) cfg (codes "/") host (note ∷ []) listed listed
      refl refl listed_loads

ensure_storage_layout-index_example :
    (d' : Disk) × (ensure_storage_layout cfg (λ p d. (true, d)) blank ≡ (true, d'))
    × ((load_index cfg d').0 ≡ (load_index cfg blank).0)
    × ((b : Bytes) × (d'.files (index_path cfg) ≡ some b))
ensure_storage_layout-index_example =
    ensure_storage_layout-index cfg (λ p d. (true, d)) blank refl (λ p d. refl)

shifted :
    fuse_args (codes "cfs" ∷ codes "/b" ∷ codes "/m" ∷ codes "-f" ∷ [])
    ≡ codes "cfs" ∷ codes "/m" ∷ codes "-f" ∷ []
unfolding fuse_args drop
shifted = refl
