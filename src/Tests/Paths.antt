-- ===== src/Tests/Paths.antt =====
-- Paths.
use crunch_fs.Base.{◌≡◌, ◌↔◌, refl, codes, str_eq, drop, some, true}
use crunch_fs.Passthrough.Path.{normalize_path, path_is_direct_child}
use crunch_fs.Passthrough.Path.Child.{child, path_is_direct_child_lem}
use crunch_fs.Passthrough.Path.Normal.{components, normalize_path_iff}

normalize_path_iff_example :
    ((normalize_path (codes "a//b/") ≡ normalize_path (codes "/a/b"))
      ↔ (components (codes "a//b/") ≡ components (codes "/a/b")))
    × (normalize_path (normalize_path (codes "a//b/")) ≡ normalize_path (codes "a//b/"))
normalize_path_iff_example = normalize_path_iff (codes "a//b/") (codes "/a/b")

normalized : normalize_path (codes "a//b/") ≡ codes "/a/b"
unfolding normalize_path
normalized = refl

child_of_root : path_is_direct_child (codes "/") (codes "/a/b") ≡ some (codes "a", true)
unfolding path_is_direct_child normalize_path str_eq drop
child_of_root = refl

path_is_direct_child_lem_example :
    path_is_direct_child (codes "/a") (codes "a//b/c")
    ≡ child (components (codes "/a")) (components (codes "a//b/c"))
path_is_direct_child_lem_example = path_is_direct_child_lem (codes "/a") (codes "a//b/c")
