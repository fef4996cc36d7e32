-- ===== src/MetaStore/Paths.antt =====
-- The names of metadata files.
use crunch_fs.Base.{
  ◌≡◌, false, ◌++◌, append_assoc, length, Str, str_eq, str_eq-append, str_eq-fronts, codes,
}
use crunch_fs.Passthrough.Layout.{Config, meta_dir}
use crunch_fs.Passthrough.Layout.Apart.{Under}
use crunch_fs.MetaStore.{meta_path}

pub meta-Under : (cfg : Config) (id : Str) → Under (meta_dir cfg) (meta_path cfg id)
unfolding meta_path
meta-Under cfg id = (codes "/" ++ (id ++ codes ".meta"), simp append_assoc)

-- Those of different ids of one length.
pub meta_path-apart :
    (cfg : Config) (id id' : Str)
    → length id ≡ length id'
    → str_eq id id' ≡ false
    → str_eq (meta_path cfg id) (meta_path cfg id') ≡ false
unfolding meta_path
meta_path-apart cfg id id' len ne =
    let d = meta_dir cfg ++ codes "/" in
    let e = λ (x : Str). append_assoc d x (codes ".meta") in
    rw (e id, e id', str_eq-append) (str_eq-fronts id id' (codes ".meta") (codes ".meta") len ne)
