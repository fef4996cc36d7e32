-- ===== src/Passthrough/Layout.antt =====
-- The files of the backing store: `crunch_root` to `data_path_for_fuse_path`. `std::hash` is a
-- parameter: the library leaves its function open.
pub mod Apart
pub mod Distinct
use crunch_fs.Base.{ℕ, ◌++◌, Str, codes}
use crunch_fs.Hex.{hex16}

-- `cfs_config`
pub record Config : Type 0 where
  pub backing_dir : Str

unfoldable pub crunch_root : Config → Str
crunch_root cfg = cfg.backing_dir ++ codes "/.crunchfs"

unfoldable pub meta_dir : Config → Str
meta_dir cfg = crunch_root cfg ++ codes "/meta"

unfoldable pub data_dir : Config → Str
data_dir cfg = crunch_root cfg ++ codes "/data"

unfoldable pub index_path : Config → Str
index_path cfg = crunch_root cfg ++ codes "/index.txt"

unfoldable pub file_id_from_path : (Str → ℕ) → Str → Str
file_id_from_path hash normalized_path = hex16 (hash normalized_path)

unfoldable pub meta_path_for_id : Config → Str → Str
meta_path_for_id cfg file_id = meta_dir cfg ++ codes "/" ++ file_id ++ codes ".meta"

unfoldable pub data_path_for_id : Config → Str → Str
data_path_for_id cfg file_id = data_dir cfg ++ codes "/" ++ file_id ++ codes ".dat"

unfoldable pub meta_path_for_fuse_path : (Str → ℕ) → Config → Str → Str
meta_path_for_fuse_path hash cfg fuse_path = meta_path_for_id cfg (file_id_from_path hash fuse_path)

unfoldable pub data_path_for_fuse_path : (Str → ℕ) → Config → Str → Str
data_path_for_fuse_path hash cfg fuse_path = data_path_for_id cfg (file_id_from_path hash fuse_path)

abbrev pub tmp : Str → Str
tmp target = target ++ codes ".tmp"
