-- ===== src/FuseOps/Session.antt =====
-- The start and the end of a mount: the lambdas `init` and `destroy` of src/fuse_ops.cpp, with the
-- constructors of the two stores. `fs::create_directories` and the number of processors are parameters.
use crunch_fs.Base.{ℕ, max, Str, Result, ok, err}
use crunch_fs.Disk.{Disk}
use crunch_fs.Passthrough.Layout.{Config, meta_dir, data_dir}
use crunch_fs.MetaStore.{Index, load_index}
use crunch_fs.FuseOps.Mount.{Mount}

-- What `init` sets up, besides the stores: the option that turns the kernel's cache off, and the threads
-- of the pool.
pub record Session : Type 0 where
  pub kernel_cache : ℕ
  pub workers : ℕ
  pub mount : Mount

module _ (create_directories : Str → Disk → Result (Unit {0}) × Disk) where
  -- `MetaStore::MetaStore`
  abbrev loaded_index : Index × Disk → Result Index × Disk
  loaded_index (index, d) = (ok index, d)

  abbrev then_load : Config → Result (Unit {0}) × Disk → Result Index × Disk
  then_load cfg (err e, d) = (err e, d)
  then_load cfg (ok u, d) = loaded_index (load_index cfg d)

  unfoldable pub meta_store : Config → Disk → Result Index × Disk
  meta_store cfg d = then_load cfg (create_directories (meta_dir cfg) d)

  -- `ChunkStore::ChunkStore`
  unfoldable pub chunk_store : Config → Disk → Result (Unit {0}) × Disk
  chunk_store cfg d = create_directories (data_dir cfg) d

  abbrev then_pool : ℕ → Index → Result (Unit {0}) × Disk → Result Session × Disk
  then_pool hardware_concurrency index (err e, d) = (err e, d)
  then_pool hardware_concurrency index (ok u, d) = (
    ok (record {
      kernel_cache = 0;
      workers = max 1 hardware_concurrency;
      mount = record { disk = d; index = index };
    }),
    d,
  )

  abbrev then_store : ℕ → Config → Result Index × Disk → Result Session × Disk
  then_store hardware_concurrency cfg (err e, d) = (err e, d)
  then_store hardware_concurrency cfg (ok index, d) =
      then_pool hardware_concurrency index (chunk_store cfg d)

  unfoldable pub cfs_init : ℕ → Config → Disk → Result Session × Disk
  cfs_init hardware_concurrency cfg d = then_store hardware_concurrency cfg (meta_store cfg d)

-- `destroy`: the stores keep nothing that is not on the disk.
unfoldable pub cfs_destroy : Mount → Disk
cfs_destroy m = m.disk
