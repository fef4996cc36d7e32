-- ===== src/FuseOps/Stored.antt =====
-- The chunks of a file hold its bytes.
use crunch_fs.Base.{ℕ, ◌*◌, ◌≤◌, ◌<◌, ◌≡◌, [], length, Str}
use crunch_fs.Base.Bytes.{Bytes}
use crunch_fs.Zstd.{Zstd}
use crunch_fs.Disk.{Disk}
use crunch_fs.Passthrough.Layout.{Config}
use crunch_fs.ChunkStore.{chunk_size}
use crunch_fs.ChunkStore.RoundTrip.{Holds}
use crunch_fs.FuseOps.Merge.{IsChunk}

module _ (z : Zstd) (cfg : Config) (id : Str) where
  -- The chunk `i` of the content `c` is on the disk.
  pub record Kept (c : Bytes) (i : ℕ) (d : Disk) : Type 0 where
    pub chunk : Bytes
    pub held : Holds z cfg id i chunk d
    pub part : IsChunk c i chunk

  -- The file of `n_chunks` chunks has the content `c`, on a disk with no fault to come.
  pub record Stored (n_chunks : ℕ) (c : Bytes) (d : Disk) : Type 0 where
    pub calm : d.faults ≡ []
    pub enough : length c ≤ n_chunks * chunk_size
    pub chunks : (i : ℕ) → i < n_chunks → Kept c i d
