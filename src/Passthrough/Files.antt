-- ===== src/Passthrough/Files.antt =====
-- A logical file on the backing store: `load_meta` to `load_logical_file`.
pub mod Saved
pub mod Left
pub mod Table
pub mod Loaded
pub mod Persist
pub mod Others
use crunch_fs.Base.{
  ℕ, ◌+◌, ◌%◌, ◌^◌, min, Bool, List, [], ◌∷◌, ◌++◌, length, drop, leb, if◌then◌else◌, Str, Result,
  ok, err, failed,
}
use crunch_fs.Base.{◌>>=◌ as then_result}
use crunch_fs.Base.Bytes.{Bytes, u32_mod, u64_mod, sub64, take_bytes}
use crunch_fs.Zstd.{Zstd}
use crunch_fs.Compresslib.{chunk_size, compress_file_chunks, decompress_file_chunks}
use crunch_fs.Disk.{
  Disk, Act, follow, ◌>>=◌, ◌>>◌, lift, open_read, open_trunc, write_all, close, rename, exists,
}
use crunch_fs.Passthrough.Layout.{Config, meta_path_for_fuse_path, data_path_for_fuse_path, tmp}
use crunch_fs.Passthrough.Meta.{ChunkMeta, FileMeta, meta_fields, parse_meta}
use crunch_fs.Passthrough.Index.{add_index_entry}

-- The loop of `persist_logical_file` without its writes: `offset`, `consumed`, and the size of the
-- logical data.
unfoldable pub chunk_rows : ℕ → ℕ → ℕ → List Bytes → List ChunkMeta
chunk_rows offset consumed size [] = []
chunk_rows offset consumed size (chunk ∷ chunks) =
    let logical_length = min chunk_size (sub64 size consumed) % u32_mod in
    record {
      logical_length = logical_length;
      data_offset = offset;
      compressed_size = length chunk % u32_mod;
    }
    ∷ chunk_rows ((offset + length chunk) % u64_mod) ((consumed + logical_length) % u64_mod) size
        chunks

-- The seek and the read of each chunk: an offset of 2^63 or more is a negative `streamoff`.
unfoldable pub read_chunks : Bytes → List ChunkMeta → Result (List Bytes)
read_chunks bytes [] = ok []
read_chunks bytes (cm ∷ cms) =
    if leb (2 ^ 63) cm.data_offset
    then err failed
    else then_result (take_bytes cm.compressed_size (drop cm.data_offset bytes))
        λ (compressed, _). then_result (read_chunks bytes cms) λ rest. ok (compressed ∷ rest)

module _ (z : Zstd) (hash : Str → ℕ) (cfg : Config) where
  unfoldable pub logical_file_exists : Str → Disk → Bool
  logical_file_exists path d = exists d (meta_path_for_fuse_path hash cfg path)

  unfoldable pub load_meta : Str → Act FileMeta
  load_meta path = do
    (bytes, intact) ← open_read (meta_path_for_fuse_path hash cfg path)
    lift (parse_meta bytes)

  unfoldable pub save_meta_atomic : Str → FileMeta → Act (Unit {0})
  save_meta_atomic path meta = do
    let target = meta_path_for_fuse_path hash cfg path
    open_trunc (tmp target)
    write_all (tmp target) (meta_fields meta)
    close (tmp target)
    rename (tmp target) target

  -- The data file of `persist_logical_file`.
  unfoldable pub save_data_atomic : Str → List Bytes → Act (Unit {0})
  save_data_atomic path chunks = do
    let target = data_path_for_fuse_path hash cfg path
    open_trunc (tmp target)
    write_all (tmp target) chunks
    close (tmp target)
    rename (tmp target) target

  unfoldable pub persist_logical_file : Str → Bytes → Act (Unit {0})
  unfolding save_data_atomic save_meta_atomic
  persist_logical_file path logical_data = do
    chunks ← lift (compress_file_chunks z logical_data 0)
    save_data_atomic path chunks
    save_meta_atomic path (record {
      logical_size = length logical_data;
      chunks = chunk_rows 0 0 (length logical_data) chunks;
    })
    add_index_entry cfg path

  unfoldable pub load_logical_file : Str → Act Bytes
  unfolding load_meta
  load_logical_file path = do
    meta ← load_meta path
    (bytes, intact) ← open_read (data_path_for_fuse_path hash cfg path)
    chunks ← lift (read_chunks bytes meta.chunks)
    lift (decompress_file_chunks z chunks 0 meta.logical_size)
