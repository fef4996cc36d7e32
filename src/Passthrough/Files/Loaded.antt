-- ===== src/Passthrough/Files/Loaded.antt =====
-- A file that was saved is loaded whole; what a disk with no faults to come does is a success.
use crunch_fs.Base.{true, ℕ, ◌≡◌, ◌≤◌, [], append-nil, length, concat, Str, ok, arith}
use crunch_fs.Base.Bytes.{Bytes}
use crunch_fs.Zstd.{Zstd}
use crunch_fs.Compresslib.RoundTrip.{decompress-Encodes}
use crunch_fs.Disk.{Disk}
use crunch_fs.Passthrough.Layout.{Config, meta_path_for_fuse_path, data_path_for_fuse_path}
use crunch_fs.Passthrough.Meta.{meta_fields, parse_meta}
use crunch_fs.Passthrough.Meta.RoundTrip.{parse_meta-meta_fields}
use crunch_fs.Passthrough.Files.{load_meta, load_logical_file, logical_file_exists}
use crunch_fs.Passthrough.Files.Saved.{Saved, table}
use crunch_fs.Passthrough.Files.Table.{max_file, table-MetaFits, read_chunks-table}
use crunch_fs.Disk.Calm.{open_read-calm}

module _ (z : Zstd) (hash : Str → ℕ) (cfg : Config) (path : Str) where
  pub exists-Saved :
      (input : Bytes) (d : Disk)
      → Saved z hash cfg path input d
      → logical_file_exists z hash cfg path d ≡ true
  unfolding logical_file_exists
  exists-Saved input d s = let e = s.header in rw (logical_file_exists, e)

  -- The size that `stat` shows is the size of the content.
  pub load_meta-Saved :
      (input : Bytes) (d : Disk)
      → d.faults ≡ []
      → length input ≤ max_file
      → (s : Saved z hash cfg path input d)
      → load_meta z hash cfg path d ≡ (ok (table input s.chunks), d)
  unfolding load_meta
  load_meta-Saved input d calm fits s =
      let header = concat (meta_fields (table input s.chunks)) in
      let parsed : parse_meta header ≡ ok (table input s.chunks) = rw append-nil at (
        parse_meta-meta_fields (table input s.chunks) []
          (table-MetaFits z s.chunks input s.encoded fits)) in
      rw (open_read-calm (meta_path_for_fuse_path hash cfg path) header d calm s.header, parsed)

  -- A saved file is loaded whole.
  pub load-Saved :
      (input : Bytes) (d : Disk)
      → d.faults ≡ []
      → length input ≤ max_file
      → Saved z hash cfg path input d
      → load_logical_file z hash cfg path d ≡ (ok input, d)
  unfolding load_logical_file
  load-Saved input d calm fits s = rw (
    load_meta-Saved input d calm fits s,
    open_read-calm (data_path_for_fuse_path hash cfg path) (concat s.chunks) d calm s.blobs,
    read_chunks-table z s.chunks input s.encoded fits,
    decompress-Encodes z s.chunks input s.encoded (omega arith),
  )
