-- ===== src/ChunkStore/RoundTrip.antt =====
-- What is written as a chunk is read back, where the disk meets no fault.
use crunch_fs.Base.{
  ℕ, ◌-◌, ◌*◌, ◌≤◌, ◌≡◌, refl, ◌∙◌, false, some, [], ◌++◌, append-nil, length, take-all, replicate,
  ◌==◌, Str, str_eq, str_eq_refl, arith,
}
use crunch_fs.Base.Bytes.{Bytes}
use crunch_fs.Base.Buffer.{resize}
use crunch_fs.Zstd.{Zstd, ZstdLaws}
use crunch_fs.Compresslib.{compress_bound_zstd, compress_buffer_zstd, decompress_buffer_zstd}
use crunch_fs.Disk.{Disk, update, content}
use crunch_fs.Disk.Calm.{attempt-calm, open_trunc-calm, write-calm, close-calm, open_read-calm}
use crunch_fs.Passthrough.Layout.{Config}
use crunch_fs.ChunkStore.{chunk_size, chunk_path, write_chunk, read_chunk, chunk_disk_size}

pub resize_same : (x : Bytes) → resize (length x) x ≡ x
unfolding resize replicate
resize_same x =
    let none_left : length x - length x ≡ 0 = omega arith in
    rw (take-all (length x) x (omega arith), none_left, append-nil)

compress_buffer-some :
    (z : Zstd) (x : Bytes) (cap : ℕ) (c : Bytes)
    → z.compress cap x 1 ≡ some c
    → compress_buffer_zstd z x cap 1 ≡ c
unfolding compress_buffer_zstd
compress_buffer-some z x cap c e = rw (e, compress_buffer_zstd) refl

decompress_buffer-some :
    (z : Zstd) (c : Bytes) (room : ℕ) (x : Bytes)
    → z.decompress room c ≡ some x
    → decompress_buffer_zstd z c room ≡ x
unfolding decompress_buffer_zstd
decompress_buffer-some z c room x e = rw (e, decompress_buffer_zstd) refl

module _ (z : Zstd) (cfg : Config) (id : Str) where
  -- The file of the chunk holds a frame of the bytes `x`.
  pub record Holds (i : ℕ) (x : Bytes) (d : Disk) : Type 0 where
    pub blob : Bytes
    pub there : d.files (chunk_path cfg id i) ≡ some blob
    pub full : 1 ≤ length blob
    pub frame : z.decompress (chunk_size * 2) blob ≡ some x

  -- Only the file of the chunk decides.
  pub Holds-same :
      (i : ℕ) (x : Bytes) (d d' : Disk)
      → d'.files (chunk_path cfg id i) ≡ d.files (chunk_path cfg id i)
      → Holds i x d
      → Holds i x d'
  Holds-same i x d d' same h = record {
    blob = h.blob;
    there = same ∙ h.there;
    full = h.full;
    frame = h.frame;
  }

  pub read_chunk-Holds :
      (i : ℕ) (x : Bytes) (d : Disk)
      → d.faults ≡ []
      → Holds i x d
      → read_chunk z cfg id i d ≡ (x, d)
  unfolding read_chunk
  read_chunk-Holds i x d calm h =
      rw
        (
          open_read-calm (chunk_path cfg id i) h.blob d calm h.there,
          h.there,
          resize_same h.blob,
          decompress_buffer-some z h.blob (chunk_size * 2) x h.frame,
        )
        refl

  pub chunk_disk_size-Holds :
      (i : ℕ) (x : Bytes) (d : Disk)
      → d.faults ≡ []
      → (h : Holds i x d) → chunk_disk_size cfg id i d ≡ (length h.blob, d)
  unfolding chunk_disk_size
  chunk_disk_size-Holds i x d calm h = rw (attempt-calm _ _ d calm) (rw h.there refl)

  -- What `write_chunk` leaves.
  pub record Written (i : ℕ) (x : Bytes) (d d' : Disk) : Type 0 where
    pub calm : d'.faults ≡ []
    pub holds : Holds i x d'
    pub others : (q : Str) → str_eq (chunk_path cfg id i) q ≡ false → d'.files q ≡ d.files q

  -- Where the disk meets no fault, a chunk of up to twice the chunk size is written: the result is the
  -- size of its file, which holds the chunk, and no other file has changed.
  pub write_chunk-Written :
      ZstdLaws z
      → (i : ℕ) (x : Bytes) (d : Disk) → d.faults ≡ []
      → length x ≤ chunk_size * 2
      → (csz : ℕ) × (d' : Disk) × (write_chunk z cfg id i x d ≡ (csz, d'))
        × (1 ≤ csz)
        × Written i x d d'
  unfolding write_chunk compress_bound_zstd
  write_chunk-Written laws i x d calm small =
      let cap = z.compress_bound (length x) in
      let (blob, made) = laws.compress_fits cap 1 x (omega arith) in
      let full = (laws.frame_size cap 1 x blob made).0 in
      let p = chunk_path cfg id i in
      let d₁ : Disk = record d { files = update d.files p (some []) } in
      let d₂ : Disk = record d {
        files = update d₁.files p (some (content (d₁.files p) ++ blob));
      } in
      let some_bytes : (length blob == 0) ≡ false = ground arith in
      (
        length blob,
        d₂,
        rw
            (
              compress_buffer-some z x cap blob made,
              some_bytes,
              open_trunc-calm p d calm,
              write-calm p blob d₁ calm,
              close-calm p d₂ calm,
            )
            refl,
        full,
        record {
          calm = calm;
          holds = record {
            blob = blob;
            there = rw (str_eq_refl p) refl;
            full = full;
            frame = laws.decompress_frame cap 1 (chunk_size * 2) x blob made small;
          };
          others = λ q ne. rw ne refl;
        },
      )
