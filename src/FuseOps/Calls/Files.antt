-- ===== src/FuseOps/Calls/Files.antt =====
-- A file of the mount, and the callbacks that keep it.
use mathlib.Core.Path.{subst}
use crunch_fs.Base.{
  ℕ, zero, suc, ◌+◌, ◌%◌, ◌≤◌, ◌<◌, max, ◌≡◌, refl, ◌∙◌, true, false, [], length, some, Str, str_eq,
  ◌==◌, ok, arith,
}
use crunch_fs.Base.Bytes.{Bytes, u64_mod}
use crunch_fs.Base.Buffer.{overwrite, length-overwrite_within}
use crunch_fs.Base.Int.{ℤ, to_int}
use crunch_fs.Zstd.{Zstd, ZstdLaws}
use crunch_fs.Disk.{Disk}
use crunch_fs.Disk.Calm.{attempt-calm}
use crunch_fs.Passthrough.Layout.{Config, index_path}
use crunch_fs.Passthrough.Layout.Apart.{Under-self, meta_ne_data, index_ne_meta, index_ne_data}
use crunch_fs.Numerals.Signed.{IsLong}
use crunch_fs.MetaText.{FileMeta, default_meta, meta_text}
use crunch_fs.MetaStore.{find_id, meta_path, load, save}
use crunch_fs.MetaStore.Paths.{meta-Under}
use crunch_fs.FuseOps.Touches.{Touches, Touches-trans}
use crunch_fs.MetaStore.Saved.{MetaFits, save-calm, load-meta_text}
use crunch_fs.ChunkStore.{chunk_path, chunk_disk_size, sized, size_of}
use crunch_fs.ChunkStore.Paths.{chunk-Under}
use crunch_fs.FuseOps.{last_chunk, write_bytes}
use crunch_fs.FuseOps.Stored.{Stored}
use crunch_fs.FuseOps.Writing.{Kept-same, write_bytes-Stored}
use crunch_fs.FuseOps.Mount.{Mount, norm, is_empty}
use crunch_fs.FuseOps.Calls.{loaded, add_sizes, saved, cfs_write}

-- The metadata with new sizes and times.
abbrev pub stamped : FileMeta → ℕ → ℕ → ℕ → ℤ → FileMeta
stamped meta n size sum now = record meta {
  n_chunks = n;
  logical_size = size;
  compressed_size = sum;
  mtime = now;
  ctime = now;
}

pub retimed :
    (meta : FileMeta) (n size sum : ℕ) (now : ℤ)
    → MetaFits meta
    → IsLong now
    → n < u64_mod
    → size < u64_mod
    → sum < u64_mod
    → MetaFits (stamped meta n size sum now)
retimed meta n size sum now f now_fits fn fl fs = record {
  id_word = f.id_word;
  path_word = f.path_word;
  logical_size = fl;
  compressed_size = fs;
  chunk_size = f.chunk_size;
  n_chunks = fn;
  atime = f.atime;
  mtime = now_fits;
  ctime = now_fits;
  mode = f.mode;
}

-- The path `p` is a file with the content `c`: the index has its id, its metadata are saved, and its
-- chunks are stored.
pub record File (z : Zstd) (cfg : Config) (p : Str) (c : Bytes) (meta : FileMeta) (m : Mount)
    : Type 0 where
  pub found : find_id p m.index ≡ meta.path_id
  pub named : is_empty meta.path_id ≡ false
  pub text : m.disk.files (meta_path cfg meta.path_id) ≡ some (meta_text meta)
  pub fits : MetaFits meta
  pub size : meta.logical_size ≡ length c
  pub stored : Stored z cfg meta.path_id meta.n_chunks c m.disk

module _ (z : Zstd) (cfg : Config) where
  -- Chunks stay where the other files change.
  pub Stored-same :
      (id : Str) (n : ℕ) (c : Bytes) (d d' : Disk)
      → d'.faults ≡ []
      → ((i : ℕ) → d'.files (chunk_path cfg id i) ≡ d.files (chunk_path cfg id i))
      → Stored z cfg id n c d
      → Stored z cfg id n c d'
  Stored-same id n c d d' calm same s = record {
    calm = calm;
    enough = s.enough;
    chunks = λ i lt. Kept-same z cfg id c i d d' (same i) (s.chunks i lt);
  }

  chunk_disk_size-calm :
      (id : Str) (i : ℕ) (d : Disk)
      → d.faults ≡ []
      → (n : ℕ) × (chunk_disk_size cfg id i d ≡ (n, d))
  unfolding chunk_disk_size sized size_of
  chunk_disk_size-calm id i d calm =
      (size_of cfg (d.files (chunk_path cfg id i)), rw (attempt-calm _ _ d calm, sized) refl)

  pub add_sizes-calm :
      (id : Str) (k i sum : ℕ) (m : Mount)
      → m.disk.faults ≡ []
      → sum < u64_mod
      → (total : ℕ) × (add_sizes cfg id k i sum m ≡ (ok total, m)) × (total < u64_mod)
  unfolding add_sizes
  add_sizes-calm id zero i sum m calm small = (sum, refl, small)
  add_sizes-calm id (suc k) i sum m calm small =
      let (n, e) = chunk_disk_size-calm id i m.disk calm in
      let (total, rest, fits) =
        add_sizes-calm id k (suc i) ((sum + n) % u64_mod) m calm (omega arith) in
      (total, rw e rest, fits)

  -- `save` behind a change of the chunks.
  pub save-File :
      (p c : Str) (meta : FileMeta) (m : Mount)
      → find_id p m.index ≡ meta.path_id
      → is_empty meta.path_id ≡ false
      → MetaFits meta
      → meta.logical_size ≡ length c
      → Stored z cfg meta.path_id meta.n_chunks c m.disk
      → (d' : Disk) × (save cfg meta m.disk ≡ (true, d'))
        × File z cfg p c meta (record m { disk = d' })
        × Touches cfg meta.path_id m.disk d'
  save-File p c meta m found named fits size stored =
      let id = meta.path_id in
      let (d', wrote, calm, there, apart) = save-calm cfg meta m.disk stored.calm in
      (
        d',
        wrote,
        record {
          found = found;
          named = named;
          text = there;
          fits = fits;
          size = size;
          stored =
              Stored-same id meta.n_chunks c m.disk d' calm
                (λ i.
                  apart (chunk_path cfg id i)
                    (meta_ne_data cfg (meta-Under cfg id) (chunk-Under cfg id i)))
                stored;
        },
        record { others = λ q nc nm. apart q nm },
      )

  -- The text of the index is no part of a file.
  pub File-settled :
      (p c : Str) (meta : FileMeta) (m : Mount) (d' : Disk)
      → d'.faults ≡ []
      → ((q : Str) → str_eq (index_path cfg) q ≡ false → d'.files q ≡ m.disk.files q)
      → File z cfg p c meta m
      → File z cfg p c meta (record m { disk = d' })
  File-settled p c meta m d' calm others f =
      let id = meta.path_id in
      let self = Under-self (index_path cfg) in
      record {
        found = f.found;
        named = f.named;
        text = others (meta_path cfg id) (index_ne_meta cfg self (meta-Under cfg id)) ∙ f.text;
        fits = f.fits;
        size = f.size;
        stored =
            Stored-same id meta.n_chunks c m.disk d' calm
              (λ i. others (chunk_path cfg id i) (index_ne_data cfg self (chunk-Under cfg id i)))
              f.stored;
      }

  pub load-File :
      (p c : Str) (meta : FileMeta) (m : Mount)
      → File z cfg p c meta m
      → load cfg meta.path_id default_meta m.disk ≡ (ok (true, meta), m.disk)
  load-File p c meta m f =
      load-meta_text cfg meta.path_id meta default_meta m.disk f.stored.calm f.fits f.text

  -- A write of at least one byte, at most at the end of the file and with an end below 2^64, returns the
  -- size of the write; the file then has the content with the write in it, under the same index, and nothing
  -- but its metadata and chunks has changed.
  pub cfs_write-File :
      ZstdLaws z
      → (now : ℤ) → IsLong now
      → (path c buf : Str) (offset : ℕ) (meta : FileMeta) (m : Mount)
      → File z cfg (norm path) c meta m
      → 1 ≤ length buf
      → offset ≤ length c
      → offset + length buf < u64_mod
      → (m' : Mount) × (meta' : FileMeta) × (cfs_write cfg z now path buf offset m
          ≡ (ok (to_int (length buf)), m'))
        × File z cfg (norm path) (overwrite c offset buf) meta' m'
        × (m'.index ≡ m.index)
        × (meta'.path_id ≡ meta.path_id)
        × Touches cfg meta.path_id m.disk m'.disk
  unfolding cfs_write loaded saved
  cfs_write-File laws now now_fits path c buf offset meta m f some_bytes within fits =
      let id = meta.path_id in
      let size = length-overwrite_within c offset buf within in
      let lc = last_chunk offset (length buf) in
      let n = max meta.n_chunks ((lc + 1) % u64_mod) in
      let same_count : max meta.n_chunks (suc lc) ≡ n = omega arith in
      let not_empty : (length buf == 0) ≡ false = ground arith in
      let d₁ = write_bytes z cfg id meta.n_chunks offset buf m.disk in
      let (stored, others) =
        write_bytes-Stored z laws cfg id meta.n_chunks c buf offset fits some_bytes within
          f.stored.enough f.fits.n_chunks m.disk f.stored in
      let m₁ : Mount = record m { disk = d₁ } in
      let (total, summed, total_fits) = add_sizes-calm id n 0 0 m₁ stored.calm (omega arith) in
      let l = max meta.logical_size ((offset + length buf) % u64_mod) in
      let meta' = stamped meta n l total now in
      let fits' =
        retimed meta n l total now f.fits now_fits (omega (arith, f.fits.n_chunks))
          (omega (arith, f.fits.logical_size)) total_fits in
      let (d₂, wrote, f', t) =
        save-File (norm path) (overwrite c offset buf) meta' m₁ f.found f.named fits'
          (omega (arith, size, f.size))
          (subst (λ k. Stored z cfg id k (overwrite c offset buf) d₁) same_count stored) in
      (
        record m { disk = d₂ },
        meta',
        rw (not_empty, f.found, f.named, load-File (norm path) c meta m f, summed, wrote) refl,
        f',
        refl,
        refl,
        Touches-trans cfg id m.disk d₁ d₂ (record { others = λ q nc nm. others q nc }) t,
      )
