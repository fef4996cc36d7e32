-- ===== src/FuseOps/Shrinking.antt =====
-- `cfs_truncate` to a smaller size keeps a file's chunks those of its content.
use crunch_fs.Base.{
  ℕ, ◌+◌, ◌-◌, ◌≤◌, ◌<◌, ◌≡◌, refl, ◌∙◌, sym, true, length, Str, take, length-take, ltb, ok, arith,
}
use crunch_fs.Base.Bytes.{Bytes, off_end, u64_mod}
use crunch_fs.Base.Buffer.{get_or-take}
use crunch_fs.Zstd.{Zstd}
use crunch_fs.Disk.{Disk}
use crunch_fs.Passthrough.Layout.{Config}
use crunch_fs.ChunkStore.{chunk_path}
use crunch_fs.ChunkStore.Paths.{chunk_path_ne}
use crunch_fs.ChunkStore.Removed.{Removed, remove_from-Removed}
use crunch_fs.FuseOps.{chunk_start, kept_chunks, shrink}
use crunch_fs.FuseOps.Merge.{IsChunk}
use crunch_fs.FuseOps.Stored.{Stored}
use crunch_fs.FuseOps.Writing.{Kept-same}

-- A chunk of the content is one of its front.
take-IsChunk_front :
    (c x : Bytes) (i nsz : ℕ) → nsz ≤ length c → IsChunk c i x → IsChunk (take nsz c) i x
take-IsChunk_front c x i nsz le part =
    let size : length (take nsz c) ≡ nsz = length-take nsz c ∙ omega arith in
    record {
      small = part.small;
      long = omega (arith, size, part.long);
      bytes = λ j lt.
          let inside : ltb (chunk_start i + j) nsz ≡ true = ground (arith, size) in
          part.bytes j (omega (arith, size))
          ∙ sym (get_or-take nsz c (chunk_start i + j) 0 ∙ rw inside refl);
    }

module _ (z : Zstd) (cfg : Config) (id : Str) where
  -- Where the chunks of a file hold its content and there are below 2^64 of them, the loop returns for a
  -- smaller size other than 0 that `off_t` holds: the chunks that it keeps hold the front of the content, the others are gone,
  -- and no file but chunks of the file has changed.
  pub shrink-Stored :
      (n : ℕ) (c : Bytes) (d : Disk)
      → Stored z cfg id n c d
      → n < u64_mod
      → (nsz : ℕ) → 1 ≤ nsz
      → nsz < length c
      → nsz < off_end
      → (d' : Disk) × (shrink cfg id n nsz d ≡ (ok tt, d'))
        × Stored z cfg id (kept_chunks nsz) (take nsz c) d'
        × Removed cfg id (kept_chunks nsz) n d d'
  unfolding shrink
  shrink-Stored n c d s n_fits nsz some_bytes smaller off =
      let keep = kept_chunks nsz in
      let fewer : keep ≤ n = omega (arith, s.enough) in
      let size : length (take nsz c) ≡ nsz = length-take nsz c ∙ omega arith in
      let up : keep + (n - keep) ≡ n = omega arith in
      let (d', done, r) = remove_from-Removed cfg id (n - keep) keep d s.calm (omega arith) in
      (
        d',
        done,
        record {
          calm = r.calm;
          enough = omega (arith, size);
          chunks = λ i lt.
              let old = s.chunks i (omega arith) in
              let k =
                Kept-same z cfg id c i d d'
                  (r.others (chunk_path cfg id i) (λ j lo hi.
                    chunk_path_ne cfg id j i (omega arith) (omega arith) (λ same. omega arith)))
                  old in
              record {
                chunk = k.chunk;
                held = k.held;
                part = take-IsChunk_front c k.chunk i nsz (omega arith) k.part;
              };
        },
        record {
          calm = r.calm;
          gone = λ j lo hi. r.gone j lo (omega arith);
          others = λ q ne. r.others q (λ j lo hi. ne j lo (omega arith));
        },
      )
