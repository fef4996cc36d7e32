-- ===== src/FuseOps/Calls/Truncated.antt =====
-- `cfs_truncate` to a size up to that of the file.
use mathlib.Core.Path.{subst}
use crunch_fs.Base.{
  ℕ, ◌<◌, ◌≤◌, take-all, ◌≡◌, refl, ◌∙◌, sym, [], length, take, Str, ltb, length-take, Bool-cases,
  inl, inr, ◌==◌, ok, arith,
}
use crunch_fs.Base.Bytes.{Bytes, off_end, u64_mod}
use crunch_fs.Base.Int.{ℤ, pos}
use crunch_fs.Zstd.{Zstd}
use crunch_fs.Passthrough.Layout.{Config}
use crunch_fs.Numerals.Signed.{IsLong}
use crunch_fs.MetaText.{FileMeta}
use crunch_fs.FuseOps.Stored.{Stored}
use crunch_fs.FuseOps.Mount.{Mount, norm}
use crunch_fs.FuseOps.Calls.{loaded, saved}
use crunch_fs.ChunkStore.Removed.{remove_chunks-Removed}
use crunch_fs.FuseOps.{kept_chunks}
use crunch_fs.FuseOps.Touches.{Touches, Touches-trans, Removed-Touches}
use crunch_fs.FuseOps.Shrinking.{shrink-Stored}
use crunch_fs.FuseOps.Calls.{cfs_truncate}
use crunch_fs.FuseOps.Calls.Files.{stamped, retimed, File, save-File, load-File, add_sizes-calm}

module _ (z : Zstd) (cfg : Config) where
  -- `cfs_truncate` to a size up to that of the file, below 2^63, returns 0; the file then has the front of the content,
  -- under the same index, and nothing but its metadata and chunks has changed.
  pub cfs_truncate-File :
      (now : ℤ)
      → IsLong now
      → (path c : Str) (meta : FileMeta) (m : Mount) → File z cfg (norm path) c meta m
      → (nsz : ℕ) → nsz ≤ length c
      → nsz < off_end
      → (m' : Mount) × (meta' : FileMeta) × (cfs_truncate cfg now path nsz m ≡ (ok (pos 0), m'))
        × File z cfg (norm path) (take nsz c) meta' m'
        × (m'.index ≡ m.index)
        × (meta'.path_id ≡ meta.path_id)
        × Touches cfg meta.path_id m.disk m'.disk
  unfolding cfs_truncate loaded saved take
  cfs_truncate-File now now_fits path c meta m f nsz fewer off =
      let id = meta.path_id in
      let fits = λ (n l s : ℕ) (fn : n < u64_mod) (fl : l < u64_mod) (fs : s < u64_mod).
        retimed meta n l s now f.fits now_fits fn fl fs in
      elim (Bool-cases (nsz == 0)) [
        | inl e ↦
            let e' : nsz ≡ 0 = ground arith in
            let (d₁, gone, r) =
              remove_chunks-Removed cfg id meta.n_chunks m.disk f.stored.calm
                (omega (arith, f.fits.n_chunks)) in
            let empty : Stored z cfg id 0 [] d₁ = record {
              calm = r.calm;
              enough = omega arith;
              chunks = λ i lt. absurd (omega arith);
            } in
            let (d₂, wrote, f', t) =
              save-File z cfg (norm path) [] (stamped meta 0 0 0 now) (record m { disk = d₁ })
                f.found f.named (fits 0 0 0 (omega arith) (omega arith) (omega arith)) refl empty in
            (
              record m { disk = d₂ },
              stamped meta 0 0 0 now,
              rw (f.found, f.named, load-File z cfg (norm path) c meta m f, e, gone, wrote) refl,
              subst
                  (λ k.
                    File z cfg (norm path) (take k c) (stamped meta 0 0 0 now)
                      (record m { disk = d₂ }))
                  (sym e') f',
              refl,
              refl,
              Touches-trans cfg id m.disk d₁ d₂
                  (Removed-Touches cfg id 0 meta.n_chunks m.disk d₁ f.fits.n_chunks r) t,
            )
        | inr e ↦ elim (Bool-cases (ltb nsz meta.logical_size)) [
          | inl below ↦
              let keep = kept_chunks nsz in
              let smaller : nsz < length c = ground (arith, f.size) in
              let size : length (take nsz c) ≡ nsz = length-take nsz c ∙ omega arith in
              let (d₁, cut, stored, r) =
                shrink-Stored z cfg id meta.n_chunks c m.disk f.stored f.fits.n_chunks nsz
                  (ground arith) smaller off in
              let (total, summed, total_fits) =
                add_sizes-calm z cfg id keep 0 0 (record m { disk = d₁ }) stored.calm
                  (omega arith) in
              let meta' = stamped meta keep nsz total now in
              let (d₂, wrote, f', t) =
                save-File z cfg (norm path) (take nsz c) meta' (record m { disk = d₁ }) f.found
                  f.named
                  (fits keep nsz total (omega (arith, f.fits.logical_size, f.size))
                    (omega (arith, f.fits.logical_size, f.size)) total_fits)
                  (sym size) stored in
              (
                record m { disk = d₂ },
                meta',
                rw
                    (
                      f.found,
                      f.named,
                      load-File z cfg (norm path) c meta m f,
                      e,
                      below,
                      cut,
                      summed,
                      wrote,
                    )
                    refl,
                f',
                refl,
                refl,
                Touches-trans cfg id m.disk d₁ d₂
                    (Removed-Touches cfg id keep meta.n_chunks m.disk d₁ f.fits.n_chunks r) t,
              )
          | inr same ↦
              let all : take nsz c ≡ c = take-all nsz c (ground (arith, f.size)) in
              let meta' = stamped meta meta.n_chunks nsz meta.compressed_size now in
              let (d₂, wrote, f', t) =
                save-File z cfg (norm path) c meta' m f.found f.named
                  (fits meta.n_chunks nsz meta.compressed_size f.fits.n_chunks
                    (ground (arith, f.fits.logical_size, f.size)) f.fits.compressed_size)
                  (ground (arith, f.size)) f.stored in
              (
                record m { disk = d₂ },
                meta',
                rw (f.found, f.named, load-File z cfg (norm path) c meta m f, e, same, wrote) refl,
                subst (λ (x : Bytes). File z cfg (norm path) x meta' (record m { disk = d₂ }))
                    (sym all) f',
                refl,
                refl,
                t,
              )
        ]
      ]
