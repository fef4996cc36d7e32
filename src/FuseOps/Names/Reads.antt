-- ===== src/FuseOps/Names/Reads.antt =====
-- `cfs_read` of a file.
use crunch_fs.Base.{
  ℕ, ◌-◌, ◌≤◌, min, ◌≡◌, refl, ap, ◌∙◌, sym, false, [], length, take, drop, take-all,
  take-min-length, length-drop, drop-all, Str, str_eq, leb, ok, Bool-cases, inl, inr, arith,
}
use crunch_fs.Base.Int.{to_int}
use crunch_fs.Zstd.{Zstd}
use crunch_fs.Passthrough.Layout.{Config}
use crunch_fs.MetaText.{FileMeta, default_meta}
use crunch_fs.MetaStore.{Index}
use crunch_fs.MetaStore.Saved.{load-meta_text}
use crunch_fs.FuseOps.Reading.{read_bytes-Stored}
use crunch_fs.FuseOps.Mount.{Mount, norm, stats_vpath}
use crunch_fs.FuseOps.Calls.Files.{File}
use crunch_fs.FuseOps.Names.{cfs_read}

module _ (order : Index → Index) (ratio : ℕ → ℕ → Str) (z : Zstd) (cfg : Config) where
  -- A read of at least one byte of a file that is not the file of the statistics gives the bytes of the
  -- content from the offset on, as many as asked for or as there are, and changes nothing.
  pub cfs_read-File :
      (path c : Str) (meta : FileMeta) (m : Mount)
      → File z cfg (norm path) c meta m
      → str_eq (norm path) stats_vpath ≡ false
      → (size offset : ℕ) → 1 ≤ size
      → cfs_read order ratio cfg z path size offset m
        ≡ (ok (to_int (length (take size (drop offset c))), take size (drop offset c)), m)
  unfolding cfs_read to_int
  cfs_read-File path c meta m f other size offset some_bytes =
      let was =
        load-meta_text cfg meta.path_id meta default_meta m.disk f.stored.calm f.fits f.text in
      elim (Bool-cases (leb meta.logical_size offset)) [
        | inl behind ↦
            let none_left : take size (drop offset c) ≡ [] =
              ap (take size) (drop-all offset c (ground (arith, f.size)))
              ∙ take-all size [] (omega arith) in
            rw (other, f.found, f.named, was, behind, none_left) refl
        | inr before ↦
            let n = min size (meta.logical_size - offset) in
            let part : take n (drop offset c) ≡ take size (drop offset c) =
              ap (λ (k : ℕ). take (min size k) (drop offset c))
                (ap (λ (k : ℕ). k - offset) f.size ∙ sym (length-drop offset c))
              ∙ take-min-length size (drop offset c) in
            let got =
              read_bytes-Stored z cfg meta.path_id meta.n_chunks c m.disk f.stored n offset
                (ground (arith, some_bytes)) (ground (arith, f.size))
                (omega (arith, f.size, f.fits.logical_size)) in
            rw (other, f.found, f.named, was, before, got, part) refl
      ]
