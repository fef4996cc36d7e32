-- ===== src/FuseOps/Names/Unlinks.antt =====
-- `cfs_unlink` of a file.
use crunch_fs.Base.{ℕ, ◌<◌, ◌≡◌, refl, ◌∙◌, none, [], Str, str_eq_refl, ok, arith}
use crunch_fs.Base.Bytes.{Bytes}
use crunch_fs.Base.Int.{pos}
use crunch_fs.Zstd.{Zstd}
use crunch_fs.Disk.{Disk, update, exists}
use crunch_fs.Disk.Calm.{remove-calm}
use crunch_fs.Passthrough.Layout.{Config, index_path}
use crunch_fs.Passthrough.Layout.Apart.{Under-self, index_ne_meta, index_ne_data, meta_ne_data}
use crunch_fs.MetaText.{FileMeta}
use crunch_fs.MetaStore.{
  Index, find_id, erase, meta_path, save_index, index_remove, index_text, remove,
}
use crunch_fs.MetaStore.Keys.{find_id-erase}
use crunch_fs.MetaStore.Paths.{meta-Under}
use crunch_fs.MetaStore.Saved.{replace_text-calm}
use crunch_fs.ChunkStore.{chunk_path}
use crunch_fs.ChunkStore.Paths.{chunk-Under}
use crunch_fs.ChunkStore.Removed.{remove_chunks-Removed}
use crunch_fs.FuseOps.Mount.{Mount, norm}
use crunch_fs.FuseOps.Calls.Files.{File, load-File}
use crunch_fs.FuseOps.Names.{cfs_unlink}

pub removed_meta :
    (cfg : Config) (id : Str) (d : Disk)
    → d.faults ≡ []
    → remove cfg id d ≡ (
      ok (exists d (meta_path cfg id)),
      record d { files = update d.files (meta_path cfg id) none },
    )
unfolding remove
removed_meta cfg id d calm = rw (remove-calm (meta_path cfg id) d calm) refl

-- Neither metadata nor chunks of the file are on the disk.
pub record Unlinked (cfg : Config) (meta : FileMeta) (d : Disk) : Type 0 where
  pub no_meta : d.files (meta_path cfg meta.path_id) ≡ none
  pub no_chunks : (i : ℕ) → i < meta.n_chunks → d.files (chunk_path cfg meta.path_id i) ≡ none

module _ (order : Index → Index) (z : Zstd) (cfg : Config) where
  -- Where the path is a file whose chunks hold its content, on a disk that meets no fault, `cfs_unlink`
  -- returns 0: the path is then not in the index, and neither metadata nor chunks of the file are left.
  pub cfs_unlink-Unlinked :
      (path : Str) (c : Bytes) (meta : FileMeta) (m : Mount)
      → File z cfg (norm path) c meta m
      → (m' : Mount) × (cfs_unlink order cfg path m ≡ (ok (pos 0), m'))
        × (find_id (norm path) m'.index ≡ [])
        × Unlinked cfg meta m'.disk
  unfolding cfs_unlink index_remove save_index
  cfs_unlink-Unlinked path c meta m f =
      let p = norm path in
      let id = meta.path_id in
      let (d₁, cut, r) =
        remove_chunks-Removed cfg id meta.n_chunks m.disk f.stored.calm
          (omega (arith, f.fits.n_chunks)) in
      let d₂ : Disk = record d₁ { files = update d₁.files (meta_path cfg id) none } in
      let index' = erase p m.index in
      let (d₃, wrote, _, _, others) =
        replace_text-calm (index_path cfg) (index_text (order index')) d₂ r.calm in
      (
        record { disk = d₃; index = index' },
        rw
            (
              f.found,
              f.named,
              load-File z cfg p c meta m f,
              cut,
              removed_meta cfg id d₁ r.calm,
              wrote,
            )
            refl,
        find_id-erase p m.index,
        record {
          no_meta =
              others (meta_path cfg id)
                (index_ne_meta cfg (Under-self (index_path cfg)) (meta-Under cfg id))
              ∙ rw (str_eq_refl (meta_path cfg id)) refl;
          no_chunks = λ i lt.
              others (chunk_path cfg id i)
                (index_ne_data cfg (Under-self (index_path cfg)) (chunk-Under cfg id i))
              ∙ (rw (meta_ne_data cfg (meta-Under cfg id) (chunk-Under cfg id i))
                  (r.gone i (omega arith) lt));
        },
      )
