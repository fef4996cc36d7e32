-- ===== src/FuseOps/Names/Renames.antt =====
-- `cfs_rename` of a file to a new name.
use crunch_fs.Base.{◌≡◌, refl, ap, ◌∙◌, Bool, false, [], Str, str_eq, ok}
use crunch_fs.Base.Int.{pos}
use crunch_fs.Zstd.{Zstd}
use crunch_fs.Disk.{Disk}
use crunch_fs.Passthrough.Layout.{Config, index_path}
use crunch_fs.MetaText.{FileMeta}
use crunch_fs.MetaText.Words.{IsWord}
use crunch_fs.MetaStore.{
  Index, find_id, assign, erase, save_index, index_add, index_remove, index_text,
}
use crunch_fs.MetaStore.Keys.{find_id-assign, find_id-assign_other, find_id-erase}
use crunch_fs.MetaStore.Saved.{MetaFits, replace_text-calm}
use crunch_fs.FuseOps.Mount.{Mount, norm}
use crunch_fs.FuseOps.Calls.{saved}
use crunch_fs.FuseOps.Calls.Files.{File, load-File, save-File, File-settled}
use crunch_fs.FuseOps.Names.{replaced, cfs_rename}

module _ (z : Zstd) (cfg : Config) where
  -- Another index with the file's id.
  pub rekeyed :
      (p q c : Str) (meta : FileMeta) (m : Mount) (index : Index)
      → File z cfg p c meta m
      → find_id q index ≡ meta.path_id
      → File z cfg q c meta (record m { index = index })
  rekeyed p q c meta m index f found = record {
    found = found;
    named = f.named;
    text = f.text;
    fits = f.fits;
    size = f.size;
    stored = f.stored;
  }

module _ (order : Index → Index) (z : Zstd) (cfg : Config) where
  -- The text of the index is no part of a file.
  save_index-File :
      (p c : Str) (meta : FileMeta) (m : Mount) (index : Index)
      → File z cfg p c meta m
      → (d' : Disk) × (save_index order cfg index m.disk ≡ d')
        × File z cfg p c meta (record m { disk = d' })
  unfolding save_index
  save_index-File p c meta m index f =
      let (d', wrote, calm, _, others) =
        replace_text-calm (index_path cfg) (index_text (order index)) m.disk f.stored.calm in
      (d', ap (λ (r : Bool × Disk). r.1) wrote, File-settled z cfg p c meta m d' calm others f)

  -- Where `from` is a file whose chunks hold its content, on a disk that meets no fault, and `to` is a word
  -- that is not in the index, `cfs_rename` returns 0: `to` is then a file with the content, and `from` is not
  -- in the index.
  pub cfs_rename-File :
      (from to c : Str) (meta : FileMeta) (m : Mount)
      → File z cfg (norm from) c meta m
      → IsWord (norm to)
      → find_id (norm to) m.index ≡ []
      → str_eq (norm to) (norm from) ≡ false
      → (m' : Mount) × (meta' : FileMeta) × (cfs_rename order cfg from to m ≡ (ok (pos 0), m'))
        × File z cfg (norm to) c meta' m'
        × (find_id (norm from) m'.index ≡ [])
  unfolding cfs_rename replaced saved index_remove index_add
  cfs_rename-File from to c meta m f word absent ne =
      let fp = norm from in
      let tp = norm to in
      let oid = meta.path_id in
      let meta' : FileMeta = record meta { logical_path = tp } in
      let fits : MetaFits meta' = record {
        id_word = f.fits.id_word;
        path_word = word;
        logical_size = f.fits.logical_size;
        compressed_size = f.fits.compressed_size;
        chunk_size = f.fits.chunk_size;
        n_chunks = f.fits.n_chunks;
        atime = f.fits.atime;
        mtime = f.fits.mtime;
        ctime = f.fits.ctime;
        mode = f.fits.mode;
      } in
      let index₁ = erase fp m.index in
      let index₂ = assign tp oid index₁ in
      let (d₁, wrote, f₁, _) = save-File z cfg fp c meta' m f.found f.named fits f.size f.stored in
      let m₁ : Mount = record m { disk = d₁ } in
      let (d₂, e₂, f₂) = save_index-File fp c meta' m₁ index₁ f₁ in
      let m₂ : Mount = record m { disk = d₂ } in
      let (d₃, e₃, f₃) = save_index-File fp c meta' m₂ index₂ f₂ in
      (
        record { disk = d₃; index = index₂ },
        meta',
        rw (f.found, f.named, absent, load-File z cfg fp c meta m f, wrote, e₂, e₃) refl,
        rekeyed z cfg fp tp c meta' (record m { disk = d₃ }) index₂ f₃
            (find_id-assign tp oid index₁),
        find_id-assign_other fp tp oid index₁ ne ∙ find_id-erase fp m.index,
      )
