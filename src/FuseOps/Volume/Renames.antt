-- ===== src/FuseOps/Volume/Renames.antt =====
-- `cfs_rename` on a mount that shows a tree.
use mathlib.Core.List.{Permᴰ}
use mathlib.Core.Path.{subst, fun_ext}
use crunch_fs.Base.{
  ◌≡◌, refl, ap, ◌∙◌, sym, false, none, some, Option, length, Str, str_eq, ok, Bool-cases, inl, inr,
}
use crunch_fs.Base.Int.{pos}
use crunch_fs.Zstd.{Zstd}
use crunch_fs.Disk.{Disk}
use crunch_fs.Passthrough.Layout.{Config}
use crunch_fs.MetaText.{FileMeta}
use crunch_fs.MetaText.Words.{IsWord}
use crunch_fs.MetaStore.{Index, find_id, assign, erase, save_index, index_add, index_remove}
use crunch_fs.MetaStore.Keys.{
  find_id-assign, find_id-assign_other, find_id-erase, find_id-erase_other, assign-AreEntries,
  erase-AreEntries,
}
use crunch_fs.MetaStore.Reloaded.{save_index-IsSaved}
use crunch_fs.FuseOps.Mount.{Mount, norm}
use crunch_fs.FuseOps.Touches.{index-Beyond}
use crunch_fs.FuseOps.Calls.{saved}
use crunch_fs.FuseOps.Calls.Files.{File, File-settled, load-File}
use crunch_fs.FuseOps.Names.{cfs_rename}
use crunch_fs.FuseOps.Names.Renames.{rekeyed}
use crunch_fs.FuseOps.Volume.{Node, Tree, set, Shown, Shows}
use crunch_fs.FuseOps.Volume.Steps.{set-cases, Changes-Shows}
use crunch_fs.FuseOps.Volume.Contents.{some-injective, renewed, resaved}
use crunch_fs.FuseOps.Volume.Entries.{replaced-Shows}

-- The path that the file leaves, and the one that it gets, whatever was there.
set_again :
    (t : Tree) (p q : Str) (v : Option Node)
    → set (set (set t q none) p none) q v ≡ set (set t p none) q v
unfolding set
set_again t p q v =
    fun_ext (λ r. elim (Bool-cases (str_eq q r)) [ inl e ↦ rw e refl | inr e ↦ rw e refl ])

set_other : (t : Tree) (p q : Str) (v : Option Node) → str_eq p q ≡ false → set t p v q ≡ t q
unfolding set
set_other t p q v ne = rw ne refl

module _ (order : Index → Index) (shuffles : (index : Index) → Permᴰ index (order index)) (z : Zstd)
    (cfg : Config) where
  -- The two changes of the index: the file of `from` goes to `to`.
  moved :
      (fp tp : Str) (n : Node) (meta : FileMeta) (t : Tree) (m : Mount)
      → Shows z cfg t m
      → File z cfg fp n.bytes meta m
      → meta.path_id ≡ n.id
      → t fp ≡ some n
      → IsWord tp
      → (d₁ d₂ : Disk) × (save_index order cfg (erase fp m.index) m.disk ≡ d₁)
        × (save_index order cfg (assign tp meta.path_id (erase fp m.index)) d₁ ≡ d₂)
        × Shows z cfg
            (set (set t fp none) tp (some n))
            (record { disk = d₂; index = assign tp meta.path_id (erase fp m.index) })
  moved fp tp n meta t m s f own there word =
      let id = meta.path_id in
      let index₁ = erase fp m.index in
      let index₂ = assign tp id index₁ in
      let entries₁ = erase-AreEntries fp m.index s.entries in
      let entries₂ = assign-AreEntries tp id index₁ word f.fits.id_word entries₁ in
      let (d₁, wrote₁, calm₁, kept₁, others₁) =
        save_index-IsSaved order shuffles cfg index₁ m.disk s.calm entries₁ in
      let (d₂, wrote₂, calm₂, kept₂, others₂) =
        save_index-IsSaved order shuffles cfg index₂ d₁ calm₁ entries₂ in
      let m₁ : Mount = record { disk = d₁; index = index₁ } in
      let m₂ : Mount = record { disk = d₂; index = index₂ } in
      let unlike : (q : Str) (a : Node)
          → str_eq fp q ≡ false
          → t q ≡ some a
          → str_eq id a.id ≡ false =
        λ q a ne at. ap (λ (x : Str). str_eq x a.id) own ∙ s.apart fp q n a there at ne in
      let sized = ap length own ∙ s.sized fp n there in
      let s₁ = Changes-Shows z cfg t fp id none m m₁ s (record {
        calm = calm₁;
        frame = index-Beyond cfg id m.disk d₁ others₁;
        sized = sized;
        others = unlike;
        lookups = λ q ne. find_id-erase_other q fp m.index ne;
        new = λ k e. absurd cc;
        gone = λ e. find_id-erase fp m.index;
        entries = entries₁;
        saved = kept₁;
      }) in
      let g₁ = File-settled z cfg fp n.bytes meta m d₁ calm₁ others₁ f in
      let g₂ = File-settled z cfg fp n.bytes meta (record m { disk = d₁ }) d₂ calm₂ others₂ g₁ in
      let g =
        rekeyed z cfg fp tp n.bytes meta (record m { disk = d₂ }) index₂ g₂
          (find_id-assign tp id index₁) in
      (
        d₁,
        d₂,
        wrote₁,
        wrote₂,
        Changes-Shows z cfg (set t fp none) tp id (some n) m₁ m₂ s₁ (record {
          calm = calm₂;
          frame = index-Beyond cfg id d₁ d₂ others₂;
          sized = sized;
          others = λ q a ne at. elim (set-cases t fp none q (some a) at) [
            | inl (same, is) ↦ absurd cc
            | inr (other, there') ↦ unlike q a other there'
          ];
          lookups = λ q ne. find_id-assign_other q tp id index₁ ne;
          new = λ k e.
              let is : n ≡ k = some-injective e in
              (
                subst (λ (k : Node). Shown z cfg tp k m₂) is
                    (record { meta = meta; file = g; own = own }),
                ap (λ (k : Node). k.id) (sym is) ∙ sym own,
              );
          gone = λ e. absurd cc;
          entries = entries₂;
          saved = kept₂;
        }),
      )

  -- On a mount that shows a tree, `cfs_rename` of a file of it to another word returns 0, whether or not the
  -- tree has a file there; the mount then shows the tree with the file at its new path and nothing at the
  -- old one.
  pub cfs_rename-Shows :
      (from to : Str) (n : Node) (t : Tree) (m : Mount)
      → Shows z cfg t m
      → t (norm from) ≡ some n
      → IsWord (norm to)
      → str_eq (norm to) (norm from) ≡ false
      → (m' : Mount) × (cfs_rename order cfg from to m ≡ (ok (pos 0), m'))
        × Shows z cfg (set (set t (norm from) none) (norm to) (some n)) m'
  unfolding cfs_rename saved index_remove index_add
  cfs_rename-Shows from to n t m s there word ne =
      let fp = norm from in
      let tp = norm to in
      let sh = s.shown fp n there in
      let (m₁, emptied, s₁) = replaced-Shows order shuffles z cfg tp t m s in
      let t₁ = set t tp none in
      let there₁ = set_other t tp fp none ne ∙ there in
      let sh₁ = s₁.shown fp n there₁ in
      let id : find_id fp m.index ≡ sh₁.meta.path_id = sh.file.found ∙ sh.own ∙ sym sh₁.own in
      let old = sh₁.meta in
      let fit = sh₁.file.fits in
      let (d₂, wrote, f, s₂) =
        resaved z cfg fp n t₁ m₁ s₁ there₁ tp old.atime old.mtime old.mode word fit.atime fit.mtime
          fit.mode in
      let meta' = renewed old tp old.atime old.mtime old.mode in
      let (d₃, d₄, gone, new, s₄) =
        moved fp tp n meta' t₁ (record m₁ { disk = d₂ }) s₂ f sh₁.own there₁ word in
      (
        record { disk = d₄; index = assign tp old.path_id (erase fp m₁.index) },
        rw
            (
              id,
              sh₁.file.named,
              emptied,
              load-File z cfg fp n.bytes old m₁ sh₁.file,
              wrote,
              gone,
              new,
            )
            refl,
        subst
            (λ (u : Tree).
              Shows z cfg u
                (record { disk = d₄; index = assign tp old.path_id (erase fp m₁.index) }))
            (set_again t fp tp (some n)) s₄,
      )
