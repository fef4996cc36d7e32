-- ===== src/FuseOps/Volume/Entries.antt =====
-- The callbacks that make, remove and rename a file, on a mount that shows a tree.
use mathlib.Core.List.{Permᴰ}
use mathlib.Core.Path.{subst}
use crunch_fs.Base.{
  ℕ, ◌≡◌, refl, ap, ◌∙◌, sym, Bool, false, none, some, inl, inr, [], length, Str, str_eq, ok, arith,
}
use crunch_fs.Base.Int.{ℤ, pos}
use crunch_fs.Hex.{length-hex16}
use crunch_fs.Zstd.{Zstd}
use crunch_fs.Disk.{Disk, update, exists}
use crunch_fs.Passthrough.Layout.{Config}
use crunch_fs.Numerals.Signed.{IsLong}
use crunch_fs.MetaText.Words.{IsWord}
use crunch_fs.MetaStore.{
  Index, assign, erase, fnv, hash_path, meta_path, remove, save_index, index_add, index_remove,
}
use crunch_fs.ChunkStore.{remove_chunks}
use crunch_fs.ChunkStore.Removed.{remove_chunks-Removed}
use crunch_fs.MetaStore.Keys.{
  find_id-assign, find_id-assign_other, find_id-erase, find_id-erase_other, assign-AreEntries,
  erase-AreEntries,
}
use crunch_fs.MetaStore.Reloaded.{save_index-IsSaved}
use crunch_fs.FuseOps.Mount.{Mount, norm}
use crunch_fs.FuseOps.Touches.{Touches, Removed-Touches, Touches-then_index}
use crunch_fs.FuseOps.Calls.{saved}
use crunch_fs.FuseOps.Calls.Files.{File-settled, load-File, save-File}
use crunch_fs.FuseOps.Stored.{Stored}
use crunch_fs.FuseOps.Names.{new_meta, cfs_create, cfs_unlink, replaced}
use crunch_fs.FuseOps.Names.Unlinks.{removed_meta}
use crunch_fs.FuseOps.Names.Creates.{hash_path-IsWord, word_not_empty, new_meta-MetaFits}
use crunch_fs.FuseOps.Volume.{Node, Tree, set, Shown, Shows}
use crunch_fs.FuseOps.Volume.Steps.{Option-cases, set_same, Changes-Shows}
use crunch_fs.FuseOps.Volume.Contents.{some-injective}

length-hash_path : (p : Str) → length (hash_path p) ≡ 16
unfolding hash_path
length-hash_path p = length-hex16 (fnv 14695981039346656037 p)

module _ (order : Index → Index) (shuffles : (index : Index) → Permᴰ index (order index)) (z : Zstd)
    (cfg : Config) where
  -- On a mount that shows a tree, `cfs_create` of a word that is no path of the tree and whose hash is the id
  -- of no file, at a time in the range of `long long`, returns 0, and the mount then shows the tree with an empty file there.
  pub cfs_create-Shows :
      (now : ℤ)
      → IsLong now
      → (path : Str) (mode : ℕ) (t : Tree) (m : Mount) → Shows z cfg t m
      → IsWord (norm path)
      → t (norm path) ≡ none
      → ((q : Str) (a : Node) → t q ≡ some a → str_eq (hash_path (norm path)) a.id ≡ false)
      → (m' : Mount) × (cfs_create order cfg now path mode m ≡ (ok (pos 0), m'))
        × Shows z cfg
            (set t (norm path) (some (record { id = hash_path (norm path); bytes = [] })))
            m'
  unfolding cfs_create saved index_add
  cfs_create-Shows now now_fits path mode t m s word absent unused =
      let p = norm path in
      let id = hash_path p in
      let meta = new_meta now p mode in
      let node : Node = record { id = id; bytes = [] } in
      let index' = assign p id m.index in
      let entries = assign-AreEntries p id m.index word (hash_path-IsWord p) s.entries in
      let m₁ : Mount = record m { index = index' } in
      let empty : Stored z cfg id 0 [] m.disk = record {
        calm = s.calm;
        enough = omega arith;
        chunks = λ i lt. absurd (omega arith);
      } in
      let (d₁, wrote, f₁, touches) =
        save-File z cfg p [] meta m₁ (find_id-assign p id m.index)
          (word_not_empty id (hash_path-IsWord p)) (new_meta-MetaFits now now_fits p mode word) refl
          empty in
      let (d₂, listed_, calm, kept, others) =
        save_index-IsSaved order shuffles cfg index' d₁ f₁.stored.calm entries in
      let m₂ : Mount = record { disk = d₂; index = index' } in
      let f₂ =
        File-settled z cfg p [] meta (record { disk = d₁; index = index' }) d₂ calm others f₁ in
      (
        m₂,
        rw (s.absent p absent, wrote, listed_) refl,
        Changes-Shows z cfg t p id (some node) m m₂ s (record {
          calm = calm;
          frame = Touches-then_index cfg id m.disk d₁ d₂ touches others;
          sized = length-hash_path p;
          others = λ q a ne at. unused q a at;
          lookups = λ q ne. find_id-assign_other q p id m.index ne;
          new = λ k e.
              let is : node ≡ k = some-injective e in
              (
                subst (λ (k : Node). Shown z cfg p k m₂) is
                    (record { meta = meta; file = f₂; own = refl }),
                ap (λ (k : Node). k.id) (sym is),
              );
          gone = λ e. absurd cc;
          entries = entries;
          saved = kept;
        }),
      )

  -- What `cfs_unlink` and the first part of `cfs_rename` do to a file of the tree: its chunks and its
  -- metadata are removed, and its path is taken from the index.
  pub taken_out :
      (p : Str) (n : Node) (t : Tree) (m : Mount) (s : Shows z cfg t m) (there : t p ≡ some n)
      → (d₁ : Disk) × (was : Bool) × (d₂ d₃ : Disk) × (remove_chunks cfg
            (s.shown p n there).meta.path_id
            (s.shown p n there).meta.n_chunks
            m.disk
          ≡ (ok tt, d₁))
        × (remove cfg (s.shown p n there).meta.path_id d₁ ≡ (ok was, d₂))
        × (save_index order cfg (erase p m.index) d₂ ≡ d₃)
        × Shows z cfg (set t p none) (record { disk = d₃; index = erase p m.index })
  taken_out p n t m s there =
      let sh = s.shown p n there in
      let f = sh.file in
      let id = sh.meta.path_id in
      let (d₁, cut, r) =
        remove_chunks-Removed cfg id sh.meta.n_chunks m.disk s.calm
          (omega (arith, f.fits.n_chunks)) in
      let d₂ : Disk = record d₁ { files = update d₁.files (meta_path cfg id) none } in
      let index' = erase p m.index in
      let entries = erase-AreEntries p m.index s.entries in
      let (d₃, wrote, calm, kept, others) =
        save_index-IsSaved order shuffles cfg index' d₂ r.calm entries in
      let touches : Touches cfg id m.disk d₂ = record {
        others = λ q nc nm. rw nm (
            (Removed-Touches cfg id 0 sh.meta.n_chunks m.disk d₁ f.fits.n_chunks r).others q nc nm);
      } in
      (
        d₁,
        exists d₁ (meta_path cfg id),
        d₂,
        d₃,
        cut,
        removed_meta cfg id d₁ r.calm,
        wrote,
        Changes-Shows z cfg t p id none m (record { disk = d₃; index = index' }) s
            (record {
              calm = calm;
              frame = Touches-then_index cfg id m.disk d₂ d₃ touches others;
              sized = ap length sh.own ∙ s.sized p n there;
              others =
                  λ q a ne at. ap (λ (x : Str). str_eq x a.id) sh.own ∙ s.apart p q n a there at ne;
              lookups = λ q ne. find_id-erase_other q p m.index ne;
              new = λ k e. absurd cc;
              gone = λ e. find_id-erase p m.index;
              entries = entries;
              saved = kept;
            }),
      )

  -- On a mount that shows a tree, `cfs_unlink` of a file of it returns 0, and the mount then shows the tree
  -- without it.
  pub cfs_unlink-Shows :
      (path : Str) (n : Node) (t : Tree) (m : Mount)
      → Shows z cfg t m
      → t (norm path) ≡ some n
      → (m' : Mount) × (cfs_unlink order cfg path m ≡ (ok (pos 0), m'))
        × Shows z cfg (set t (norm path) none) m'
  unfolding cfs_unlink index_remove
  cfs_unlink-Shows path n t m s there =
      let p = norm path in
      let sh = s.shown p n there in
      let f = sh.file in
      let (d₁, was, d₂, d₃, cut, gone, wrote, s') = taken_out p n t m s there in
      (
        record { disk = d₃; index = erase p m.index },
        rw (f.found, f.named, load-File z cfg p n.bytes sh.meta m f, cut, gone, wrote) refl,
        s',
      )

  -- `to` is a file of the tree or not: behind the first part of `cfs_rename` it is none.
  pub replaced-Shows :
      (tp : Str) (t : Tree) (m : Mount)
      → Shows z cfg t m
      → (m' : Mount) × (replaced order cfg tp m ≡ (ok tt, m')) × Shows z cfg (set t tp none) m'
  unfolding replaced index_remove
  replaced-Shows tp t m s = elim (Option-cases (t tp)) [
    | inl absent ↦ (
      m,
      rw (s.absent tp absent) refl,
      subst (λ (u : Tree). Shows z cfg u m) (sym (set_same t tp none absent)) s,
    )
    | inr (n, there) ↦
        let sh = s.shown tp n there in
        let f = sh.file in
        let (d₁, was, d₂, d₃, cut, gone, wrote, s') = taken_out tp n t m s there in
        (
          record { disk = d₃; index = erase tp m.index },
          rw (f.found, f.named, load-File z cfg tp n.bytes sh.meta m f, cut, gone, wrote) refl,
          s',
        )
  ]
