-- ===== src/FuseOps/Names/Creates.antt =====
-- `cfs_create` of a new file.
use crunch_fs.Base.{ℕ, ◌≤◌, ◌≡◌, refl, ◌∙◌, false, [], ◌∷◌, All, Str, ok, arith}
use crunch_fs.Base.Int.{ℤ, pos}
use crunch_fs.Hex.{hex16, length-hex16, visible-hex16}
use crunch_fs.Zstd.{Zstd}
use crunch_fs.Passthrough.Layout.{Config, index_path}
use crunch_fs.Passthrough.Layout.Apart.{Under-self, index_ne_meta}
use crunch_fs.Numerals.Signed.{IsLong}
use crunch_fs.MetaText.{is_space}
use crunch_fs.MetaText.Words.{IsWord}
use crunch_fs.MetaStore.{
  Index, find_id, assign, fnv, hash_path, meta_path, save_index, index_add, index_text,
}
use crunch_fs.MetaStore.Keys.{find_id-assign}
use crunch_fs.MetaStore.Paths.{meta-Under}
use crunch_fs.MetaStore.Saved.{MetaFits, save-calm, replace_text-calm}
use crunch_fs.FuseOps.Stored.{Stored}
use crunch_fs.FuseOps.Mount.{Mount, norm, is_empty}
use crunch_fs.FuseOps.Calls.{saved}
use crunch_fs.FuseOps.Calls.Files.{File}
use crunch_fs.FuseOps.Names.{new_meta, cfs_create}

visible_solid : (s : Str) → All (λ c. b'0' ≤ c) s → All (λ c. is_space c ≡ false) s
visible_solid [] h = tt
visible_solid (c ∷ s) (hc, h) = (ground arith, visible_solid s h)

pub hash_path-IsWord : (p : Str) → IsWord (hash_path p)
unfolding hash_path
hash_path-IsWord p =
    let h = fnv 14695981039346656037 p in
    record {
      long = omega (arith, length-hex16 h);
      solid = visible_solid (hex16 h) (visible-hex16 h);
    }

pub word_not_empty : (w : Str) → IsWord w → is_empty w ≡ false
word_not_empty [] h = absurd (omega (arith, h.long))
word_not_empty (c ∷ w) h = refl

pub new_meta-MetaFits :
    (now : ℤ) → IsLong now → (p : Str) (mode : ℕ) → IsWord p → MetaFits (new_meta now p mode)
new_meta-MetaFits now now_fits p mode word = record {
  id_word = hash_path-IsWord p;
  path_word = word;
  logical_size = omega arith;
  compressed_size = omega arith;
  chunk_size = omega arith;
  n_chunks = omega arith;
  atime = now_fits;
  mtime = now_fits;
  ctime = now_fits;
  mode = omega arith;
}

module _ (order : Index → Index) (z : Zstd) (cfg : Config) where
  -- On a disk that meets no fault, `cfs_create` of a path that is a word and is not in the index returns 0,
  -- and the path is then an empty file.
  pub cfs_create-File :
      (now : ℤ)
      → IsLong now
      → (path : Str) (mode : ℕ) (m : Mount) → m.disk.faults ≡ []
      → IsWord (norm path)
      → find_id (norm path) m.index ≡ []
      → (m' : Mount) × (cfs_create order cfg now path mode m ≡ (ok (pos 0), m'))
        × File z cfg (norm path) [] (new_meta now (norm path) mode) m'
  unfolding cfs_create saved index_add save_index
  cfs_create-File now now_fits path mode m calm word absent =
      let p = norm path in
      let id = hash_path p in
      let meta = new_meta now p mode in
      let fits = new_meta-MetaFits now now_fits p mode word in
      let (d₁, wrote, calm₁, text, _) = save-calm cfg meta m.disk calm in
      let index' = assign p id m.index in
      let (d₂, wrote', calm₂, _, others) =
        replace_text-calm (index_path cfg) (index_text (order index')) d₁ calm₁ in
      let empty : Stored z cfg id 0 [] d₂ = record {
        calm = calm₂;
        enough = omega arith;
        chunks = λ i lt. absurd (omega arith);
      } in
      (
        record { disk = d₂; index = index' },
        rw (absent, wrote, wrote') refl,
        record {
          found = find_id-assign p id m.index;
          named = word_not_empty id (hash_path-IsWord p);
          text =
              others (meta_path cfg id)
                (index_ne_meta cfg (Under-self (index_path cfg)) (meta-Under cfg id))
              ∙ text;
          fits = fits;
          size = refl;
          stored = empty;
        },
      )
