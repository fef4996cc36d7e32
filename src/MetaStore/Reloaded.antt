-- ===== src/MetaStore/Reloaded.antt =====
-- What `save_index` writes, `load_index` reads back, as a map.
use mathlib.Core.List.{Permᴰ}
use crunch_fs.Base.{
  ◌≡◌, refl, ap, ◌∙◌, sym, Bool, false, [], ◌∷◌, ◌++◌, none, some, All, All-append, All-mono, Str,
  str_eq, ◌==◌, inl, inr, Bool-cases, arith,
}
use crunch_fs.Disk.{Disk}
use crunch_fs.Disk.Calm.{open_read-calm, open_read-missing}
use crunch_fs.Passthrough.Layout.{Config, index_path}
use crunch_fs.Passthrough.Index.{newline, lines}
use crunch_fs.Passthrough.Index.Entries.{lines_empty, lines-line}
use crunch_fs.MetaText.{is_space}
use crunch_fs.MetaText.Words.{IsWord}
use crunch_fs.MetaStore.{
  Index, find_id, assign, at_tab, read_lines, index_text, load_index, save_index,
}
use crunch_fs.MetaStore.Saved.{replace_text-calm}
use crunch_fs.MetaStore.Keys.{
  AreEntries, has_key, find_id_missing, find_id-Perm, Perm-AreEntries, assigns, find_id-assigns,
  assigns-AreEntries,
}

at_tab-word : (p id : Str) → All (λ c. is_space c ≡ false) p → at_tab (p ++ 9 ∷ id) ≡ some (p, id)
unfolding at_tab
at_tab-word [] id h = refl
at_tab-word (c ∷ p) id (hc, h) =
    let not_tab : (c == 9) ≡ false = ground arith in rw (at_tab-word p id h, not_tab) refl

no_newline : (w : Str) → IsWord w → All (λ c. (c == newline) ≡ false) w
no_newline w h = All-mono _ (λ c. (c == newline) ≡ false) w (λ c k. ground arith) h.solid

read_lines-index_text :
    (index l : Index) → AreEntries l → read_lines index (lines (index_text l)) ≡ assigns index l
unfolding read_lines index_text assigns AreEntries at_tab
read_lines-index_text index [] h = rw lines_empty refl
read_lines-index_text index ((p, id) ∷ rest) (new, wp, wid, h) =
    let clean : All (λ c. (c == newline) ≡ false) (p ++ 9 ∷ id) =
      All-append (λ c. (c == newline) ≡ false) p (9 ∷ id) (no_newline p wp)
        (refl, no_newline id wid) in
    rw (lines-line (p ++ 9 ∷ id) (index_text rest) clean, read_lines, at_tab-word p id wp.solid)
      (read_lines-index_text (assign p id index) rest h)

-- The index file stands for the index: it holds entries with the same ids, or the index is empty and
-- there is no file.
pub data IsSaved (cfg : Config) (index : Index) (d : Disk) : Type 0 where
  listed :
      (l : Index)
      → d.files (index_path cfg) ≡ some (index_text l)
      → AreEntries l
      → ((p : Str) → find_id p l ≡ find_id p index)
      → IsSaved cfg index d
  fresh : d.files (index_path cfg) ≡ none → ((p : Str) → find_id p index ≡ []) → IsSaved cfg index d

-- Only the index file decides.
pub IsSaved-same :
    (cfg : Config) (index : Index) (d d' : Disk)
    → d'.files (index_path cfg) ≡ d.files (index_path cfg)
    → IsSaved cfg index d
    → IsSaved cfg index d'
IsSaved-same cfg index d d' same (listed l there entries ids) = listed l (same ∙ there) entries ids
IsSaved-same cfg index d d' same (fresh missing ids) = fresh (same ∙ missing) ids

module _ (order : Index → Index) (shuffles : (index : Index) → Permᴰ index (order index))
    (cfg : Config) where
  -- Where the disk meets no fault, `save_index` of entries, in whatever order they are gone through, leaves an
  -- index file that stands for them, and changes no other file.
  pub save_index-IsSaved :
      (index : Index) (d : Disk)
      → d.faults ≡ []
      → AreEntries index
      → (d' : Disk) × (save_index order cfg index d ≡ d')
        × (d'.faults ≡ [])
        × IsSaved cfg index d'
        × ((q : Str) → str_eq (index_path cfg) q ≡ false → d'.files q ≡ d.files q)
  unfolding save_index
  save_index-IsSaved index d calm entries =
      let (d', wrote, calm', there, others) =
        replace_text-calm (index_path cfg) (index_text (order index)) d calm in
      (
        d',
        ap (λ (r : Bool × Disk). r.1) wrote,
        calm',
        listed (order index) there (Perm-AreEntries index (order index) (shuffles index) entries)
            (λ p. sym (find_id-Perm p index (order index) (shuffles index) entries)),
        others,
      )

-- Where the disk meets no fault and the index file stands for an index, `load_index` gives entries with the
-- same ids, and the file stands for these too.
pub load_index-IsSaved :
    (cfg : Config) (index : Index) (d : Disk)
    → d.faults ≡ []
    → IsSaved cfg index d
    → (index' : Index) × (load_index cfg d ≡ (index', d))
      × AreEntries index'
      × ((p : Str) → find_id p index' ≡ find_id p index)
      × IsSaved cfg index' d
unfolding load_index find_id AreEntries
load_index-IsSaved cfg index d calm (fresh missing ids) = (
  [],
  rw (open_read-missing (index_path cfg) d calm missing) refl,
  tt,
  λ p. sym (ids p),
  fresh missing (λ p. refl),
)
load_index-IsSaved cfg index d calm (listed l there entries ids) =
    let same : (p : Str) → find_id p (assigns [] l) ≡ find_id p l = λ p.
      find_id-assigns p [] l entries ∙ elim (Bool-cases (has_key p l)) [
        | inl e ↦ rw e refl
        | inr e ↦ rw e (sym (find_id_missing p l e))
      ] in
    (
      assigns [] l,
      rw
          (
            open_read-calm (index_path cfg) (index_text l) d calm there,
            read_lines-index_text [] l entries,
          )
          refl,
      assigns-AreEntries [] l entries tt,
      λ p. same p ∙ ids p,
      listed l there entries (λ p. sym (same p)),
    )

module _ (order : Index → Index) (shuffles : (index : Index) → Permᴰ index (order index))
    (cfg : Config) where
  -- Where the disk meets no fault, the index that `save_index` has saved, in whatever order its entries were
  -- gone through, is read back by `load_index` with the same id of every path, and no other file has
  -- changed.
  pub load_index-save_index :
      (index : Index) (d : Disk)
      → d.faults ≡ []
      → AreEntries index
      → (index' : Index) × (load_index cfg (save_index order cfg index d)
          ≡ (index', save_index order cfg index d))
        × AreEntries index'
        × ((p : Str) → find_id p index' ≡ find_id p index)
        × ((q : Str)
            → str_eq (index_path cfg) q ≡ false
            → (save_index order cfg index d).files q ≡ d.files q)
  load_index-save_index index d calm entries =
      let (d', wrote, calm', kept, others) =
        save_index-IsSaved order shuffles cfg index d calm entries in
      let (index', loaded, entries', same, kept') = load_index-IsSaved cfg index d' calm' kept in
      (index', rw wrote loaded, entries', same, rw wrote others)
