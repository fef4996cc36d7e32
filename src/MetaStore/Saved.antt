-- ===== src/MetaStore/Saved.antt =====
-- What `save` writes, `load` reads back.
use crunch_fs.Base.{
  ℕ, ◌%◌, ◌≤◌, ◌<◌, ◌≡◌, refl, Bool, true, false, [], ◌∷◌, ◌++◌, some, str_eq_refl, length, All,
  Str, codes, str_eq, not, ◌&&◌, ok, arith,
}
use crunch_fs.Base.Bytes.{Bytes, u32_mod, u64_mod}
use crunch_fs.Numerals.Signed.{IsLong, stoll-print_signed}
use crunch_fs.Numerals.RoundTrip.{ten, eight, stoull-print}
use crunch_fs.Disk.{Disk, update, content}
use crunch_fs.Disk.Calm.{open_trunc-calm, write-calm, close-calm, open_read-calm}
use crunch_fs.Passthrough.Layout.{Config}
use crunch_fs.MetaText.{FileMeta, is_space, words, set_field, set_fields, fields, meta_text}
use crunch_fs.MetaStore.{meta_path, save, load, replace_text}
use crunch_fs.MetaText.Words.{IsWord, flat, words-text_of, print-IsWord, print_signed-IsWord}

-- The fields fit their integer types, and the names are words.
pub record MetaFits (m : FileMeta) : Type 0 where
  pub id_word : IsWord m.path_id
  pub path_word : IsWord m.logical_path
  pub logical_size : m.logical_size < u64_mod
  pub compressed_size : m.compressed_size < u64_mod
  pub chunk_size : m.chunk_size < u64_mod
  pub n_chunks : m.n_chunks < u64_mod
  pub atime : IsLong m.atime
  pub mtime : IsLong m.mtime
  pub ctime : IsLong m.ctime
  pub mode : m.mode < u32_mod

unfoldable plain : (key : Str) → Bool
plain [] = true
plain (c ∷ key) = not (is_space c) && plain key

plain_solid : (key : Str) → plain key ≡ true → All (λ c. is_space c ≡ false) key
unfolding plain
plain_solid [] h = tt
plain_solid (c ∷ key) h = (ground arith, plain_solid key (ground arith))

plain-IsWord : (key : Str) → plain key ≡ true → 1 ≤ length key → IsWord key
plain-IsWord key h l = record { long = l; solid = plain_solid key h }

fields_plain : (m : FileMeta) → MetaFits m → All (λ (key, val). IsWord key × IsWord val) (fields m)
unfolding fields plain
fields_plain m f =
    let word = λ (key : Str) (h : plain key ≡ true) (l : 1 ≤ length key). plain-IsWord key h l in
    let num = λ (n : ℕ). print-IsWord 10 ten (omega arith) n in
    (
      (word (codes "path_id") refl (omega arith), f.id_word),
      (
        (word (codes "logical_path") refl (omega arith), f.path_word),
        (
          (word (codes "logical_size") refl (omega arith), num m.logical_size),
          (
            (word (codes "comp_size") refl (omega arith), num m.compressed_size),
            (
              (word (codes "chunk_size") refl (omega arith), num m.chunk_size),
              (
                (word (codes "n_chunks") refl (omega arith), num m.n_chunks),
                (
                  (word (codes "atime") refl (omega arith), print_signed-IsWord m.atime),
                  (
                    (word (codes "mtime") refl (omega arith), print_signed-IsWord m.mtime),
                    (
                      (word (codes "ctime") refl (omega arith), print_signed-IsWord m.ctime),
                      (
                        (
                          word (codes "mode") refl (omega arith),
                          print-IsWord 8 eight (omega arith) m.mode,
                        ),
                        tt,
                      ),
                    ),
                  ),
                ),
              ),
            ),
          ),
        ),
      ),
    )

pub words-meta_text : (m : FileMeta) → MetaFits m → words (meta_text m) ≡ flat (fields m)
unfolding meta_text
words-meta_text m f = words-text_of (fields m) (fields_plain m f)

-- Whatever the metadata held before, the pairs that `save` writes give the saved metadata.
pub set_fields-fields : (m old : FileMeta) → MetaFits m → set_fields (flat (fields m)) old ≡ ok m
unfolding set_fields set_field fields flat str_eq
set_fields-fields m old f =
    let small : m.mode % u32_mod ≡ m.mode = omega (arith, f.mode) in
    let num = λ (n : ℕ) (h : n < u64_mod). stoull-print 10 ten n h in
    rw
      (
        num m.logical_size f.logical_size,
        num m.compressed_size f.compressed_size,
        num m.chunk_size f.chunk_size,
        num m.n_chunks f.n_chunks,
        stoll-print_signed m.atime f.atime,
        stoll-print_signed m.mtime f.mtime,
        stoll-print_signed m.ctime f.ctime,
        stoull-print 8 eight m.mode (omega (arith, f.mode)),
        small,
      )
      refl

pub replace_text-calm :
    (p : Str) (b : Bytes) (d : Disk)
    → d.faults ≡ []
    → (d' : Disk) × (replace_text p b d ≡ (true, d'))
      × (d'.faults ≡ [])
      × (d'.files p ≡ some b)
      × ((q : Str) → str_eq p q ≡ false → d'.files q ≡ d.files q)
unfolding replace_text
replace_text-calm p b d calm =
    let d₁ : Disk = record d { files = update d.files p (some []) } in
    let d₂ : Disk = record d { files = update d₁.files p (some (content (d₁.files p) ++ b)) } in
    (
      d₂,
      rw (open_trunc-calm p d calm, write-calm p b d₁ calm, close-calm p d₂ calm) refl,
      calm,
      rw (str_eq_refl p) refl,
      λ q ne. rw ne refl,
    )

pub save-calm :
    (cfg : Config) (m : FileMeta) (d : Disk)
    → d.faults ≡ []
    → (d' : Disk) × (save cfg m d ≡ (true, d'))
      × (d'.faults ≡ [])
      × (d'.files (meta_path cfg m.path_id) ≡ some (meta_text m))
      × ((q : Str) → str_eq (meta_path cfg m.path_id) q ≡ false → d'.files q ≡ d.files q)
unfolding save
save-calm cfg m d calm = replace_text-calm (meta_path cfg m.path_id) (meta_text m) d calm

-- `load` of a file that holds what `save` writes.
pub load-meta_text :
    (cfg : Config) (id : Str) (m old : FileMeta) (d : Disk)
    → d.faults ≡ []
    → MetaFits m
    → d.files (meta_path cfg id) ≡ some (meta_text m)
    → load cfg id old d ≡ (ok (true, m), d)
unfolding load
load-meta_text cfg id m old d calm f there =
    rw
      (
        open_read-calm (meta_path cfg id) (meta_text m) d calm there,
        words-meta_text m f,
        set_fields-fields m old f,
      )
      refl

-- Where the disk meets no fault, metadata whose fields fit their types and whose names are words is
-- saved: `load` then gives it back, whatever `out` held, and no other file has changed.
pub load-save :
    (cfg : Config) (m old : FileMeta) (d : Disk)
    → d.faults ≡ []
    → MetaFits m
    → (d' : Disk) × (save cfg m d ≡ (true, d'))
      × (load cfg m.path_id old d' ≡ (ok (true, m), d'))
      × (d'.faults ≡ [])
      × ((q : Str) → str_eq (meta_path cfg m.path_id) q ≡ false → d'.files q ≡ d.files q)
load-save cfg m old d calm f =
    let (d', wrote, calm', there, others) = save-calm cfg m d calm in
    (d', wrote, load-meta_text cfg m.path_id m old d' calm' f there, calm', others)
