-- ===== src/MetaText.antt =====
-- src/metadata.cpp, src/metadata.hpp: the metadata of a file as a text of keys and values.
pub mod Words
use Prim.Native.Nat.{bit_xor}
use mathlib.Core.List.{map}
use crunch_fs.Base.{
  ℕ, ◌+◌, ◌*◌, ◌%◌, Bool, true, false, ◌||◌, ◌&&◌, leb, List, [], ◌∷◌, ◌++◌, if◌then◌else◌, ◌==◌,
  Str, str_eq, codes, Result, ok, err, thrown, Option, none, some,
}
use crunch_fs.Base.{◌>>=◌ as then_result}
use crunch_fs.Base.Bytes.{Bytes, u32_mod, u64_mod}
use crunch_fs.Base.Int.{ℤ, pos}
use crunch_fs.Disk.{Disk, open_read, open_trunc, write, close, exists}
use crunch_fs.Disk.{remove as remove_file}
use crunch_fs.Passthrough.Layout.{Config, meta_dir, index_path}
use crunch_fs.Passthrough.Index.{newline, lines}
use crunch_fs.Hex.{hex16}
use crunch_fs.Numerals.{print, stoull, print_signed, stoll}

pub record FileMeta : Type 0 where
  pub path_id : Str
  pub logical_path : Str
  pub logical_size : ℕ
  pub compressed_size : ℕ
  pub chunk_size : ℕ
  pub n_chunks : ℕ
  pub atime : ℤ
  pub mtime : ℤ
  pub ctime : ℤ
  pub mode : ℕ

-- `FileMeta m;`
abbrev pub default_meta : FileMeta
default_meta = record {
  path_id = [];
  logical_path = [];
  logical_size = 0;
  compressed_size = 0;
  chunk_size = 0;
  n_chunks = 0;
  atime = pos 0;
  mtime = pos 0;
  ctime = pos 0;
  mode = 420;
}

-- `isspace` in the "C" locale.
abbrev pub is_space : ℕ → Bool
is_space c = c == 32 || (leb 9 c && leb c 13)

abbrev pub word_first : Str → List Str → List Str
word_first [] ws = ws
word_first (c ∷ w) ws = (c ∷ w) ∷ ws

-- The word at the front of a text, and the words behind it.
unfoldable pub split_words : Bytes → Str × List Str
split_words [] = ([], [])
split_words (c ∷ s) =
    let (w, ws) = split_words s in if is_space c then ([], word_first w ws) else (c ∷ w, ws)

-- What `f >> word` reads, again and again.
unfoldable pub words : Bytes → List Str
words s = let (w, ws) = split_words s in word_first w ws

abbrev to_count : Str → (ℕ → FileMeta) → Result FileMeta
to_count val f = then_result (stoull 10 val) λ n. ok (f n)

abbrev to_time : Str → (ℤ → FileMeta) → Result FileMeta
to_time val f = then_result (stoll val) λ t. ok (f t)

-- One turn of the loop of `load`.
unfoldable pub set_field : Str → Str → FileMeta → Result FileMeta
set_field key val m =
    if str_eq key (codes "logical_path")
    then ok (record m { logical_path = val })
    else if str_eq key (codes "path_id")
    then ok (record m { path_id = val })
    else if str_eq key (codes "logical_size")
    then to_count val (λ n. record m { logical_size = n })
    else if str_eq key (codes "comp_size")
    then to_count val (λ n. record m { compressed_size = n })
    else if str_eq key (codes "chunk_size")
    then to_count val (λ n. record m { chunk_size = n })
    else if str_eq key (codes "n_chunks")
    then to_count val (λ n. record m { n_chunks = n })
    else if str_eq key (codes "atime")
    then to_time val (λ t. record m { atime = t })
    else if str_eq key (codes "mtime")
    then to_time val (λ t. record m { mtime = t })
    else if str_eq key (codes "ctime")
    then to_time val (λ t. record m { ctime = t })
    else if str_eq key (codes "mode")
    then then_result (stoull 8 val) (λ n. ok (record m { mode = n % u32_mod }))
    else ok m

unfoldable pub set_fields : List Str → FileMeta → Result FileMeta
set_fields [] m = ok m
set_fields (key ∷ []) m = ok m
set_fields (key ∷ val ∷ rest) m = then_result (set_field key val m) (set_fields rest)

abbrev pub line : Str → Str → Bytes
line key val = key ++ 32 ∷ val ++ newline ∷ []

-- What `save` writes: keys and values, one pair on a line.
unfoldable pub fields : FileMeta → List (Str × Str)
fields m =
    (codes "path_id", m.path_id)
    ∷ (codes "logical_path", m.logical_path)
    ∷ (codes "logical_size", print 10 m.logical_size)
    ∷ (codes "comp_size", print 10 m.compressed_size)
    ∷ (codes "chunk_size", print 10 m.chunk_size)
    ∷ (codes "n_chunks", print 10 m.n_chunks)
    ∷ (codes "atime", print_signed m.atime)
    ∷ (codes "mtime", print_signed m.mtime)
    ∷ (codes "ctime", print_signed m.ctime)
    ∷ (codes "mode", print 8 m.mode)
    ∷ []

unfoldable pub text_of : List (Str × Str) → Bytes
text_of [] = []
text_of ((key, val) ∷ rest) = line key val ++ text_of rest

unfoldable pub meta_text : FileMeta → Bytes
meta_text m = text_of (fields m)
