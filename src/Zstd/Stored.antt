-- ===== src/Zstd/Stored.antt =====
-- A codec that stores its input behind a mark byte: it meets `ZstdLaws`, and runs in tests.
use crunch_fs.Base.{
  ℕ, ◌+◌, ◌≤◌, ◌≡◌, Option, none, some, [], ◌∷◌, arith, length, leb, if◌then◌else◌,
}
use crunch_fs.Base.Bytes.{Bytes}
use crunch_fs.Zstd.Defs.{Zstd, ZstdLaws}

abbrev pack : ℕ → Bytes → ℕ → Option Bytes
pack cap x level = if leb (length x + 1) cap then some (b'Z' ∷ x) else none

abbrev unpack : ℕ → Bytes → Option Bytes
unpack room [] = none
unpack room (m ∷ x) = if leb (length x) room then some x else none

abbrev packed_size : Bytes → Option ℕ
packed_size [] = none
packed_size (m ∷ x) = some (length x)

abbrev pub stored : Zstd
stored = record {
  compress_bound = λ n. n + 1;
  compress = pack;
  decompress = unpack;
  frame_content_size = packed_size;
}

pack-eq :
    (cap level : ℕ) (x c : Bytes)
    → pack cap x level ≡ some c
    → (c ≡ b'Z' ∷ x) × (length x + 1 ≤ cap)
pack-eq cap level x c h = ground arith

pub stored-ZstdLaws : ZstdLaws stored
stored-ZstdLaws = record {
  bound_formula = λ n. omega arith;
  compress_fits = λ cap level x h. (b'Z' ∷ x, ground arith);
  frame_size = λ cap level x c h. let (e, k) = pack-eq cap level x c h in rw e (omega arith);
  content_size = λ cap level x c h. rw (pack-eq cap level x c h).0;
  decompress_frame = λ cap level room x c h k. rw (pack-eq cap level x c h).0 (ground arith);
}
