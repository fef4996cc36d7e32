-- ===== src/Tests/Meta.antt =====
-- The metadata format, and the tables that fill it.
use crunch_fs.Base.{◌≡◌, refl, List, [], ◌∷◌, ◌++◌, concat, ok, arith, take, drop, replicate}
use crunch_fs.Base.Bytes.{Bytes}
use crunch_fs.Zstd.Stored.{stored}
use crunch_fs.Compresslib.{decompress_chunk}
use crunch_fs.Compresslib.Chunks.{Encodes}
use crunch_fs.Passthrough.Meta.{meta_fields, parse_meta}
use crunch_fs.Passthrough.Meta.RoundTrip.{MetaFits, parse_meta-meta_fields}
use crunch_fs.Passthrough.Files.Saved.{table}
use crunch_fs.Passthrough.Files.Table.{table-MetaFits}
use crunch_fs.Tests.{hello}

abbrev packed : List Bytes
packed = (b'Z' ∷ hello) ∷ []

packed-Encodes : Encodes stored packed hello
unfolding decompress_chunk take drop replicate
packed-Encodes = (omega arith, omega arith, omega arith, refl, refl)

table-MetaFits_example : MetaFits (table hello packed)
table-MetaFits_example = table-MetaFits stored packed hello packed-Encodes (omega arith)

parse_meta-meta_fields_example :
    parse_meta (concat (meta_fields (table hello packed)) ++ 9 ∷ []) ≡ ok (table hello packed)
parse_meta-meta_fields_example =
    parse_meta-meta_fields (table hello packed) (9 ∷ []) table-MetaFits_example
