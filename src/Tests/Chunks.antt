-- ===== src/Tests/Chunks.antt =====
-- src/conpresslib.cpp.
use crunch_fs.Base.{
  ◌+◌, ◌/◌, ◌≡◌, refl, List, [], ◌∷◌, length, take, drop, replicate, ok, err, undefined, arith,
}
use crunch_fs.Base.Bytes.{Bytes}
use crunch_fs.Zstd.Stored.{stored, stored-ZstdLaws}
use crunch_fs.Compresslib.{chunk_size, compress_file_chunks, decompress_file_chunks}
use crunch_fs.Compresslib.RoundTrip.{decompress-compress}
use crunch_fs.Tests.{hello}

decompress-compress_example :
    (cs : List Bytes) × (compress_file_chunks stored hello 0 ≡ ok cs)
    × (length cs ≡ (length hello + 4095) / chunk_size)
    × (decompress_file_chunks stored cs 1 3 ≡ ok (take 3 (drop 1 hello)))
decompress-compress_example =
    decompress-compress stored stored-ZstdLaws hello 1 3 (omega arith) (omega arith) (omega arith)

-- From an offset behind the end of the first chunk the iterators leave it.
offset_behind_chunk : decompress_file_chunks stored ((b'Z' ∷ hello) ∷ []) 9 2 ≡ err undefined
unfolding decompress_file_chunks replicate take drop
offset_behind_chunk = refl
