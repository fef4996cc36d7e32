-- ===== src/HelloFs/Reads.antt =====
-- What a read of the file gives.
use crunch_fs.Base.{
  ℕ, ◌+◌, ◌<◌, min, ◌≡◌, refl, ap, ◌∙◌, sym, [], length, take, drop, take-all, drop-all,
  length-take, length-drop, take-min-length, str_eq_refl, leb, Bool-cases, inl, inr, arith,
}
use crunch_fs.Base.Bytes.{u64_mod}
use crunch_fs.Base.Int.{to_int}
use crunch_fs.HelloFs.{hello_path, hello_str, limited, cfs_read}

-- A read with an end below 2^64 gives the bytes of the text from the offset on, as many as asked for or as
-- there are, and returns their number.
pub cfs_read-hello :
    (size offset : ℕ)
    → offset + size < u64_mod
    → cfs_read hello_path size offset
      ≡ (to_int (length (take size (drop offset hello_str))), take size (drop offset hello_str))
unfolding cfs_read to_int
cfs_read-hello size offset fits =
    let len : length hello_str ≡ 14 = refl in
    let n = limited size offset in
    let found = str_eq_refl hello_path in
    elim (Bool-cases (leb (length hello_str) offset)) [
      | inl e ↦
          let nothing : take size (drop offset hello_str) ≡ [] =
            ap (take size) (drop-all offset hello_str (ground arith))
            ∙ take-all size [] (omega arith) in
          rw (found, e, nothing) refl
      | inr e ↦
          let least : min n (length (drop offset hello_str))
              ≡ min size (length (drop offset hello_str)) =
            ground (arith, length-drop offset hello_str) in
          let part : take n (drop offset hello_str) ≡ take size (drop offset hello_str) =
            sym (take-min-length n (drop offset hello_str))
            ∙ ap (λ (k : ℕ). take k (drop offset hello_str)) least
            ∙ take-min-length size (drop offset hello_str) in
          let count : n ≡ length (take size (drop offset hello_str)) =
            ground
              (arith, length-take size (drop offset hello_str), length-drop offset hello_str) in
          rw (found, e, part, count) refl
    ]
