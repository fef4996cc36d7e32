-- ===== src/ChunkStore/Paths.antt =====
-- The chunk files of one file have different names.
use crunch_fs.Base.{
  ℕ, ◌<◌, ◌≡◌, ◌≢◌, refl, sym, ap, ◌∙◌, false, ◌++◌, append_assoc, length, length-append, take,
  take-append_seam, Str, codes, str_eq, str_eq-append, str_eq-fronts, str_eq_ne, arith,
}
use crunch_fs.Base.Bytes.{u64_mod}
use crunch_fs.Passthrough.Layout.{Config, data_dir}
use crunch_fs.Passthrough.Layout.Apart.{Under}
use crunch_fs.Numerals.{print}
use crunch_fs.Numerals.RoundTrip.{ten, print-injective}
use crunch_fs.ChunkStore.{chunk_path}

append-cancel_right : (a b c : Str) → a ++ c ≡ b ++ c → a ≡ b
append-cancel_right a b c e =
    let same : length a ≡ length b =
      omega (arith, ap length e, length-append a c, length-append b c) in
    sym (take-append_seam (length a) a c refl)
    ∙ ap (take (length a)) e
    ∙ take-append_seam (length a) b c (sym same)

module _ (cfg : Config) (id : Str) where
  pub chunk-Under : (i : ℕ) → Under (data_dir cfg) (chunk_path cfg id i)
  unfolding chunk_path
  chunk-Under i =
      (codes "/" ++ (id ++ (codes "_" ++ (print 10 i ++ codes ".dat"))), simp append_assoc)

  -- The name is a common front with the print of the index and the ending.
  split :
      (i : ℕ)
      → chunk_path cfg id i
        ≡ (data_dir cfg ++ codes "/" ++ id ++ codes "_") ++ (print 10 i ++ codes ".dat")
  unfolding chunk_path
  split i = append_assoc (data_dir cfg ++ codes "/" ++ id ++ codes "_") (print 10 i) (codes ".dat")

  pub chunk_path_ne :
      (i j : ℕ)
      → i < u64_mod
      → j < u64_mod
      → i ≢ j
      → str_eq (chunk_path cfg id i) (chunk_path cfg id j) ≡ false
  chunk_path_ne i j small small' ne =
      rw (split i, split j, str_eq-append)
        (str_eq_ne _ _ (λ e. ne (
          print-injective 10 ten i j small small'
            (append-cancel_right (print 10 i) (print 10 j) (codes ".dat") e))))

-- The chunks of files with different ids of one length.
pub chunk_path-apart :
    (cfg : Config) (id id' : Str) (i j : ℕ)
    → length id ≡ length id'
    → str_eq id id' ≡ false
    → str_eq (chunk_path cfg id i) (chunk_path cfg id' j) ≡ false
chunk_path-apart cfg id id' i j len ne =
    let d = data_dir cfg ++ codes "/" in
    let e = λ (x : Str) (k : ℕ).
      split cfg x k
      ∙ append_assoc (d ++ x) (codes "_") (print 10 k ++ codes ".dat")
      ∙ append_assoc d x (codes "_" ++ (print 10 k ++ codes ".dat")) in
    rw (e id i, e id' j, str_eq-append) (str_eq-fronts id id' _ _ len ne)
