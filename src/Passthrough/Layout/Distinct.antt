-- ===== src/Passthrough/Layout/Distinct.antt =====
-- Paths with different hashes have different files.
use crunch_fs.Base.{
  ℕ, ◌+◌, ◌<◌, ◌^◌, ◌≡◌, ◌≢◌, refl, sym, ap, ◌∙◌, false, ◌++◌, length, length-append, take, drop,
  take-append_seam, drop-append_seam, Str, codes, str_eq, str_eq_ne, arith,
}
use crunch_fs.Hex.{length-hex16, hex16-injective}
use crunch_fs.Passthrough.Layout.{
  Config, meta_dir, data_dir, tmp, file_id_from_path, meta_path_for_id, data_path_for_id,
  meta_path_for_fuse_path, data_path_for_fuse_path,
}

middle_eq : (p a b s : Str) → length a ≡ length b → p ++ a ++ s ≡ p ++ b ++ s → a ≡ b
middle_eq p a b s h e =
    let n = length p + length a in
    let fronts : p ++ a ≡ p ++ b =
      sym (take-append_seam n (p ++ a) s (length-append p a))
      ∙ ap (λ (t : Str). take n t) e
      ∙ take-append_seam n (p ++ b) s (omega (arith, length-append p b)) in
    sym (drop-append_seam (length p) p a refl)
    ∙ ap (λ (t : Str). drop (length p) t) fronts
    ∙ drop-append_seam (length p) p b refl

-- Names that are built alike around parts of the same length.
module _ (p s a b : Str) (same : length a ≡ length b) where
  built_ne : a ≢ b → str_eq (p ++ a ++ s) (p ++ b ++ s) ≡ false
  built_ne ne = str_eq_ne _ _ (λ e. ne (middle_eq p a b s same e))

  tmp_built_ne : str_eq (tmp (p ++ a ++ s)) (p ++ b ++ s) ≡ false
  tmp_built_ne = str_eq_ne _ _ (λ e. omega (
    arith,
    ap length e,
    length-append (p ++ a ++ s) (codes ".tmp"),
    length-append (p ++ a) s,
    length-append (p ++ b) s,
    length-append p a,
    length-append p b,
  ))

module _ (hash : Str → ℕ) (p q : Str) where
  same_length : length (file_id_from_path hash p) ≡ length (file_id_from_path hash q)
  unfolding file_id_from_path
  same_length = omega (arith, length-hex16 (hash p), length-hex16 (hash q))

  -- Paths with different 64-bit hashes have different ids, of the same length.
  pub file_id_ne :
      hash p < 2 ^ 64
      → hash q < 2 ^ 64
      → hash p ≢ hash q
      → (file_id_from_path hash p ≢ file_id_from_path hash q)
        × (length (file_id_from_path hash p) ≡ length (file_id_from_path hash q))
  unfolding file_id_from_path
  file_id_ne small small' ne =
      (λ e. ne (hex16-injective (hash p) (hash q) small small' e), same_length)

module _ (hash : Str → ℕ) (cfg : Config) (p q : Str) where
  module _ (ne : file_id_from_path hash p ≢ file_id_from_path hash q) where
    pub meta_path_ne :
        str_eq (meta_path_for_fuse_path hash cfg p) (meta_path_for_fuse_path hash cfg q) ≡ false
    unfolding meta_path_for_fuse_path meta_path_for_id
    meta_path_ne =
        built_ne (meta_dir cfg ++ codes "/") (codes ".meta") _ _ (same_length hash p q) ne

    pub data_path_ne :
        str_eq (data_path_for_fuse_path hash cfg p) (data_path_for_fuse_path hash cfg q) ≡ false
    unfolding data_path_for_fuse_path data_path_for_id
    data_path_ne = built_ne (data_dir cfg ++ codes "/") (codes ".dat") _ _ (same_length hash p q) ne

  pub tmp_meta_path_ne :
      str_eq (tmp (meta_path_for_fuse_path hash cfg p)) (meta_path_for_fuse_path hash cfg q) ≡ false
  unfolding meta_path_for_fuse_path meta_path_for_id
  tmp_meta_path_ne =
      tmp_built_ne (meta_dir cfg ++ codes "/") (codes ".meta") _ _ (same_length hash p q)

  pub tmp_data_path_ne :
      str_eq (tmp (data_path_for_fuse_path hash cfg p)) (data_path_for_fuse_path hash cfg q) ≡ false
  unfolding data_path_for_fuse_path data_path_for_id
  tmp_data_path_ne =
      tmp_built_ne (data_dir cfg ++ codes "/") (codes ".dat") _ _ (same_length hash p q)
