-- ===== src/Passthrough/Layout/Apart.antt =====
-- The metadata file, the data file and the index have different names, and so have the temporary
-- files beside them.
use crunch_fs.Base.{
  ◌≡◌, refl, ◌∙◌, ap, false, [], ◌++◌, append_assoc, append-nil, sym, Str, codes, str_eq,
  str_eq-front, str_eq-append_longer, arith,
}
use crunch_fs.Passthrough.Layout.{
  Config, crunch_root, meta_dir, data_dir, index_path, tmp, meta_path_for_id, data_path_for_id,
}

-- The name begins with `front`.
abbrev pub Under : Str → Str → Type 0
Under front p = (rest : Str) × (p ≡ front ++ rest)

pub tmp-Under : (front : Str) {p : Str} → Under front p → Under front (tmp p)
tmp-Under front (rest, e) = (
  rest ++ codes ".tmp",
  ap (λ (t : Str). t ++ codes ".tmp") e ∙ append_assoc front rest (codes ".tmp"),
)

pub Under-self : (p : Str) → Under p p
Under-self p = ([], sym (append-nil p))

pub tmp_ne : (p : Str) → str_eq p (tmp p) ≡ false
tmp_ne p = (str_eq-append_longer p (codes ".tmp") (omega arith)).1

module _ (cfg : Config) where
  pub meta-Under : (id : Str) → Under (meta_dir cfg) (meta_path_for_id cfg id)
  unfolding meta_path_for_id
  meta-Under id = (codes "/" ++ (id ++ codes ".meta"), simp append_assoc)

  pub data-Under : (id : Str) → Under (data_dir cfg) (data_path_for_id cfg id)
  unfolding data_path_for_id
  data-Under id = (codes "/" ++ (id ++ codes ".dat"), simp append_assoc)

  pub meta_ne_data :
      {p q : Str} → Under (meta_dir cfg) p → Under (data_dir cfg) q → str_eq p q ≡ false
  unfolding meta_dir data_dir str_eq
  meta_ne_data (x, e) (y, e') =
      rw (e, e') (str_eq-front (crunch_root cfg) (codes "/meta") (codes "/data") x y (λ u v. refl))

  pub index_ne_meta :
      {p q : Str} → Under (index_path cfg) p → Under (meta_dir cfg) q → str_eq p q ≡ false
  unfolding meta_dir index_path str_eq
  index_ne_meta (x, e) (y, e') =
      rw (e, e')
        (str_eq-front (crunch_root cfg) (codes "/index.txt") (codes "/meta") x y (λ u v. refl))

  pub index_ne_data :
      {p q : Str} → Under (index_path cfg) p → Under (data_dir cfg) q → str_eq p q ≡ false
  unfolding data_dir index_path str_eq
  index_ne_data (x, e) (y, e') =
      rw (e, e')
        (str_eq-front (crunch_root cfg) (codes "/index.txt") (codes "/data") x y (λ u v. refl))
