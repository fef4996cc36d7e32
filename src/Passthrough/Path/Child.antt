-- ===== src/Passthrough/Path/Child.antt =====
-- `path_is_direct_child` by the names of the two paths.
use crunch_fs.Base.{
  ℕ, ◌≡◌, refl, ap, ◌∙◌, sym, Bool, true, false, Option, none, some, List, [], ◌∷◌, ◌++◌,
  append_assoc, All, length, drop, Str, str_eq, str_eq_refl, str_eq→eq, ◌==◌, if◌then◌else◌,
  Bool-cases, inl, inr, arith,
}
use crunch_fs.Passthrough.Path.{slash, root, starts_with, cut_at_slash, named, path_is_direct_child}
use crunch_fs.Passthrough.Path.Normal.{
  components, render, slashed, HasNoSlash, IsName, no_slash, components-IsName, components-render,
  normalize_path-render,
}

-- The name behind those of the directory, and whether other names follow it.
pub child : List Str → List Str → Option (Str × Bool)
child ps [] = none
child [] (c ∷ []) = some (c, false)
child [] (c ∷ d ∷ cs) = some (c, true)
child (p ∷ ps) (c ∷ cs) = let rest = child ps cs in if str_eq p c then rest else none

-- The end of `path_is_direct_child`.
look : Str → Str → Option (Str × Bool)
look prefix c = if starts_with prefix c then named (cut_at_slash (drop (length prefix) c)) else none

pre : List Str → Str
pre ps = slashed ps ++ root

look-cons : (a b : ℕ) (p s : Str) → look (a ∷ p) (b ∷ s) ≡ (if a == b then look p s else none)
unfolding look starts_with drop
look-cons a b p s = elim (Bool-cases (a == b)) [ inl e ↦ rw e refl | inr e ↦ rw e refl ]

no_slash_first : (b : ℕ) → (b == slash) ≡ false → (slash == b) ≡ false
no_slash_first b h = ground arith

look-name :
    (a b : Str) (ps cs : List Str)
    → HasNoSlash a
    → HasNoSlash b
    → look (a ++ pre ps) (b ++ slashed cs)
      ≡ (if str_eq a b then look (pre ps) (slashed cs) else none)
unfolding str_eq
look-name [] [] ps cs h k = refl
look-name [] (b ∷ bs) [] cs h (k, _) =
    unfold pre slashed in look-cons slash b [] (bs ++ slashed cs) ∙ rw (no_slash_first b k) refl
look-name [] (b ∷ bs) (p ∷ ps) cs h (k, _) =
    unfold pre slashed in
    look-cons slash b ((p ++ slashed ps) ++ root) (bs ++ slashed cs) ∙ rw (no_slash_first b k) refl
look-name (a ∷ as_) [] ps [] (h, _) k = unfold look slashed starts_with in refl
look-name (a ∷ as_) [] ps (c ∷ cs) (h, _) k =
    unfold slashed in look-cons a slash (as_ ++ pre ps) (c ++ slashed cs) ∙ rw h refl
look-name (a ∷ as_) (b ∷ bs) ps cs (_, hs) (_, ks) =
    look-cons a b (as_ ++ pre ps) (bs ++ slashed cs)
    ∙ elim (Bool-cases (a == b)) [ inl e ↦ rw e (look-name as_ bs ps cs hs ks) | inr e ↦ rw e refl ]

is_more : List Str → Bool
is_more [] = false
is_more (c ∷ cs) = true

cut_at_slash-name :
    (c : Str) (cs : List Str) → HasNoSlash c → cut_at_slash (c ++ slashed cs) ≡ (c, is_more cs)
unfolding cut_at_slash slashed is_more
cut_at_slash-name [] [] h = refl
cut_at_slash-name [] (d ∷ cs) h = refl
cut_at_slash-name (x ∷ c) cs (h, hs) = rw (cut_at_slash-name c cs hs, h) refl

look-slash :
    (p c : Str) (ps cs : List Str)
    → look (pre (p ∷ ps)) (slashed (c ∷ cs)) ≡ look (p ++ pre ps) (c ++ slashed cs)
unfolding pre slashed
look-slash p c ps cs =
    look-cons slash slash ((p ++ slashed ps) ++ root) (c ++ slashed cs)
    ∙ ap (λ s. look s (c ++ slashed cs)) (append_assoc p (slashed ps) root)

look-names :
    (ps cs : List Str) → All IsName ps → All IsName cs → look (pre ps) (slashed cs) ≡ child ps cs
unfolding named is_more
look-names [] [] h k = unfold look pre slashed starts_with child in refl
look-names (p ∷ ps) [] h k = unfold look pre slashed starts_with child in refl
look-names [] ([] ∷ cs) h (k, ks) = absurd k
look-names [] ((x ∷ c) ∷ []) h (k, ks) =
    unfold look pre slashed starts_with drop child in rw (cut_at_slash-name (x ∷ c) [] k) refl
look-names [] ((x ∷ c) ∷ d ∷ cs) h (k, ks) =
    unfold look pre slashed starts_with drop child in rw (cut_at_slash-name (x ∷ c) (d ∷ cs) k) refl
look-names (p ∷ ps) (c ∷ cs) (h, hs) (k, ks) =
    look-slash p c ps cs
    ∙ look-name p c ps cs (no_slash p h) (no_slash c k)
    ∙ rw (look-names ps cs hs ks) (unfold child in refl)

child_self : (ps : List Str) → child ps ps ≡ none
unfolding child
child_self [] = refl
child_self (p ∷ ps) = rw (str_eq_refl p) (child_self ps)

prefix-pre :
    (ps : List Str)
    → All IsName ps
    → (if str_eq (render ps) root then root else render ps ++ root) ≡ pre ps
unfolding render pre slashed str_eq
prefix-pre [] h = refl
prefix-pre ([] ∷ ps) (h, hs) = absurd h
prefix-pre ((x ∷ p) ∷ ps) h = refl

look-render :
    (ps cs : List Str)
    → All IsName ps
    → All IsName cs
    → str_eq (render ps) (render cs) ≡ false
    → look (pre ps) (render cs) ≡ child ps cs
look-render [] [] h k ne = absurd (cc (sym (str_eq_refl (render [])) ∙ ne))
look-render ([] ∷ ps) [] (h, _) k ne = absurd h
look-render ((x ∷ p) ∷ ps) [] h k ne = unfold look pre slashed render starts_with child in refl
look-render ps (c ∷ cs) h k ne = unfold render in look-names ps (c ∷ cs) h k

-- A path is found below a directory exactly when its names are those of the directory and more: the
-- first of these is its name there, and it is a directory if others follow.
pub path_is_direct_child_lem :
    (parent path : Str)
    → path_is_direct_child parent path ≡ child (components parent) (components path)
unfolding path_is_direct_child pre look
path_is_direct_child_lem parent path =
    let ps = components parent in
    let cs = components path in
    let h = components-IsName parent in
    let k = components-IsName path in
    rw (normalize_path-render parent, normalize_path-render path, prefix-pre ps h)
      (elim (Bool-cases (str_eq (render ps) (render cs))) [
        | inl same ↦
            let e : ps ≡ cs =
              sym (components-render ps h)
              ∙ ap components (str_eq→eq (render ps) (render cs) same)
              ∙ components-render cs k in
            rw same (sym (rw (sym e) (child_self ps)))
        | inr ne ↦ rw ne (look-render ps cs h k ne)
      ])
