-- ===== src/MetaText/Words.antt =====
-- The words of a text.
use crunch_fs.Base.{
  ℕ, suc, ◌≤◌, ◌≡◌, refl, ap, ◌∙◌, true, false, List, [], ◌∷◌, ◌++◌, append_assoc, length, All, Str,
  arith,
}
use crunch_fs.Base.Int.{ℤ, pos, negsuc}
use crunch_fs.Numerals.{print, print_signed}
use crunch_fs.Numerals.RoundTrip.{IsBase, IsDigit, print-IsDigit, print_long, ten}
use crunch_fs.Passthrough.Index.{newline}
use crunch_fs.MetaText.{is_space, split_words, word_first, words, line, text_of}

-- A word: some bytes, none of them white space.
pub record IsWord (w : Str) : Type 0 where
  pub long : 1 ≤ length w
  pub solid : All (λ c. is_space c ≡ false) w

-- White space ends a word.
split_words-append :
    (w : Str) (sp : ℕ) (s : Str)
    → All (λ c. is_space c ≡ false) w
    → is_space sp ≡ true
    → split_words (w ++ sp ∷ s) ≡ (w, words s)
unfolding split_words words
split_words-append [] sp s h space = rw space refl
split_words-append (c ∷ w) sp s (solid, h) space =
    rw (split_words-append w sp s h space, solid) refl

word_first_long : (w : Str) (ws : List Str) → 1 ≤ length w → word_first w ws ≡ w ∷ ws
word_first_long [] ws h = absurd (omega arith)
word_first_long (c ∷ w) ws h = refl

words_of_word :
    (w : Str) (sp : ℕ) (s : Str) → IsWord w → is_space sp ≡ true → words (w ++ sp ∷ s) ≡ w ∷ words s
unfolding words
words_of_word w sp s h space =
    rw (split_words-append w sp s h.solid space) (word_first_long w (words s) h.long)

-- A line gives its two words.
pub words-line :
    (key val s : Str) → IsWord key → IsWord val → words (line key val ++ s) ≡ key ∷ val ∷ words s
words-line key val s k v =
    let e : line key val ++ s ≡ key ++ 32 ∷ (val ++ newline ∷ s) =
      append_assoc (key ++ 32 ∷ val) (newline ∷ []) s ∙ append_assoc key (32 ∷ val) (newline ∷ s) in
    rw (e, words_of_word key 32 (val ++ newline ∷ s) k refl)
      (ap (λ (ws : List Str). key ∷ ws) (words_of_word val newline s v refl))

-- Keys and values in the order of their lines.
unfoldable pub flat : List (Str × Str) → List Str
flat [] = []
flat ((key, val) ∷ rest) = key ∷ val ∷ flat rest

pub words-text_of :
    (kvs : List (Str × Str))
    → All (λ (key, val). IsWord key × IsWord val) kvs
    → words (text_of kvs) ≡ flat kvs
unfolding text_of flat words split_words
words-text_of [] h = refl
words-text_of ((key, val) ∷ rest) ((k, v), h) =
    words-line key val (text_of rest) k v
    ∙ ap (λ (ws : List Str). key ∷ val ∷ ws) (words-text_of rest h)

digits_solid :
    (base : ℕ) (s : Str) → base ≤ 10 → All (IsDigit base) s → All (λ c. is_space c ≡ false) s
digits_solid base [] small h = tt
digits_solid base (c ∷ s) small ((lo, hi), h) = (ground arith, digits_solid base s small h)

pub print-IsWord : (base : ℕ) → IsBase base → base ≤ 10 → (n : ℕ) → IsWord (print base n)
print-IsWord base b small n = record {
  long = print_long base b n;
  solid = digits_solid base (print base n) small (print-IsDigit base b n);
}

pub print_signed-IsWord : (t : ℤ) → IsWord (print_signed t)
unfolding print_signed
print_signed-IsWord (pos n) = print-IsWord 10 ten (omega arith) n
print_signed-IsWord (negsuc n) =
    let w = print-IsWord 10 ten (omega arith) (suc n) in
    record { long = omega arith; solid = (refl, w.solid) }
