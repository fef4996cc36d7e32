-- ===== src/Disk/Staged.antt =====
-- A file that is written under a temporary name and then renamed: until the rename, and wherever a
-- step fails, no other file changes.
use crunch_fs.Base.{
  ◌≡◌, refl, none, some, List, [], ◌∷◌, ◌++◌, append-nil, append_assoc, false, concat, Str, str_eq,
  str_eq_refl,
}
use crunch_fs.Base.Bytes.{Bytes}
use crunch_fs.Disk.{Disk, ◌>>◌, open_trunc, write, write_all, close, rename}
use crunch_fs.Disk.Ends.{Ends, Ends-then, Ends-attempt}

-- Only the file `t` may differ from the disk `d₀`.
pub record Untouched (d₀ : Disk) (t : Str) (d : Disk) : Type 0 where
  pub others : (q : Str) → str_eq t q ≡ false → d.files q ≡ d₀.files q

pub record Staged (d₀ : Disk) (t : Str) (b : Bytes) (d : Disk) : Type 0 where
  pub written : d.files t ≡ some b
  pub others : (q : Str) → str_eq t q ≡ false → d.files q ≡ d₀.files q

-- The file `t` has taken the name `p`, and no other file has changed.
pub record Moved (d₀ : Disk) (t p : Str) (b : Bytes) (d : Disk) : Type 0 where
  pub written : d.files p ≡ some b
  pub gone : d.files t ≡ none
  pub others : (q : Str) → str_eq t q ≡ false → str_eq p q ≡ false → d.files q ≡ d₀.files q

module _ (d₀ : Disk) (t : Str) where
  pub open_trunc-Staged :
      (d : Disk) → Untouched d₀ t d → Ends (λ _. Staged d₀ t []) (Untouched d₀ t) (open_trunc t d)
  unfolding open_trunc
  open_trunc-Staged d h =
      Ends-attempt _ _ _ _ d
        (λ fs. record { written = rw (str_eq_refl t); others = λ q ne. rw ne (h.others q ne) })
        (λ n fs. record { others = h.others })

  pub write-Staged :
      (x b : Bytes) (d : Disk)
      → Staged d₀ t x d
      → Ends (λ _. Staged d₀ t (x ++ b)) (Untouched d₀ t) (write t b d)
  unfolding write
  write-Staged x b d h =
      Ends-attempt _ _ _ _ d
        (λ fs. record {
          written = rw (str_eq_refl t, h.written);
          others = λ q ne. rw ne (h.others q ne);
        })
        (λ n fs. record { others = λ q ne. rw ne (h.others q ne) })

  pub write_all-Staged :
      (x : Bytes) (bs : List Bytes) (d : Disk)
      → Staged d₀ t x d
      → Ends (λ _. Staged d₀ t (x ++ concat bs)) (Untouched d₀ t) (write_all t bs d)
  unfolding write_all concat
  write_all-Staged x [] d h = rw append-nil h
  write_all-Staged x (b ∷ bs) d h =
      Ends-then _ _ _ _ (write t b d) (λ _. write_all t bs) (write-Staged x b d h)
        (λ _ d' k. rw (← append_assoc) (write_all-Staged (x ++ b) bs d' k)) (λ d' k. k)

  pub close-Staged :
      (x : Bytes) (d : Disk)
      → Staged d₀ t x d
      → Ends (λ _. Staged d₀ t x) (Untouched d₀ t) (close t d)
  unfolding close
  close-Staged x d h =
      Ends-attempt _ _ _ _ d (λ fs. record { written = h.written; others = h.others })
        (λ n fs. record { others = λ q ne. rw ne (h.others q ne) })

  pub rename-Moved :
      (p : Str) (x : Bytes) (d : Disk)
      → str_eq p t ≡ false
      → Staged d₀ t x d
      → Ends (λ _. Moved d₀ t p x) (Untouched d₀ t) (rename t p d)
  unfolding rename
  rename-Moved p x d ne h =
      Ends-attempt _ _ _ _ d
        (λ fs. rw h.written (record {
          written = rw (str_eq_refl p);
          gone = rw (ne, str_eq_refl t);
          others = λ q ne_t ne_p. rw (ne_p, ne_t) (h.others q ne_t);
        }))
        (λ n fs. record { others = h.others })

-- The whole pattern: write a temporary file, close it, rename it.
pub replace-Moved :
    (d₀ : Disk) (t p : Str) (bs : List Bytes)
    → str_eq p t ≡ false
    → Ends
        (λ _. Moved d₀ t p (concat bs))
        (Untouched d₀ t)
        ((do open_trunc t; write_all t bs; close t; rename t p) d₀)
replace-Moved d₀ t p bs ne =
    Ends-then _ _ _ _ (open_trunc t d₀) _
      (open_trunc-Staged d₀ t d₀ (record { others = λ q ne'. refl }))
      (λ _ d opened.
        Ends-then _ _ _ _ (write_all t bs d) _ (write_all-Staged d₀ t [] bs d opened)
          (λ _ d' full.
            Ends-then _ _ _ _ (close t d') _ (close-Staged d₀ t (concat bs) d' full)
              (λ _ d'' closed. rename-Moved d₀ t p (concat bs) d'' ne closed) (λ d'' k. k))
          (λ d' k. k))
      (λ d k. k)
