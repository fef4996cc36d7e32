-- ===== src/FuseOps/Volume/Steps.antt =====
-- A callback on one file takes a mount that shows a tree to one that shows the next.
use mathlib.Core.Path.{subst, fun_ext}
use crunch_fs.Base.{
  ◌≡◌, refl, ap, ◌∙◌, sym, true, false, none, some, Option, [], length, Str, str_eq, str_eq_refl,
  str_eq→eq, str_eq_comm, Bool-cases, inl, inr, ◌⊎◌,
}
use crunch_fs.Zstd.{Zstd}
use crunch_fs.Passthrough.Layout.{Config, index_path}
use crunch_fs.Passthrough.Layout.Apart.{Under-self, meta_ne_data, index_ne_meta, index_ne_data}
use crunch_fs.MetaText.{FileMeta}
use crunch_fs.MetaStore.{find_id, meta_path}
use crunch_fs.MetaStore.Keys.{AreEntries}
use crunch_fs.MetaStore.Paths.{meta-Under, meta_path-apart}
use crunch_fs.MetaStore.Reloaded.{IsSaved}
use crunch_fs.ChunkStore.{chunk_path}
use crunch_fs.ChunkStore.Paths.{chunk-Under, chunk_path-apart}
use crunch_fs.FuseOps.Mount.{Mount}
use crunch_fs.FuseOps.Touches.{Beyond}
use crunch_fs.FuseOps.Calls.Files.{File, Stored-same}
use crunch_fs.FuseOps.Volume.{Node, Tree, set, Shown, Shows}

module _ (cfg : Config) (id : Str) where
  -- Another file, with an id of the same length, stays a file.
  pub Beyond-File :
      (z : Zstd) (q c : Str) (meta : FileMeta) (m m' : Mount)
      → m'.disk.faults ≡ []
      → Beyond cfg id m.disk m'.disk
      → length id ≡ length meta.path_id
      → str_eq id meta.path_id ≡ false
      → find_id q m'.index ≡ find_id q m.index
      → File z cfg q c meta m
      → File z cfg q c meta m'
  Beyond-File z q c meta m m' calm b len ne same f =
      let other = meta.path_id in
      let self = Under-self (index_path cfg) in
      record {
        found = same ∙ f.found;
        named = f.named;
        text =
            b.others (meta_path cfg other)
              (λ i lt.
                str_eq_comm (chunk_path cfg id i) (meta_path cfg other)
                ∙ meta_ne_data cfg (meta-Under cfg other) (chunk-Under cfg id i))
              (meta_path-apart cfg id other len ne) (index_ne_meta cfg self (meta-Under cfg other))
            ∙ f.text;
        fits = f.fits;
        size = f.size;
        stored =
            Stored-same z cfg other meta.n_chunks c m.disk m'.disk calm
              (λ j.
                b.others (chunk_path cfg other j) (λ i lt. chunk_path-apart cfg id other i j len ne)
                  (meta_ne_data cfg (meta-Under cfg id) (chunk-Under cfg other j))
                  (index_ne_data cfg self (chunk-Under cfg other j)))
              f.stored;
      }

not_both : (q r : Str) → q ≡ r → str_eq q r ≡ false → ⊥
not_both q r same ne = let e : str_eq q r ≡ true = ap (str_eq q) (sym same) ∙ str_eq_refl q in cc

pub Option-cases : {A : Type 0} (o : Option A) → (o ≡ none) ⊎ ((a : A) × (o ≡ some a))
Option-cases none = inl refl
Option-cases (some a) = inr (a, refl)

-- What is there already makes no change.
pub set_same : (t : Tree) (p : Str) (v : Option Node) → t p ≡ v → set t p v ≡ t
unfolding set
set_same t p v e = fun_ext (λ q. elim (Bool-cases (str_eq p q)) [
  | inl same ↦ rw same (sym e ∙ ap t (str_eq→eq p q same))
  | inr other ↦ rw other refl
])

-- What a path has after a change at `p`.
pub set-cases :
    (t : Tree) (p : Str) (v : Option Node) (q : Str) (o : Option Node)
    → set t p v q ≡ o
    → ((p ≡ q) × (v ≡ o)) ⊎ ((str_eq p q ≡ false) × (t q ≡ o))
unfolding set
set-cases t p v q o e = elim (Bool-cases (str_eq p q)) [
  | inl same ↦ inl (str_eq→eq p q same, sym (rw same refl) ∙ e)
  | inr other ↦ inr (other, sym (rw other refl) ∙ e)
]

module _ (z : Zstd) (cfg : Config) where
  -- What a change at `p`, of the file `id`, has to bring.
  pub record Changes (t : Tree) (p id : Str) (v : Option Node) (m m' : Mount) : Type 0 where
    pub calm : m'.disk.faults ≡ []
    pub frame : Beyond cfg id m.disk m'.disk
    pub sized : length id ≡ 16
    pub others : (q : Str) (a : Node) → str_eq p q ≡ false → t q ≡ some a → str_eq id a.id ≡ false
    pub lookups : (q : Str) → str_eq p q ≡ false → find_id q m'.index ≡ find_id q m.index
    pub new : (n : Node) → v ≡ some n → Shown z cfg p n m' × (n.id ≡ id)
    pub gone : v ≡ none → find_id p m'.index ≡ []
    pub entries : AreEntries m'.index
    pub saved : IsSaved cfg m'.index m'.disk

  Shown-kept :
      (t : Tree) (p id : Str) (v : Option Node) (m m' : Mount)
      → Shows z cfg t m
      → Changes t p id v m m'
      → (q : Str) (n : Node) → str_eq p q ≡ false
      → t q ≡ some n
      → Shown z cfg q n m'
  Shown-kept t p id v m m' s c q n other there =
      let old = s.shown q n there in
      let len : length id ≡ length old.meta.path_id =
        c.sized ∙ sym (s.sized q n there) ∙ ap length (sym old.own) in
      let ne : str_eq id old.meta.path_id ≡ false =
        ap (str_eq id) old.own ∙ c.others q n other there in
      record {
        meta = old.meta;
        file =
            Beyond-File cfg id z q n.bytes old.meta m m' c.calm c.frame len ne (c.lookups q other)
              old.file;
        own = old.own;
      }

  pub Changes-Shows :
      (t : Tree) (p id : Str) (v : Option Node) (m m' : Mount)
      → Shows z cfg t m
      → Changes t p id v m m'
      → Shows z cfg (set t p v) m'
  Changes-Shows t p id v m m' s c = record {
    calm = c.calm;
    shown = λ q n e. elim (set-cases t p v q (some n) e) [
      | inl (same, is) ↦ subst (λ r. Shown z cfg r n m') same (c.new n is).0
      | inr (other, there) ↦ Shown-kept t p id v m m' s c q n other there
    ];
    absent = λ q e. elim (set-cases t p v q none e) [
      | inl (same, is) ↦ subst (λ r. find_id r m'.index ≡ []) same (c.gone is)
      | inr (other, none_there) ↦ c.lookups q other ∙ s.absent q none_there
    ];
    apart = λ q r a b ea eb ne. elim (set-cases t p v q (some a) ea) [
      | inl (same, is) ↦ elim (set-cases t p v r (some b) eb) [
        | inl (same', is') ↦ absurd (not_both q r (sym same ∙ same') ne)
        | inr (other, there) ↦
            ap (λ (x : Str). str_eq x b.id) (c.new a is).1 ∙ c.others r b other there
      ]
      | inr (other, there) ↦ elim (set-cases t p v r (some b) eb) [
        | inl (same', is') ↦
            str_eq_comm a.id b.id
            ∙ ap (λ (x : Str). str_eq x a.id) (c.new b is').1
            ∙ c.others q a other there
        | inr (other', there') ↦ s.apart q r a b there there' ne
      ]
    ];
    sized = λ q n e. elim (set-cases t p v q (some n) e) [
      | inl (same, is) ↦ ap length (c.new n is).1 ∙ c.sized
      | inr (other, there) ↦ s.sized q n there
    ];
    entries = c.entries;
    saved = c.saved;
  }
