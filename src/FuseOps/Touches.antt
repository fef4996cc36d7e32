-- ===== src/FuseOps/Touches.antt =====
-- Which files a callback on one file may change.
use crunch_fs.Base.{ℕ, ◌<◌, ◌≡◌, ◌∙◌, false, Str, str_eq, str_eq_comm, arith}
use crunch_fs.Base.Bytes.{u64_mod}
use crunch_fs.Disk.{Disk}
use crunch_fs.Passthrough.Layout.{Config, index_path}
use crunch_fs.Passthrough.Layout.Apart.{Under-self, index_ne_meta, index_ne_data}
use crunch_fs.MetaStore.{meta_path}
use crunch_fs.ChunkStore.{chunk_path}
use crunch_fs.ChunkStore.Removed.{Removed}
use crunch_fs.ChunkStore.Paths.{chunk-Under}
use crunch_fs.MetaStore.Paths.{meta-Under}

-- Nothing but the metadata and the chunks of the file `id`.
pub record Touches (cfg : Config) (id : Str) (d d' : Disk) : Type 0 where
  pub others :
      (q : Str)
      → ((i : ℕ) → i < u64_mod → str_eq (chunk_path cfg id i) q ≡ false)
      → str_eq (meta_path cfg id) q ≡ false
      → d'.files q ≡ d.files q

-- Nothing but these and the index file.
pub record Beyond (cfg : Config) (id : Str) (d d' : Disk) : Type 0 where
  pub others :
      (q : Str)
      → ((i : ℕ) → i < u64_mod → str_eq (chunk_path cfg id i) q ≡ false)
      → str_eq (meta_path cfg id) q ≡ false
      → str_eq (index_path cfg) q ≡ false
      → d'.files q ≡ d.files q

module _ (cfg : Config) (id : Str) where
  pub Touches-trans :
      (d₁ d₂ d₃ : Disk) → Touches cfg id d₁ d₂ → Touches cfg id d₂ d₃ → Touches cfg id d₁ d₃
  Touches-trans d₁ d₂ d₃ t u = record { others = λ q nc nm. u.others q nc nm ∙ t.others q nc nm }

  -- The index file stays.
  pub Touches-index :
      (d d' : Disk) → Touches cfg id d d' → d'.files (index_path cfg) ≡ d.files (index_path cfg)
  Touches-index d d' t =
      let self = Under-self (index_path cfg) in
      t.others (index_path cfg)
        (λ i lt.
          str_eq_comm (chunk_path cfg id i) (index_path cfg)
          ∙ index_ne_data cfg self (chunk-Under cfg id i))
        (str_eq_comm (meta_path cfg id) (index_path cfg)
          ∙ index_ne_meta cfg self (meta-Under cfg id))

  pub Touches-Beyond : (d d' : Disk) → Touches cfg id d d' → Beyond cfg id d d'
  Touches-Beyond d d' t = record { others = λ q nc nm ni. t.others q nc nm }

  -- A change of the file's own, and then one of the index file.
  pub Touches-then_index :
      (d₁ d₂ d₃ : Disk)
      → Touches cfg id d₁ d₂
      → ((q : Str) → str_eq (index_path cfg) q ≡ false → d₃.files q ≡ d₂.files q)
      → Beyond cfg id d₁ d₃
  Touches-then_index d₁ d₂ d₃ t others = record {
    others = λ q nc nm ni. others q ni ∙ t.others q nc nm;
  }

  pub Removed-Touches :
      (i n : ℕ) (d d' : Disk) → n < u64_mod → Removed cfg id i n d d' → Touches cfg id d d'
  Removed-Touches i n d d' fits r = record {
    others = λ q nc nm. r.others q (λ j lo hi. nc j (omega arith));
  }

  -- Only the index file.
  pub index-Beyond :
      (d d' : Disk)
      → ((q : Str) → str_eq (index_path cfg) q ≡ false → d'.files q ≡ d.files q)
      → Beyond cfg id d d'
  index-Beyond d d' others = record { others = λ q nc nm ni. others q ni }
