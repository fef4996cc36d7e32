-- ===== src/Passthrough/Names/Unlink.antt =====
-- `cfs_unlink`: whatever faults the disk meets, what it removes and what it leaves.
use crunch_fs.Base.{
  ℕ, ◌≡◌, ◌≢◌, refl, ap, str_eq_comm, Option, ◌∙◌, false, true, none, Str, str_eq, str_eq_refl,
  Result, ok, err, failed,
}
use crunch_fs.Base.Bytes.{Bytes}
use crunch_fs.Base.Int.{ℤ, pos, neg, eio}
use crunch_fs.Zstd.{Zstd}
use crunch_fs.Disk.{Disk, remove}
use crunch_fs.Disk.Ends.{Ends, Ends-attempt}
use crunch_fs.Disk.OnlyAt.{OnlyAt}
use crunch_fs.Passthrough.Path.{normalize_path}
use crunch_fs.Passthrough.Layout.{Config, index_path}
use crunch_fs.Passthrough.Layout.Apart.{
  Under-self, tmp-Under, meta_ne_data, index_ne_meta, index_ne_data,
}
use crunch_fs.Passthrough.Index.{remove_index_entry}
use crunch_fs.Passthrough.Index.Kept.{index_files, remove_index_entry-Keeps}
use crunch_fs.Passthrough.Files.{logical_file_exists}
use crunch_fs.Passthrough.Files.Saved.{meta_file, data_file, meta-at, data-at, path_files}
use crunch_fs.Passthrough.Names.{Reply, or_return, remove_files, cfs_unlink}

-- The file is gone, and no other file has changed.
pub record Removed (p : Str) (d₀ d : Disk) : Type 0 where
  pub gone : d.files p ≡ none
  pub others : (q : Str) → str_eq p q ≡ false → d.files q ≡ d₀.files q

pub remove-Removed :
    (p : Str) (d : Disk) → Ends (λ _. Removed p d) (λ d'. d'.files ≡ d.files) (remove p d)
unfolding remove
remove-Removed p d =
    Ends-attempt _ _ _ _ d (λ fs. record { gone = rw (str_eq_refl p); others = λ q ne. rw ne })
      (λ n fs. refl)

neg_ne : neg eio ≢ pos 0
neg_ne e = cc

-- Both ends of `if (!step) return rc;`, and what follows it.
pub or_return-Ends :
    (good : ℤ → Disk → Type 0) (bad good' bad' : Disk → Type 0) (rc : ℤ)
    (r : Result (Unit {0}) × Disk) (rest : Reply)
    → Ends (λ _. good') bad' r
    → ((d : Disk) → good' d → Ends good bad (rest d))
    → ((d : Disk) → bad' d → good rc d × bad d)
    → Ends good bad (or_return r rc rest)
unfolding or_return
or_return-Ends good bad good' bad' rc (ok u, d) rest h f g = f d h
or_return-Ends good bad good' bad' rc (err failed, d) rest h f g = (g d h).0
or_return-Ends good bad good' bad' rc (err x, d) rest h f g = (g d h).1

module _ (z : Zstd) (hash : Str → ℕ) (cfg : Config) where
  -- No file of the path is left.
  pub record Gone (path : Str) (d : Disk) : Type 0 where
    pub header : d.files (meta_file z hash cfg path) ≡ none
    pub blobs : d.files (data_file z hash cfg path) ≡ none

  -- The callback has returned `rc`: nothing is left of the path if it is 0.
  abbrev pub Unlinked : Str → Disk → ℤ → Disk → Type 0
  Unlinked path d₀ rc d = (rc ≡ pos 0 → Gone path d) × OnlyAt (path_files z hash cfg path) d₀ d

  -- A refusal may be any of the two ends.
  refused :
      (path : Str) (d₀ d : Disk)
      → OnlyAt (path_files z hash cfg path) d₀ d
      → Unlinked path d₀ (neg eio) d × OnlyAt (path_files z hash cfg path) d₀ d
  refused path d₀ d near = ((λ e. absurd (neg_ne e), near), near)

  entry-Unlinked :
      (path : Str) (d₀ d : Disk)
      → Gone path d
      → OnlyAt (path_files z hash cfg path) d₀ d
      → Ends
          (Unlinked path d₀)
          (OnlyAt (path_files z hash cfg path) d₀)
          (or_return (remove_index_entry cfg path d) (neg eio) (λ d₂. (ok (pos 0), d₂)))
  entry-Unlinked path d₀ d gone near =
      let at = data-at z hash cfg path in
      let mt = meta-at z hash cfg path in
      let ip = Under-self (index_path cfg) in
      let it = tmp-Under (index_path cfg) ip in
      let widen : (d' : Disk)
          → OnlyAt (index_files cfg) d d'
          → OnlyAt (path_files z hash cfg path) d₀ d' =
        λ d' kept. record {
          others = λ q (a, (b, (c, (e, (f, (g, _)))))).
              kept.others q (f, (g, tt)) ∙ near.others q (a, (b, (c, (e, (f, (g, tt))))));
        } in
      or_return-Ends (Unlinked path d₀) (OnlyAt (path_files z hash cfg path) d₀)
        (OnlyAt (index_files cfg) d) (OnlyAt (index_files cfg) d) (neg eio)
        (remove_index_entry cfg path d) _ (remove_index_entry-Keeps cfg path d)
        (λ d' kept. (
          λ e. record {
            header =
                kept.others _ (index_ne_meta cfg ip mt, (index_ne_meta cfg it mt, tt))
                ∙ gone.header;
            blobs =
                kept.others _ (index_ne_data cfg ip at, (index_ne_data cfg it at, tt)) ∙ gone.blobs;
          },
          widen d' kept,
        ))
        (λ d' kept. refused path d₀ d' (widen d' kept))

  -- Whatever faults the disk meets: an unlink of a logical file that returns 0 leaves neither its
  -- metadata file nor its data file, and in any case no file has changed but those of the path, those
  -- of the index, and their `.tmp` files.
  pub cfs_unlink-Gone :
      (unlink : Str → Disk → ℤ × Disk) (path : Str) (d : Disk)
      → logical_file_exists z hash cfg (normalize_path path) d ≡ true
      → Ends
          (Unlinked (normalize_path path) d)
          (OnlyAt (path_files z hash cfg (normalize_path path)) d)
          (cfs_unlink z hash cfg unlink path d)
  unfolding cfs_unlink remove_files
  cfs_unlink-Gone unlink path d there =
      let n = normalize_path path in
      let meta = meta_file z hash cfg n in
      let data_ = data_file z hash cfg n in
      rw there (
        or_return-Ends (Unlinked n d) (OnlyAt (path_files z hash cfg n) d) (Removed meta d)
          (λ d'. d'.files ≡ d.files) (neg eio) (remove meta d) _ (remove-Removed meta d)
          (λ d₁ one.
            or_return-Ends (Unlinked n d) (OnlyAt (path_files z hash cfg n) d) (Removed data_ d₁)
              (λ d'. d'.files ≡ d₁.files) (neg eio) (remove data_ d₁) _ (remove-Removed data_ d₁)
              (λ d₂ two.
                entry-Unlinked n d d₂
                  (record {
                    header =
                        two.others meta (
                          str_eq_comm _ _
                          ∙ meta_ne_data cfg (meta-at z hash cfg n) (data-at z hash cfg n))
                        ∙ one.gone;
                    blobs = two.gone;
                  })
                  (record { others = λ q (a, (b, (c, _))). two.others q a ∙ one.others q c }))
              (λ d' same. refused n d d' (record {
                others = λ q (_, (_, (c, _))).
                    ap (λ (f : Str → Option Bytes). f q) same ∙ one.others q c;
              })))
          (λ d' same.
            refused n d d' (record { others = λ q _. ap (λ (f : Str → Option Bytes). f q) same })))
