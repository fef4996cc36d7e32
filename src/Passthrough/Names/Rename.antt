-- ===== src/Passthrough/Names/Rename.antt =====
-- `cfs_rename` of a logical file, where the disk meets no fault.
use crunch_fs.Base.{
  ℕ, ◌≡◌, ◌≢◌, ◌<◌, ◌^◌, refl, ◌∙◌, sym, false, none, some, [], concat, Str, str_eq, str_eq_refl,
  str_eq_comm, ok, inl, inr, Bool-cases,
}
use crunch_fs.Base.Bytes.{Bytes}
use crunch_fs.Base.Int.{ℤ, pos}
use crunch_fs.Zstd.{Zstd}
use crunch_fs.Disk.{Disk, update}
use crunch_fs.Disk.OnlyAt.{OnlyAt}
use crunch_fs.Passthrough.Path.{normalize_path}
use crunch_fs.Passthrough.Layout.{Config}
use crunch_fs.Passthrough.Layout.Apart.{meta_ne_data}
use crunch_fs.Passthrough.Layout.Distinct.{file_id_ne, meta_path_ne, data_path_ne}
use crunch_fs.Passthrough.Meta.{meta_fields}
use crunch_fs.Passthrough.Files.{logical_file_exists}
use crunch_fs.Passthrough.Files.Saved.{Saved, table, meta_file, data_file, meta-at, data-at}
use crunch_fs.Passthrough.Names.{or_return, move_files, cfs_rename}
use crunch_fs.Passthrough.Files.Loaded.{exists-Saved}
use crunch_fs.Passthrough.Names.Cleared.{rename-calm, cleared, remove_files-cleared}
use crunch_fs.Passthrough.Names.Renamed.{Renamed, rename_files, moved, index-Renamed}

module _ (z : Zstd) (hash : Str → ℕ) (cfg : Config) (p q : Str) (small : hash p < 2 ^ 64)
    (small' : hash q < 2 ^ 64) (ne : hash p ≢ hash q) where
  moved-Renamed :
      (input : Bytes) (d : Disk) (s : Saved z hash cfg p input d)
      → Renamed z hash cfg p q input
          (moved z hash cfg p q (concat (meta_fields (table input s.chunks))) (concat s.chunks) d)
  moved-Renamed input d s =
      let ids = (file_id_ne hash q p small' small (λ e. ne (sym e))).0 in
      let mm : str_eq (meta_file z hash cfg q) (meta_file z hash cfg p) ≡ false =
        meta_path_ne hash cfg q p ids in
      let dd : str_eq (data_file z hash cfg q) (data_file z hash cfg p) ≡ false =
        data_path_ne hash cfg q p ids in
      let cross : (x y : Str) → str_eq (data_file z hash cfg x) (meta_file z hash cfg y) ≡ false =
        λ x y. str_eq_comm _ _ ∙ meta_ne_data cfg (meta-at z hash cfg y) (data-at z hash cfg x) in
      record {
        there = record {
          chunks = s.chunks;
          encoded = s.encoded;
          blobs = rw (str_eq_refl (data_file z hash cfg q)) refl;
          header = rw (cross q q, cross p q, str_eq_refl (meta_file z hash cfg q)) refl;
        };
        gone = record {
          header = rw (cross q p, cross p p, mm, str_eq_refl (meta_file z hash cfg p)) refl;
          blobs = rw (dd, str_eq_refl (data_file z hash cfg p)) refl;
        };
      }

  move_files-Renamed :
      (errno : ℕ) (input : Bytes) (d₀ d : Disk)
      → d.faults ≡ []
      → Saved z hash cfg p input d
      → OnlyAt (rename_files z hash cfg p q) d₀ d
      → (d' : Disk) × (move_files z hash cfg errno p q d ≡ (ok (pos 0), d'))
        × (d'.faults ≡ [])
        × Renamed z hash cfg p q input d'
        × OnlyAt (rename_files z hash cfg p q) d₀ d'
  unfolding move_files or_return
  move_files-Renamed errno input d₀ d calm s near =
      let header = concat (meta_fields (table input s.chunks)) in
      let cross : str_eq (meta_file z hash cfg q) (data_file z hash cfg p) ≡ false =
        meta_ne_data cfg (meta-at z hash cfg q) (data-at z hash cfg p) in
      let cross' : str_eq (meta_file z hash cfg p) (data_file z hash cfg p) ≡ false =
        meta_ne_data cfg (meta-at z hash cfg p) (data-at z hash cfg p) in
      let d₁ : Disk = record d {
        files =
            update (update d.files (meta_file z hash cfg p) none) (meta_file z hash cfg q)
              (some header);
      } in
      let blobs : d₁.files (data_file z hash cfg p) ≡ some (concat s.chunks) =
        rw (cross, cross') s.blobs in
      let d₂ = moved z hash cfg p q header (concat s.chunks) d in
      let (d', d₃, e₃, e', calm', r, near') =
        index-Renamed z hash cfg p q input d₀ d₂ calm (moved-Renamed input d s) (record {
          others = λ f (a, (b, (c, (e, i)))). rw (a, b, c, e) (near.others f (a, (b, (c, (e, i)))));
        }) in
      (
        d',
        rw
            (
              rename-calm (meta_file z hash cfg p) (meta_file z hash cfg q) header d calm s.header,
              rename-calm (data_file z hash cfg p) (data_file z hash cfg q) (concat s.chunks) d₁
                  calm blobs,
              e₃,
              e',
            )
            refl,
        calm',
        r,
        near',
      )

  cleared-Saved :
      (input : Bytes) (d : Disk)
      → Saved z hash cfg p input d
      → Saved z hash cfg p input (cleared z hash cfg q d)
  cleared-Saved input d s =
      let ids = (file_id_ne hash q p small' small (λ e. ne (sym e))).0 in
      let mm : str_eq (meta_file z hash cfg q) (meta_file z hash cfg p) ≡ false =
        meta_path_ne hash cfg q p ids in
      let dd : str_eq (data_file z hash cfg q) (data_file z hash cfg p) ≡ false =
        data_path_ne hash cfg q p ids in
      let md : str_eq (meta_file z hash cfg q) (data_file z hash cfg p) ≡ false =
        meta_ne_data cfg (meta-at z hash cfg q) (data-at z hash cfg p) in
      let dm : str_eq (data_file z hash cfg q) (meta_file z hash cfg p) ≡ false =
        str_eq_comm _ _ ∙ meta_ne_data cfg (meta-at z hash cfg p) (data-at z hash cfg q) in
      record {
        chunks = s.chunks;
        encoded = s.encoded;
        blobs = rw (dd, md) s.blobs;
        header = rw (dm, mm) s.header;
      }

  -- Where the disk meets no fault and the hashes of the two paths differ, a rename of a saved file
  -- returns 0, whether or not the new path has a file: the new path then has the content, the old path
  -- has no file, and no file has changed but those of the two paths, those of the index and its `.tmp`
  -- file.
  pub cfs_rename-Renamed :
      (native_rename : Str → Str → Disk → ℤ × Disk) (errno : ℕ) (from_path to_path : Str)
      (input : Bytes) (d : Disk)
      → normalize_path from_path ≡ p
      → normalize_path to_path ≡ q
      → d.faults ≡ []
      → Saved z hash cfg p input d
      → (d' : Disk) × (cfs_rename z hash cfg native_rename errno from_path to_path 0 d
          ≡ (ok (pos 0), d'))
        × (d'.faults ≡ [])
        × Renamed z hash cfg p q input d'
        × OnlyAt (rename_files z hash cfg p q) d d'
  unfolding cfs_rename
  cfs_rename-Renamed native_rename errno from_path to_path input d np nq calm s =
      elim (Bool-cases (logical_file_exists z hash cfg q d)) [
        | inl there ↦
            let (d', e, calm', r, near) =
              move_files-Renamed errno input d (cleared z hash cfg q d) calm
                (cleared-Saved input d s)
                (record { others = λ f (_, (_, (c, (e, _)))). rw (c, e) refl }) in
            (
              d',
              rw
                  (
                    np,
                    nq,
                    exists-Saved z hash cfg p input d s,
                    there,
                    remove_files-cleared z hash cfg q d (move_files z hash cfg errno p q) calm,
                    e,
                  )
                  refl,
              calm',
              r,
              near,
            )
        | inr free ↦
            let (d', e, calm', r, near) =
              move_files-Renamed errno input d d calm s (record { others = λ f _. refl }) in
            (d', rw (np, nq, exists-Saved z hash cfg p input d s, free, e) refl, calm', r, near)
      ]
