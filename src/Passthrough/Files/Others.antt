-- ===== src/Passthrough/Files/Others.antt =====
-- A save of one path does not touch the saved content of another.
use crunch_fs.Base.{ℕ, ◌<◌, ◌^◌, ◌≡◌, ◌≢◌, ◌∙◌, false, All, Str, str_eq, str_eq_comm}
use crunch_fs.Base.Bytes.{Bytes}
use crunch_fs.Zstd.{Zstd, ZstdLaws}
use crunch_fs.Disk.{Disk}
use crunch_fs.Disk.Ends.{Ends, Ends-map}
use crunch_fs.Disk.OnlyAt.{OnlyAt}
use crunch_fs.Passthrough.Layout.{Config, index_path, meta_dir, data_dir}
use crunch_fs.Passthrough.Layout.Apart.{
  tmp-Under, Under-self, meta_ne_data, index_ne_meta, index_ne_data,
}
use crunch_fs.Passthrough.Layout.Distinct.{
  file_id_ne, meta_path_ne, data_path_ne, tmp_meta_path_ne, tmp_data_path_ne,
}
use crunch_fs.Passthrough.Files.{persist_logical_file}
use crunch_fs.Passthrough.Files.Saved.{
  Saved, meta_file, data_file, meta-at, data-at, path_files, persist-Saved,
}

module _ (z : Zstd) (hash : Str → ℕ) (cfg : Config) (p q : Str) where
  module _ (small : hash p < 2 ^ 64) (small' : hash q < 2 ^ 64) (ne : hash p ≢ hash q) where
    data_elsewhere : All (λ f. str_eq f (data_file z hash cfg q) ≡ false) (path_files z hash cfg p)
    data_elsewhere =
        let ids = (file_id_ne hash p q small small' ne).0 in
        let at = data-at z hash cfg q in
        let mp = meta-at z hash cfg p in
        let ip = Under-self (index_path cfg) in
        (
          data_path_ne hash cfg p q ids,
          (
            tmp_data_path_ne hash cfg p q,
            (
              meta_ne_data cfg mp at,
              (
                meta_ne_data cfg (tmp-Under (meta_dir cfg) mp) at,
                (
                  index_ne_data cfg ip at,
                  (index_ne_data cfg (tmp-Under (index_path cfg) ip) at, tt),
                ),
              ),
            ),
          ),
        )

    meta_elsewhere : All (λ f. str_eq f (meta_file z hash cfg q) ≡ false) (path_files z hash cfg p)
    meta_elsewhere =
        let ids = (file_id_ne hash p q small small' ne).0 in
        let at = meta-at z hash cfg q in
        let dp = data-at z hash cfg p in
        let ip = Under-self (index_path cfg) in
        (
          str_eq_comm _ _ ∙ meta_ne_data cfg at dp,
          (
            str_eq_comm _ _ ∙ meta_ne_data cfg at (tmp-Under (data_dir cfg) dp),
            (
              meta_path_ne hash cfg p q ids,
              (
                tmp_meta_path_ne hash cfg p q,
                (
                  index_ne_meta cfg ip at,
                  (index_ne_meta cfg (tmp-Under (index_path cfg) ip) at, tt),
                ),
              ),
            ),
          ),
        )

    Saved-OnlyAt :
        (input : Bytes) (d d' : Disk)
        → OnlyAt (path_files z hash cfg p) d d'
        → Saved z hash cfg q input d
        → Saved z hash cfg q input d'
    Saved-OnlyAt input d d' near s = record {
      chunks = s.chunks;
      encoded = s.encoded;
      blobs = near.others (data_file z hash cfg q) data_elsewhere ∙ s.blobs;
      header = near.others (meta_file z hash cfg q) meta_elsewhere ∙ s.header;
    }

    -- Whatever faults the disk meets, a save of `p` leaves the saved content of `q` as it was, where
    -- the hashes of the two paths differ.
    pub persist-keeps_others :
        ZstdLaws z
        → (input kept : Bytes) (d : Disk) → Saved z hash cfg q kept d
        → Ends
            (λ _. Saved z hash cfg q kept)
            (Saved z hash cfg q kept)
            (persist_logical_file z hash cfg p input d)
    persist-keeps_others laws input kept d s =
        Ends-map (λ _. Saved z hash cfg q kept) (Saved z hash cfg q kept) _ _ _
          (λ _ d' (_, near). Saved-OnlyAt kept d d' near s)
          (λ d' near. Saved-OnlyAt kept d d' near s) (persist-Saved z hash cfg p laws input d)
