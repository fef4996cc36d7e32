-- ===== src/FuseOps/Volume/Remounts.antt =====
-- A mount that ends and begins again shows the same tree.
use mathlib.Core.List.{Permᴰ}
use crunch_fs.Base.{ℕ, ◌≤◌, max, ◌≡◌, refl, ◌∙◌, none, List, [], Str, Result, ok, arith}
use crunch_fs.Zstd.{Zstd, ZstdLaws}
use crunch_fs.Disk.{Disk}
use crunch_fs.Passthrough.Layout.{Config, meta_dir, data_dir, index_path}
use crunch_fs.MetaStore.{Index, find_id}
use crunch_fs.MetaStore.Keys.{AreEntries}
use crunch_fs.MetaStore.Reloaded.{fresh, load_index-IsSaved}
use crunch_fs.FuseOps.Mount.{Mount}
use crunch_fs.FuseOps.Session.{Session, cfs_init, cfs_destroy, meta_store, chunk_store}
use crunch_fs.FuseOps.Volume.{Tree, empty_tree, Shows}
use crunch_fs.FuseOps.Volume.Runs.{Event, react, play, replies, AreSpoken, play-replies}

module _ (create_directories : Str → Disk → Result (Unit {0}) × Disk)
    (there : (p : Str) (d : Disk) → create_directories p d ≡ (ok tt, d)) (z : Zstd)
    (cfg : Config) where
  -- Where `fs::create_directories` succeeds and changes no file, a mount that shows a tree can be destroyed and
  -- set up again: `init` succeeds, changes nothing on the disk, starts at least one worker, and the new mount
  -- shows the same tree.
  pub cfs_init-Shows :
      (hardware : ℕ) (t : Tree) (m : Mount)
      → Shows z cfg t m
      → (w : Session) × (cfs_init create_directories hardware cfg (cfs_destroy m) ≡ (ok w, m.disk))
        × (1 ≤ w.workers)
        × Shows z cfg t w.mount
  unfolding cfs_init cfs_destroy meta_store chunk_store
  cfs_init-Shows hardware t m s =
      let (index', loaded, entries, same, saved) =
        load_index-IsSaved cfg m.index m.disk s.calm s.saved in
      let m' : Mount = record { disk = m.disk; index = index' } in
      (
        record { kernel_cache = 0; workers = max 1 hardware; mount = m' },
        rw (there (meta_dir cfg) m.disk, loaded, there (data_dir cfg) m.disk) refl,
        omega arith,
        record {
          calm = s.calm;
          shown = λ p n e.
              let sh = s.shown p n e in
              let f = sh.file in
              record {
                meta = sh.meta;
                file = record {
                  found = same p ∙ f.found;
                  named = f.named;
                  text = f.text;
                  fits = f.fits;
                  size = f.size;
                  stored = f.stored;
                };
                own = sh.own;
              };
          absent = λ p e. same p ∙ s.absent p e;
          apart = s.apart;
          sized = s.sized;
          entries = entries;
          saved = saved;
        },
      )

-- A mount without entries, on a disk without an index file.
pub fresh-Shows :
    (z : Zstd) (cfg : Config) (d : Disk)
    → d.faults ≡ []
    → d.files (index_path cfg) ≡ none
    → Shows z cfg empty_tree (record { disk = d; index = [] })
unfolding find_id AreEntries
fresh-Shows z cfg d calm missing = record {
  calm = calm;
  shown = λ p n e. absurd cc;
  absent = λ p e. refl;
  apart = λ p q a b ea eb ne. absurd cc;
  sized = λ p n e. absurd cc;
  entries = tt;
  saved = fresh missing (λ p. refl);
}

module _ (create_directories : Str → Disk → Result (Unit {0}) × Disk)
    (there : (p : Str) (d : Disk) → create_directories p d ≡ (ok tt, d)) (order : Index → Index)
    (ratio : ℕ → ℕ → Str) (shuffles : (index : Index) → Permᴰ index (order index)) (z : Zstd)
    (laws : ZstdLaws z) (cfg : Config) where
  -- On a disk without faults and without an index file, where `fs::create_directories` succeeds and changes no
  -- file, `init` succeeds, and a run of calls returns the results of the specification from the empty tree on,
  -- with the bytes of every read; after `destroy` and another `init`, a second run goes on from the tree that
  -- the first has left. The calls are those of which the specification speaks (`IsSpoken`).
  pub cfs_init-play :
      (hardware : ℕ) (d : Disk) (before behind : List Event)
      → d.faults ≡ []
      → d.files (index_path cfg) ≡ none
      → AreSpoken before empty_tree
      → AreSpoken behind (replies before empty_tree).1
      → (w w' : Session) × (m m' : Mount) × (cfs_init create_directories hardware cfg d ≡ (ok w, d))
        × (play (react order ratio z cfg) before w.mount ≡ (ok (replies before empty_tree).0, m))
        × (cfs_init create_directories hardware cfg (cfs_destroy m) ≡ (ok w', m.disk))
        × (play (react order ratio z cfg) behind w'.mount
            ≡ (ok (replies behind (replies before empty_tree).1).0, m'))
        × Shows z cfg (replies behind (replies before empty_tree).1).1 m'
  unfolding cfs_destroy
  cfs_init-play hardware d before behind calm missing spoken spoken' =
      let start =
        cfs_init-Shows create_directories there z cfg hardware empty_tree
          (record { disk = d; index = [] }) (fresh-Shows z cfg d calm missing) in
      let (m, ran, s) =
        play-replies order ratio shuffles z laws cfg before empty_tree start.0.mount start.3
          spoken in
      let t = (replies before empty_tree).1 in
      let again = cfs_init-Shows create_directories there z cfg hardware t m s in
      let (m', ran', s') =
        play-replies order ratio shuffles z laws cfg behind t again.0.mount again.3 spoken' in
      (start.0, again.0, m, m', start.1, ran, again.1, ran', s')
