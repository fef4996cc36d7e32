-- ===== src/FuseOps/Volume/Contents.antt =====
-- The callbacks that change the content or the metadata of a file, on a mount that shows a tree.
use mathlib.Core.Path.{subst}
use crunch_fs.Base.{
  ℕ, ◌+◌, ◌%◌, ◌≤◌, ◌<◌, ◌≡◌, refl, ap, ◌∙◌, sym, true, some, Option, length, take, Str, str_eq, ok,
  arith,
}
use crunch_fs.Base.Bytes.{Bytes, off_end, u32_mod, u64_mod}
use crunch_fs.Base.Buffer.{overwrite}
use crunch_fs.Base.Int.{ℤ, pos, to_int}
use crunch_fs.Zstd.{Zstd, ZstdLaws}
use crunch_fs.Disk.{Disk}
use crunch_fs.Passthrough.Layout.{Config}
use crunch_fs.Numerals.Signed.{IsLong}
use crunch_fs.MetaText.{FileMeta}
use crunch_fs.MetaText.Words.{IsWord}
use crunch_fs.MetaStore.{Index, find_id, save}
use crunch_fs.MetaStore.Keys.{AreEntries}
use crunch_fs.MetaStore.Saved.{MetaFits}
use crunch_fs.MetaStore.Reloaded.{IsSaved, IsSaved-same}
use crunch_fs.FuseOps.Mount.{Mount, norm}
use crunch_fs.FuseOps.Touches.{Touches, Touches-index, Touches-Beyond}
use crunch_fs.FuseOps.Calls.{loaded, saved, cfs_write, cfs_truncate, cfs_utimens, cfs_chmod}
use crunch_fs.FuseOps.Calls.Files.{File, load-File, save-File, cfs_write-File}
use crunch_fs.FuseOps.Calls.Truncated.{cfs_truncate-File}
use crunch_fs.FuseOps.Volume.{Node, Tree, set, Shown, Shows}
use crunch_fs.FuseOps.Volume.Steps.{set_same, Changes-Shows}

-- The metadata with another name, other times and another mode.
abbrev pub renewed : FileMeta → Str → ℤ → ℤ → ℕ → FileMeta
renewed meta name atime mtime mode = record meta {
  logical_path = name;
  atime = atime;
  mtime = mtime;
  mode = mode;
}

pub some-injective : {a b : Node} → ◌≡◌ {A = Option Node} (some a) (some b) → a ≡ b
some-injective e = cc

module _ (z : Zstd) (cfg : Config) (t : Tree) (m : Mount) (s : Shows z cfg t m) where
  -- A change of the file at `p` and of nothing else.
  pub in_place :
      (p : Str) (n : Node) (there : t p ≡ some n) (c : Bytes) (meta' : FileMeta) (m' : Mount)
      → File z cfg p c meta' m'
      → m'.index ≡ m.index
      → meta'.path_id ≡ (s.shown p n there).meta.path_id
      → Touches cfg (s.shown p n there).meta.path_id m.disk m'.disk
      → Shows z cfg (set t p (some (record { id = n.id; bytes = c }))) m'
  in_place p n there c meta' m' f same own touches =
      let sh = s.shown p n there in
      let id = sh.meta.path_id in
      let node : Node = record { id = n.id; bytes = c } in
      Changes-Shows z cfg t p id (some node) m m' s (record {
        calm = f.stored.calm;
        frame = Touches-Beyond cfg id m.disk m'.disk touches;
        sized = ap length sh.own ∙ s.sized p n there;
        others = λ q a ne at. ap (λ (x : Str). str_eq x a.id) sh.own ∙ s.apart p q n a there at ne;
        lookups = λ q ne. ap (find_id q) same;
        new = λ k e.
            let is : node ≡ k = some-injective e in
            (
              subst (λ (k : Node). Shown z cfg p k m') is
                  (record { meta = meta'; file = f; own = own ∙ sh.own }),
              ap (λ (k : Node). k.id) (sym is) ∙ sym sh.own,
            );
        gone = λ e. absurd cc;
        entries = subst AreEntries (sym same) s.entries;
        saved =
            subst (λ (i : Index). IsSaved cfg i m'.disk) (sym same)
              (IsSaved-same cfg m.index m.disk m'.disk (Touches-index cfg id m.disk m'.disk touches)
                s.saved);
      })

module _ (z : Zstd) (cfg : Config) where
  -- On a mount that shows a tree, a write of at least one byte to a file of it, at most at the end and with
  -- an end below 2^64, at a time in the range of `long long`, returns its size, and the mount then shows the
  -- tree with the write in that file.
  pub cfs_write-Shows :
      ZstdLaws z
      → (now : ℤ) → IsLong now
      → (path buf : Str) (offset : ℕ) (n : Node) (t : Tree) (m : Mount) → Shows z cfg t m
      → t (norm path) ≡ some n
      → 1 ≤ length buf
      → offset ≤ length n.bytes
      → offset + length buf < u64_mod
      → (m' : Mount) × (cfs_write cfg z now path buf offset m ≡ (ok (to_int (length buf)), m'))
        × Shows z cfg
            (set t (norm path) (some (record { id = n.id; bytes = overwrite n.bytes offset buf })))
            m'
  cfs_write-Shows laws now now_fits path buf offset n t m s there some_bytes within fits =
      let sh = s.shown (norm path) n there in
      let (m', meta', done, f, same, own, touches) =
        cfs_write-File z cfg laws now now_fits path n.bytes buf offset sh.meta m sh.file some_bytes
          within fits in
      (
        m',
        done,
        in_place z cfg t m s (norm path) n there (overwrite n.bytes offset buf) meta' m' f same own
            touches,
      )

  -- On a mount that shows a tree, `cfs_truncate` of a file of it to a size up to its own and below 2^63, at a
  -- time in the range of `long long`, returns 0, and the mount then shows the tree with the front of the
  -- content in that file.
  pub cfs_truncate-Shows :
      (now : ℤ)
      → IsLong now
      → (path : Str) (nsz : ℕ) (n : Node) (t : Tree) (m : Mount) → Shows z cfg t m
      → t (norm path) ≡ some n
      → nsz ≤ length n.bytes
      → nsz < off_end
      → (m' : Mount) × (cfs_truncate cfg now path nsz m ≡ (ok (pos 0), m'))
        × Shows z cfg (set t (norm path) (some (record { id = n.id; bytes = take nsz n.bytes }))) m'
  cfs_truncate-Shows now now_fits path nsz n t m s there fewer off =
      let sh = s.shown (norm path) n there in
      let (m', meta', done, f, same, own, touches) =
        cfs_truncate-File z cfg now now_fits path n.bytes sh.meta m sh.file nsz fewer off in
      (
        m',
        done,
        in_place z cfg t m s (norm path) n there (take nsz n.bytes) meta' m' f same own touches,
      )

  -- Metadata with another name, other times and another mode are saved: the tree is the same.
  pub resaved :
      (p : Str) (n : Node) (t : Tree) (m : Mount) (s : Shows z cfg t m) (there : t p ≡ some n)
      → (name : Str) (atime mtime : ℤ) (mode : ℕ) → IsWord name
      → IsLong atime
      → IsLong mtime
      → mode < u32_mod
      → (d' : Disk) × (save cfg (renewed (s.shown p n there).meta name atime mtime mode) m.disk
          ≡ (true, d'))
        × File z cfg p n.bytes
            (renewed (s.shown p n there).meta name atime mtime mode)
            (record m { disk = d' })
        × Shows z cfg t (record m { disk = d' })
  resaved p n t m s there name atime mtime mode word fa fm fo =
      let sh = s.shown p n there in
      let meta' = renewed sh.meta name atime mtime mode in
      let old = sh.file.fits in
      let fits : MetaFits meta' = record {
        id_word = old.id_word;
        path_word = word;
        logical_size = old.logical_size;
        compressed_size = old.compressed_size;
        chunk_size = old.chunk_size;
        n_chunks = old.n_chunks;
        atime = fa;
        mtime = fm;
        ctime = old.ctime;
        mode = fo;
      } in
      let (d', wrote, f, touches) =
        save-File z cfg p n.bytes meta' m sh.file.found sh.file.named fits sh.file.size
          sh.file.stored in
      (
        d',
        wrote,
        f,
        subst (λ (u : Tree). Shows z cfg u (record m { disk = d' })) (set_same t p (some n) there)
            (in_place z cfg t m s p n there n.bytes meta' (record m { disk = d' }) f refl refl
              touches),
      )

  -- On a mount that shows a tree, `cfs_utimens` of a file of it, to times in the range of
  -- `long long`, returns 0 and leaves the tree as it is.
  pub cfs_utimens-Shows :
      (atime mtime : ℤ)
      → IsLong atime
      → IsLong mtime
      → (path : Str) (n : Node) (t : Tree) (m : Mount) (s : Shows z cfg t m)
      → t (norm path) ≡ some n
      → (m' : Mount) × (cfs_utimens cfg atime mtime path m ≡ (ok (pos 0), m')) × Shows z cfg t m'
  unfolding cfs_utimens loaded saved
  cfs_utimens-Shows atime mtime fa fm path n t m s there =
      let sh = s.shown (norm path) n there in
      let old = sh.file in
      let (d', wrote, f, s') =
        resaved (norm path) n t m s there sh.meta.logical_path atime mtime sh.meta.mode
          old.fits.path_word fa fm old.fits.mode in
      (
        record m { disk = d' },
        rw (old.found, old.named, load-File z cfg (norm path) n.bytes sh.meta m old, wrote) refl,
        s',
      )

  -- On a mount that shows a tree, `cfs_chmod` of a file of it returns 0 and leaves the tree as it is.
  pub cfs_chmod-Shows :
      (path : Str) (mode : ℕ) (n : Node) (t : Tree) (m : Mount) (s : Shows z cfg t m)
      → t (norm path) ≡ some n
      → (m' : Mount) × (cfs_chmod cfg path mode m ≡ (ok (pos 0), m')) × Shows z cfg t m'
  unfolding cfs_chmod loaded saved
  cfs_chmod-Shows path mode n t m s there =
      let sh = s.shown (norm path) n there in
      let old = sh.file in
      let (d', wrote, f, s') =
        resaved (norm path) n t m s there sh.meta.logical_path sh.meta.atime sh.meta.mtime
          (mode % 512) old.fits.path_word old.fits.atime old.fits.mtime (omega arith) in
      (
        record m { disk = d' },
        rw (old.found, old.named, load-File z cfg (norm path) n.bytes sh.meta m old, wrote) refl,
        s',
      )
