-- ===== src/Passthrough/Handles/Sessions.antt =====
-- From one open file to the next: what a handle holds when it is released is what the path holds when
-- it is opened again, and a flush that fails keeps the handle dirty.
use crunch_fs.Base.{
  ℕ, ◌≤◌, ◌≡◌, ◌≢◌, refl, sym, ap, Bool, true, false, length, ==_iff, ◌==◌, none, some, Str, [],
  Result, ok, err, failed, Bool-cases, inl, inr, arith,
}
use crunch_fs.Base.Bytes.{Bytes}
use crunch_fs.Base.Int.{ℤ, pos, neg, eio, ebadf}
use crunch_fs.Zstd.{Zstd, ZstdLaws}
use crunch_fs.Disk.{Disk}
use crunch_fs.Disk.Ends.{Ends-both}
use crunch_fs.Passthrough.Path.{normalize_path}
use crunch_fs.Passthrough.Layout.{Config}
use crunch_fs.Passthrough.Files.{persist_logical_file}
use crunch_fs.Passthrough.Files.Saved.{Saved, persist-Saved}
use crunch_fs.Passthrough.Files.Table.{max_file}
use crunch_fs.Passthrough.Files.Loaded.{load-Saved, exists-Saved}
use crunch_fs.Passthrough.Files.Persist.{persist-Succeeds}
use crunch_fs.Passthrough.Handles.{
  OpenFileHandle, Process, flushed, cfs_flush, cfs_release, cfs_open, set_handle, allocate,
}

ok-injective : {A : Type 0} {a b : A} → ok a ≡ ok b → a ≡ b
ok-injective e = cc

-- What an open gives of a saved file: its content, as it is saved; or with O_TRUNC nothing, which is still
-- to be saved.
abbrev pub fresh_handle : Str → Bytes → Bool → OpenFileHandle
fresh_handle path content true = record { path = path; content = []; dirty = true }
fresh_handle path content false = record { path = path; content = content; dirty = false }

module _ (z : Zstd) (hash : Str → ℕ) (cfg : Config) where
  release_dirty :
      (fh : ℕ) (h : OpenFileHandle) (p : Process) (d : Disk)
      → fh ≢ 0
      → p.handles fh ≡ some h
      → h.dirty ≡ true
      → persist_logical_file z hash cfg h.path h.content p.disk ≡ (ok tt, d)
      → cfs_release z hash cfg fh p ≡ (
        ok (pos 0),
        set_handle fh none
            (set_handle fh (some (record h { dirty = false })) (record p { disk = d })),
      )
  unfolding cfs_release
  release_dirty fh h p d valid open_ dirty saved =
      let named : (fh == 0) ≡ false = ground arith in rw (named, open_, dirty, saved)

  open-Saved :
      (is_directory : Str → Bool) (path normal : Str) (input : Bytes) (trunc : Bool) (p : Process)
      → normalize_path path ≡ normal
      → p.disk.faults ≡ []
      → length input ≤ max_file
      → Saved z hash cfg normal input p.disk
      → cfs_open z hash cfg is_directory path trunc p
        ≡ (ok (pos 0), allocate (fresh_handle normal input trunc) p)
  unfolding cfs_open
  open-Saved is_directory path normal input true p norm calm fits s = rw (
    norm,
    exists-Saved z hash cfg normal input p.disk s,
    load-Saved z hash cfg normal input p.disk calm fits s,
  )
  open-Saved is_directory path normal input false p norm calm fits s = rw (
    norm,
    exists-Saved z hash cfg normal input p.disk s,
    load-Saved z hash cfg normal input p.disk calm fits s,
  )

  -- On a disk that meets no fault, `cfs_release` of a dirty handle with up to 2^32 - 1 full chunks returns 0
  -- and frees the handle. `cfs_open` of any spelling of its path then returns 0: without O_TRUNC it gives a
  -- clean handle with the content that the released one had, with O_TRUNC an empty handle that is dirty.
  pub cfs_open-cfs_release :
      ZstdLaws z
      → (is_directory : Str → Bool) (path : Str) (trunc : Bool) (fh : ℕ) (h : OpenFileHandle)
        (p : Process)
      → fh ≢ 0
      → p.handles fh ≡ some h
      → h.dirty ≡ true
      → normalize_path path ≡ h.path
      → p.disk.faults ≡ []
      → length h.content ≤ max_file
      → (p' : Process) × (cfs_release z hash cfg fh p ≡ (ok (pos 0), p'))
        × (p'.handles fh ≡ none)
        × (cfs_open z hash cfg is_directory path trunc p'
            ≡ (ok (pos 0), allocate (fresh_handle h.path h.content trunc) p'))
  cfs_open-cfs_release laws is_directory path trunc fh h p valid open_ dirty norm calm fits =
      let (_, d, saved, calm', (s, near)) =
        Ends-both _ _ _ (persist_logical_file z hash cfg h.path h.content p.disk)
          (persist-Succeeds z hash cfg h.path laws h.content p.disk calm)
          (persist-Saved z hash cfg h.path laws h.content p.disk) in
      let p' =
        set_handle fh none
          (set_handle fh (some (record h { dirty = false })) (record p { disk = d })) in
      (
        p',
        release_dirty fh h p d valid open_ dirty saved,
        rw ((==_iff fh fh).1 refl),
        open-Saved is_directory path h.path h.content trunc p' norm calm' fits s,
      )

  -- What `flush_handle_if_dirty` does with the end of a save.
  flushed-ok :
      (fh : ℕ) (h : OpenFileHandle) (p p' : Process) (r : Result (Unit {0}) × Disk)
      → flushed z hash cfg fh h p r ≡ (ok (pos 0), p')
      → (d : Disk) × (r ≡ (ok tt, d)) × (p'.disk ≡ d)
  unfolding flushed
  flushed-ok fh h p p' (ok u, d) e = (d, refl, ap (λ (q : Result ℤ × Process). q.1.disk) (sym e))
  flushed-ok fh h p p' (err failed, d) e = cc
  flushed-ok fh h p p' (err x, d) e = cc

  flushed-failed :
      (fh : ℕ) (h : OpenFileHandle) (p p' : Process) (r : Result (Unit {0}) × Disk)
      → flushed z hash cfg fh h p r ≡ (ok (neg eio), p')
      → p'.handles ≡ p.handles
  unfolding flushed
  flushed-failed fh h p p' (ok u, d) e = cc
  flushed-failed fh h p p' (err failed, d) e = ap (λ (q : Result ℤ × Process). q.1.handles) (sym e)
  flushed-failed fh h p p' (err x, d) e = cc

  -- A flush that answers is `flush_handle_if_dirty` on the handle that is open.
  flush_of_open :
      (fh : ℕ) (h : OpenFileHandle) (p p' : Process) (rc : ℤ)
      → neg ebadf ≢ rc
      → p.handles fh ≡ some h
      → h.dirty ≡ true
      → cfs_flush z hash cfg fh p ≡ (ok rc, p')
      → flushed z hash cfg fh h p (persist_logical_file z hash cfg h.path h.content p.disk)
        ≡ (ok rc, p')
  unfolding cfs_flush
  flush_of_open fh h p p' rc ne open_ dirty e = elim (Bool-cases (fh == 0)) [
    | inl null ↦ absurd (ne (ok-injective (ap (λ (q : Result ℤ × Process). q.0) (rw null at e))))
    | inr named ↦ rw (named, open_, dirty) at e
  ]

  -- Whatever faults the disk meets: a flush of a dirty handle that returns 0 has saved its content.
  pub cfs_flush-Saved :
      ZstdLaws z
      → (fh : ℕ) (h : OpenFileHandle) (p p' : Process) → p.handles fh ≡ some h
      → h.dirty ≡ true
      → cfs_flush z hash cfg fh p ≡ (ok (pos 0), p')
      → Saved z hash cfg h.path h.content p'.disk
  cfs_flush-Saved laws fh h p p' open_ dirty e =
      let (d, saved, here) =
        flushed-ok fh h p p' _ (flush_of_open fh h p p' (pos 0) (λ x. cc) open_ dirty e) in
      rw here (rw saved at (persist-Saved z hash cfg h.path laws h.content p.disk)).0

  -- A flush that fails changes no handle, so the content is still there, and still dirty.
  pub cfs_flush-failed :
      (fh : ℕ) (h : OpenFileHandle) (p p' : Process)
      → p.handles fh ≡ some h
      → h.dirty ≡ true
      → cfs_flush z hash cfg fh p ≡ (ok (neg eio), p')
      → p'.handles ≡ p.handles
  cfs_flush-failed fh h p p' open_ dirty e =
      flushed-failed fh h p p' _ (flush_of_open fh h p p' (neg eio) (λ x. cc) open_ dirty e)
