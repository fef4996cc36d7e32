-- ===== src/Passthrough/Handles.antt =====
-- Open files: `flush_handle_if_dirty` and the callbacks that take a file handle. A handle is a pointer
-- that FUSE carries in `fi->fh`: 0 is null, and any other number names an object that `new` made and
-- `delete` has not yet taken.
pub mod Buffers
pub mod Sessions
pub mod Truncate
use crunch_fs.Base.{
  ℕ, suc, ◌+◌, ◌-◌, ◌%◌, min, Bool, true, false, ◌&&◌, Option, none, some, [], length, take, drop,
  leb, ltb, ◌==◌, if◌then◌else◌, Str, Result, ok, err, failed, undefined,
}
use crunch_fs.Base.Bytes.{Bytes, u64_mod}
use crunch_fs.Base.Int.{ℤ, pos, negsuc, neg, to_int, enoent, eio, ebadf, eexist, eisdir, einval}
use crunch_fs.Base.Buffer.{resize, overwrite}
use crunch_fs.Zstd.{Zstd}
use crunch_fs.Disk.{Disk}
use crunch_fs.Passthrough.Path.{normalize_path, to_backing_path}
use crunch_fs.Passthrough.Layout.{Config}
use crunch_fs.Passthrough.Files.{logical_file_exists, load_logical_file, persist_logical_file}

pub record OpenFileHandle : Type 0 where
  pub path : Str
  pub content : Bytes
  pub dirty : Bool

-- The process: the backing store, the objects that `new` made and `delete` has not yet taken, and the
-- addresses that the next calls of `new` will give, which may be those of deleted objects.
pub record Process : Type 0 where
  pub disk : Disk
  pub handles : ℕ → Option OpenFileHandle
  pub addresses : ℕ → ℕ

-- An `int`, or an exception or undefined behaviour, with the state that the call leaves.
abbrev pub Call : Type 0
Call = Process → Result ℤ × Process

abbrev pub set_handle : ℕ → Option OpenFileHandle → Process → Process
set_handle fh h p = record p { handles = λ k. if fh == k then h else p.handles k }

abbrev pub done : ℤ → Call
done rc p = (ok rc, p)

-- The callbacks that test `h == nullptr`.
abbrev pub with_handle : ℕ → (OpenFileHandle → Call) → Call
with_handle fh f p =
    if fh == 0
    then (ok (neg ebadf), p)
    else elim (p.handles fh) [ none ↦ (err undefined, p) | some h ↦ f h p ]

-- `new OpenFileHandle()`, whose address goes to `fi->fh`
abbrev pub allocate : OpenFileHandle → Process → Process
allocate h p = record (set_handle (p.addresses 0) (some h) p) {
  addresses = λ k. p.addresses (suc k);
}

unfoldable pub write_into : OpenFileHandle → Bytes → ℕ → Result OpenFileHandle
write_into h buf off =
    let size = length buf in
    let need = (off + size) % u64_mod in
    let grown = if ltb (length h.content) need then resize need h.content else h.content in
    if ltb (length grown) (off + size)
    then err undefined
    else ok (record h { content = overwrite grown off buf; dirty = true })

-- The bytes that `cfs_read` copies to `buf`.
unfoldable pub read_from : OpenFileHandle → ℕ → ℕ → Bytes
read_from h size off =
    if leb (length h.content) off
    then []
    else take (min size (length h.content - off)) (drop off h.content)

unfoldable pub cfs_read : ℕ → ℕ → ℤ → Process → Result (ℤ × Bytes) × Process
unfolding read_from
cfs_read fh size (negsuc n) p = (ok (neg einval, []), p)
cfs_read fh size (pos off) p = if fh == 0 then (ok (neg ebadf, []), p) else elim (p.handles fh) [
  | none ↦ (err undefined, p)
  | some h ↦ let out = read_from h size off in (ok (to_int (length out), out), p)
]

write_back : ℕ → ℕ → Result OpenFileHandle → Call
write_back fh size (ok h) p = (ok (to_int size), set_handle fh (some h) p)
write_back fh size (err e) p = (err e, p)

unfoldable pub cfs_write : ℕ → Bytes → ℤ → Call
unfolding write_into write_back
cfs_write fh buf (negsuc n) = done (neg einval)
cfs_write fh buf (pos off) = with_handle fh λ h. write_back fh (length buf) (write_into h buf off)

module _ (z : Zstd) (hash : Str → ℕ) (cfg : Config) where
  -- The end of `flush_handle_if_dirty`: the handle is clean only if the save returned true.
  flushed : ℕ → OpenFileHandle → Process → Result (Unit {0}) × Disk → Result ℤ × Process
  flushed fh h p (ok u, d) =
      (ok (pos 0), set_handle fh (some (record h { dirty = false })) (record p { disk = d }))
  flushed fh h p (err failed, d) = (ok (neg eio), record p { disk = d })
  flushed fh h p (err e, d) = (err e, record p { disk = d })

  unfoldable pub flush_handle_if_dirty : ℕ → OpenFileHandle → Call
  unfolding flushed
  flush_handle_if_dirty fh h p =
      if h.dirty
      then flushed fh h p (persist_logical_file z hash cfg h.path h.content p.disk)
      else (ok (pos 0), p)

  unfoldable pub cfs_flush : ℕ → Call
  unfolding flush_handle_if_dirty
  cfs_flush fh = with_handle fh (flush_handle_if_dirty fh)

  unfoldable pub cfs_fsync : ℕ → Call
  unfolding flush_handle_if_dirty
  cfs_fsync fh = with_handle fh (flush_handle_if_dirty fh)

  -- `delete h; fi->fh = 0;` behind the flush: an exception passes them over.
  released : ℕ → Result ℤ × Process → Result ℤ × Process
  released fh (ok rc, p) = (ok rc, set_handle fh none p)
  released fh (err e, p) = (err e, p)

  unfoldable pub cfs_release : ℕ → Call
  unfolding flush_handle_if_dirty released
  cfs_release fh = with_handle fh λ h p. released fh (flush_handle_if_dirty fh h p)

  -- The content that a new handle gets, or -EIO; with O_TRUNC it is dropped.
  opened : Str → Bool → Process → Result Bytes × Disk → Result ℤ × Process
  opened path trunc p (ok bytes, d) = (
    ok (pos 0),
    allocate
        (if trunc
          then record { path = path; content = []; dirty = true }
          else record { path = path; content = bytes; dirty = false })
        (record p { disk = d }),
  )
  opened path trunc p (err failed, d) = (ok (neg eio), record p { disk = d })
  opened path trunc p (err e, d) = (err e, record p { disk = d })

  -- `is_directory` is `fs::is_directory`, and `trunc` the bit O_TRUNC of `fi->flags`. A call that
  -- returns 0 has put the address `p.addresses 0` in `fi->fh`.
  unfoldable pub cfs_open : (Str → Bool) → Str → Bool → Call
  unfolding opened
  cfs_open is_directory path trunc p =
      let normalized = normalize_path path in
      if logical_file_exists z hash cfg normalized p.disk
      then opened normalized trunc p (load_logical_file z hash cfg normalized p.disk)
      else if is_directory (to_backing_path cfg.backing_dir path)
      then (ok (neg eisdir), p)
      else (ok (neg enoent), p)

  unfoldable pub cfs_create : Str → Bool → Bool → Call
  unfolding opened
  cfs_create path excl trunc p =
      let normalized = normalize_path path in
      let there = logical_file_exists z hash cfg normalized p.disk in
      if excl && there
      then (ok (neg eexist), p)
      else if there
      then opened normalized trunc p (load_logical_file z hash cfg normalized p.disk)
      else (ok (pos 0), allocate (record { path = normalized; content = []; dirty = true }) p)

  host_call : Process → ℤ × Disk → Result ℤ × Process
  host_call p (rc, d) = (ok rc, record p { disk = d })

  truncated : Process → Result (Unit {0}) × Disk → Result ℤ × Process
  truncated p (ok u, d) = (ok (pos 0), record p { disk = d })
  truncated p (err failed, d) = (ok (neg eio), record p { disk = d })
  truncated p (err e, d) = (err e, record p { disk = d })

  resized : Str → ℕ → Process → Result Bytes × Disk → Result ℤ × Process
  resized path size p (ok bytes, d) =
      truncated p (persist_logical_file z hash cfg path (resize size bytes) d)
  resized path size p (err failed, d) = (ok (neg eio), record p { disk = d })
  resized path size p (err e, d) = (err e, record p { disk = d })

  -- `fh` is `fi->fh`, or 0 where `fi` is null; `native_truncate` is truncate(2) of a file of the host,
  -- with its 0 or `-errno`.
  unfoldable pub cfs_truncate : (Str → ℕ → Disk → ℤ × Disk) → Str → ℤ → ℕ → Call
  unfolding resized truncated host_call
  cfs_truncate native_truncate path (negsuc n) fh p = (ok (neg einval), p)
  cfs_truncate native_truncate path (pos size) fh p =
      let normalized = normalize_path path in
      if fh == 0
      then (if logical_file_exists z hash cfg normalized p.disk
          then resized normalized size p (load_logical_file z hash cfg normalized p.disk)
          else host_call p (native_truncate (to_backing_path cfg.backing_dir path) size p.disk))
      else elim (p.handles fh) [
        | none ↦ (err undefined, p)
        | some h ↦ (
          ok (pos 0),
          set_handle fh (some (record h { content = resize size h.content; dirty = true })) p,
        )
      ]
