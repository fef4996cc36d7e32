-- ===== src/Passthrough/Handles/Buffers.antt =====
-- The buffer of an open file behaves as a POSIX file: reads are slices, writes replace a range and
-- extend the file with zeros, and resizing cuts or pads.
use crunch_fs.Base.{
  ℕ, ◌+◌, ◌-◌, ◌%◌, ◌≤◌, ◌<◌, ◌≡◌, ◌≢◌, refl, ◌∙◌, min, max, true, false, length, take, drop,
  length-take, length-drop, ltb, leb, ◌==◌, if◌then◌else◌, some, ok, arith, drop-all, take-all,
  take-min-length, sym, ==_iff, [],
}
use native.Mathlib.Decide.{dec_le, dec_lt}
use crunch_fs.Base.Bytes.{Bytes, u64_mod}
use crunch_fs.Base.Int.{pos, to_int}
use crunch_fs.Base.Buffer.{
  resize, overwrite, get_or, get_or-resize, get_or-overwrite, length-resize, length-overwrite,
  get_or-behind, get_or-take, get_or-drop, take-drop-overwrite,
}
use crunch_fs.Passthrough.Handles.{
  OpenFileHandle, Process, write_into, read_from, cfs_read, cfs_write, set_handle,
}

-- The content that a write starts from.
abbrev grown : OpenFileHandle → ℕ → Bytes
grown h need = if ltb (length h.content) need then resize need h.content else h.content

length-grown : (h : OpenFileHandle) (need : ℕ) → length (grown h need) ≡ max (length h.content) need
length-grown h need = elim (dec_lt (length h.content) need) [
  | yes p ↦
      let e : ltb (length h.content) need ≡ true = ground arith in
      rw e (omega (arith, length-resize need h.content))
  | no p ↦ let e : ltb (length h.content) need ≡ false = ground arith in rw e (omega arith)
]

get_or-grown : (h : OpenFileHandle) (need i : ℕ) → get_or (grown h need) i 0 ≡ get_or h.content i 0
get_or-grown h need i = elim (dec_lt (length h.content) need) [
  | yes p ↦
      let e : ltb (length h.content) need ≡ true = ground arith in
      rw e (ground (arith, get_or-resize need h.content i, get_or-behind h.content i 0))
  | no p ↦ let e : ltb (length h.content) need ≡ false = ground arith in rw e
]

-- The handle that a write leaves.
abbrev pub written : OpenFileHandle → Bytes → ℕ → OpenFileHandle
written h buf off = record h {
  content = overwrite (grown h (off + length buf)) off buf;
  dirty = true;
}

write_into-ok :
    (h : OpenFileHandle) (buf : Bytes) (off : ℕ)
    → off + length buf < u64_mod
    → write_into h buf off ≡ ok (written h buf off)
unfolding write_into
write_into-ok h buf off small =
    let whole : (off + length buf) % u64_mod ≡ off + length buf = omega arith in
    let room : ltb (length (grown h (off + length buf))) (off + length buf) ≡ false =
      ground (arith, length-grown h (off + length buf)) in
    rw (whole, room)

-- A write marks the handle dirty, makes the file as long as needed, puts its bytes at its range and
-- leaves every other byte; bytes between the old end and the range read as zero.
pub write_into_lem :
    (h : OpenFileHandle) (buf : Bytes) (off : ℕ)
    → off + length buf < u64_mod
    → (h' : OpenFileHandle) × (write_into h buf off ≡ ok h')
      × (h'.path ≡ h.path)
      × (h'.dirty ≡ true)
      × (length h'.content ≡ max (length h.content) (off + length buf))
      × ((i : ℕ)
          → get_or h'.content i 0 ≡ (
              if ltb i off
              then get_or h.content i 0
              else if ltb i (off + length buf)
              then get_or buf (i - off) 0
              else get_or h.content i 0))
write_into_lem h buf off small =
    let base = grown h (off + length buf) in
    let fits : off + length buf ≤ length base = omega (arith, length-grown h (off + length buf)) in
    (
      written h buf off,
      write_into-ok h buf off small,
      refl,
      refl,
      length-overwrite base off buf fits ∙ length-grown h (off + length buf),
      λ i. get_or-overwrite base off buf i 0 fits ∙ rw (get_or-grown h (off + length buf) i),
    )

read_from-slice :
    (h : OpenFileHandle) (size off : ℕ) → read_from h size off ≡ take size (drop off h.content)
unfolding read_from
read_from-slice h size off = elim (dec_le (length h.content) off) [
  | yes p ↦
      let e : leb (length h.content) off ≡ true = ground arith in
      rw (e, drop-all off h.content p) (sym (take-all {A = ℕ} size [] (omega arith)))
  | no p ↦
      let e : leb (length h.content) off ≡ false = ground arith in
      rw (e, ← length-drop off h.content) (take-min-length size (drop off h.content))
]

-- A read is the slice of the content at its range, cut at the end of the file.
pub read_from_lem :
    (h : OpenFileHandle) (size off : ℕ)
    → (length (read_from h size off) ≡ min size (length h.content - off))
      × ((i : ℕ)
          → get_or (read_from h size off) i 0
            ≡ (if ltb i size then get_or h.content (off + i) 0 else 0))
read_from_lem h size off = (
  rw (read_from-slice h size off)
      (omega (arith, length-take size (drop off h.content), length-drop off h.content)),
  λ i. rw (
    read_from-slice h size off,
    get_or-take size (drop off h.content) i 0,
    get_or-drop off h.content i 0,
  ),
)

-- The file below its old end and the file that a truncate leaves agree; the rest reads as zero.
pub resize_lem :
    (size : ℕ) (content : Bytes)
    → (length (resize size content) ≡ size)
      × ((i : ℕ)
          → get_or (resize size content) i 0 ≡ (if ltb i size then get_or content i 0 else 0))
resize_lem size content = (length-resize size content, get_or-resize size content)

-- The handles other than `fh`, and the backing store, are as before.
pub record OnlyHandle (fh : ℕ) (p p' : Process) : Type 0 where
  pub disk : p'.disk ≡ p.disk
  pub others : (k : ℕ) → k ≢ fh → p'.handles k ≡ p.handles k

read-written :
    (h : OpenFileHandle) (buf : Bytes) (off : ℕ)
    → off + length buf < u64_mod
    → read_from (written h buf off) (length buf) off ≡ buf
read-written h buf off small =
    let base = grown h (off + length buf) in
    read_from-slice (written h buf off) (length buf) off
    ∙ take-drop-overwrite base off buf (omega (arith, length-grown h (off + length buf)))

module _ (fh : ℕ) (h : OpenFileHandle) (p : Process) (open_ : p.handles fh ≡ some h)
    (valid : fh ≢ 0) where
  -- A write through a handle returns its size, and a read of the same range through the same handle
  -- then returns the bytes that were written; no other handle changes, and nothing is stored yet.
  pub cfs_read-cfs_write :
      (buf : Bytes) (off : ℕ)
      → off + length buf < u64_mod
      → (p' : Process) × (cfs_write fh buf (pos off) p ≡ (ok (to_int (length buf)), p'))
        × (cfs_read fh (length buf) (pos off) p' ≡ (ok (to_int (length buf), buf), p'))
        × OnlyHandle fh p p'
  cfs_read-cfs_write buf off small =
      let named : (fh == 0) ≡ false = ground arith in
      let p' = set_handle fh (some (written h buf off)) p in
      let self : p'.handles fh ≡ some (written h buf off) = rw ((==_iff fh fh).1 refl) in
      (
        p',
        unfold cfs_write in rw (named, open_, write_into-ok h buf off small),
        unfold cfs_read in rw (named, (==_iff fh fh).1 refl, read-written h buf off small),
        record { disk = refl; others = λ k ne. let e : (fh == k) ≡ false = ground arith in rw e },
      )
