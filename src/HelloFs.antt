-- ===== src/HelloFs.antt =====
-- demo-tool-test/hello_fs.cpp: the demonstration file system with one file.
pub mod Reads
use crunch_fs.Base.{
  ℕ, ◌+◌, ◌-◌, ◌%◌, Bool, true, false, List, [], ◌∷◌, length, take, drop, Str, str_eq, codes, leb,
  ltb, ◌==◌, if◌then◌else◌,
}
use crunch_fs.Base.Bytes.{Bytes, u64_mod}
use crunch_fs.Base.Int.{ℤ, pos, neg, to_int, enoent}

abbrev pub hello_path : Str
hello_path = codes "/hello.txt"

abbrev pub hello_str : Bytes
hello_str = codes "Hello, World!\n"

-- EACCES
abbrev pub eacces : ℕ
eacces = 13

-- `st_mode`, `st_nlink` and `st_size`.
pub record HelloStat : Type 0 where
  pub st_mode : ℕ
  pub st_nlink : ℕ
  pub st_size : ℕ

-- S_IFDIR | 0755 and S_IFREG | 0644
unfoldable pub cfs_getattr : Str → ℤ × HelloStat
cfs_getattr path =
    if str_eq path (codes "/")
    then (pos 0, record { st_mode = 16384 + 493; st_nlink = 2; st_size = 0 })
    else if str_eq path hello_path
    then (pos 0, record { st_mode = 32768 + 420; st_nlink = 1; st_size = length hello_str })
    else (neg enoent, record { st_mode = 0; st_nlink = 0; st_size = 0 })

-- The result, and the names that the filler gets.
unfoldable pub cfs_readdir : Str → ℤ × List Str
cfs_readdir path =
    if str_eq path (codes "/")
    then (neg enoent, [])
    else (pos 0, codes "." ∷ codes ".." ∷ hello_path ∷ [])

-- O_ACCMODE is 3, and O_RDONLY is 0.
unfoldable pub cfs_open : Str → ℕ → ℤ
cfs_open path flags =
    if str_eq path hello_path then (if flags % 4 == 0 then pos 0 else neg eacces) else neg enoent

-- `size` behind the test against the end of the file.
abbrev pub limited : ℕ → ℕ → ℕ
limited size offset =
    if ltb (length hello_str) ((offset + size) % u64_mod) then length hello_str - offset else size

-- The result, and what is copied to the reader's buffer.
unfoldable pub cfs_read : Str → ℕ → ℕ → ℤ × Bytes
cfs_read path size offset =
    let n = limited size offset in
    if str_eq path hello_path
    then (if leb (length hello_str) offset
        then (pos 0, [])
        else (to_int n, take n (drop offset hello_str)))
    else (neg enoent, [])
