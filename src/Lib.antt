-- ===== src/Lib.antt =====
-- CrunchFS: two FUSE file systems that keep each file as zstd chunks on a backing store:
-- src/passthrough_cfs.cpp with chunks of 4096 bytes, src/fuse_ops.cpp with chunks of 256 KiB.
--
-- The program's parts, and the modules that model them:
--
-- compresslib (src/conpresslib.cpp, src/compresslib.h): Compresslib.antt. compress_file_chunks cuts
-- a buffer into chunks and compresses each, decompress_file_chunks gives back a range of it; all
-- functions have the names of the source. zstd is a parameter (Zstd/Defs.antt): its three calls,
-- with the laws that zstd.h documents of them; Zstd/Stored.antt is a codec that meets the laws.
-- Compresslib/Chunks.antt says what a list of chunks encodes.
--
-- The backing store (streams, std::filesystem and rename(2), used by src/passthrough_cfs.cpp):
-- Disk.antt. A disk is a map from names to contents, with a list of faults that the next operations
-- meet: an operation that fails may have done a part of its work. An action that returns false or
-- throws ends the actions behind it, as the early returns of the source do. Disk/Ends.antt holds
-- the pre- and postconditions of actions, Disk/Staged.antt the replacement of a file by way of its
-- .tmp file, Disk/OnlyAt.antt which files an action may change, Disk/Calm.antt runs without faults.
--
-- src/passthrough_cfs.cpp, under Passthrough/: Path.antt has normalize_path, to_backing_path and
-- path_is_direct_child; Layout.antt the names of files on the backing store, with std::hash as the
-- parameter hash; Meta.antt the bytes of a metadata file (load_meta, save_meta_atomic); Index.antt
-- the index of names, with its order in Index/Sorted.antt and runs of additions and removals in
-- Index/Edits.antt; Files.antt a logical file as a whole, from logical_file_exists to
-- load_logical_file, with what a failed save leaves in Files/Left.antt; Handles.antt the open
-- files, with flush_handle_if_dirty and the callbacks read, write, truncate, open, create, flush,
-- release and fsync; Names.antt the callbacks getattr, unlink, rename, chmod, chown, utimens and
-- access; Listing.antt readdir; Host.antt the callbacks that only pass a name on,
-- ensure_storage_layout and main. The callbacks use persist_logical_file and load_logical_file, and
-- these the index, the metadata, the layout and compresslib.
--
-- src/thread_pool.cpp: ThreadPool.antt, a step relation over the queue, the counter, the workers,
-- the callers of wait_all and the notifications that are due; the threads interleave in any order.
--
-- Bytes and the characters of a path are native numbers, a buffer and a string are lists of them.
-- Arithmetic of uint32_t, uint64_t and size_t (64 bits) keeps its remainder by 2^32 or 2^64 where
-- it can wrap. A result is ok, or err with: failed (the function returns false), thrown (an
-- exception), undefined (a read or write out of bounds, or of a handle that is none), stuck (fuel
-- ran out). compress_file_chunks runs on fuel, the length of the buffer, and each round takes a
-- byte or more, so it is enough; a number is printed on fuel for 64 digits, and 64 bits have no
-- more. A negative return code is a negative number of the model's own integers; open files are a
-- map of addresses to objects, with the addresses that new will give.
--
-- src/fuse_ops.cpp, the second file system: Numerals.antt prints and reads numbers; ChunkStore.antt
-- is src/chunk_store.cpp over the same disk, a chunk a file; MetaText.antt and MetaStore.antt are
-- src/metadata.cpp, the metadata as a text of keys and values, and the index of the paths.
-- FuseOps.antt has the loops of cfs_write, cfs_read and cfs_truncate over the chunks,
-- FuseOps/Mount.antt the state of the callbacks, FuseOps/Calls.antt the callbacks that change a
-- file, FuseOps/Names.antt the others. The specification of a file is its content, a byte list: a
-- record File says that the index, the metadata and the chunks stand for it. FuseOps/Session.antt
-- has init and destroy, with the constructors of both stores, and FuseOps/Locks.antt the table of
-- file locks, as a sequence of lookups and unlinks, each lookup with the address that new would
-- give. FuseOps/Volume.antt is the specification of the whole: a tree of paths, each with an id and
-- a content, and the record Shows, which says that a mount stands for a tree. Below it, Contents,
-- Entries and Renames take each callback to the next tree, Absent has the paths without a file,
-- Looks the callbacks that only read, Listed readdir, Totals the statistics, Answers one change
-- against the answer of the specification, Runs any sequence of changes, reads and opens, and
-- Remounts the end of a mount and the next beginning. The specification speaks of these calls only:
-- a write begins at most at the end of a file, a truncation is to a size below 2^63 and makes none
-- longer, a new file's hash is the id of no other, a file is not renamed to itself, new paths are
-- words without white space, and the disk meets no fault. MetaStore/Keys.antt has the index as a
-- map and MetaStore/Reloaded.antt its file; std::unordered_map is gone through in any order: a
-- permutation. FuseOps/Touches.antt says which files of the disk a callback may change.
-- CfsMain.antt is src/main.cpp, ZstdBackend.antt src/compression/zstd_backend.cpp, HelloFs.antt
-- demo-tool-test/hello_fs.cpp.
--
-- Not modelled: running out of memory, an exception of fs::exists, a task of the thread pool that
-- throws, the interleaving of the callbacks of the second file system, which are run one at a time,
-- and the test program src/test.cpp. System calls on names of the host (truncate(2), lstat,
-- fs::is_directory and the like) are arguments of the callbacks that use them; errno of a failed
-- rename(2) is one too, and so are the time, the order of a std::unordered_map and the print of a
-- floating point number.
pub mod Base
pub mod Zstd
pub mod Compresslib
pub mod Disk
pub mod Hex
pub mod Passthrough
pub mod ThreadPool
pub mod Numerals
pub mod ChunkStore
pub mod MetaText
pub mod MetaStore
pub mod FuseOps
pub mod HelloFs
pub mod ZstdBackend
pub mod CfsMain
pub mod Tests
