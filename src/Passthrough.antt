-- ===== src/Passthrough.antt =====
-- src/passthrough_cfs.cpp: the file system that keeps a file compressed in one data file, with its
-- table of chunks in a binary metadata file.
pub mod Path
pub mod Layout
pub mod Meta
pub mod Index
pub mod Files
pub mod Handles
pub mod Names
pub mod Listing
pub mod Host
