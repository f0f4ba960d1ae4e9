-- ===== src/Fs.antt =====
-- src/fs.h and src/fs.c: the file system on the disk file.
pub mod Layout
pub mod State
pub mod Inode
pub mod Cache
pub mod InodeView
pub mod Blocks
pub mod Reliable
pub mod Stamps
pub mod FreeList
pub mod InodeAlloc
pub mod FreeInodes
pub mod BlockMap
pub mod Format
pub mod Open
