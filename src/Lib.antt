-- ===== src/Lib.antt =====
-- A model of the FUSE file system `sfs`, which keeps its files in one preallocated disk file.
--
-- The program's parts, from the bottom up, and the modules that model them:
--   * src/block.{h,c} reads and writes blocks of 512 bytes with `pread` and `pwrite`: Block. The
--     calls of the operating system are the parameter `Os` of every definition; what their manual
--     pages promise is the record `IsPosix`, which the theorems take as a hypothesis. A call may
--     fail or move fewer bytes at any time.
--   * src/fs.h is the layout of the disk file: a superblock, a table of inodes, and data blocks:
--     Fs.Layout, on the little-endian scalars of Bytes and Bytes.Fields.
--   * src/fs.c works on it. Fs.State is `struct filesystem` and `write_superblock`; Fs.Inode is
--     `sfs_fs_read_inode`, `sfs_fs_write_inode` and `sfs_fs_close`, which share a write-back cache
--     of one block of inodes; Fs.Blocks is `sfs_fs_allocate_block` and `sfs_fs_free_block`, on a
--     linked list of blocks full of numbers of free blocks; Fs.InodeAlloc is
--     `sfs_fs_inode_allocate`, `sfs_fs_inode_deallocate` and `sfs_fs_inode_to_stat`; Fs.BlockMap is
--     the reading, writing and removing of a block of an inode, with `read_from_indirect`;
--     Fs.Format is `format_fs` and Fs.Open is `sfs_fs_open_disk`, both on the disk file alone, before
--     there is a `struct filesystem`.
--   * src/dir.{h,c} keeps a directory as the data of an inode: Dir.Entry (an entry), Dir.Iterate (the
--     iterator and `sfs_dir_iter_unlink`) and Dir.Link (`sfs_dir_link`). The iterator points to its
--     caller's inode, so it carries that inode, and comes back with it.
--   * src/filedescriptor.{h,c} is a slab allocator of descriptors: Filedescriptor.
--   * src/sfs.c holds the handlers that FUSE calls, under one mutex: Sfs.State (`struct sfs_state`
--     of src/params.h, the mutex, return codes and the descriptor of an opened file), Sfs.Lookup (the
--     checks of the path, the search in the root directory, `sfs_getattr`), Sfs.Files
--     (`sfs_create`, `sfs_open`, `sfs_unlink`, `sfs_release`), Sfs.Folders (`sfs_mkdir`,
--     `sfs_rmdir`, `sfs_opendir`, `sfs_readdir`, `sfs_releasedir`), Sfs.Transfer (`sfs_read` and
--     `sfs_write`, on the memory of the process as one array) and Sfs.Mount (`sfs_init` and
--     `sfs_destroy`). `main` with `log_open` of src/log.c is Sfs.Main, on a `Host` that stands for what
--     they call of the C library and of FUSE. `dirname` and `basename` of the C library, the caller's ids and the filler of
--     `sfs_readdir` are parameters.
--
-- A function of the source that changes the file system is a `Run` (module Outcome): from a state to
-- `done` with a result, to `failed` (the source returns -1 or NULL, after it may have changed the
-- state), or to `aborted` (a failed `assert`, or what C leaves undefined, or a loop without end).
-- A handler returns a `Code` instead, so it never ends in `failed`.
--
-- The abstract views. Fs.InodeView shows the disk file and the cache as one table of inodes, and
-- Fs.FreeInodes the list of free inodes in it.
-- Sfs.Names shows a directory whose blocks are direct as a partial map from names to inode numbers,
-- by Dir.Contents (the blocks), Dir.Walk and Sfs.Search (the search) and Dir.LinkSlot and
-- Dir.Unlinked (the changes); Sfs.AtRoot takes / as such a directory, and Sfs.Attributes, Sfs.Creates,
-- Sfs.Removes and Sfs.LastLink show the handlers of a path as operations on its map; there
-- `IsReliable` says that the disk file's transfers are never short.
-- Fs.FreeList shows the index list as the number of times each block is free, with the
-- well-formedness `IsFreeList`. Filedescriptor.Live shows the pool as a set of live descriptors, with
-- the well-formedness `IsPool` of Filedescriptor.Chain.
--
-- Numbers are natural numbers; a field of the disk is cut to its width where it is stored, and sums
-- that can wrap are written with their modulus. The cached block number is an `int` and wraps too.
--
-- Fuel. `free_walk` has one round for each block of the disk and one more; the nodes of a well-formed
-- list are distinct blocks, so that is enough, as the theorem on `free_block` includes. No file has a
-- block 76 (12 direct blocks and 64 in the indirect one), so a directory's walk ends within 78
-- rounds, and its search, at one entry a block, within 80. `opendir_loop` has the rounds of three
-- such walks: the path is "/" there, which holds two empty names.
--
-- Memory that the source leaves uninitialised is an argument: the inode cache and the stack of
-- `sfs_fs_open_disk`, the slots of a new pool, and the block buffer of `sfs_write`.
--
-- Not modelled: logging (src/log.c but for `log_open`) and the unused tokens of src/sfs.c, which no
-- other part reads; src/fuse.h, which belongs to the FUSE library. Paths are shorter than PATH_MAX, `strdup`
-- succeeds, and the time of creation that `sfs_fs_open_disk` logs can be printed. The handlers run one
-- at a time.
mod Prelude
pub mod Bytes
pub mod Outcome
pub mod Os
pub mod Block
pub mod Fs
pub mod Dir
pub mod Filedescriptor
pub mod Sfs
pub mod Tests
