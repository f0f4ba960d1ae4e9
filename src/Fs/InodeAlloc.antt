-- ===== src/Fs/InodeAlloc.antt =====
-- src/fs.c: `sfs_fs_inode_allocate`, `sfs_fs_inode_deallocate` and `sfs_fs_inode_to_stat`. The free
-- inodes are a list through their `size` fields.
use filesys.Prelude.{ℕ, List, [], ◌∷◌, take, ◌==◌, if◌then◌else◌}
use filesys.Outcome.{Run, done, failed, pure, ◌>>=◌, ◌>>◌}
use filesys.Os.{Os}
use filesys.Fs.Layout.{Inode, ndir_blocks}
use filesys.Fs.State.{Filesystem, write_superblock}
use filesys.Fs.Inode.{read_inode, write_inode}
use filesys.Fs.Blocks.{free_block}

-- The fields of `struct stat` that the program sets.
pub record Stat : Type 0 where
  pub ino : ℕ
  pub mode : ℕ
  pub nlink : ℕ
  pub uid : ℕ
  pub gid : ℕ
  pub atime : ℕ
  pub mtime : ℕ
  pub ctime : ℕ
  pub size : ℕ

-- `sfs_fs_inode_to_stat`
unfoldable pub inode_to_stat : Inode → Stat
inode_to_stat i = record {
  ino = i.inumber;
  mode = i.mode;
  nlink = i.links;
  uid = i.uid;
  gid = i.gid;
  atime = i.access_time;
  mtime = i.modified_time;
  ctime = i.change_time;
  size = i.size;
}

module _ ⦃os : Os⦄ where
  unfoldable pub set_free_inode_head : ℕ → Run Filesystem (Unit {0})
  set_free_inode_head n fs =
      done tt (record fs { superblock = record fs.superblock { free_inode_head = n } })

  -- `sfs_fs_inode_allocate`
  unfoldable pub inode_allocate : Run Filesystem Inode
  inode_allocate fs =
      let inumber = fs.superblock.free_inode_head in
      if inumber == 0
      then failed fs
      else (do
        inode ← read_inode inumber
        set_free_inode_head inode.size
        write_superblock
        pure inode)
          fs

  -- The loop of `sfs_fs_inode_deallocate` over the direct block pointers.
  unfoldable pub free_pointers : List ℕ → Run Filesystem (Unit {0})
  free_pointers [] fs = done tt fs
  free_pointers (n ∷ ns) fs =
      (if n == 0 then free_pointers ns else (free_block n >> free_pointers ns)) fs

  -- `sfs_fs_inode_deallocate`
  unfoldable pub inode_deallocate : Inode → Run Filesystem (Unit {0})
  inode_deallocate inode fs =
      (do
        write_inode (record inode { size = fs.superblock.free_inode_head })
        set_free_inode_head inode.inumber
        write_superblock
        free_pointers (take ndir_blocks inode.block_pointers))
        fs
