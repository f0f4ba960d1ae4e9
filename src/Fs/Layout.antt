-- ===== src/Fs/Layout.antt =====
-- src/fs.h: the superblock and the inode, and how they lie in blocks.
use filesys.Prelude.{ℕ, ◌*◌, ◌/◌, ◌≡◌, refl, ◌<◌, ◌≢◌, List, [], ◌∷◌, arith, replicate, ap}
use filesys.Bytes.{Buffer, clip}
use filesys.Bytes.Fields.{
  size, load_fields, store_fields, Fits, Fits-load_fields, load_fields-store_fields,
  load_fields-store_fields-Apart, load_fields-clip,
}

-- SFS_NDIR_BLOCKS, SFS_IND_BLOCK, SFS_NIND_BLOCKS, SFS_N_BLOCKS
abbrev pub ndir_blocks : ℕ
ndir_blocks = 12

abbrev pub ind_block : ℕ
ind_block = 12

abbrev pub nind_blocks : ℕ
nind_blocks = 64

abbrev pub n_blocks : ℕ
n_blocks = 14

-- `struct sfs_fs_superblock`, with the 16 bytes of the signature as one number.
pub record Superblock : Type 0 where
  pub signature : ℕ
  pub create_time : ℕ
  pub block_size : ℕ
  pub inode_table_blocks : ℕ
  pub inodes : ℕ
  pub blocks : ℕ
  pub free_blocks_head : ℕ
  pub free_inode_head : ℕ

abbrev pub superblock_widths : List ℕ
superblock_widths = 16 ∷ 8 ∷ 8 ∷ 8 ∷ 8 ∷ 8 ∷ 8 ∷ 8 ∷ []

abbrev pub superblock_values : Superblock → List ℕ
superblock_values sb =
    sb.signature ∷ sb.create_time ∷ sb.block_size ∷ sb.inode_table_blocks ∷ sb.inodes ∷ sb.blocks
    ∷ sb.free_blocks_head ∷ sb.free_inode_head ∷ []

-- `memcpy(tmp_block, superblock, sizeof(struct sfs_fs_superblock))`
unfoldable pub store_superblock : Buffer → Superblock → Buffer
store_superblock b sb = store_fields superblock_widths b 0 (superblock_values sb)

abbrev superblock_of : List ℕ → Superblock
superblock_of (g ∷ c ∷ z ∷ t ∷ n ∷ k ∷ f ∷ i ∷ []) = record {
  signature = g;
  create_time = c;
  block_size = z;
  inode_table_blocks = t;
  inodes = n;
  blocks = k;
  free_blocks_head = f;
  free_inode_head = i;
}
superblock_of _ = record {
  signature = 0;
  create_time = 0;
  block_size = 0;
  inode_table_blocks = 0;
  inodes = 0;
  blocks = 0;
  free_blocks_head = 0;
  free_inode_head = 0;
}

-- `*(struct sfs_fs_superblock*)block`
unfoldable pub load_superblock : Buffer → Superblock
load_superblock b = superblock_of (load_fields superblock_widths b 0)

-- `struct sfs_fs_inode`
pub record Inode : Type 0 where
  pub inumber : ℕ
  pub mode : ℕ
  pub uid : ℕ
  pub gid : ℕ
  pub links : ℕ
  pub access_time : ℕ
  pub modified_time : ℕ
  pub change_time : ℕ
  -- of a free inode: the next free inode
  pub size : ℕ
  pub block_pointers : List ℕ

abbrev pub inode_widths : List ℕ
inode_widths = 8 ∷ 4 ∷ 4 ∷ 4 ∷ 4 ∷ 8 ∷ 8 ∷ 8 ∷ 8 ∷ replicate n_blocks 8

abbrev pub inode_values : Inode → List ℕ
inode_values i =
    i.inumber ∷ i.mode ∷ i.uid ∷ i.gid ∷ i.links ∷ i.access_time ∷ i.modified_time ∷ i.change_time
    ∷ i.size ∷ i.block_pointers

-- `sizeof(struct sfs_fs_inode)`
abbrev pub sizeof_inode : ℕ
sizeof_inode = 168

-- `BLOCK_SIZE / sizeof(struct sfs_fs_inode)`
abbrev pub inodes_per_block : ℕ
inodes_per_block = 512 / sizeof_inode

-- `((struct sfs_fs_inode*)block)[position] = *inode`
unfoldable pub store_inode : Buffer → ℕ → Inode → Buffer
store_inode b position i = store_fields inode_widths b (position * sizeof_inode) (inode_values i)

abbrev inode_of : List ℕ → Inode
inode_of (n ∷ m ∷ u ∷ g ∷ l ∷ a ∷ t ∷ c ∷ z ∷ ps) = record {
  inumber = n;
  mode = m;
  uid = u;
  gid = g;
  links = l;
  access_time = a;
  modified_time = t;
  change_time = c;
  size = z;
  block_pointers = ps;
}
inode_of _ = record {
  inumber = 0;
  mode = 0;
  uid = 0;
  gid = 0;
  links = 0;
  access_time = 0;
  modified_time = 0;
  change_time = 0;
  size = 0;
  block_pointers = [];
}

-- `((struct sfs_fs_inode*)block)[position]`
unfoldable pub load_inode : Buffer → ℕ → Inode
load_inode b position = inode_of (load_fields inode_widths b (position * sizeof_inode))

-- Every field is in the range of its C type.
abbrev pub IsInode : Inode → Type 0
IsInode i = Fits inode_widths (inode_values i)

abbrev pub IsSuperblock : Superblock → Type 0
IsSuperblock sb = Fits superblock_widths (superblock_values sb)

-- The widths add up to `sizeof(struct sfs_fs_inode)`: three inodes fit a block.
size-inode_widths : size inode_widths ≡ sizeof_inode
unfolding size
size-inode_widths = refl

pub load_inode-IsInode : (b : Buffer) (p : ℕ) → IsInode (load_inode b p)
unfolding load_inode load_fields
load_inode-IsInode b p = Fits-load_fields inode_widths b (p * sizeof_inode)

-- An inode that is stored in a block is the one that is read back, whatever else the block holds.
pub load_inode-store_inode_self :
    (b : Buffer) (p : ℕ) (i : Inode) → IsInode i → load_inode (store_inode b p i) p ≡ i
unfolding load_inode store_inode
load_inode-store_inode_self b p i h =
    ap inode_of (load_fields-store_fields inode_widths b (p * sizeof_inode) (inode_values i) h)

-- Storing one inode leaves the others of the block alone.
pub load_inode-store_inode_ne :
    (b : Buffer) (p q : ℕ) (i : Inode) → p ≢ q → load_inode (store_inode b p i) q ≡ load_inode b q
unfolding load_inode store_inode
load_inode-store_inode_ne b p q i h = ap inode_of (
    load_fields-store_fields-Apart inode_widths b (q * sizeof_inode) inode_widths (p * sizeof_inode)
      (inode_values i) (omega (arith, size-inode_widths)))

pub load_inode-clip :
    (b : Buffer) (p : ℕ) → p < inodes_per_block → load_inode (clip b) p ≡ load_inode b p
unfolding load_inode
load_inode-clip b p h =
    ap inode_of
      (load_fields-clip inode_widths b (p * sizeof_inode) (omega (arith, size-inode_widths)))

pub load_superblock-store_superblock :
    (b : Buffer) (sb : Superblock) → IsSuperblock sb → load_superblock (store_superblock b sb) ≡ sb
unfolding load_superblock store_superblock
load_superblock-store_superblock b sb h =
    ap superblock_of (load_fields-store_fields superblock_widths b 0 (superblock_values sb) h)

pub load_superblock-clip : (b : Buffer) → load_superblock (clip b) ≡ load_superblock b
unfolding load_superblock size
load_superblock-clip b = ap superblock_of (load_fields-clip superblock_widths b 0 (omega arith))
