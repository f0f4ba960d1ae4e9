-- ===== src/Fs/Stamps.antt =====
-- The fields of an inode that src/fs.c, src/dir.c and src/sfs.c set stay in their ranges.
use filesys.Prelude.{ℕ, ◌%◌, ◌^◌, arith}
use filesys.Fs.Layout.{Inode, IsInode}

-- The access time is in the range of its field.
pub accessed-IsInode :
    (i : Inode) (t : ℕ) → IsInode i → IsInode (record i { access_time = t % 2 ^ 64 })
accessed-IsInode i t (a, (b, (c, (d, (e, (f, rest)))))) =
    (a, (b, (c, (d, (e, (omega arith, rest))))))

pub sized-IsInode :
    (i : Inode) (t size : ℕ)
    → IsInode i
    → IsInode (record i { change_time = t % 2 ^ 64; size = size % 2 ^ 64 })
sized-IsInode i t size (a, (b, (c, (d, (e, (f, (g, (h, (z, rest))))))))) =
    (a, (b, (c, (d, (e, (f, (g, (omega arith, (omega arith, rest)))))))))

pub modified-IsInode :
    (i : Inode) (t : ℕ) → IsInode i → IsInode (record i { modified_time = t % 2 ^ 64 })
modified-IsInode i t (a, (b, (c, (d, (e, (f, (g, rest))))))) =
    (a, (b, (c, (d, (e, (f, (omega arith, rest)))))))

pub links-IsInode :
    (i : Inode) (links t : ℕ)
    → IsInode i
    → IsInode (record i { links = links % 2 ^ 32; change_time = t % 2 ^ 64 })
links-IsInode i links t (a, (b, (c, (d, (e, (f, (g, (h, rest)))))))) =
    (a, (b, (c, (d, (omega arith, (f, (g, (omega arith, rest))))))))
