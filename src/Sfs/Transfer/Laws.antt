-- ===== src/Sfs/Transfer/Laws.antt =====
-- src/sfs.c: what `sfs_read` brings of the direct blocks of a file.
use filesys.Prelude.{
  ℕ, zero, suc, ◌+◌, ◌-◌, ◌*◌, ◌/◌, ◌%◌, ◌≤◌, ◌≡◌, ◌∙◌, ltb, leb, ◌&&◌, arith, if◌then◌else◌,
}
use filesys.Bytes.{Buffer}
use filesys.Outcome.{Ensures, returns, Ensures-bind, Ensures-mono}
use filesys.Os.{Os, IsPosix}
use filesys.Fs.Layout.{Inode, ndir_blocks}
use filesys.Fs.State.{Filesystem}
use filesys.Fs.BlockMap.Contents.{Holds, inode_block_read-Holds}
use filesys.Sfs.Transfer.{Span, slice_a, slice_b, is_whole, address, copy, deliver, read_blocks}

-- Memory into which the blocks from `first` to before `end` of a file have been read, at the offset
-- that they have in the file.
unfoldable pub delivered : (content : ℕ → Buffer) → (buf first end : ℕ) → (memory : Buffer) → Buffer
delivered content buf first end memory a =
    if leb (buf + first * 512) a && ltb a (buf + end * 512)
    then content ((a - buf) / 512) ((a - buf) % 512)
    else memory a

delivered-none :
    (content : ℕ → Buffer) (buf iblock : ℕ) (memory : Buffer) (a : ℕ)
    → memory a ≡ delivered content buf iblock (iblock + 0) memory a
unfolding delivered
delivered-none content buf iblock memory a = ground arith

deliver-whole :
    (p : Span) (buf iblock : ℕ) (b memory : Buffer) (a : ℕ)
    → p.first_block_offset ≡ 0
    → p.last_block_len ≡ 512
    → deliver p buf iblock b memory a ≡ copy memory (buf + iblock * 512) 512 b a
unfolding deliver is_whole slice_a slice_b address copy
deliver-whole p buf iblock b memory a start stop = ground arith

delivered-more :
    (content : ℕ → Buffer) (p : Span) (buf rounds iblock : ℕ) (b memory : Buffer) (a : ℕ)
    → p.first_block_offset ≡ 0
    → p.last_block_len ≡ 512
    → b ≡ content iblock
    → delivered content buf (iblock + 1) (iblock + 1 + rounds) (deliver p buf iblock b memory) a
      ≡ delivered content buf iblock (iblock + suc rounds) memory a
unfolding delivered copy
delivered-more content p buf rounds iblock b memory a start stop e =
    ground (arith, deliver-whole p buf iblock b memory a start stop)

module _ ⦃os : Os⦄ (px : IsPosix os) where
  -- The loop over whole blocks puts them one behind the other.
  pub read_blocks-Holds :
      (content : ℕ → Buffer) (p : Span) (buf rounds iblock : ℕ) (inode : Inode) (memory : Buffer)
      (fs : Filesystem)
      → p.first_block_offset ≡ 0
      → p.last_block_len ≡ 512
      → iblock + rounds ≤ ndir_blocks
      → Holds px content inode fs
      → Ensures
          (λ m fs'. (a : ℕ) → m a ≡ delivered content buf iblock (iblock + rounds) memory a)
          (λ _. Unit {0})
          (read_blocks rounds iblock p buf inode memory fs)
  unfolding read_blocks
  read_blocks-Holds content p buf zero iblock inode memory fs start stop direct h =
      returns (λ a. delivered-none content buf iblock memory a)
  read_blocks-Holds content p buf (suc rounds) iblock inode memory fs start stop direct h =
      Ensures-bind (inode_block_read-Holds px content inode fs iblock (omega (arith, direct)) h)
        (λ b fs' (e, h').
          Ensures-mono
            (read_blocks-Holds content p buf rounds (iblock + 1) inode
              (deliver p buf iblock b memory) fs' start stop (omega (arith, direct)) h')
            (λ m fs'' all a.
              all a ∙ delivered-more content p buf rounds iblock b memory a start stop e)
            λ _ _. tt)
        λ _ _. tt
