-- ===== src/Sfs/Transfer/Spans.antt =====
-- src/sfs.c: the blocks and slices that `sfs_read` and `sfs_write` cut a transfer into.
use filesys.Prelude.{ℕ, ◌+◌, ◌*◌, ◌/◌, ◌%◌, ◌^◌, ◌<◌, ◌≤◌, ◌≡◌, refl, Bool, ltb, leb, ◌&&◌, arith}
use filesys.Bytes.{Buffer}
use filesys.Fs.Layout.{ndir_blocks}
use filesys.Sfs.Transfer.{Span, span, slice_a, slice_b, is_whole, deliver, rounds_of}

-- Byte `r` of block `iblock` of the file is in the slice of that block, in a round of the loop.
unfoldable pub is_covered : Span → (iblock r : ℕ) → Bool
is_covered p iblock r =
    leb p.first_block iblock
    && leb iblock p.last_block
    && (leb (slice_a p iblock) r && ltb r (slice_b p iblock))

pub span-is_covered :
    (size offset iblock r : ℕ)
    → 0 < size
    → offset + size < 2 ^ 64
    → r < 512
    → is_covered (span size offset) iblock r
      ≡ leb offset (iblock * 512 + r) && ltb (iblock * 512 + r) (offset + size)
unfolding is_covered span slice_a slice_b
span-is_covered size offset iblock r p h b =
    let e : (offset + size) % 2 ^ 64 ≡ offset + size = omega (arith, h) in
    rw e (ground (arith, p, b))

-- The span of whole blocks.
pub span-whole :
    (first rounds : ℕ)
    → 0 < rounds
    → first + rounds ≤ ndir_blocks
    → ((span (rounds * 512) (first * 512)).first_block ≡ first)
      × ((span (rounds * 512) (first * 512)).first_block_offset ≡ 0)
      × ((span (rounds * 512) (first * 512)).last_block_len ≡ 512)
      × (rounds_of (span (rounds * 512) (first * 512)) ≡ rounds)
unfolding span
span-whole first rounds some_blocks direct = (omega arith, omega arith, ground arith, ground arith)

-- The span of bytes in the midst of a block.
pub span-within :
    (size offset : ℕ)
    → 0 < size
    → 0 < offset % 512
    → offset % 512 + size ≤ 512
    → offset / 512 < ndir_blocks
    → ((span size offset).first_block ≡ offset / 512) × (rounds_of (span size offset) ≡ 1)
unfolding span
span-within size offset some_bytes inside one direct = (refl, ground arith)

pub deliver-within :
    (size offset buf : ℕ) (b memory : Buffer) (a : ℕ)
    → 0 < offset % 512
    → deliver (span size offset) buf (offset / 512) b memory a ≡ memory a
unfolding deliver is_whole slice_a span
deliver-within size offset buf b memory a inside = ground arith
