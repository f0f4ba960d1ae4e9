-- ===== src/Block.antt =====
-- src/block.c: whole blocks of the disk file, read and written at their offset.
pub mod Laws
use filesys.Prelude.{
  ℕ, zero, suc, ◌+◌, ◌-◌, ◌*◌, ◌%◌, ◌^◌, ◌≤◌, ◌<◌, ◌≡◌, ◌≢◌, refl, fun_ext, ◌∙◌, Bool, true, false,
  arith, ltb, ◌==◌, if◌then◌else◌, inl, inr,
}
use filesys.Bytes.{Buffer, zeros, clip}
use filesys.Os.{Ret, error, count, Os, IsPosix}

-- BLOCK_SIZE
abbrev pub block_size : ℕ
block_size = 512

-- `block_num * BLOCK_SIZE`, in 64 bits.
unfoldable pub offset_of : ℕ → ℕ
offset_of block_num = (block_num * block_size) % 2 ^ 64

-- The buffer after a `pread` that returned `ret`: zeroed if nothing was read.
unfoldable pub filled : Ret → Buffer → Buffer → Buffer
filled error moved old = zeros
filled (count zero) moved old = zeros
filled (count (suc n)) moved old = clip (λ i. if ltb i (suc n) then moved i else old i)

module _ ⦃os : Os⦄ where
  unfoldable pub block_read : ℕ → Buffer → os.State → Ret × Buffer × os.State
  unfolding filled
  block_read block_num block s =
      let (ret, moved, s') = os.pread block_size (offset_of block_num) s in
      (ret, filled ret moved block, s')

  unfoldable pub block_write : ℕ → Buffer → os.State → Ret × os.State
  block_write block_num block s = os.pwrite block block_size (offset_of block_num) s

-- `ret == BLOCK_SIZE`
unfoldable pub is_full : Ret → Bool
is_full error = false
is_full (count n) = n == block_size

-- The block lies where its 64-bit offset does not wrap round.
abbrev pub Addressable : ℕ → Type 0
Addressable k = k < 2 ^ 55

module _ ⦃os : Os⦄ (px : IsPosix os) where
  -- The contents of block `k` of the disk file.
  unfoldable pub block_at : os.State → ℕ → Buffer
  block_at s k = clip (λ i. px.byte s (k * 512 + i))
