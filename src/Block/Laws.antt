-- ===== src/Block/Laws.antt =====
-- Block reads and writes in terms of the contents of the disk file's blocks.
use filesys.Prelude.{ℕ, ◌+◌, ◌*◌, ◌≤◌, ◌<◌, ◌≡◌, ◌≢◌, fun_ext, ◌∙◌, ap, true, arith, sym, ◌⊎◌}
use filesys.Bytes.{Buffer, clip}
use filesys.Os.{Ret, error, count, Os, IsPosix}
use filesys.Block.{offset_of, filled, block_read, block_write, is_full, Addressable, block_at}

is_full→count : (r : Ret) → is_full r ≡ true → r ≡ count 512
unfolding is_full
is_full→count error h = cc
is_full→count (count n) h = ground arith

offset_of_lem : (k : ℕ) → Addressable k → offset_of k ≡ k * 512
unfolding offset_of
offset_of_lem k h = omega arith

clip-ext : (b c : Buffer) → ((i : ℕ) → i < 512 → b i ≡ c i) → clip b ≡ clip c
unfolding clip
clip-ext b c h = fun_ext λ i. ground (arith, h i)

filled_full : (moved old : Buffer) → filled (count 512) moved old ≡ clip moved
unfolding filled
filled_full moved old = clip-ext _ moved λ i h. ground arith

module _ ⦃os : Os⦄ (px : IsPosix os) where
  -- A full read delivers the block.
  pub block_read-full :
      (k : ℕ) (old : Buffer) (s : os.State)
      → Addressable k
      → is_full (block_read k old s).0 ≡ true
      → (block_read k old s).1 ≡ block_at px s k
  unfolding block_read block_at
  block_read-full k old s a h =
      let moves = os.pread 512 (offset_of k) s in
      let r : moves.0 ≡ count 512 = is_full→count _ h in
      ap (λ ret. filled ret moves.1 old) r
      ∙ filled_full moves.1 old
      ∙ clip-ext _ _ λ i l.
        px.pread_full 512 (offset_of k) s i r l ∙ ap (λ o. px.byte s (o + i)) (offset_of_lem k a)

  -- No read changes a block.
  pub block_at-block_read :
      (k : ℕ) (old : Buffer) (s : os.State) (j : ℕ)
      → block_at px (block_read k old s).2 j ≡ block_at px s j
  unfolding block_read block_at
  block_at-block_read k old s j =
      clip-ext _ _ λ i l. px.pread_keeps 512 (offset_of k) s (j * 512 + i)

  pub block_at-block_write_self :
      (k : ℕ) (b : Buffer) (s : os.State)
      → Addressable k
      → is_full (block_write k b s).0 ≡ true
      → block_at px (block_write k b s).1 k ≡ clip b
  unfolding block_write block_at
  block_at-block_write_self k b s a h = clip-ext _ _ λ i l.
      ap (λ o. px.byte (os.pwrite b 512 (offset_of k) s).1 (o + i)) (sym (offset_of_lem k a))
      ∙ px.pwrite_full b 512 (offset_of k) s i (is_full→count _ h) l

  -- A write to one block, full or not, leaves every other.
  pub block_at-block_write_ne :
      (k : ℕ) (b : Buffer) (s : os.State) (j : ℕ)
      → Addressable k
      → k ≢ j
      → block_at px (block_write k b s).1 j ≡ block_at px s j
  unfolding block_write block_at
  block_at-block_write_ne k b s j a ne = clip-ext _ _ λ i l.
      px.pwrite_outside b 512 (offset_of k) s (j * 512 + i)
        (rw (offset_of_lem k a) (apart k j i l ne))
    where
      apart :
          (k j i : ℕ) → i < 512 → k ≢ j → (j * 512 + i < k * 512) ⊎ (k * 512 + 512 ≤ j * 512 + i)
      apart k j i l ne = omega arith

  pub block_at-time : (s : os.State) (j : ℕ) → block_at px (os.time s).1 j ≡ block_at px s j
  unfolding block_at
  block_at-time s j = clip-ext _ _ λ i l. px.time_keeps s (j * 512 + i)

  pub block_at-malloc : (s : os.State) (j : ℕ) → block_at px (os.malloc s).1 j ≡ block_at px s j
  unfolding block_at
  block_at-malloc s j = clip-ext _ _ λ i l. px.malloc_keeps s (j * 512 + i)

  pub block_at-fstat : (s : os.State) (j : ℕ) → block_at px (os.fstat s).1 j ≡ block_at px s j
  unfolding block_at
  block_at-fstat s j = clip-ext _ _ λ i l. px.fstat_keeps s (j * 512 + i)

  pub clip-block_at : (s : os.State) (j : ℕ) → clip (block_at px s j) ≡ block_at px s j
  unfolding block_at clip
  clip-block_at s j = fun_ext λ i. ground arith
