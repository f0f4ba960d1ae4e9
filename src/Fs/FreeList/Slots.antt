-- ===== src/Fs/FreeList/Slots.antt =====
-- The slots of one index node under `first_slot` and an assignment.
use filesys.Prelude.{
  ℕ, zero, suc, ◌+◌, ◌^◌, ◌≤◌, ◌<◌, ◌≡◌, refl, Bool, true, not, none, some, arith, ◌==◌,
}
use filesys.Bytes.{
  Buffer, clip, zeros, word, set_word, word-set_word, word-clip, word-zeros, clip-zeros,
}
use filesys.Fs.Blocks.{first_from, first_slot}
use filesys.Fs.FreeList.{hit, slots_count, node_count}

slots_count-set_before :
    (rounds i : ℕ) (b : Buffer) (j v a : ℕ)
    → v < 2 ^ 64
    → j < i
    → slots_count rounds i (set_word b j v) a ≡ slots_count rounds i b a
unfolding slots_count
slots_count-set_before zero i b j v a h l = refl
slots_count-set_before (suc n) i b j v a h l =
    ground
      (arith, word-set_word b j v i h, slots_count-set_before n (i + 1) b j v a h (omega arith))

slots_count-set :
    (rounds i : ℕ) (b : Buffer) (j v a : ℕ)
    → v < 2 ^ 64
    → i ≤ j
    → j < i + rounds
    → slots_count rounds i (set_word b j v) a + hit a (word b j)
      ≡ slots_count rounds i b a + hit a v
unfolding slots_count
slots_count-set zero i b j v a h l u = absurd (omega arith)
slots_count-set (suc n) i b j v a h l u = ground (
  arith,
  word-set_word b j v i h,
  slots_count-set_before n (i + 1) b j v a h,
  slots_count-set n (i + 1) b j v a h,
)

slots_count-clip :
    (rounds i : ℕ) (b : Buffer) (a : ℕ)
    → i + rounds ≤ 64
    → slots_count rounds i (clip b) a ≡ slots_count rounds i b a
unfolding slots_count
slots_count-clip zero i b a h = refl
slots_count-clip (suc n) i b a h =
    ground (arith, word-clip b i (omega arith), slots_count-clip n (i + 1) b a (omega arith))

first_from-some :
    (rounds i : ℕ) (test : ℕ → Bool) (j : ℕ)
    → first_from rounds i test ≡ some j
    → (i ≤ j) × (j < i + rounds) × (test j ≡ true)
unfolding first_from
first_from-some zero i test j h = cc
first_from-some (suc n) i test j h = ground (arith, first_from-some n (i + 1) test j)

-- With only empty slots a node counts no block.
slots_count-none :
    (rounds i : ℕ) (b : Buffer) (a : ℕ)
    → first_from rounds i (λ j. not (word b j == 0)) ≡ none
    → 0 < a
    → slots_count rounds i b a ≡ 0
unfolding first_from slots_count
slots_count-none zero i b a h p = refl
slots_count-none (suc n) i b a h p = ground (arith, slots_count-none n (i + 1) b a)

-- A slot that `first_slot` finds.
pub first_slot-some :
    (test : ℕ → Bool) (j : ℕ) → first_slot test ≡ some j → (1 ≤ j) × (j < 64) × (test j ≡ true)
unfolding first_slot
first_slot-some test j h = first_from-some 63 1 test j h

pub node_count-none :
    (b : Buffer) (a : ℕ) → first_slot (λ j. not (word b j == 0)) ≡ none → 0 < a → node_count b a ≡ 0
unfolding first_slot node_count
node_count-none b a = slots_count-none 63 1 b a

-- An assignment to a slot exchanges the old entry for the new one.
pub node_count-set :
    (b : Buffer) (j v a : ℕ)
    → v < 2 ^ 64
    → 1 ≤ j
    → j < 64
    → node_count (clip (set_word b j v)) a + hit a (word b j) ≡ node_count b a + hit a v
unfolding node_count
node_count-set b j v a h l u = omega (
  arith,
  slots_count-set 63 1 b j v a h l (omega arith),
  slots_count-clip 63 1 (set_word b j v) a (omega arith),
)

-- An assignment to the first word, the next node, changes no entry.
pub node_count-set_next :
    (b : Buffer) (v a : ℕ) → v < 2 ^ 64 → node_count (clip (set_word b 0 v)) a ≡ node_count b a
unfolding node_count
node_count-set_next b v a h = omega (
  arith,
  slots_count-set_before 63 1 b 0 v a h (omega arith),
  slots_count-clip 63 1 (set_word b 0 v) a (omega arith),
)

slots_count-zeros : (rounds i a : ℕ) → 0 < a → slots_count rounds i zeros a ≡ 0
unfolding slots_count
slots_count-zeros zero i a h = refl
slots_count-zeros (suc n) i a h = ground (arith, word-zeros i, slots_count-zeros n (i + 1) a)

pub node_count-zeros : (a : ℕ) → 0 < a → node_count (clip zeros) a ≡ 0
unfolding node_count
node_count-zeros a h = rw clip-zeros (slots_count-zeros 63 1 a h)
