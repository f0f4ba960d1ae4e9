-- ===== src/Dir/Names.antt =====
-- src/dir.h and src/dir.c: an entry that `sfs_dir_link` has stored, as the searches read it.
use filesys.Prelude.{
  ℕ, zero, suc, ◌+◌, ◌*◌, ◌^◌, ◌<◌, ◌≤◌, ◌≡◌, ◌↔◌, refl, sym, subst, ◌∙◌, true, List, [], ◌∷◌, ◌++◌,
  take, replicate, length, arith,
}
use filesys.Bytes.{Buffer, clip, load-store, load-clip}
use filesys.Bytes.Fields.{size, Fits, load_fields-store_fields, load_fields-clip, load-store_fields}
use filesys.Dir.Entry.{
  sizeof_entry, entries_per_block, name_size, entry_inumber, entry_name, set_entry,
  set_entry_inumber, set_entry_name, rest_chars, same_name,
}

-- The characters of a C string.
abbrev pub IsString : List ℕ → Type 0
IsString [] = Unit
IsString (c ∷ s) = (0 < c) × (c < 256) × IsString s

-- `strncmp` does not see the padding of a stored name.
same_name-padded :
    (n k : ℕ) (a b : List ℕ) → same_name n (take n (a ++ replicate k 0)) b ≡ same_name n a b
unfolding same_name
same_name-padded zero k a b = refl
same_name-padded (suc n) zero [] b = refl
same_name-padded (suc n) (suc k) [] b = refl
same_name-padded (suc n) k (c ∷ a) b = rw (same_name-padded n k a (rest_chars b)) refl

-- `strncmp` with enough characters is equality.
same_name_iff :
    (n : ℕ) (a b : List ℕ)
    → IsString a
    → IsString b
    → length a < n
    → (same_name n a b ≡ true) ↔ (a ≡ b)
unfolding same_name
same_name_iff zero a b p q h = absurd (omega (arith, h))
same_name_iff (suc n) [] [] p q h = ground arith
same_name_iff (suc n) [] (d ∷ b) p (q, r, s) h = ground (arith, q)
same_name_iff (suc n) (c ∷ a) [] (p, r, s) q h = ground (arith, p)
same_name_iff (suc n) (c ∷ a) (d ∷ b) (p, r, s) (q, t, u) h =
    let more = same_name_iff n a b s u (omega (arith, h)) in ground (arith, p, q, more)

Fits-padded :
    (n k : ℕ) (name : List ℕ)
    → IsString name
    → n ≤ length name + k
    → Fits (replicate n 1) (take n (name ++ replicate k 0))
Fits-padded zero k name s h = tt
Fits-padded (suc n) zero [] s h = absurd (omega (arith, h))
Fits-padded (suc n) (suc k) [] s h = (omega arith, Fits-padded n k [] tt (omega (arith, h)))
Fits-padded (suc n) k (c ∷ name) (p, q, s) h = (q, Fits-padded n k name s (omega (arith, h)))

size-replicate : (n : ℕ) → size (replicate n 1) ≡ n
unfolding size
size-replicate zero = refl
size-replicate (suc n) = omega (arith, size-replicate n)

entry_inumber-set_entry :
    (b : Buffer) (j n : ℕ) (name : List ℕ)
    → j < entries_per_block
    → n < 2 ^ 64
    → entry_inumber (clip (set_entry b j n name)) j ≡ n
unfolding entry_inumber set_entry_inumber set_entry_name
entry_inumber-set_entry b j n name only h =
    load-clip 8 _ (j * sizeof_entry) (omega (arith, only))
    ∙ (load-store_fields 8 (j * sizeof_entry) (replicate name_size 1) _ (j * sizeof_entry + 8) _
          (omega (arith, only))
        ∙ load-store 8 b (j * sizeof_entry) n (omega (arith, h)))

entry_name-set_entry :
    (b : Buffer) (j n : ℕ) (name : List ℕ)
    → j < entries_per_block
    → IsString name
    → entry_name (clip (set_entry b j n name)) j ≡ take name_size (name ++ replicate name_size 0)
unfolding entry_name set_entry_name
entry_name-set_entry b j n name only s =
    load_fields-clip (replicate name_size 1) _ (j * sizeof_entry + 8)
      (rw (size-replicate name_size) (omega (arith, only)))
    ∙ load_fields-store_fields (replicate name_size 1) _ (j * sizeof_entry + 8) _
        (Fits-padded name_size name_size name s (omega arith))

-- An entry stored in a block has its inode number, and `strncmp` finds it equal to a name exactly if
-- it was stored under that name: names are C strings of at most 255 characters, and the other slots
-- and what was in the block before do not matter.
pub entry-set_entry :
    (b : Buffer) (j n : ℕ) (name other : List ℕ)
    → j < entries_per_block
    → n < 2 ^ 64
    → IsString name
    → length name ≤ 255
    → IsString other
    → (entry_inumber (clip (set_entry b j n name)) j ≡ n)
      × ((same_name 256 (entry_name (clip (set_entry b j n name)) j) other ≡ true) ↔ (name ≡ other))
entry-set_entry b j n name other only h s short t = (
  entry_inumber-set_entry b j n name only h,
  subst (λ stored. (same_name 256 stored other ≡ true) ↔ (name ≡ other))
      (sym (entry_name-set_entry b j n name only s))
      (subst (λ x. (x ≡ true) ↔ (name ≡ other)) (sym (same_name-padded 256 256 name other))
        (same_name_iff 256 name other s t (omega (arith, short)))),
)

-- Two names that `strncmp` finds equal to a third.
same_name_trans :
    (n : ℕ) (s a b : List ℕ)
    → same_name n s a ≡ true
    → same_name n s b ≡ true
    → same_name n a b ≡ true
unfolding same_name
same_name_trans zero s a b p q = refl
same_name_trans (suc n) s a b p q =
    let rest = same_name_trans n (rest_chars s) (rest_chars a) (rest_chars b) in
    ground (arith, p, q, rest)

-- A stored name is the name of one string.
pub same_name_unique :
    (s a b : List ℕ)
    → IsString a
    → IsString b
    → length a ≤ 255
    → same_name 256 s a ≡ true
    → same_name 256 s b ≡ true
    → a ≡ b
same_name_unique s a b p q short h k =
    (same_name_iff 256 a b p q (omega (arith, short))).0 (same_name_trans 256 s a b h k)

-- A block whose entry is cleared.
pub entry_inumber-cleared : (b : Buffer) → entry_inumber (clip (set_entry_inumber b 0 0)) 0 ≡ 0
unfolding entry_inumber set_entry_inumber
entry_inumber-cleared b = load-clip 8 _ 0 (omega arith) ∙ load-store 8 b 0 0 (omega arith)
