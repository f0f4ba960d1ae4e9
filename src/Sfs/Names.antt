-- ===== src/Sfs/Names.antt =====
-- src/dir.c: a directory as a partial map from names to inode numbers, and what an entry that is put
-- into a free slot, and one that is cleared, are to it.
use filesys.Prelude.{
  ℕ, ◌+◌, ◌-◌, ◌^◌, ◌<◌, ◌≤◌, ◌≡◌, ◌≢◌, ◌↔◌, refl, sym, subst, ap, ◌∙◌, true, false, not, Option,
  none, some, List, [], ◌∷◌, length, ◌==◌, arith, if◌then◌else◌, Bool-cases, Option-cases, inl, inr,
}
use filesys.Bytes.{Buffer, clip}
use filesys.Fs.Blocks.{first_from}
use filesys.Dir.Entry.{entry_inumber, entry_name, set_entry, set_entry_inumber, same_name}
use filesys.Dir.FirstFrom.{first_from-ext, first_from-only, first_from-removed, first_from-some}
use filesys.Dir.Contents.{is_used, has_name}
use filesys.Dir.Names.{IsString, entry-set_entry, same_name_unique, entry_inumber-cleared}
use filesys.Dir.Replace.{replaced}
use filesys.Dir.LinkSlot.{is_free}
use filesys.Sfs.State.{str_eq}
use filesys.Sfs.Search.{is_named}

str_eq_iff : (a b : List ℕ) → (str_eq a b ≡ true) ↔ (a ≡ b)
unfolding str_eq
str_eq_iff [] [] = ground arith
str_eq_iff [] (d ∷ b) = ground arith
str_eq_iff (c ∷ a) [] = ground arith
str_eq_iff (c ∷ a) (d ∷ b) = let rest = str_eq_iff a b in ground (arith, rest)

-- The inode number in block `k`.
abbrev pub number_at : (content : ℕ → Buffer) → Option ℕ → Option ℕ
number_at content none = none
number_at content (some k) = some (entry_inumber (content k) 0)

-- The inode number that a directory of `m` blocks has for a name.
unfoldable pub lookup : (m : ℕ) → (content : ℕ → Buffer) → List ℕ → Option ℕ
lookup m content name = number_at content (first_from m 0 (is_named name content))

module _ (m i : ℕ) (content : ℕ → Buffer) (block : Buffer) where
  -- Away from block `i` nothing changes.
  is_named-away :
      (name : List ℕ) (k : ℕ)
      → k ≢ i
      → is_named name (replaced content i block) k ≡ is_named name content k
  unfolding is_used has_name replaced
  is_named-away name k ne = let away : (k == i) ≡ false = ground (arith, ne) in rw away refl

  replaced-here : replaced content i block i ≡ clip block
  unfolding replaced
  replaced-here = ground arith

  replaced-away : (k : ℕ) → k ≢ i → replaced content i block k ≡ content k
  unfolding replaced
  replaced-away k ne = ground (arith, ne)

  -- A name that block `i` has neither before nor after.
  lookup-other :
      (other : List ℕ)
      → is_named other content i ≡ false
      → is_named other (replaced content i block) i ≡ false
      → lookup m (replaced content i block) other ≡ lookup m content other
  unfolding lookup
  lookup-other other before after =
      let same =
        first_from-ext m 0 (is_named other content) (is_named other (replaced content i block))
          λ k _. elim (Bool-cases (k == i)) [
            | inl e ↦
                let here : k ≡ i = ground (arith, e) in
                subst (λ j. is_named other (replaced content i block) j ≡ is_named other content j)
                  (sym here) (after ∙ sym before)
            | inr e ↦ is_named-away other k (ground (arith, e))
          ] in
      rw same (elim (Option-cases (first_from m 0 (is_named other content))) [
        | inl e ↦ rw e refl
        | inr (k, e) ↦
            let (_, _, named, _) = first_from-some m 0 k (is_named other content) (λ _. true) e in
            let away : k ≢ i =
              λ here. ground (arith, named, ap (is_named other content) here, before) in
            rw e (ap (λ b. some (entry_inumber b 0)) (replaced-away k away))
      ])

  -- The entry at block `i` is the only one of its name.
  lookup-here :
      (name : List ℕ) (n : ℕ)
      → i < m
      → lookup m content name ≡ none
      → is_named name (replaced content i block) i ≡ true
      → entry_inumber (clip block) 0 ≡ n
      → lookup m (replaced content i block) name ≡ some n
  unfolding lookup
  lookup-here name n below fresh named number =
      let none_before : first_from m 0 (is_named name content) ≡ none =
        elim (Option-cases (first_from m 0 (is_named name content))) [
          | inl e ↦ e
          | inr (k, e) ↦ ground (arith, ap (number_at content) e, fresh)
        ] in
      let first =
        first_from-only m 0 i (is_named name content) (is_named name (replaced content i block))
          none_before (is_named-away name) named (omega arith) (omega (arith, below)) in
      rw first (ap (λ b. some (entry_inumber b 0)) replaced-here ∙ ap some number)

  -- The entry at block `i` was the only one of its name.
  lookup-gone :
      (name : List ℕ)
      → first_from m 0 (is_named name content) ≡ some i
      → first_from (m - (i + 1)) (i + 1) (is_named name content) ≡ none
      → is_named name (replaced content i block) i ≡ false
      → lookup m (replaced content i block) name ≡ none
  unfolding lookup
  lookup-gone name first only gone =
      let count : m - (i + 1) ≡ 0 + m - (i + 1) = omega arith in
      let only' = subst (λ c. first_from c (i + 1) (is_named name content) ≡ none) count only in
      let none_after =
        first_from-removed m 0 i (is_named name content) (is_named name (replaced content i block))
          first only' (is_named-away name) gone in
      rw none_after refl

-- A new name in a free slot is added to the map.
pub lookup-linked :
    (m i n : ℕ) (content : ℕ → Buffer) (name other : List ℕ)
    → i < m
    → 0 < n
    → n < 2 ^ 64
    → IsString name
    → length name ≤ 255
    → IsString other
    → is_free content i ≡ true
    → lookup m content name ≡ none
    → lookup m (replaced content i (set_entry (content i) 0 n name)) other
      ≡ (if str_eq other name then some n else lookup m content other)
unfolding is_free is_used has_name
lookup-linked m i n content name other below positive small s short t free fresh =
    let block = set_entry (content i) 0 n name in
    let (number, names) =
      entry-set_entry (content i) 0 n name other (omega arith) small s short t in
    let here = replaced-here m i content block in
    let used : is_used (replaced content i block) i ≡ true =
      ap (λ b. not (entry_inumber b 0 == 0)) here ∙ ground (arith, number, positive) in
    let stored : has_name other (replaced content i block) i
        ≡ same_name 256 (entry_name (clip block) 0) other =
      ap (λ b. same_name 256 (entry_name b 0) other) here in
    let equal = str_eq_iff other name in
    elim (Bool-cases (str_eq other name)) [
      | inl e ↦
          let same = equal.0 e in
          let named : is_named other (replaced content i block) i ≡ true =
            ground (arith, used, stored, names.1 (sym same)) in
          let fresh' = subst (λ x. lookup m content x ≡ none) (sym same) fresh in
          rw e (lookup-here m i content block other n below fresh' named number)
      | inr e ↦
          let before : is_named other content i ≡ false = ground (arith, free) in
          let after : is_named other (replaced content i block) i ≡ false =
            ground (arith, used, stored, names.0, equal.1, e) in
          rw e (lookup-other m i content block other before after)
    ]

-- The name of an entry that is cleared is taken out of the map.
pub lookup-unlinked :
    (m i : ℕ) (content : ℕ → Buffer) (name other : List ℕ)
    → IsString name
    → length name ≤ 255
    → IsString other
    → first_from m 0 (is_named name content) ≡ some i
    → first_from (m - (i + 1)) (i + 1) (is_named name content) ≡ none
    → lookup m (replaced content i (set_entry_inumber (content i) 0 0)) other
      ≡ (if str_eq other name then none else lookup m content other)
unfolding is_used has_name
lookup-unlinked m i content name other s short t first only =
    let block = set_entry_inumber (content i) 0 0 in
    let (_, _, named, _) = first_from-some m 0 i (is_named name content) (λ _. true) first in
    let unused : is_used (replaced content i block) i ≡ false =
      ap (λ b. not (entry_inumber b 0 == 0)) (replaced-here m i content block)
      ∙ ground (arith, entry_inumber-cleared (content i)) in
    let gone : (x : List ℕ) → is_named x (replaced content i block) i ≡ false =
      λ x. ground (arith, unused) in
    let equal = str_eq_iff other name in
    elim (Bool-cases (str_eq other name)) [
      | inl e ↦ rw e (
          subst (λ x. lookup m (replaced content i block) x ≡ none) (sym (equal.0 e))
            (lookup-gone m i content block name first only (gone name)))
      | inr e ↦
          let before : is_named other content i ≡ false =
            elim (Bool-cases (is_named other content i)) [
              | inl also ↦
                  let same =
                    same_name_unique (entry_name (content i) 0) name other s t short
                      (ground (arith, named)) (ground (arith, also)) in
                  ground (arith, equal.1 (sym same), e)
              | inr differs ↦ differs
            ] in
          rw e (lookup-other m i content block other before (gone other))
    ]
