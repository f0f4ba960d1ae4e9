-- ===== src/Bytes/Fields.antt =====
-- C structs and arrays as runs of scalars with no padding between them: the widths of the fields in
-- order, and their values in the same order.
use filesys.Prelude.{ℕ, ◌+◌, ◌^◌, ◌≤◌, ◌<◌, ◌≡◌, refl, ◌∙◌, List, [], ◌∷◌, arith}
use filesys.Bytes.{
  Buffer, Apart, clip, load, store, load-store, load-store-Apart, load-clip, load-lt,
}

-- sizeof
unfoldable pub size : List ℕ → ℕ
size [] = 0
size (w ∷ ws) = w + size ws

unfoldable pub load_fields : List ℕ → Buffer → ℕ → List ℕ
load_fields [] b o = []
load_fields (w ∷ ws) b o = load w b o ∷ load_fields ws b (o + w)

unfoldable pub store_fields : List ℕ → Buffer → ℕ → List ℕ → Buffer
store_fields [] b o vs = b
store_fields (w ∷ ws) b o [] = b
store_fields (w ∷ ws) b o (v ∷ vs) = store_fields ws (store w b o v) (o + w) vs

-- One value for each field, in the range of the field.
abbrev pub Fits : List ℕ → List ℕ → Type 0
Fits [] [] = Unit
Fits [] (v ∷ vs) = ⊥
Fits (w ∷ ws) [] = ⊥
Fits (w ∷ ws) (v ∷ vs) = (v < 256 ^ w) × Fits ws vs

pub Fits-load_fields : (ws : List ℕ) (b : Buffer) (o : ℕ) → Fits ws (load_fields ws b o)
unfolding load_fields
Fits-load_fields [] b o = tt
Fits-load_fields (w ∷ ws) b o = (load-lt w b o, Fits-load_fields ws b (o + w))

pub load-store_fields :
    (n o : ℕ) (ws : List ℕ) (b : Buffer) (p : ℕ) (vs : List ℕ)
    → Apart n o (size ws) p
    → load n (store_fields ws b p vs) o ≡ load n b o
unfolding store_fields size
load-store_fields n o [] b p vs h = refl
load-store_fields n o (w ∷ ws) b p [] h = refl
load-store_fields n o (w ∷ ws) b p (v ∷ vs) h =
    load-store_fields n o ws (store w b p v) (p + w) vs (omega arith)
    ∙ load-store-Apart n b o w p v (omega arith)

pub load_fields-store_fields :
    (ws : List ℕ) (b : Buffer) (o : ℕ) (vs : List ℕ)
    → Fits ws vs
    → load_fields ws (store_fields ws b o vs) o ≡ vs
unfolding load_fields store_fields
load_fields-store_fields [] b o [] h = refl
load_fields-store_fields [] b o (v ∷ vs) h = absurd h
load_fields-store_fields (w ∷ ws) b o [] h = absurd h
load_fields-store_fields (w ∷ ws) b o (v ∷ vs) h = cc (
  load-store_fields w o ws (store w b o v) (o + w) vs (omega arith),
  load-store w b o v h.0,
  load_fields-store_fields ws (store w b o v) (o + w) vs h.1,
)

pub load_fields-store_fields-Apart :
    (ws : List ℕ) (b : Buffer) (o : ℕ) (us : List ℕ) (p : ℕ) (vs : List ℕ)
    → Apart (size ws) o (size us) p
    → load_fields ws (store_fields us b p vs) o ≡ load_fields ws b o
unfolding load_fields size
load_fields-store_fields-Apart [] b o us p vs h = refl
load_fields-store_fields-Apart (w ∷ ws) b o us p vs h = cc (
  load-store_fields w o us b p vs (omega arith),
  load_fields-store_fields-Apart ws b (o + w) us p vs (omega arith),
)

pub load_fields-clip :
    (ws : List ℕ) (b : Buffer) (o : ℕ)
    → o + size ws ≤ 512
    → load_fields ws (clip b) o ≡ load_fields ws b o
unfolding load_fields size
load_fields-clip [] b o h = refl
load_fields-clip (w ∷ ws) b o h =
    cc (load-clip w b o (omega arith), load_fields-clip ws b (o + w) (omega arith))
