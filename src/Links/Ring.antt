-- ===== src/Links/Ring.antt =====
-- What a list of showhotkeys/efilink.c is: a ring of distinct entries whose links agree.
use uefi_utilities.Base.{ℕ, ◌≡◌, ◌≢◌, ◌↔◌, List, [], ◌∷◌, ◌++◌, arith}
use uefi_utilities.Links.{Store, put_at, set_flink, set_blink}

-- From `a` over the entries `xs` to `b`, both ways.
abbrev pub Seg : Store → ℕ → List ℕ → ℕ → Type 0
Seg s a [] b = (Store.flink s a ≡ b) × (Store.blink s b ≡ a)
Seg s a (x ∷ xs) b = (Store.flink s a ≡ x) × (Store.blink s x ≡ a) × Seg s x xs b

-- `p` is none of the entries.
abbrev pub Off : ℕ → List ℕ → Type 0
Off p [] = Unit
Off p (x ∷ xs) = (p ≢ x) × Off p xs

abbrev pub Apart : List ℕ → Type 0
Apart [] = Unit
Apart (x ∷ xs) = Off x xs × Apart xs

-- The list with this head and these entries.
abbrev pub Ring : Store → ℕ → List ℕ → Type 0
Ring s head xs = Seg s head xs head × Off head xs × Apart xs

pub Seg-set_flink :
    (s : Store) (p v a : ℕ) (xs : List ℕ) (b : ℕ)
    → p ≢ a
    → Off p xs
    → Seg s a xs b
    → Seg (set_flink p v s) a xs b
unfolding put_at
Seg-set_flink s p v a [] b ne off h = ground arith
Seg-set_flink s p v a (x ∷ xs) b ne off h =
    ground (arith, Seg-set_flink s p v x xs b off.0 off.1 h.2)

pub Seg-set_blink :
    (s : Store) (p v a : ℕ) (xs : List ℕ) (b : ℕ)
    → p ≢ b
    → Off p xs
    → Seg s a xs b
    → Seg (set_blink p v s) a xs b
unfolding put_at
Seg-set_blink s p v a [] b ne off h = ground arith
Seg-set_blink s p v a (x ∷ xs) b ne off h = ground (arith, Seg-set_blink s p v x xs b ne off.1 h.2)

pub Seg-join :
    (s : Store) (a : ℕ) (xs : List ℕ) (x : ℕ) (ys : List ℕ) (b : ℕ)
    → Seg s a (xs ++ x ∷ ys) b ↔ (Seg s a xs x × Seg s x ys b)
Seg-join s a [] x ys b = ground arith
Seg-join s a (y ∷ xs) x ys b = ground (arith, Seg-join s y xs x ys b)

pub Off-append : (p : ℕ) (xs ys : List ℕ) → Off p (xs ++ ys) ↔ (Off p xs × Off p ys)
Off-append p [] ys = ground arith
Off-append p (x ∷ xs) ys = ground (arith, Off-append p xs ys)
