-- ===== src/Smbios/Layout.antt =====
-- Structures of an SMBIOS table as they are laid out: the header, the formatted area, and the strings,
-- each behind the other with its NUL, and a last NUL; a structure without strings has two NULs.
use uefi_utilities.Base.{ℕ, ◌+◌, ◌/◌, ◌%◌, ◌≡◌, ◌≢◌, subst, List, [], ◌∷◌, ◌++◌, arith, length}
use uefi_utilities.Smbios.{Memory}

-- The memory has these bytes at an address.
abbrev pub Has : Memory → ℕ → List ℕ → Type 0
Has mem p [] = Unit
Has mem p (b ∷ bs) = (mem p ≡ b) × Has mem (p + 1) bs

pub Has-behind :
    (mem : Memory) (p : ℕ) (xs ys : List ℕ) → Has mem p (xs ++ ys) → Has mem (p + length xs) ys
Has-behind mem p [] ys h = subst (λ q. Has mem q ys) (omega arith) h
Has-behind mem p (x ∷ xs) ys h =
    subst (λ q. Has mem q ys) (omega arith) (Has-behind mem (p + 1) xs ys h.1)

pub Has-front : (mem : Memory) (p : ℕ) (xs ys : List ℕ) → Has mem p (xs ++ ys) → Has mem p xs
Has-front mem p [] ys h = tt
Has-front mem p (x ∷ xs) ys h = (h.0, Has-front mem (p + 1) xs ys h.1)

-- A string has a character, and no NUL.
abbrev pub NoNul : List ℕ → Type 0
NoNul [] = Unit
NoNul (c ∷ cs) = (c ≢ 0) × NoNul cs

abbrev pub IsString : List ℕ → Type 0
IsString [] = ⊥
IsString (c ∷ cs) = (c ≢ 0) × NoNul cs

abbrev pub AreStrings : List (List ℕ) → Type 0
AreStrings [] = Unit
AreStrings (s ∷ ss) = IsString s × AreStrings ss

-- The strings to the last NUL.
abbrev pub string_bytes : List (List ℕ) → List ℕ
string_bytes [] = 0 ∷ []
string_bytes (s ∷ ss) = s ++ 0 ∷ string_bytes ss

abbrev pub area : List (List ℕ) → List ℕ
area [] = 0 ∷ 0 ∷ []
area (s ∷ ss) = string_bytes (s ∷ ss)

pub record Entry : Type 0 where
  pub kind : ℕ
  pub handle : ℕ
  pub formatted : List ℕ
  pub strings : List (List ℕ)

abbrev pub encode : Entry → List ℕ
encode e =
    Entry.kind e
    ∷ (4 + length (Entry.formatted e))
    ∷ (Entry.handle e % 256)
    ∷ (Entry.handle e / 256)
    ∷ (Entry.formatted e ++ area (Entry.strings e))

-- The structures behind each other.
abbrev pub table_bytes : List Entry → List ℕ
table_bytes [] = []
table_bytes (e ∷ es) = encode e ++ table_bytes es
