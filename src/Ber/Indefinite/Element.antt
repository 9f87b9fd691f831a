-- ===== src/Ber/Indefinite/Element.antt =====
-- The byte strings that BER encoding allows, as a grammar: elements of definite length, and
-- constructed elements of indefinite length up to their end of contents. It is independent of
-- the code.
use uefi_utilities.Base.{
  ℕ, ◌+◌, ◌*◌, ◌%◌, ◌≤◌, ◌<◌, ◌≡◌, ◌≢◌, ◌⊎◌, true, false, List, [], ◌∷◌, ◌++◌, length, has_bit,
}

-- End of contents.
abbrev pub eoc : List ℕ
eoc = 0 ∷ 0 ∷ []

-- The later bytes of a long tag: all but the last have bit 7.
abbrev pub LongTag : List ℕ → Type 0
LongTag [] = ⊥
LongTag (b ∷ []) = has_bit b 7 ≡ false
LongTag (b ∷ c ∷ bs) = (has_bit b 7 ≡ true) × LongTag (c ∷ bs)

abbrev pub IsTag : ℕ → List ℕ → Type 0
IsTag tag more = (tag ≢ 0) × (((tag % 32 ≢ 31) × (more ≡ [])) ⊎ ((tag % 32 ≡ 31) × LongTag more))

-- The number that bytes stand for, the high byte first.
abbrev pub big_endian : ℕ → List ℕ → ℕ
big_endian acc [] = acc
big_endian acc (b ∷ bs) = big_endian (acc * 256 + b) bs

-- Length bytes for `n`: one byte below 0x7f, or a count of up to seven bytes and those bytes.
pub data IsLength (n : ℕ) : List ℕ → Type 0 where
  short : n < 0x7f → IsLength n (n ∷ [])
  long :
      (bs : List ℕ)
      → 1 ≤ length bs
      → length bs ≤ 7
      → big_endian 0 bs ≡ n
      → IsLength n ((0x80 + length bs) ∷ bs)

mutual
  pub data Element : List ℕ → Type 0 where
    definite :
        (tag : ℕ) (more len content : List ℕ)
        → IsTag tag more
        → IsLength (length content) len
        → Element (tag ∷ (more ++ (len ++ content)))
    indefinite :
        (tag : ℕ) (more body : List ℕ)
        → IsTag tag more
        → has_bit tag 5 ≡ true
        → Elements body
        → Element (tag ∷ (more ++ (0x80 ∷ (body ++ eoc))))

  pub data Elements : List ℕ → Type 0 where
    nil : Elements []
    cons : (x xs : List ℕ) → Element x → Elements xs → Elements (x ++ xs)
