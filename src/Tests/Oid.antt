-- ===== src/Tests/Oid.antt =====
-- The identifier registry of listcerts/oid_registry.c at concrete inputs.
use uefi_utilities.Base.{
  ℕ, zero, suc, ap, take, length, ◌≤◌, ◌*◌, ◌/◌, ◌-◌, ◌+◌, ◌≡◌, refl, List, [], ◌∷◌, arith,
}
use uefi_utilities.Oid.Registry.{Oid}
use uefi_utilities.Oid.Dotted.{arcs, encode}
use uefi_utilities.Oid.Lookup.{lookup_oid, hit}
use uefi_utilities.Oid.Search.{IsLookup, lookup_oid-IsLookup}
use uefi_utilities.Oid.Sprint.{printed, sprint_oid}
use uefi_utilities.Oid.Sprint.Print.{sprint_oid-encode}

lookup_title : lookup_oid (85 ∷ 4 ∷ 12 ∷ []) ≡ hit Oid.title
unfolding lookup_oid
lookup_title = refl

encode_md2 : encode (arcs Oid.md2) ≡ 42 ∷ 134 ∷ 72 ∷ 134 ∷ 247 ∷ 13 ∷ 2 ∷ 2 ∷ []
unfolding encode arcs
encode_md2 = refl

lookup_oid-IsLookup_example : IsLookup (85 ∷ 4 ∷ 12 ∷ []) (lookup_oid (85 ∷ 4 ∷ 12 ∷ []))
lookup_oid-IsLookup_example = lookup_oid-IsLookup (85 ∷ 4 ∷ 12 ∷ [])

take-length : (n : ℕ) (text : List ℕ) → length text ≤ n → take n text ≡ text
take-length zero [] h = refl
take-length zero (x ∷ text) h = absurd (omega arith)
take-length (suc n) [] h = refl
take-length (suc n) (x ∷ text) h = ap (λ xs. x ∷ xs) (take-length n text (omega arith))

-- A print that cuts a text to the characters for which a size in bytes has room, with the NUL.
abbrev cut_text : ℕ → List ℕ → List ℕ
cut_text size text = take (size / 2 - 1) text

cut_text-whole :
    (size : ℕ) (text : List ℕ) → (length text + 1) * 2 ≤ size → cut_text size text ≡ text
cut_text-whole size text h = take-length (size / 2 - 1) text (omega arith)

abbrev digit : ℕ → List ℕ
digit n = (n + b'0') ∷ []

sprint_oid-encode_example :
    sprint_oid cut_text digit (encode (2 ∷ 5 ∷ 4 ∷ [])) 12
    ≡ printed (b'2' ∷ b'.' ∷ b'5' ∷ b'.' ∷ b'4' ∷ [])
sprint_oid-encode_example =
    sprint_oid-encode cut_text digit cut_text-whole 2 5 (4 ∷ []) 12 (omega arith) (omega arith, tt)
      (omega arith)
