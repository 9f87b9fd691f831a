-- ===== src/Memory/Names.antt =====
-- Which memory types have a name.
use uefi_utilities.Base.{
  ℕ, zero, suc, refl, ◌≤◌, ◌<◌, ◌≡◌, inl, inr, some, arith, ltb, get_elem?, Bool-cases, ltb→lt,
}
use uefi_utilities.Memory.{
  memory_types, memory_type_to_str, type_name_at, TypeName, named, unknown, out_of_bounds,
}

-- What is printed for a type is as the table says, for each of the 14 types and for all above 14;
-- type 14 alone, the first that the table lacks, is read behind its end.
abbrev pub NameOf : ℕ → TypeName → Type 0
NameOf type (named t) = (type < 14) × (get_elem? memory_types type ≡ some t)
NameOf type unknown = 14 < type
NameOf type out_of_bounds = type ≡ 14

type_name_at-NameOf :
    (type : ℕ) → type ≤ 14 → NameOf type (type_name_at (get_elem? memory_types type))
unfolding type_name_at memory_types
type_name_at-NameOf zero h = (omega arith, refl)
type_name_at-NameOf (suc zero) h = (omega arith, refl)
type_name_at-NameOf (suc (suc zero)) h = (omega arith, refl)
type_name_at-NameOf (suc (suc (suc zero))) h = (omega arith, refl)
type_name_at-NameOf (suc (suc (suc (suc zero)))) h = (omega arith, refl)
type_name_at-NameOf (suc (suc (suc (suc (suc zero))))) h = (omega arith, refl)
type_name_at-NameOf (suc (suc (suc (suc (suc (suc zero)))))) h = (omega arith, refl)
type_name_at-NameOf (suc (suc (suc (suc (suc (suc (suc zero))))))) h = (omega arith, refl)
type_name_at-NameOf (suc (suc (suc (suc (suc (suc (suc (suc zero)))))))) h = (omega arith, refl)
type_name_at-NameOf (suc (suc (suc (suc (suc (suc (suc (suc (suc zero))))))))) h =
    (omega arith, refl)
type_name_at-NameOf (suc (suc (suc (suc (suc (suc (suc (suc (suc (suc zero)))))))))) h =
    (omega arith, refl)
type_name_at-NameOf (suc (suc (suc (suc (suc (suc (suc (suc (suc (suc (suc zero))))))))))) h =
    (omega arith, refl)
type_name_at-NameOf (suc (suc (suc (suc (suc (suc (suc (suc (suc (suc (suc (suc zero)))))))))))) h =
    (omega arith, refl)
type_name_at-NameOf
      (suc (suc (suc (suc (suc (suc (suc (suc (suc (suc (suc (suc (suc zero))))))))))))) h =
    (omega arith, refl)
type_name_at-NameOf
      (suc (suc (suc (suc (suc (suc (suc (suc (suc (suc (suc (suc (suc (suc zero)))))))))))))) h =
    refl
type_name_at-NameOf
      (suc (suc (suc (suc (suc (suc (suc (suc (suc (suc (suc (suc (suc (suc (suc n)))))))))))))))
      h =
    absurd (omega arith)

-- The range of a type decides what `memory_type_to_str` returns: each of the types 0 to 13 has the
-- name at its place in the table, every type above 14 is unknown, and type 14 is read behind the
-- end of the table.
pub memory_type_to_str-NameOf : (type : ℕ) → NameOf type (memory_type_to_str type)
unfolding memory_type_to_str
memory_type_to_str-NameOf type = elim (Bool-cases (ltb 14 type)) [
  | inl above ↦ rw above (ltb→lt 14 type above)
  | inr inside ↦ rw inside (type_name_at-NameOf type (ground arith))
]
