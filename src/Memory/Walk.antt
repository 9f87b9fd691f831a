-- ===== src/Memory/Walk.antt =====
-- The walk over the memory map, and the allocation loop.
use uefi_utilities.Base.{
  ℕ, zero, suc, ◌+◌, ◌*◌, ◌≤◌, ◌<◌, ◌≡◌, ◌≢◌, ◌%◌, ◌^◌, false, refl, inl, inr, true, some, List, [],
  ◌∷◌, arith, ltb, if◌then◌else◌, Bool-cases,
}
use uefi_utilities.Uefi.{Status, success, buffer_too_small}
use uefi_utilities.Memory.Names.{NameOf, memory_type_to_str-NameOf}
use uefi_utilities.Memory.{Descriptor, Line, line, walk, mapped, get_map, memory_map}

-- The end of a range of pages of 4096 bytes, in 64 bits.
abbrev pub range_end : ℕ → ℕ → ℕ
range_end start pages = (start + pages * 4096) % 18446744073709551616

-- What is to be printed of a descriptor: its number, a name for its type, its attribute, and where
-- its physical and its virtual range begin and end.
abbrev pub Shows : ℕ → Descriptor → Line → Type 0
Shows i d l =
    (l.number ≡ i)
    × NameOf d.type l.name
    × (l.attr ≡ d.attribute)
    × (l.physical ≡ d.physical_start)
    × (l.physical_end ≡ range_end d.physical_start d.pages)
    × (l.virtual ≡ d.virtual_start)
    × (l.virtual_end ≡ range_end d.virtual_start d.pages)

-- `n` lines, those of the descriptors from number `i` on, which stand at multiples of the size.
abbrev pub ShowsAll : (at : ℕ → Descriptor) (desc_size i n : ℕ) → List Line → Type 0
ShowsAll at desc_size i zero [] = Unit
ShowsAll at desc_size i zero (l ∷ ls) = ⊥
ShowsAll at desc_size i (suc n) [] = ⊥
ShowsAll at desc_size i (suc n) (l ∷ ls) =
    Shows i (at (i * desc_size)) l × ShowsAll at desc_size (i + 1) n ls

line_end : (start pages : ℕ) → (start + pages * 4096 % 2 ^ 64) % 2 ^ 64 ≡ range_end start pages
line_end start pages = omega arith

line-Shows : (i : ℕ) (d : Descriptor) → Shows i d (line i d)
unfolding line
line-Shows i d = (
  refl,
  memory_type_to_str-NameOf d.type,
  refl,
  refl,
  line_end d.physical_start d.pages,
  refl,
  line_end d.virtual_start d.pages,
)

lines : (at : ℕ → Descriptor) (desc_size i n : ℕ) → List Line
lines at desc_size i zero = []
lines at desc_size i (suc n) = line i (at (i * desc_size)) ∷ lines at desc_size (i + 1) n

lines-ShowsAll :
    (at : ℕ → Descriptor) (desc_size i n : ℕ) → ShowsAll at desc_size i n (lines at desc_size i n)
unfolding lines
lines-ShowsAll at desc_size i zero = tt
lines-ShowsAll at desc_size i (suc n) =
    (line-Shows i (at (i * desc_size)), lines-ShowsAll at desc_size (i + 1) n)

walk_from-lines :
    (at : ℕ → Descriptor) (n fuel desc_size size offset i : ℕ)
    → 0 < desc_size
    → offset ≡ i * desc_size
    → size ≡ offset + n * desc_size
    → n < fuel
    → walk at fuel size desc_size offset i ≡ some (lines at desc_size i n)
unfolding walk lines
walk_from-lines at n zero desc_size size offset i pos o e f = absurd (omega arith)
walk_from-lines at zero (suc fuel) desc_size size offset i pos o e f = ground arith
walk_from-lines at (suc n) (suc fuel) desc_size size offset i pos o e f =
    let ih : walk at fuel size desc_size (offset + desc_size) (i + 1)
        ≡ some (lines at desc_size (i + 1) n) =
      walk_from-lines at n fuel desc_size size (offset + desc_size) (i + 1) pos (grind arith)
        (grind arith) (omega arith) in
    let more : ltb offset size ≡ true = grind arith in rw (more, ih, o)

-- A map of `n` descriptors of a positive size, none of the type 14, ends after `n + 1` rounds with `n`
-- lines: one for each descriptor in order, descriptor `k` at offset `k * desc_size`, with its
-- attribute, the name of its type and both of its ranges in pages of 4096 bytes.
pub walk-ShowsAll :
    (at : ℕ → Descriptor) (n fuel desc_size : ℕ)
    → 0 < desc_size
    → n < fuel
    → ((k : ℕ) → (at (k * desc_size)).type ≢ 14)
    → (ls : List Line) × (walk at fuel (n * desc_size) desc_size 0 0 ≡ some ls)
      × ShowsAll at desc_size 0 n ls
walk-ShowsAll at n fuel desc_size pos f no_14 = (
  lines at desc_size 0 n,
  walk_from-lines at n fuel desc_size (n * desc_size) 0 0 pos (omega arith) (omega arith) f,
  lines-ShowsAll at desc_size 0 n,
)

-- The firmware's side of GetMemoryMap for a map of `need` bytes.
abbrev pub serves : ℕ → ℕ → Status × ℕ
serves need size = if ltb size need then (buffer_too_small, need) else (success, need)

-- Against a firmware whose map needs a fixed size and that never lacks memory, where that size and 32
-- descriptors stay below 2^64 with one descriptor more, `memory_map` returns success with that size,
-- after two rounds at most.
pub memory_map-serves :
    (descriptor_size need fuel : ℕ)
    → descriptor_size * 32 < 18446744073709551616
    → need + descriptor_size < 18446744073709551616
    → (r : ℕ) × (memory_map descriptor_size (λ _. true) (serves need) (suc (suc fuel))
        ≡ mapped success need r)
      × (r ≤ 2)
unfolding memory_map get_map
memory_map-serves descriptor_size need fuel few small =
    let first : (descriptor_size * 31 % 2 ^ 64 + descriptor_size) % 2 ^ 64 ≡ descriptor_size * 32 =
      omega arith in
    let second : (need + descriptor_size) % 2 ^ 64 ≡ need + descriptor_size = omega arith in
    elim (Bool-cases (ltb (descriptor_size * 32) need)) [
      | inl short ↦
          let enough : ltb (need + descriptor_size) need ≡ false = ground arith in
          (2, ground (arith, first, second, enough, short), omega arith)
      | inr enough ↦ (1, ground (arith, first, enough), omega arith)
    ]
