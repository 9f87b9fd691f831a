-- ===== src/Memory.antt =====
-- efimemory/efimemory.c: the names of memory types, the allocation loop, the walk over the map.
use uefi_utilities.Base.{
  ℕ, zero, suc, ◌+◌, ◌-◌, ◌*◌, ◌/◌, ◌%◌, ◌^◌, Bool, true, false, Option, none, some, List, [], ◌∷◌,
  ltb, if◌then◌else◌, get_elem?,
}
use uefi_utilities.Uefi.{Status, buffer_too_small}
pub mod Names
pub mod Walk

-- `memory_types`, by the names' places in UEFI's list.
pub data MemoryType : Type 0 where
  reserved loader_code loader_data boot_services_code boot_services_data : MemoryType
  runtime_services_code runtime_services_data conventional unusable acpi_reclaim : MemoryType
  acpi_nvs mapped_io mapped_io_port_space pal_code : MemoryType

unfoldable pub memory_types : List MemoryType
memory_types =
    reserved ∷ loader_code ∷ loader_data ∷ boot_services_code ∷ boot_services_data
    ∷ runtime_services_code ∷ runtime_services_data ∷ conventional ∷ unusable ∷ acpi_reclaim
    ∷ acpi_nvs ∷ mapped_io ∷ mapped_io_port_space ∷ pal_code ∷ []

-- The text that is printed, or a read behind the table.
pub data TypeName : Type 0 where
  named : MemoryType → TypeName
  unknown out_of_bounds : TypeName

unfoldable pub type_name_at : Option MemoryType → TypeName
type_name_at none = out_of_bounds
type_name_at (some t) = named t

-- `sizeof(memory_types)/sizeof(CHAR16 *)` is 14.
unfoldable pub memory_type_to_str : ℕ → TypeName
unfolding type_name_at memory_types
memory_type_to_str type =
    if ltb 14 type then unknown else type_name_at (get_elem? memory_types type)

-- What `memory_map` returns: the status, the size of the map, and how often it went round.
pub data Mapped : Type 0 where
  mapped : Status → (size rounds : ℕ) → Mapped
  no_memory still_too_small : Mapped

-- The firmware is a parameter: `alloc` says whether a pool of a size is given, `get` what
-- GetMemoryMap answers for a buffer of a size, with the size that it stores. `descriptor_size` is
-- the size of EFI_MEMORY_DESCRIPTOR.
module _ (descriptor_size : ℕ) (alloc : ℕ → Bool) (get : ℕ → Status × ℕ) where
  -- From the label `get_map`, with the size before the addition, a UINTN of 64 bits.
  unfoldable pub get_map : (fuel map_size rounds : ℕ) → Mapped
  get_map zero map_size rounds = still_too_small
  get_map (suc fuel) map_size rounds =
      let size = (map_size + descriptor_size) % 2 ^ 64 in
      let (status, size') = get size in
      let body : Mapped = elim status [
        | buffer_too_small ↦ get_map fuel size' (rounds + 1)
        | answer ↦ mapped answer size' (rounds + 1)
      ] in
      if alloc size then body else no_memory

  unfoldable pub memory_map : ℕ → Mapped
  unfolding get_map
  memory_map fuel = get_map fuel (descriptor_size * 31 % 2 ^ 64) 0

pub record Descriptor : Type 0 where
  pub type : ℕ
  pub physical_start : ℕ
  pub virtual_start : ℕ
  pub pages : ℕ
  pub attribute : ℕ

-- One line triple of `print_memory_map`, with what each place of its formats is given.
pub record Line : Type 0 where
  pub number : ℕ
  pub name : TypeName
  pub attr : ℕ
  pub physical : ℕ
  pub physical_end : ℕ
  pub virtual : ℕ
  pub virtual_end : ℕ

-- PAGE_SIZE
abbrev pub page_size : ℕ
page_size = 4096

-- `mapping_size` and both ends are 64-bit integers.
unfoldable pub line : ℕ → Descriptor → Line
unfolding memory_type_to_str
line i d =
    let mapping_size = d.pages * page_size % 2 ^ 64 in
    record {
      number = i;
      name = memory_type_to_str d.type;
      attr = d.attribute;
      physical = d.physical_start;
      physical_end = (d.physical_start + mapping_size) % 2 ^ 64;
      virtual = d.virtual_start;
      virtual_end = (d.virtual_start + mapping_size) % 2 ^ 64;
    }

-- `while ((void *)desc < (void *)buf + size)`: `at` reads a descriptor at an offset. Fuel bounds the
-- rounds.
unfoldable pub walk : (at : ℕ → Descriptor) (fuel size desc_size offset i : ℕ) → Option (List Line)
unfolding line
walk at zero size desc_size offset i = none
walk at (suc fuel) size desc_size offset i =
    let rest = walk at fuel size desc_size (offset + desc_size) (i + 1) in
    if ltb offset size
    then elim rest [ none ↦ none | some ls ↦ some (line i (at offset) ∷ ls) ]
    else some []
