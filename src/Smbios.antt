-- ===== src/Smbios.antt =====
-- showfirmware/showfirmware.c on a memory of bytes: the structures of an SMBIOS table and their
-- strings. Addresses are numbers, which do not wrap; a header is a type, the length of the formatted
-- area, and a handle of two bytes with the low byte first. The loops run on fuel.
use uefi_utilities.Base.{
  ℕ, zero, suc, ◌+◌, ◌-◌, ◌*◌, ◌%◌, ◌^◌, Bool, true, false, not, ◌&&◌, ◌||◌, Option, none, some,
  List, [], ◌∷◌, ◌++◌, ◌==◌, ltb, leb, if◌then◌else◌,
}
use uefi_utilities.Uefi.{Text, Status, success}
pub mod Layout
pub mod Strings
pub mod Structures
pub mod Main

abbrev pub Memory : Type 0
Memory = ℕ → ℕ

-- `Hdr->Type`, `Hdr->Length` and `Hdr->Handle`
abbrev pub type_at : Memory → ℕ → ℕ
type_at mem raw = mem raw

abbrev pub length_at : Memory → ℕ → ℕ
length_at mem raw = mem (raw + 1)

abbrev pub handle_at : Memory → ℕ → ℕ
handle_at mem raw = mem (raw + 2) + 256 * mem (raw + 3)

abbrev pub invalid_handle : ℕ
invalid_handle = 2 ^ 16 - 1

-- The loop to the NUL of a string, whose address it gives.
unfoldable pub string_end : ℕ → Memory → ℕ → Option ℕ
string_end zero mem s = none
string_end (suc fuel) mem s =
    let rest = string_end fuel mem (s + 1) in if mem s == 0 then some s else rest

unfoldable pub length_to : ℕ → Option ℕ → Option ℕ
length_to str none = none
length_to str (some s) = some (s - str)

-- `Strlen`
unfoldable pub strlen : ℕ → Memory → ℕ → Option ℕ
unfolding string_end length_to
strlen fuel mem str = length_to str (string_end fuel mem str)

-- What `LibGetSmbiosString` returns, where none is NULL, and where it leaves `Smbios->Raw`.
abbrev pub Found : Type 0
Found = Option ℕ × ℕ

-- Behind the NUL of a string: the end of the structure, or the next string.
unfoldable pub behind_string : (ℕ → Option Found) → Memory → Option ℕ → Option Found
behind_string next mem none = none
behind_string next mem (some nul) =
    let rest = next (nul + 1) in if mem (nul + 1) == 0 then some (none, nul + 2) else rest

unfoldable pub string_loop : ℕ → Memory → ℕ → ℕ → ℕ → ℕ → Option Found
unfolding string_end behind_string
string_loop zero mem raw number index string = none
string_loop (suc fuel) mem raw number index string =
    let rest =
      behind_string (string_loop fuel mem raw number (index + 1)) mem
        (string_end fuel mem string) in
    if leb index number
    then if number == index then some (some string, raw) else rest
    else some (none, raw)

unfoldable pub lib_get_smbios_string : ℕ → Memory → ℕ → ℕ → Option Found
unfolding string_loop
lib_get_smbios_string fuel mem raw number =
    string_loop fuel mem raw number 1 (raw + length_at mem raw)

-- The table's entry point.
pub record Table : Type 0 where
  pub anchor : List ℕ
  pub major : ℕ
  pub minor : ℕ
  pub revision : ℕ
  pub table_length : ℕ
  pub table_address : ℕ
  pub count : ℕ

-- What `LibGetSmbiosStructure` leaves in `*Handle`, and with DMI_SUCCESS `*Buffer` and `*Length`.
pub data Structure : Type 0 where
  dmi_success : ℕ → ℕ → ℕ → Structure
  dmi_invalid_handle : ℕ → Structure

-- The structure that ends at `next`.
unfoldable pub structure_to : Memory → ℕ → ℕ → ℕ → Structure
structure_to mem raw end next =
    dmi_success (if ltb next end then handle_at mem next else invalid_handle) raw
      ((next - raw) % 2 ^ 16)

unfoldable pub after_structure :
    (ℕ → Option Structure) → Memory → ℕ → ℕ → ℕ → Option Found → Option Structure
unfolding structure_to
after_structure next mem handle raw end none = none
after_structure next mem handle raw end (some (string, raw')) =
    let rest = next raw' in
    if handle_at mem raw == handle then some (structure_to mem raw end raw') else rest

unfoldable pub structure_loop : ℕ → Memory → ℕ → ℕ → ℕ → Option Structure
unfolding lib_get_smbios_string after_structure
structure_loop zero mem handle end raw = none
structure_loop (suc fuel) mem handle end raw =
    let rest =
      after_structure (structure_loop fuel mem handle end) mem handle raw end
        (lib_get_smbios_string fuel mem raw (2 ^ 16 - 1)) in
    if ltb raw end then rest else some (dmi_invalid_handle invalid_handle)

-- `Buffer` and `Length` are NULL in the first call alone, which asks for the first handle.
unfoldable pub lib_get_smbios_structure : ℕ → Memory → Table → ℕ → Option Structure
unfolding structure_loop
lib_get_smbios_structure fuel mem t handle =
    let start = Table.table_address t in
    if handle == invalid_handle
    then some (dmi_invalid_handle (handle_at mem start))
    else structure_loop fuel mem handle (start + Table.table_length t) start

-- A `char`, which is signed, as a CHAR16.
unfoldable pub widen : ℕ → ℕ
widen c = if ltb c 128 then c else c + (2 ^ 16 - 2 ^ 8)

unfoldable pub copy : Memory → ℕ → ℕ → Text
unfolding widen
copy mem s zero = []
copy mem s (suc len) = widen (mem s) ∷ copy mem (s + 1) len

-- What the tool prints; a text is none where `AllocateZeroPool` gave NULL.
pub data Output : Type 0 where
  not_found : Output
  version_line : ℕ → ℕ → ℕ → ℕ → Output
  vendor version release : Option Text → Output

-- How far the tool has come: `SmbiosStruct.Raw` and the output, or a status that is returned, or
-- `Strlen` of NULL.
pub data Shown : Type 0 where
  at : ℕ → List Output → Shown
  returned : Status → List Output → Shown
  null_read : List Output → Shown
  out_of_fuel : Shown

unfoldable pub and_then : Shown → (ℕ → List Output → Shown) → Shown
and_then (at raw out) next = next raw out
and_then (returned status out) next = returned status out
and_then (null_read out) next = null_read out
and_then out_of_fuel next = out_of_fuel

abbrev pub anchor_text : List ℕ
anchor_text = b'_' ∷ b'S' ∷ b'M' ∷ b'_' ∷ []

-- `AllocateZeroPool` of a size, by whether it is given, and `CompareMem`.
module _ (gives : ℕ → Bool) (compare_mem : List ℕ → List ℕ → ℕ → ℕ) where
  -- `ASCII_to_UCS2`
  unfoldable pub ascii_to_ucs2 : Memory → ℕ → ℕ → Option Text
  unfolding copy
  ascii_to_ucs2 mem s len = if gives (len * 2 + 2) then some (copy mem s len) else none

  unfoldable pub print_length :
      Memory → (Option Text → Output) → List Output → ℕ → ℕ → Option ℕ → Shown
  unfolding ascii_to_ucs2
  print_length mem label out str raw none = out_of_fuel
  print_length mem label out str raw (some len) =
      at raw (out ++ label (ascii_to_ucs2 mem str len) ∷ [])

  unfoldable pub print_found :
      ℕ → Memory → (Option Text → Output) → List Output → Option Found → Shown
  unfolding strlen print_length
  print_found fuel mem label out none = out_of_fuel
  print_found fuel mem label out (some (none, raw)) = null_read out
  print_found fuel mem label out (some (some str, raw)) =
      print_length mem label out str raw (strlen fuel mem str)

  -- A string of the structure, printed.
  unfoldable pub print_string : ℕ → Memory → (Option Text → Output) → ℕ → ℕ → List Output → Shown
  unfolding lib_get_smbios_string print_found
  print_string fuel mem label number raw out =
      print_found fuel mem label out (lib_get_smbios_string fuel mem raw number)

  unfoldable pub print_type0 : ℕ → Memory → ℕ → List Output → Shown
  unfolding print_string and_then
  print_type0 fuel mem raw out = and_then (print_string fuel mem vendor 1 raw out) (λ raw1 out1.
      and_then (print_string fuel mem version 2 raw1 out1)
        (λ raw2 out2. print_string fuel mem release 3 raw2 out2))

  unfoldable pub visit : (ℕ → Shown) → ℕ → Memory → List Output → Option Structure → Shown
  unfolding print_type0 and_then
  visit next fuel mem out none = out_of_fuel
  visit next fuel mem out (some (dmi_invalid_handle handle)) = returned success out
  visit next fuel mem out (some (dmi_success handle raw size)) =
      let rest = next handle in
      if type_at mem raw == 0
      then and_then (print_type0 fuel mem raw out) (λ raw' out'. returned success out')
      else rest

  -- The loop over the structures, with those that are left.
  unfoldable pub visit_loop : ℕ → ℕ → Memory → Table → List Output → ℕ → Shown
  unfolding visit lib_get_smbios_structure
  visit_loop zero fuel mem t out handle = returned success out
  visit_loop (suc left) fuel mem t out handle =
      let rest =
        visit (visit_loop left fuel mem t out) fuel mem out
          (lib_get_smbios_structure fuel mem t handle) in
      if handle == invalid_handle then returned success out else rest

  -- The handle that the first call leaves.
  unfoldable pub from_handle : (ℕ → Shown) → Option Structure → Shown
  from_handle next none = out_of_fuel
  from_handle next (some (dmi_success handle raw size)) = next handle
  from_handle next (some (dmi_invalid_handle handle)) = next handle

  unfoldable pub show_table : ℕ → Memory → Table → Shown
  unfolding visit_loop from_handle
  show_table fuel mem t =
      let line = version_line (Table.major t) (Table.minor t) (Table.revision t) (Table.count t) in
      from_handle (visit_loop (Table.count t) fuel mem t (line ∷ []))
        (lib_get_smbios_structure fuel mem t invalid_handle)

  -- `efi_main`, from what LibGetSystemConfigurationTable gives.
  unfoldable pub showfirmware_main : ℕ → Memory → Status × Option Table → Shown
  unfolding show_table
  showfirmware_main fuel mem (success, some t) =
      if compare_mem (Table.anchor t) anchor_text 4 == 0
      then show_table fuel mem t
      else returned success (not_found ∷ [])
  showfirmware_main fuel mem (status, t) = returned status (not_found ∷ [])
