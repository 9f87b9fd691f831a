-- ===== src/Tests/Smbios.antt =====
-- showfirmware/showfirmware.c on a table of two structures.
use mathlib.Core.List.{append_assoc}
use uefi_utilities.Base.{
  ℕ, ◌+◌, ◌-◌, ◌<◌, ◌≡◌, ◌≢◌, refl, ap, subst, ◌∙◌, Bool, true, some, List, [], ◌∷◌, ◌++◌, arith,
  length, length-append, get_or, get_elem?,
}
use uefi_utilities.Uefi.{success}
use uefi_utilities.Smbios.{
  Memory, Table, version_line, vendor, returned, null_read, widen, lib_get_smbios_string,
  lib_get_smbios_structure, showfirmware_main, string_end, string_loop, behind_string,
  structure_loop, after_structure, structure_to, strlen, length_to, copy, visit_loop, print_type0,
  print_string, print_found, print_length, and_then, ascii_to_ucs2, visit, show_table, from_handle,
}
use uefi_utilities.Smbios.Layout.{Has, AreStrings, Entry, encode, table_bytes}
use uefi_utilities.Smbios.Strings.{StringOf, given_strings, lib_get_smbios_string-StringOf}
use uefi_utilities.Smbios.Structures.{Laid}
use uefi_utilities.Smbios.Main.{bios_lines, showfirmware_main-lines}

abbrev system : Entry
system = record { kind = 1; handle = 256; formatted = 7 ∷ []; strings = [] }

abbrev bios : Entry
bios = record {
  kind = 0;
  handle = 2;
  formatted = 1 ∷ 2 ∷ 3 ∷ [];
  strings = (b'A' ∷ []) ∷ (b'1' ∷ b'.' ∷ b'0' ∷ []) ∷ (b'M' ∷ b'a' ∷ b'y' ∷ []) ∷ [];
}

abbrev both : List Entry
both = system ∷ bios ∷ []

abbrev stored : List ℕ → Memory
stored bs p = get_or bs (p - 16) 0

get_or-at : (xs : List ℕ) (y : ℕ) (ys : List ℕ) → get_or (xs ++ y ∷ ys) (length xs) 0 ≡ y
get_or-at [] y ys = refl
get_or-at (x ∷ xs) y ys = get_or-at xs y ys

Has-behind_stored : (xs ys : List ℕ) (p : ℕ) → p ≡ 16 + length xs → Has (stored (xs ++ ys)) p ys
Has-behind_stored xs [] p e = tt
Has-behind_stored xs (y ∷ ys) p e = (
  ap (λ i. get_or (xs ++ y ∷ ys) i 0) (omega (arith, e)) ∙ get_or-at xs y ys,
  subst (λ zs. Has (stored zs) (p + 1) ys) (append_assoc xs (y ∷ []) ys)
      (Has-behind_stored (xs ++ y ∷ []) ys (p + 1) (omega (arith, e, length-append xs (y ∷ [])))),
)

Has-stored : (bs : List ℕ) → Has (stored bs) 16 bs
Has-stored bs = Has-behind_stored [] bs 16 refl

abbrev entry_point : List Entry → Table
entry_point es = record {
  anchor = b'_' ∷ b'S' ∷ b'M' ∷ b'_' ∷ [];
  major = 2;
  minor = 7;
  revision = 0;
  table_length = length (table_bytes es);
  table_address = 16;
  count = length es;
}

abbrev given : ℕ → Bool
given n = true

abbrev equal : List ℕ → List ℕ → ℕ → ℕ
equal xs ys n = 0

set : (c : ℕ) → 0 < c → c ≢ 0
set c less = λ e. absurd (omega (arith, less, e))

bios_strings : AreStrings (Entry.strings bios)
bios_strings = (
  (set _ (omega arith), tt),
  (
    (set _ (omega arith), (set _ (omega arith), (set _ (omega arith), tt))),
    ((set _ (omega arith), (set _ (omega arith), (set _ (omega arith), tt))), tt),
  ),
)

laid : Laid 40 (stored (table_bytes both)) (entry_point both) both
laid = (
  Has-stored (table_bytes both),
  refl,
  ((omega arith, tt, omega arith), ((omega arith, bios_strings, omega arith), tt)),
  (((λ e. ground arith), tt), (tt, tt)),
  omega arith,
)

lib_get_smbios_string-StringOf_example :
    StringOf
      (stored (encode bios))
      16
      (16 + length (encode bios))
      (get_elem? (given_strings (Entry.strings bios)) (2 - 1))
      (lib_get_smbios_string 30 (stored (encode bios)) 16 2)
lib_get_smbios_string-StringOf_example =
    lib_get_smbios_string-StringOf 30 (stored (encode bios)) 16 2 bios (Has-stored (encode bios))
      bios_strings (omega arith) (omega arith)

showfirmware_main-lines_example :
    showfirmware_main given equal 40 (stored (table_bytes both)) (success, some (entry_point both))
    ≡ returned success (version_line 2 7 0 2 ∷ bios_lines both)
showfirmware_main-lines_example =
    showfirmware_main-lines given equal (λ n. refl) 40 (stored (table_bytes both))
      (entry_point both) both laid ((λ e. ground arith), ((λ e. omega arith), tt))
      (λ e. ground arith) refl refl

-- A BIOS without a second string is a read of NULL.
abbrev short_bios : Entry
short_bios = record { kind = 0; handle = 2; formatted = []; strings = (b'A' ∷ []) ∷ [] }

null_version :
    showfirmware_main given equal 40
      (stored (encode short_bios))
      (success, some (entry_point (short_bios ∷ [])))
    ≡ null_read (version_line 2 7 0 1 ∷ vendor (some (b'A' ∷ [])) ∷ [])
unfolding showfirmware_main show_table from_handle lib_get_smbios_structure structure_loop
    lib_get_smbios_string string_loop string_end behind_string after_structure structure_to
    visit_loop visit print_type0 print_string print_found print_length and_then ascii_to_ucs2 copy
    widen strlen length_to
null_version = refl
