-- ===== src/Tests/Tools.antt =====
-- bootnext, shellopt, efimemory and showedid at concrete inputs.
use uefi_utilities.Base.{
  ℕ, zero, suc, ◌-◌, ◌*◌, ◌≤◌, ◌≡◌, ◌↔◌, ◌++◌, inr, refl, Bool, true, false, ◌&&◌, some, List, [],
  ◌∷◌, arith, ◌==◌, get_or,
}
use uefi_utilities.Uefi.{Text, success, Firmware}
use uefi_utilities.Var.{var_main, Leaves, Change, var_main-Change}
use uefi_utilities.Bootnext.{bootnext_main}
use uefi_utilities.Bootnext.Args.{Changes, bootnext_main-Changes}
use uefi_utilities.Shellopt.{delay, built, option_loop}
use uefi_utilities.Shellopt.Options.{Options, delay_number, done, word, option_loop-Options}
use uefi_utilities.Memory.{Descriptor, Line, mapped, memory_map, walk}
use uefi_utilities.Memory.Walk.{ShowsAll, walk-ShowsAll, serves, memory_map-serves}
use uefi_utilities.Edid.{Block, check_for_valid_edid}
use uefi_utilities.Edid.Valid.{check_for_valid_edid-zero}
use uefi_utilities.Edid.Decimal.{
  integer_2_ascii_string, reads_as, IsDecimal, integer_2_ascii_string-reads,
}

abbrev pub same_text : Text → Text → Bool
same_text [] [] = true
same_text [] (y ∷ ys) = false
same_text (x ∷ xs) [] = false
same_text (x ∷ xs) (y ∷ ys) = (x == y) && same_text xs ys

pub same_text_iff : (a b : Text) → (same_text a b ≡ true) ↔ (a ≡ b)
same_text_iff [] [] = ground arith
same_text_iff [] (y ∷ ys) = ground arith
same_text_iff (x ∷ xs) [] = ground arith
same_text_iff (x ∷ xs) (y ∷ ys) = ground (arith, same_text_iff xs ys)

-- A firmware that keeps the data of BootNext alone.
abbrev one_variable : Firmware
one_variable = record {
  World = List ℕ;
  set_variable = λ name bytes w. (success, bytes);
  get_variable = λ name size w. (success, w);
  same_text = same_text;
  same_text_iff = same_text_iff;
}

abbrev digits : Text
digits = b'0' ∷ b'0' ∷ b'0' ∷ b'a' ∷ []

abbrev ten : Text → ℕ
ten text = 10

var_main-Change_example :
    Leaves one_variable
      (Change one_variable (digits ∷ (b'-' ∷ b'c' ∷ []) ∷ digits ∷ digits ∷ []) [])
      (var_main one_variable (digits ∷ (b'-' ∷ b'c' ∷ []) ∷ digits ∷ digits ∷ []) [])
var_main-Change_example =
    var_main-Change one_variable (digits ∷ (b'-' ∷ b'c' ∷ []) ∷ digits ∷ digits ∷ []) []

bootnext_main-Changes_example :
    Changes one_variable ten
      (digits ∷ digits ∷ [])
      []
      (bootnext_main one_variable ten (digits ∷ digits ∷ []) []).1
bootnext_main-Changes_example = bootnext_main-Changes one_variable ten (digits ∷ digits ∷ []) []

abbrev page : ℕ → Descriptor
page offset = record {
  type = 7;
  physical_start = offset * 4096;
  virtual_start = 0;
  pages = 1;
  attribute = 15;
}

walk-ShowsAll_example :
    (ls : List Line) × (walk page 3 (2 * 48) 48 0 0 ≡ some ls) × ShowsAll page 48 0 2 ls
walk-ShowsAll_example =
    walk-ShowsAll page 2 3 48 (omega arith) (omega arith) (λ k e. omega (arith, e))

memory_map-serves_example :
    (r : ℕ) × (memory_map 40 (λ _. true) (serves 5000) 3 ≡ mapped success 5000 r) × (r ≤ 2)
memory_map-serves_example = memory_map-serves 40 5000 1 (omega arith) (omega arith)

-- A block with version 1.4 and every other byte behind the header 0, but the checksum.
abbrev tail : ℕ → List ℕ
tail zero = 1 ∷ []
tail (suc n) = 0 ∷ tail n

abbrev valid_bytes : List ℕ
valid_bytes =
    0
    ∷ 255
    ∷ 255
    ∷ 255
    ∷ 255
    ∷ 255
    ∷ 255
    ∷ 0
    ∷ 0
    ∷ 0
    ∷ 0
    ∷ 0
    ∷ 0
    ∷ 0
    ∷ 0
    ∷ 0
    ∷ 0
    ∷ 0
    ∷ 1
    ∷ 4
    ∷ tail 107

abbrev valid_block : Block
valid_block i = get_or valid_bytes i 0

check_for_valid_edid-zero_example : check_for_valid_edid valid_block ≡ 0
check_for_valid_edid-zero_example = (check_for_valid_edid-zero valid_block).1 (
  refl,
  inr (refl, (refl, (refl, (refl, (refl, (refl, (refl, (refl, tt)))))))),
  refl,
  omega arith,
)

-- 400 mm by 300 mm.
abbrev sized_block : Block
sized_block i = get_or (144 ∷ 44 ∷ 17 ∷ []) (i - 12) 0

-- -1990
integer_2_ascii_string-reads_example :
    (ds : List ℕ) × (integer_2_ascii_string 4294965306 ≡ some (b'-' ∷ ds))
    × IsDecimal ds
    × (reads_as 0 ds ≡ 1990)
integer_2_ascii_string-reads_example =
    integer_2_ascii_string-reads 4294965306 (omega arith) (λ e. omega (arith, e))

abbrev unchanged : Text → Text
unchanged text = text

abbrev number_7 : Text
number_7 = b'7' ∷ []

delay-Options :
    Options one_variable unchanged (delay ∷ number_7 ∷ []) (word delay ++ (word number_7 ++ []))
delay-Options = delay_number delay number_7 [] [] refl (omega arith, omega arith, tt) done

option_loop-Options_example :
    option_loop one_variable unchanged (delay ∷ number_7 ∷ []) []
    ≡ built ([] ++ (word delay ++ (word number_7 ++ [])))
option_loop-Options_example =
    option_loop-Options one_variable unchanged delay-Options [] (omega arith)
