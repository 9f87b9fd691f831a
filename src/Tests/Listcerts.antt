-- ===== src/Tests/Listcerts.antt =====
-- listcerts/listcerts.c at concrete inputs.
use uefi_utilities.Base.{
  suc, some, ◌++◌, zero, ℕ, ◌+◌, ◌≡◌, refl, List, [], ◌∷◌, arith, ◌==◌, if◌then◌else◌, get_or,
}
use uefi_utilities.Uefi.{success, buffer_too_small}
use uefi_utilities.Listcerts.Main.{Platform}
use uefi_utilities.Tests.Tools.{same_text, same_text_iff}
use uefi_utilities.Listcerts.{
  SignatureType, print_loop, out_of_fuel, signature_list_size, signature_size,
}
use uefi_utilities.Listcerts.Stuck.{print_loop-stuck}
use uefi_utilities.Listcerts.Walk.{Group}

abbrev compare_guid : ℕ → SignatureType → ℕ
compare_guid list type = 0

abbrev decoder : ℕ → ℕ → ℕ
decoder at len = 0

-- One list with the sizes 330, 0 and 151: two certificates. Behind it are bytes 0.
abbrev header : List ℕ
header =
    0 ∷ 0 ∷ 0 ∷ 0 ∷ 0 ∷ 0 ∷ 0 ∷ 0 ∷ 0 ∷ 0 ∷ 0 ∷ 0 ∷ 0 ∷ 0 ∷ 0 ∷ 0 ∷ 74 ∷ 1 ∷ 0 ∷ 0 ∷ 0 ∷ 0 ∷ 0 ∷ 0
    ∷ 151 ∷ []

abbrev memory : ℕ → ℕ
memory at = get_or header at 0

abbrev two : List Group
two = record { header = 0; size = 151; count = 2 } ∷ []

-- A list of size 0 with certificates of 151 bytes.
abbrev empty : ℕ → ℕ
empty at = if at == 24 then 151 else 0

print_loop-stuck_example : print_loop empty compare_guid decoder 9 0 30 0 ≡ out_of_fuel
unfolding signature_list_size signature_size
print_loop-stuck_example =
    print_loop-stuck empty compare_guid decoder 9 0 30 0 refl (ground arith) (omega arith)

abbrev digit : ℕ → List ℕ
digit n = (n + 48) ∷ []

-- C=US, by the identifier 2.5.4.6.
abbrev country : List (List ℕ × List ℕ)
country = (85 ∷ 4 ∷ 6 ∷ [], b'U' ∷ b'S' ∷ []) ∷ []

abbrev line : List ℕ
line = 32 ∷ b'C' ∷ b'=' ∷ b'U' ∷ b'S' ∷ []

-- The variable db with one list of two certificates of 151 bytes 0, in a buffer at 0.
abbrev zeros : ℕ → List ℕ
zeros zero = []
zeros (suc n) = 0 ∷ zeros n

abbrev db_bytes : List ℕ
db_bytes = header ++ zeros 305

abbrev machine : Platform
machine = record {
  get_variable_bytes = λ var owner size buffer.
      if buffer then (success, 330, db_bytes) else (buffer_too_small, 330, []);
  allocate = λ size. some 0;
  beyond = λ at. 0;
  compare_guid = λ memory. compare_guid;
  decoder = λ memory. decoder;
  same_text = same_text;
  same_text_iff = same_text_iff;
}
