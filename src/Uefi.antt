-- ===== src/Uefi.antt =====
-- What the tools ask of the firmware and of gnu-efi, as an interface: the variable services of the
-- firmware on a state that it keeps, and `StrCmp`. Texts are lists of CHAR16 without their NUL.
use uefi_utilities.Base.{ℕ, ◌≡◌, ◌↔◌, Bool, true, List}

abbrev pub Text : Type 0
Text = List ℕ

-- An EFI_STATUS; `other` is any code that the tools give no name.
pub data Status : Type 0 where
  success not_found buffer_too_small out_of_resources invalid_parameter : Status
  other : ℕ → Status

pub record Firmware : Type 1 where
  pub World : Type 0
  -- name, data (no bytes: the variable is deleted)
  pub set_variable : Text → List ℕ → World → Status × World
  -- name, size of the buffer; the data is given with success
  pub get_variable : Text → ℕ → World → Status × List ℕ
  -- `StrCmp(a, b) == 0`
  pub same_text : Text → Text → Bool
  pub same_text_iff : (a b : Text) → (same_text a b ≡ true) ↔ (a ≡ b)
