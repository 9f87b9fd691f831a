-- ===== src/Secure.antt =====
-- showsb/showsb.c and showlenovo/showlenovo.c: the print of the Secure Boot variables, and of some of
-- Lenovo's. A variable is read into one byte, or into the 64 bytes of `Data`.
use uefi_utilities.Base.{
  ℕ, ◌+◌, ◌*◌, ◌-◌, ◌^◌, ◌≡◌, ◌↔◌, Bool, true, false, not, ◌||◌, Option, none, some, List, [], ◌∷◌,
  ◌++◌, ◌==◌, ltb, map, length, if◌then◌else◌,
}
use uefi_utilities.Uefi.{Text, Status, success, invalid_parameter}
use uefi_utilities.Smbios.{widen}
pub mod Reads

pub data Vendor : Type 0 where
  global lenovo : Vendor

-- What the tools ask of the firmware, which they do not change, and of gnu-efi.
pub record Services : Type 0 where
  -- the size of the buffer; with success the data, which is the new size
  pub get_variable : Vendor → Text → ℕ → Status × List ℕ
  -- `StrCmp(a, b) == 0`
  pub same_text : Text → Text → Bool
  pub same_text_iff : (a b : Text) → (same_text a b ≡ true) ↔ (a ≡ b)
  -- whether `AllocateZeroPool` gives a block of this size
  pub gives : ℕ → Bool

-- The variables that are read.
pub data Item : Type 0 where
  build_date build_time simple_boot_flag secure_boot setup_mode : Item

-- What the tools print; a text is none where `AllocateZeroPool` gave NULL.
pub data Output : Type 0 where
  text_line : Item → Option Text → Output
  number_line : Item → ℕ → Output
  enabled disabled missing : Item → Output
  usage : Output

-- How a tool ends, or data of more bytes than the place has that it is read into.
pub data Ending : Type 0 where
  ended : Status → List Output → Ending
  overflow : Ending

abbrev pub vendor_of : Item → Vendor
vendor_of build_date = lenovo
vendor_of build_time = lenovo
vendor_of simple_boot_flag = global
vendor_of secure_boot = global
vendor_of setup_mode = global

abbrev pub name_of : Item → Text
name_of build_date = b'B' ∷ b'u' ∷ b'i' ∷ b'l' ∷ b'd' ∷ b'D' ∷ b'a' ∷ b't' ∷ b'e' ∷ []
name_of build_time = b'B' ∷ b'u' ∷ b'i' ∷ b'l' ∷ b'd' ∷ b'T' ∷ b'i' ∷ b'm' ∷ b'e' ∷ []
name_of simple_boot_flag =
    b'S' ∷ b'i' ∷ b'm' ∷ b'p' ∷ b'l' ∷ b'e' ∷ b'B' ∷ b'o' ∷ b'o' ∷ b't' ∷ b'F' ∷ b'l' ∷ b'a' ∷ b'g'
    ∷ []
name_of secure_boot = b'S' ∷ b'e' ∷ b'c' ∷ b'u' ∷ b'r' ∷ b'e' ∷ b'B' ∷ b'o' ∷ b'o' ∷ b't' ∷ []
name_of setup_mode = b'S' ∷ b'e' ∷ b't' ∷ b'u' ∷ b'p' ∷ b'M' ∷ b'o' ∷ b'd' ∷ b'e' ∷ []

abbrev pub buffer_size : ℕ
buffer_size = 64

-- The byte that a read leaves, where it had a value.
unfoldable pub byte_of : ℕ → List ℕ → ℕ
byte_of old [] = old
byte_of old (b ∷ bs) = b

-- `if (IntData)` in the verbose mode.
unfoldable pub flag_line : Bool → Item → ℕ → Output
flag_line verbose item byte =
    if verbose
    then (if not (byte == 0) then enabled item else disabled item)
    else number_line item byte

module _ (sv : Services) where
  open sv use {get_variable, same_text, gives}

  -- Data that is read into a place of some bytes, with what is done with it.
  unfoldable pub after_read : Item → ℕ → List Output → (List ℕ → Ending) → Status × List ℕ → Ending
  after_read item room out next (success, bytes) =
      let rest = next bytes in if ltb room (length bytes) then overflow else rest
  after_read item room out next (status, bytes) = ended status (out ++ missing item ∷ [])

  unfoldable pub read : Item → ℕ → ℕ → List Output → (List ℕ → Ending) → Ending
  unfolding after_read
  read item room size out next =
      after_read item room out next (get_variable (vendor_of item) (name_of item) size)

  -- `ASCII_to_UCS2` of the bytes that were read.
  unfoldable pub ascii_to_ucs2 : List ℕ → Option Text
  ascii_to_ucs2 bytes = if gives (length bytes * 2 + 2) then some (map widen bytes) else none

  -- The variables SecureBoot and SetupMode, with `DataSize` and the byte as they are before.
  unfoldable pub show_setup_mode : Bool → ℕ → ℕ → List Output → Ending
  unfolding read flag_line byte_of
  show_setup_mode verbose size old out =
      read setup_mode 1 size out
        (λ bytes. ended success (out ++ flag_line verbose setup_mode (byte_of old bytes) ∷ []))

  unfoldable pub show_secure_boot : Bool → ℕ → ℕ → List Output → Ending
  unfolding read flag_line byte_of show_setup_mode
  show_secure_boot verbose size old out = read secure_boot 1 size out (λ bytes.
      let byte = byte_of old bytes in
      show_setup_mode verbose (length bytes) byte (out ++ flag_line verbose secure_boot byte ∷ []))

  -- The variables of showlenovo.
  unfoldable pub show_boot_flag : Bool → ℕ → ℕ → List Output → Ending
  unfolding read byte_of show_secure_boot
  show_boot_flag verbose size old out = read simple_boot_flag 1 size out (λ bytes.
      let byte = byte_of old bytes in
      show_secure_boot verbose (length bytes) byte (out ++ number_line simple_boot_flag byte ∷ []))

  unfoldable pub show_build_time : Bool → ℕ → List Output → Ending
  unfolding read ascii_to_ucs2 show_boot_flag
  show_build_time verbose old out = read build_time buffer_size buffer_size out (λ bytes.
      show_boot_flag verbose (length bytes) old
        (out ++ text_line build_time (ascii_to_ucs2 bytes) ∷ []))

  unfoldable pub show_build_date : Bool → ℕ → Ending
  unfolding read ascii_to_ucs2 show_build_time
  show_build_date verbose old =
      read build_date buffer_size buffer_size []
        (λ bytes. show_build_time verbose old (text_line build_date (ascii_to_ucs2 bytes) ∷ []))

  abbrev pub help_texts : List Text
  help_texts =
      (b'-' ∷ b'-' ∷ b'h' ∷ b'e' ∷ b'l' ∷ b'p' ∷ []) ∷ (b'-' ∷ b'h' ∷ []) ∷ (b'-' ∷ b'?' ∷ []) ∷ []

  abbrev pub verbose_texts : List Text
  verbose_texts =
      (b'-' ∷ b'-' ∷ b'v' ∷ b'e' ∷ b'r' ∷ b'b' ∷ b'o' ∷ b's' ∷ b'e' ∷ []) ∷ (b'-' ∷ b'v' ∷ []) ∷ []

  -- `!StrCmp(arg, a) || !StrCmp(arg, b) || …`
  unfoldable pub is_any_of : Text → List Text → Bool
  is_any_of arg [] = false
  is_any_of arg (t ∷ ts) = same_text arg t || is_any_of arg ts

  -- The options of both tools, with what the tool shows.
  unfoldable pub on_options : (Bool → Ending) → List Text → Ending
  unfolding is_any_of
  on_options show (tool ∷ arg ∷ []) =
      if is_any_of arg help_texts
      then ended success (usage ∷ [])
      else if is_any_of arg verbose_texts
      then show true
      else ended invalid_parameter (usage ∷ [])
  on_options show (tool ∷ arg1 ∷ arg2 ∷ args) = ended invalid_parameter (usage ∷ [])
  on_options show argv = show false

  -- `efi_main` of showsb/showsb.c on `argv`, when `get_args` succeeds; the byte has any value before.
  unfoldable pub showsb_main : ℕ → List Text → Ending
  unfolding on_options show_secure_boot
  showsb_main old argv = on_options (λ verbose. show_secure_boot verbose 1 old []) argv

  -- `efi_main` of showlenovo/showlenovo.c
  unfoldable pub showlenovo_main : ℕ → List Text → Ending
  unfolding on_options show_build_date
  showlenovo_main old argv = on_options (λ verbose. show_build_date verbose old) argv
