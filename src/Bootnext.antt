-- ===== src/Bootnext.antt =====
-- bootnext/bootnext.c: the check of its argument, and `efi_main` behind `get_args`.
use uefi_utilities.Base.{
  ℕ, zero, suc, ◌+◌, ◌/◌, ◌%◌, Bool, true, false, not, ◌&&◌, ◌||◌, List, [], ◌∷◌, leb, ◌==◌,
  if◌then◌else◌, length,
}
use uefi_utilities.Uefi.{Text, Status, success, not_found, other, Firmware}
pub mod Args

-- `c = (char)*p` is a signed char; the bytes from 0x80 on are negative and pass none of the tests.
unfoldable pub is_hex_char : ℕ → Bool
is_hex_char c =
    (leb b'0' c && leb c b'9') || (leb b'A' c && leb c b'F') || (leb b'a' c && leb c b'f')

-- The loop of `check_arg`, with `count`.
unfoldable pub check_loop : Text → ℕ → ℕ
unfolding is_hex_char
check_loop [] count = if count == 4 then 0 else 1
check_loop (p ∷ str) count =
    let rest = check_loop str (count + 1) in if not (is_hex_char (p % 256)) then 1 else rest

-- 0 if the argument is accepted.
unfoldable pub check_arg : Text → ℕ
unfolding check_loop
check_arg str = check_loop str 0

-- What the tool prints.
pub data Output : Type 0 where
  value : List ℕ → Output
  usage get_failed set_failed invalid_argument : Output

module _ (fw : Firmware) (xtoi : Text → ℕ) where
  open fw use {World, set_variable, get_variable, same_text}

  abbrev pub boot_next : Text
  boot_next = b'B' ∷ b'o' ∷ b'o' ∷ b't' ∷ b'N' ∷ b'e' ∷ b'x' ∷ b't' ∷ []

  -- The two bytes at `&BootValue`.
  abbrev pub value_bytes : ℕ → List ℕ
  value_bytes v = v % 256 ∷ v / 256 % 256 ∷ []

  unfoldable pub show_next : World → Status × World × List Output
  show_next w =
      let (status, bytes) = get_variable boot_next 2 w in
      elim status [
        | success ↦ (success, w, value bytes ∷ [])
        | not_found ↦ (not_found, w, [])
        | failed ↦ (failed, w, get_failed ∷ [])
      ]

  abbrev pub help_texts : List Text
  help_texts =
      (b'-' ∷ b'-' ∷ b'h' ∷ b'e' ∷ b'l' ∷ b'p' ∷ []) ∷ (b'-' ∷ b'h' ∷ []) ∷ (b'-' ∷ b'?' ∷ []) ∷ []

  abbrev pub delete_texts : List Text
  delete_texts =
      (b'-' ∷ b'-' ∷ b'd' ∷ b'e' ∷ b'l' ∷ b'e' ∷ b't' ∷ b'e' ∷ []) ∷ (b'-' ∷ b'd' ∷ []) ∷ []

  -- `!StrCmp(arg, a) || !StrCmp(arg, b) || …`
  unfoldable pub is_any_of : Text → List Text → Bool
  is_any_of arg [] = false
  is_any_of arg (t ∷ ts) = same_text arg t || is_any_of arg ts

  unfoldable pub delete_next : World → Status × World × List Output
  delete_next w =
      let (status, w') = set_variable boot_next [] w in
      elim status [
        | success ↦ (success, w', [])
        | not_found ↦ (not_found, w', [])
        | failed ↦ (failed, w', set_failed ∷ [])
      ]

  unfoldable pub set_next : Text → World → Status × World × List Output
  set_next arg w =
      let (status, w') = set_variable boot_next (value_bytes (xtoi arg)) w in
      elim status [ success ↦ (success, w', []) | failed ↦ (failed, w', set_failed ∷ []) ]

  -- `return 1` is not an error code of UEFI.
  unfoldable pub on_argument : Text → World → Status × World × List Output
  on_argument arg w =
      if is_any_of arg help_texts
      then (success, w, usage ∷ [])
      else if is_any_of arg delete_texts
      then delete_next w
      else if not (check_arg arg == 0)
      then (other 1, w, invalid_argument ∷ [])
      else set_next arg w

  -- `efi_main` on `argv`, whose first member is the tool's name.
  unfoldable pub bootnext_main : List Text → World → Status × World × List Output
  bootnext_main (name ∷ []) w = show_next w
  bootnext_main (name ∷ arg ∷ []) w = on_argument arg w
  bootnext_main argv w = (success, w, [])
