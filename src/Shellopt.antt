-- ===== src/Shellopt.antt =====
-- shellopt/shellopt.c: the options that become the variable ShellOpt.
use uefi_utilities.Base.{
  ℕ, zero, suc, ◌+◌, ◌/◌, ◌%◌, Bool, true, false, not, ◌&&◌, ◌||◌, Option, none, some, List, [],
  ◌∷◌, ◌++◌, leb, ltb, if◌then◌else◌, length,
}
use uefi_utilities.Uefi.{Text, Status, success, invalid_parameter, Firmware}
pub mod Options
pub mod Main

-- BUFSIZE, in CHAR16.
abbrev pub buffer_size : ℕ
buffer_size = 2048

abbrev pub delay : Text
delay = b'-' ∷ b'd' ∷ b'e' ∷ b'l' ∷ b'a' ∷ b'y' ∷ []

-- The names of `shellopts`.
abbrev pub shellopts : List Text
shellopts =
    (b'-' ∷ b'n' ∷ b'o' ∷ b'm' ∷ b'a' ∷ b'p' ∷ [])
    ∷ (b'-' ∷ b'n' ∷ b'o' ∷ b's' ∷ b't' ∷ b'a' ∷ b'r' ∷ b't' ∷ b'u' ∷ b'p' ∷ [])
    ∷ (b'-' ∷ b's' ∷ b't' ∷ b'a' ∷ b'r' ∷ b't' ∷ b'u' ∷ b'p' ∷ [])
    ∷ (b'-' ∷ b'n' ∷ b'o' ∷ b'v' ∷ b'e' ∷ b'r' ∷ b's' ∷ b'i' ∷ b'o' ∷ b'n' ∷ [])
    ∷ (b'-' ∷ b'n' ∷ b'o' ∷ b'c' ∷ b'o' ∷ b'n' ∷ b's' ∷ b'o' ∷ b'l' ∷ b'e' ∷ b'i' ∷ b'n' ∷ [])
    ∷ (b'-' ∷ b'n' ∷ b'o' ∷ b'c' ∷ b'o' ∷ b'n' ∷ b's' ∷ b'o' ∷ b'l' ∷ b'e' ∷ b'o' ∷ b'u' ∷ b't'
        ∷ [])
    ∷ (b'-' ∷ b'n' ∷ b'o' ∷ b'i' ∷ b'n' ∷ b't' ∷ b'e' ∷ b'r' ∷ b'r' ∷ b'u' ∷ b'p' ∷ b't' ∷ [])
    ∷ delay
    ∷ []

unfoldable pub is_number : Text → Bool
is_number [] = true
is_number (s ∷ str) = let rest = is_number str in if ltb s b'0' || ltb b'9' s then false else rest

-- What the loop over the options leaves: the buffer, the option that is unknown, or behaviour that
-- C does not define, a read of `argv[argc]` or a write behind the buffer.
pub data Built : Type 0 where
  built : Text → Built
  unknown_option : Text → Built
  past_argv overflow : Built

-- `StrCat(buffer, arg); StrCat(buffer, L" ")`, with the NUL behind both.
unfoldable pub str_cat : Text → Text → Option Text
str_cat buffer arg =
    if ltb (length buffer + length arg + 1) buffer_size
    then some (buffer ++ (arg ++ 32 ∷ []))
    else none

unfoldable pub with_buffer : Option Text → (Text → Built) → Built
with_buffer none next = overflow
with_buffer (some buffer) next = next buffer

module _ (fw : Firmware) (lower : Text → Text) where
  open fw use {World, set_variable, same_text}

  unfoldable pub is_one_of : List Text → Text → Bool
  is_one_of [] arg = false
  is_one_of (t ∷ ts) arg = same_text t arg || is_one_of ts arg

  -- The loop over `argv`, from an option on; `lower` is `StrLwr`.
  unfoldable pub option_loop : List Text → Text → Built
  unfolding is_number str_cat with_buffer is_one_of
  option_loop [] buffer = built buffer
  option_loop (arg ∷ []) buffer =
      if is_one_of shellopts (lower arg)
      then with_buffer (str_cat buffer (lower arg))
          (λ b. if same_text delay (lower arg) then past_argv else built b)
      else unknown_option (lower arg)
  option_loop (arg ∷ next ∷ rest) buffer =
      if is_one_of shellopts (lower arg)
      then with_buffer (str_cat buffer (lower arg)) (λ b.
        let number = with_buffer (str_cat b next) (λ c. option_loop rest c) in
        let plain = option_loop (next ∷ rest) b in
        if same_text delay (lower arg) && is_number next then number else plain)
      else unknown_option (lower arg)

  -- How the tool ends: with a status, the firmware and whether it prints its usage, or undefined.
  pub data Ending : Type 0 where
    ended : Status → World → Bool → Ending
    undefined : Ending

  abbrev pub shell_opt : Text
  shell_opt = b'S' ∷ b'h' ∷ b'e' ∷ b'l' ∷ b'l' ∷ b'O' ∷ b'p' ∷ b't' ∷ []

  -- The bytes of a buffer of CHAR16.
  unfoldable pub char16_bytes : Text → List ℕ
  char16_bytes [] = []
  char16_bytes (c ∷ text) = c % 256 ∷ c / 256 % 256 ∷ char16_bytes text

  abbrev pub help_options : List Text
  help_options =
      (b'-' ∷ b'-' ∷ b'h' ∷ b'e' ∷ b'l' ∷ b'p' ∷ [])
      ∷ (b'/' ∷ b'h' ∷ b'e' ∷ b'l' ∷ b'p' ∷ [])
      ∷ (b'-' ∷ b'h' ∷ [])
      ∷ (b'-' ∷ b'?' ∷ [])
      ∷ []

  abbrev pub set_options : List Text
  set_options = (b'-' ∷ b's' ∷ []) ∷ (b'-' ∷ b'-' ∷ b's' ∷ b'e' ∷ b't' ∷ []) ∷ []

  -- The call of SetVariable; no bytes delete the variable.
  unfoldable pub set_shell_opt : List ℕ → World → Ending
  set_shell_opt bytes w = let (status, w') = set_variable shell_opt bytes w in ended status w' false

  unfoldable pub on_built : Built → World → Ending
  unfolding set_shell_opt char16_bytes
  on_built (built text) w = set_shell_opt (char16_bytes text) w
  on_built (unknown_option arg) w = ended invalid_parameter w false
  on_built past_argv w = undefined
  on_built overflow w = undefined

  -- `efi_main` on `argv`. With one argument that asks for no help, whatever it is, `bufsize` is 0.
  unfoldable pub shellopt_main : List Text → World → Ending
  unfolding option_loop on_built
  shellopt_main (name ∷ arg ∷ []) w =
      if is_one_of help_options arg then ended success w true else set_shell_opt [] w
  shellopt_main (name ∷ arg ∷ option ∷ rest) w =
      if is_one_of set_options arg
      then on_built (option_loop (option ∷ rest) []) w
      else ended invalid_parameter w true
  shellopt_main argv w = ended success w true
