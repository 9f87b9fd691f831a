-- ===== src/Bootnext/Args.antt =====
-- What arguments bootnext takes, and that it changes nothing on any other.
use uefi_utilities.Base.{
  ℕ, ◌/◌, ◌≤◌, inl, inr, Bool-cases, ◌+◌, ◌%◌, ◌≡◌, ◌↔◌, ◌⊎◌, refl, true, List, [], ◌∷◌, arith,
  length,
}
use uefi_utilities.Uefi.{Text, Firmware}
use uefi_utilities.Bootnext.{
  is_hex_char, check_loop, check_arg, on_argument, bootnext_main, set_next, delete_next, show_next,
  value_bytes, boot_next, is_any_of, delete_texts,
}

-- The codes of '0' to '9', 'A' to 'F' and 'a' to 'f'.
abbrev pub IsHex : ℕ → Type 0
IsHex c = ((48 ≤ c) × (c ≤ 57)) ⊎ ((65 ≤ c) × (c ≤ 70)) ⊎ ((97 ≤ c) × (c ≤ 102))

-- Each character has a hexadecimal digit in its low byte.
abbrev pub AllHex : Text → Type 0
AllHex [] = Unit
AllHex (c ∷ cs) = IsHex (c % 256) × AllHex cs

-- The texts `-d` and `--delete`.
abbrev pub IsDelete : Text → Type 0
IsDelete arg =
    (arg ≡ b'-' ∷ b'd' ∷ []) ⊎ (arg ≡ b'-' ∷ b'-' ∷ b'd' ∷ b'e' ∷ b'l' ∷ b'e' ∷ b't' ∷ b'e' ∷ [])

is_hex_char_iff : (c : ℕ) → (is_hex_char c ≡ true) ↔ IsHex c
unfolding is_hex_char
is_hex_char_iff c = ground arith

check_loop-zero :
    (str : Text) (count : ℕ) → (check_loop str count ≡ 0) ↔ ((length str + count ≡ 4) × AllHex str)
unfolding check_loop
check_loop-zero [] count = ground arith
check_loop-zero (c ∷ str) count =
    ground (arith, check_loop-zero str (count + 1), is_hex_char_iff (c % 256))

-- `check_arg` returns 0 exactly for the texts of four characters that each have a hexadecimal
-- digit in the low byte of the CHAR16; the high byte is not looked at.
pub check_arg-zero : (str : Text) → (check_arg str ≡ 0) ↔ ((length str ≡ 4) × AllHex str)
unfolding check_arg
check_arg-zero str = ground (arith, check_loop-zero str 0)

module _ (fw : Firmware) (xtoi : Text → ℕ) where
  open fw use {World, set_variable, same_text, same_text_iff}

  -- SetVariable of "BootNext".
  abbrev pub sets : List ℕ → World → World
  sets bytes w = (set_variable (66 ∷ 111 ∷ 111 ∷ 116 ∷ 78 ∷ 101 ∷ 120 ∷ 116 ∷ []) bytes w).1

  -- How a call may leave the firmware: as it was; with BootNext deleted, on a delete option; or with
  -- BootNext set to the two bytes of the value, the lower one first, on four characters with
  -- hexadecimal low bytes.
  abbrev pub Changes : List Text → World → World → Type 0
  Changes (name ∷ arg ∷ []) w w' =
      (w' ≡ w)
      ⊎ (IsDelete arg × (w' ≡ sets [] w))
      ⊎ ((length arg ≡ 4) × AllHex arg × (w' ≡ sets (xtoi arg % 256 ∷ xtoi arg / 256 % 256 ∷ []) w))
  Changes argv w w' = w' ≡ w

  is_any_of-IsDelete :
      (arg : Text) → is_any_of fw xtoi arg (delete_texts fw xtoi) ≡ true → IsDelete arg
  unfolding is_any_of
  is_any_of-IsDelete arg h =
      let long = b'-' ∷ b'-' ∷ b'd' ∷ b'e' ∷ b'l' ∷ b'e' ∷ b't' ∷ b'e' ∷ [] in
      let short = b'-' ∷ b'd' ∷ [] in
      elim (Bool-cases (same_text arg long)) [
        | inl e ↦ inr ((same_text_iff arg long).0 e)
        | inr e ↦ elim (Bool-cases (same_text arg short)) [
          | inl e' ↦ inl ((same_text_iff arg short).0 e')
          | inr e' ↦ absurd (ground (arith, h, e, e'))
        ]
      ]

  delete_next-world :
      (w : World) → (delete_next fw xtoi w).1 ≡ (set_variable (boot_next fw xtoi) [] w).1
  unfolding delete_next
  delete_next-world w = ground arith

  set_next-world :
      (arg : Text) (w : World)
      → (set_next fw xtoi arg w).1
        ≡ (set_variable (boot_next fw xtoi) (value_bytes fw xtoi (xtoi arg)) w).1
  unfolding set_next
  set_next-world arg w = ground arith

  show_next-world : (w : World) → (show_next fw xtoi w).1 ≡ w
  unfolding show_next
  show_next-world w = ground arith

  -- Whatever the arguments, bootnext changes the firmware by at most one call of SetVariable, on
  -- the variable BootNext: deleting it, on the one argument `-d` or `--delete`, or setting it to the
  -- two bytes of the value, on one argument of four characters with hexadecimal low bytes.
  pub bootnext_main-Changes :
      (argv : List Text) (w : World) → Changes argv w (bootnext_main fw xtoi argv w).1
  unfolding bootnext_main on_argument
  bootnext_main-Changes [] w = refl
  bootnext_main-Changes (name ∷ []) w = show_next-world w
  bootnext_main-Changes (name ∷ arg ∷ []) w =
      ground (
        arith,
        check_arg-zero arg,
        delete_next-world w,
        set_next-world arg w,
        is_any_of-IsDelete arg,
      )
  bootnext_main-Changes (name ∷ arg ∷ more ∷ rest) w = refl
