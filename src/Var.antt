-- ===== src/Var.antt =====
-- var/var.c: `efi_main` behind `get_args`, which shows, makes, changes and deletes a variable.
use uefi_utilities.Base.{
  ◌<◌, ap, Bool-cases, ltb→lt, arith, ℕ, ◌/◌, ◌%◌, ◌≡◌, ◌⊎◌, inl, inr, refl, Bool, true, false,
  ◌||◌, List, [], ◌∷◌, ltb, if◌then◌else◌, length,
}
use uefi_utilities.Uefi.{
  Text, Status, success, not_found, buffer_too_small, out_of_resources, invalid_parameter, other,
  Firmware,
}

-- BUFSIZE, as the CHAR16 of `Data`, and as the bytes that GetVariable is told of.
abbrev pub buffer_size : ℕ
buffer_size = 2048

-- What the tool prints.
pub data Output : Type 0 where
  shown : Text → List ℕ → Output
  created modified : Text → Text → Output
  set_failed get_failed : Status → Output
  modify_failed : Text → Status → Output
  usage : Output

-- The bytes of a value, without its NUL.
unfoldable pub value_bytes : Text → List ℕ
value_bytes [] = []
value_bytes (c ∷ cs) = c % 256 ∷ c / 256 % 256 ∷ value_bytes cs

-- The options by the codes of their characters: "-d", "--delete", "-c", "--create", "-m", "--modify".
abbrev pub IsDelete : Text → Type 0
IsDelete arg = (arg ≡ 45 ∷ 45 ∷ 100 ∷ 101 ∷ 108 ∷ 101 ∷ 116 ∷ 101 ∷ []) ⊎ (arg ≡ 45 ∷ 100 ∷ [])

abbrev pub IsCreate : Text → Type 0
IsCreate arg = (arg ≡ 45 ∷ 45 ∷ 99 ∷ 114 ∷ 101 ∷ 97 ∷ 116 ∷ 101 ∷ []) ⊎ (arg ≡ 45 ∷ 99 ∷ [])

abbrev pub IsModify : Text → Type 0
IsModify arg = (arg ≡ 45 ∷ 45 ∷ 109 ∷ 111 ∷ 100 ∷ 105 ∷ 102 ∷ 121 ∷ []) ⊎ (arg ≡ 45 ∷ 109 ∷ [])

-- A value may be set on a create option, or on a modify option where the variable is readable.
abbrev pub Allowed : Text → Type 0 → Type 0
Allowed arg Readable = IsCreate arg ⊎ (IsModify arg × Readable)

-- The bytes of a text of CHAR16, the lower one of each first.
abbrev pub utf16 : Text → List ℕ
utf16 [] = []
utf16 (c ∷ cs) = c % 256 ∷ c / 256 % 256 ∷ utf16 cs

module _ (fw : Firmware) where
  open fw use {World, set_variable, get_variable, same_text, same_text_iff}

  -- How the tool ends, or a write of `StrCpy` behind `Data`.
  pub data Ending : Type 0 where
    ended : Status → World → List Output → Ending
    overflow : Ending

  -- `!StrCmp(arg, a) || !StrCmp(arg, b)`
  unfoldable pub is_option : Text → Text → Text → Bool
  is_option arg long short = same_text arg long || same_text arg short

  abbrev pub delete_option : Text → Bool
  delete_option arg =
      is_option arg (b'-' ∷ b'-' ∷ b'd' ∷ b'e' ∷ b'l' ∷ b'e' ∷ b't' ∷ b'e' ∷ []) (b'-' ∷ b'd' ∷ [])

  abbrev pub show_option : Text → Bool
  show_option arg = is_option arg (b'-' ∷ b'-' ∷ b's' ∷ b'h' ∷ b'o' ∷ b'w' ∷ []) (b'-' ∷ b's' ∷ [])

  abbrev pub create_option : Text → Bool
  create_option arg =
      is_option arg (b'-' ∷ b'-' ∷ b'c' ∷ b'r' ∷ b'e' ∷ b'a' ∷ b't' ∷ b'e' ∷ []) (b'-' ∷ b'c' ∷ [])

  abbrev pub modify_option : Text → Bool
  modify_option arg =
      is_option arg (b'-' ∷ b'-' ∷ b'm' ∷ b'o' ∷ b'd' ∷ b'i' ∷ b'f' ∷ b'y' ∷ []) (b'-' ∷ b'm' ∷ [])

  -- The call of SetVariable, with what is printed where it succeeds.
  unfoldable pub after_set : List Output → Status × World → Ending
  after_set out (status, w) = elim status [
    | success ↦ ended success w out
    | e ↦ ended e w (set_failed e ∷ [])
  ]

  unfoldable pub store : Text → Text → Output → World → Ending
  unfolding after_set value_bytes
  store name value out w =
      if ltb (length value) buffer_size
      then after_set (out ∷ []) (set_variable name (value_bytes value) w)
      else overflow

  unfoldable pub show_answer : Text → World → Status × List ℕ → Ending
  show_answer name w (status, bytes) = elim status [
    | success ↦ ended success w (shown name bytes ∷ [])
    | e ↦ ended e w (get_failed e ∷ [])
  ]

  unfoldable pub show : Text → World → Ending
  unfolding show_answer
  show name w = show_answer name w (get_variable name buffer_size w)

  unfoldable pub modify_after : Text → Text → World → Status → Ending
  unfolding store
  modify_after name value w success = store name value (modified name value) w
  modify_after name value w e = ended e w (modify_failed name e ∷ [])

  unfoldable pub modify : Text → Text → World → Ending
  unfolding modify_after
  modify name value w = modify_after name value w (get_variable name buffer_size w).0

  unfoldable pub on_one : Text → World → Ending
  on_one arg w = ended success w (usage ∷ [])

  unfoldable pub on_two : Text → Text → World → Ending
  unfolding is_option after_set show
  on_two arg name w =
      if delete_option arg
      then after_set [] (set_variable name [] w)
      else if show_option arg
      then show name w
      else ended success w (usage ∷ [])

  unfoldable pub on_three : Text → Text → Text → World → Ending
  unfolding is_option store modify
  on_three arg name value w =
      if create_option arg
      then store name value (created name value) w
      else if modify_option arg
      then modify name value w
      else ended success w (usage ∷ [])

  -- `efi_main` on `argv`, whose first member is the tool's name; a help option prints the usage too.
  unfoldable pub var_main : List Text → World → Ending
  unfolding on_one on_two on_three
  var_main (tool ∷ arg ∷ []) w = on_one arg w
  var_main (tool ∷ arg ∷ name ∷ []) w = on_two arg name w
  var_main (tool ∷ arg ∷ name ∷ value ∷ []) w = on_three arg name value w
  var_main argv w = ended success w (usage ∷ [])

  -- The firmware is left as it was, or by one SetVariable: of no bytes, on a delete option; of the
  -- bytes of a value that fits, on a create option; or of those bytes on a modify option, where the
  -- variable could be read before.
  abbrev pub Change : List Text → World → World → Type 0
  Change (tool ∷ arg ∷ name ∷ []) w w' =
      (w' ≡ w) ⊎ (IsDelete arg × (w' ≡ (set_variable name [] w).1))
  Change (tool ∷ arg ∷ name ∷ value ∷ []) w w' =
      (w' ≡ w)
      ⊎ (Allowed arg ((get_variable name 2048 w).0 ≡ success)
          × (length value < 2048)
          × (w' ≡ (set_variable name (utf16 value) w).1))
  Change argv w w' = w' ≡ w

  is_option-either :
      (arg long short : Text) → is_option arg long short ≡ true → (arg ≡ long) ⊎ (arg ≡ short)
  unfolding is_option
  is_option-either arg long short h = elim (Bool-cases (same_text arg long)) [
    | inl e ↦ inl ((same_text_iff arg long).0 e)
    | inr e ↦ elim (Bool-cases (same_text arg short)) [
      | inl e' ↦ inr ((same_text_iff arg short).0 e')
      | inr e' ↦ absurd (ground (arith, h, e, e'))
    ]
  ]

  value_bytes-utf16 : (value : Text) → value_bytes value ≡ utf16 value
  unfolding value_bytes
  value_bytes-utf16 [] = refl
  value_bytes-utf16 (c ∷ cs) = ap (λ bytes. c % 256 ∷ c / 256 % 256 ∷ bytes) (value_bytes-utf16 cs)

  abbrev pub Leaves : (World → Type 0) → Ending → Type 0
  Leaves P overflow = Unit
  Leaves P (ended status w out) = P w

  after_set-Leaves :
      (P : World → Type 0) (out : List Output) (r : Status × World)
      → P r.1
      → Leaves P (after_set out r)
  unfolding after_set
  after_set-Leaves P out (success, w) h = h
  after_set-Leaves P out (not_found, w) h = h
  after_set-Leaves P out (buffer_too_small, w) h = h
  after_set-Leaves P out (out_of_resources, w) h = h
  after_set-Leaves P out (invalid_parameter, w) h = h
  after_set-Leaves P out (other n, w) h = h

  store-Leaves :
      (P : World → Type 0) (name value : Text) (out : Output) (w : World)
      → (length value < buffer_size → P (set_variable name (value_bytes value) w).1)
      → Leaves P (store name value out w)
  unfolding store
  store-Leaves P name value out w h = elim (Bool-cases (ltb (length value) buffer_size)) [
    | inl e ↦ rw e (
        after_set-Leaves P (out ∷ []) (set_variable name (value_bytes value) w)
          (h (ltb→lt (length value) buffer_size e)))
    | inr e ↦ rw e tt
  ]

  answer-Leaves :
      (P : World → Type 0) (name : Text) (w : World) (r : Status × List ℕ)
      → P w
      → Leaves P (show_answer name w r)
  unfolding show_answer
  answer-Leaves P name w (success, bytes) h = h
  answer-Leaves P name w (not_found, bytes) h = h
  answer-Leaves P name w (buffer_too_small, bytes) h = h
  answer-Leaves P name w (out_of_resources, bytes) h = h
  answer-Leaves P name w (invalid_parameter, bytes) h = h
  answer-Leaves P name w (other n, bytes) h = h

  show-Leaves : (P : World → Type 0) (name : Text) (w : World) → P w → Leaves P (show name w)
  unfolding show
  show-Leaves P name w h = answer-Leaves P name w (get_variable name buffer_size w) h

  modify_after-Leaves :
      (P : World → Type 0) (name value : Text) (w : World) (status : Status)
      → P w
      → (status ≡ success
          → length value < buffer_size
          → P (set_variable name (value_bytes value) w).1)
      → Leaves P (modify_after name value w status)
  unfolding modify_after
  modify_after-Leaves P name value w success h k =
      store-Leaves P name value (modified name value) w (k refl)
  modify_after-Leaves P name value w not_found h k = h
  modify_after-Leaves P name value w buffer_too_small h k = h
  modify_after-Leaves P name value w out_of_resources h k = h
  modify_after-Leaves P name value w invalid_parameter h k = h
  modify_after-Leaves P name value w (other n) h k = h

  modify-Leaves :
      (P : World → Type 0) (name value : Text) (w : World)
      → P w
      → ((get_variable name buffer_size w).0 ≡ success
          → length value < buffer_size
          → P (set_variable name (value_bytes value) w).1)
      → Leaves P (modify name value w)
  unfolding modify
  modify-Leaves P name value w h k =
      modify_after-Leaves P name value w (get_variable name buffer_size w).0 h k

  if-Leaves :
      (P : World → Type 0) (b : Bool) (x y : Ending)
      → (b ≡ true → Leaves P x)
      → Leaves P y
      → Leaves P (if b then x else y)
  if-Leaves P true x y hx hy = hx refl
  if-Leaves P false x y hx hy = hy

  -- Whatever the arguments, where no value is too long for the buffer, var leaves the firmware as it
  -- was, or changes it by one SetVariable of the variable that is named: deleting it, on a delete
  -- option, or setting it to the bytes of the value, on a create option, or on a modify option where it
  -- could be read.
  pub var_main-Change : (argv : List Text) (w : World) → Leaves (Change argv w) (var_main argv w)
  unfolding var_main
  var_main-Change [] w = refl
  var_main-Change (tool ∷ []) w = refl
  var_main-Change (tool ∷ arg ∷ []) w = refl
  var_main-Change (tool ∷ arg ∷ name ∷ []) w =
      if-Leaves (Change (tool ∷ arg ∷ name ∷ []) w) (delete_option arg) _ _
        (λ e.
          after_set-Leaves (Change (tool ∷ arg ∷ name ∷ []) w) [] (set_variable name [] w)
            (inr (is_option-either arg _ _ e, refl)))
        (if-Leaves (Change (tool ∷ arg ∷ name ∷ []) w) (show_option arg) (show name w)
          (ended success w (usage ∷ []))
          (λ e. show-Leaves (Change (tool ∷ arg ∷ name ∷ []) w) name w (inl refl)) (inl refl))
  var_main-Change (tool ∷ arg ∷ name ∷ value ∷ []) w =
      if-Leaves (Change (tool ∷ arg ∷ name ∷ value ∷ []) w) (create_option arg) _ _
        (λ e.
          store-Leaves (Change (tool ∷ arg ∷ name ∷ value ∷ []) w) name value (created name value) w
            (λ less. inr (
              inl (is_option-either arg _ _ e),
              less,
              ap (λ bytes. (set_variable name bytes w).1) (value_bytes-utf16 value),
            )))
        (if-Leaves (Change (tool ∷ arg ∷ name ∷ value ∷ []) w) (modify_option arg)
          (modify name value w) (ended success w (usage ∷ []))
          (λ e.
            modify-Leaves (Change (tool ∷ arg ∷ name ∷ value ∷ []) w) name value w (inl refl)
              (λ e' less. inr (
                inr (is_option-either arg _ _ e, e'),
                less,
                ap (λ bytes. (set_variable name bytes w).1) (value_bytes-utf16 value),
              )))
          (inl refl))
  var_main-Change (tool ∷ arg ∷ name ∷ value ∷ more ∷ argv) w = refl
