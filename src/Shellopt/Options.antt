-- ===== src/Shellopt/Options.antt =====
-- Which options shellopt takes, and what it writes.
use mathlib.Core.List.{append_assoc, append-nil}
use uefi_utilities.Base.{
  ◌+◌, ◌<◌, ◌≡◌, refl, ap, sym, ◌∙◌, true, false, some, List, [], ◌∷◌, ◌++◌, arith, ltb, length,
  length-append, ◌≢◌, ◌↔◌, ◌≤◌, ℕ, zero, suc, get_elem?, subst, inl, inr, Bool-cases,
}
use uefi_utilities.Uefi.{Text, Firmware}
use uefi_utilities.Shellopt.{
  buffer_size, delay, shellopts, is_number, built, str_cat, with_buffer, is_one_of, option_loop,
}

-- An option or a number as it stands in the variable.
abbrev pub word : Text → Text
word arg = arg ++ 32 ∷ []

str_cat-word :
    (buffer arg : Text)
    → length buffer + length (word arg) < buffer_size
    → str_cat buffer arg ≡ some (buffer ++ word arg)
unfolding str_cat
str_cat-word buffer arg h =
    let fits : ltb (length buffer + length arg + 1) buffer_size ≡ true =
      ground (arith, length-append arg (32 ∷ [])) in
    rw fits refl

-- "-delay", by the codes of its characters.
abbrev pub minus_delay : Text
minus_delay = 45 ∷ 100 ∷ 101 ∷ 108 ∷ 97 ∷ 121 ∷ []

-- The codes of "-nomap", "-nostartup", "-startup", "-noversion", "-noconsolein", "-noconsoleout",
-- "-nointerrupt" and "-delay".
abbrev pub known_options : List Text
known_options =
    (45 ∷ 110 ∷ 111 ∷ 109 ∷ 97 ∷ 112 ∷ [])
    ∷ (45 ∷ 110 ∷ 111 ∷ 115 ∷ 116 ∷ 97 ∷ 114 ∷ 116 ∷ 117 ∷ 112 ∷ [])
    ∷ (45 ∷ 115 ∷ 116 ∷ 97 ∷ 114 ∷ 116 ∷ 117 ∷ 112 ∷ [])
    ∷ (45 ∷ 110 ∷ 111 ∷ 118 ∷ 101 ∷ 114 ∷ 115 ∷ 105 ∷ 111 ∷ 110 ∷ [])
    ∷ (45 ∷ 110 ∷ 111 ∷ 99 ∷ 111 ∷ 110 ∷ 115 ∷ 111 ∷ 108 ∷ 101 ∷ 105 ∷ 110 ∷ [])
    ∷ (45 ∷ 110 ∷ 111 ∷ 99 ∷ 111 ∷ 110 ∷ 115 ∷ 111 ∷ 108 ∷ 101 ∷ 111 ∷ 117 ∷ 116 ∷ [])
    ∷ (45 ∷ 110 ∷ 111 ∷ 105 ∷ 110 ∷ 116 ∷ 101 ∷ 114 ∷ 114 ∷ 117 ∷ 112 ∷ 116 ∷ [])
    ∷ minus_delay
    ∷ []

abbrev pub IsOption : Text → Type 0
IsOption t = (n : ℕ) × (get_elem? known_options n ≡ some t)

abbrev pub AllDigits : Text → Type 0
AllDigits [] = Unit
AllDigits (c ∷ cs) = (48 ≤ c) × (c ≤ 57) × AllDigits cs

is_number_iff : (t : Text) → (is_number t ≡ true) ↔ AllDigits t
unfolding is_number
is_number_iff [] = ground arith
is_number_iff (c ∷ cs) = ground (arith, is_number_iff cs)

no_number : (t : Text) → ¬ AllDigits t → is_number t ≡ false
no_number t ne = ground (arith, ne, is_number_iff t)

some_inj : {a b : Text} → some a ≡ some b → a ≡ b
some_inj e = cc e

module _ (fw : Firmware) (lower : Text → Text) where
  open fw use {same_text, same_text_iff}

  -- The sequences of options that are written whole, with the text: each is known in lower case; a
  -- number may stand behind -delay, and -delay does not stand last.
  pub data Options : List Text → Text → Type 0 where
    done : Options [] []
    plain :
        (arg : Text) (args : List Text) (text : Text)
        → IsOption (lower arg)
        → lower arg ≢ minus_delay
        → Options args text
        → Options (arg ∷ args) (word (lower arg) ++ text)
    delay_number :
        (arg number : Text) (args : List Text) (text : Text)
        → lower arg ≡ minus_delay
        → AllDigits number
        → Options args text
        → Options (arg ∷ number ∷ args) (word (lower arg) ++ (word number ++ text))
    delay_alone :
        (arg next : Text) (args : List Text) (text : Text)
        → lower arg ≡ minus_delay
        → ¬ AllDigits next
        → Options (next ∷ args) text
        → Options (arg ∷ next ∷ args) (word (lower arg) ++ text)

  same_text_refl : (t : Text) → same_text t t ≡ true
  same_text_refl t = (same_text_iff t t).1 refl

  is_one_of-here : (t : Text) (ts : List Text) → is_one_of fw lower (t ∷ ts) t ≡ true
  unfolding is_one_of
  is_one_of-here t ts = rw (same_text_refl t) refl

  is_one_of-later :
      (t u : Text) (ts : List Text)
      → is_one_of fw lower ts u ≡ true
      → is_one_of fw lower (t ∷ ts) u ≡ true
  unfolding is_one_of
  is_one_of-later t u ts h = elim (Bool-cases (same_text t u)) [
    | inl e ↦ rw e refl
    | inr e ↦ rw e h
  ]

  is_one_of-member :
      (n : ℕ) (ts : List Text) (t : Text) → get_elem? ts n ≡ some t → is_one_of fw lower ts t ≡ true
  is_one_of-member n [] t e = absurd (cc e)
  is_one_of-member zero (u ∷ ts) t e =
      subst (λ v. is_one_of fw lower (u ∷ ts) v ≡ true) (some_inj e) (is_one_of-here u ts)
  is_one_of-member (suc n) (u ∷ ts) t e = is_one_of-later u t ts (is_one_of-member n ts t e)

  IsOption-is_one_of : (t : Text) → IsOption t → is_one_of fw lower shellopts t ≡ true
  IsOption-is_one_of t (n, e) = is_one_of-member n shellopts t e

  is_delay : (t : Text) → t ≡ minus_delay → same_text delay t ≡ true
  is_delay t e = (same_text_iff delay t).1 (sym e)

  is_no_delay : (t : Text) → t ≢ minus_delay → same_text delay t ≡ false
  is_no_delay t ne = elim (Bool-cases (same_text delay t)) [
    | inl e ↦ absurd (ne (sym ((same_text_iff delay t).0 e)))
    | inr e ↦ e
  ]

  delay-known : (t : Text) → t ≡ minus_delay → is_one_of fw lower shellopts t ≡ true
  delay-known t e = is_one_of-member 7 shellopts t (ap some (sym e))

  behind_word :
      (buffer w text : Text)
      → length buffer + length (w ++ text) < buffer_size
      → (length buffer + length w < buffer_size)
        × (length (buffer ++ w) + length text < buffer_size)
  behind_word buffer w text h =
      let sizes = length-append w text in
      (omega (arith, sizes), omega (arith, sizes, length-append buffer w))

  -- A sequence of the eight options, known in lower case, in which -delay does not stand last and may
  -- have a number of digits behind it, is written whole and in order behind what the buffer has, each
  -- option in lower case and with a space behind it, where the text fits into 2048 places with its NUL.
  pub option_loop-Options :
      {args : List Text} {text : Text}
      → Options args text
      → (buffer : Text) → length buffer + length text < 2048
      → option_loop fw lower args buffer ≡ built (buffer ++ text)
  unfolding option_loop with_buffer
  option_loop-Options done buffer h = ap built (sym (append-nil buffer))
  option_loop-Options (plain arg [] text option ne more) buffer h =
      let known = IsOption-is_one_of (lower arg) option in
      let other = is_no_delay (lower arg) ne in
      let (fits, left) = behind_word buffer (word (lower arg)) text h in
      rw (known, str_cat-word buffer (lower arg) fits, other)
        (option_loop-Options more (buffer ++ word (lower arg)) left
          ∙ ap built (append_assoc buffer (word (lower arg)) text))
  option_loop-Options (plain arg (next ∷ rest) text option ne more) buffer h =
      let known = IsOption-is_one_of (lower arg) option in
      let other = is_no_delay (lower arg) ne in
      let (fits, left) = behind_word buffer (word (lower arg)) text h in
      rw (known, str_cat-word buffer (lower arg) fits, other)
        (option_loop-Options more (buffer ++ word (lower arg)) left
          ∙ ap built (append_assoc buffer (word (lower arg)) text))
  option_loop-Options (delay_number arg number args text e digits more) buffer h =
      let known = delay-known (lower arg) e in
      let is = is_delay (lower arg) e in
      let num = (is_number_iff number).1 digits in
      let (fits, left) = behind_word buffer (word (lower arg)) (word number ++ text) h in
      let (fits', left') = behind_word (buffer ++ word (lower arg)) (word number) text left in
      rw
        (
          known,
          str_cat-word buffer (lower arg) fits,
          is,
          num,
          str_cat-word (buffer ++ word (lower arg)) number fits',
        )
        (option_loop-Options more ((buffer ++ word (lower arg)) ++ word number) left'
          ∙ ap built (append_assoc (buffer ++ word (lower arg)) (word number) text)
          ∙ ap built (append_assoc buffer (word (lower arg)) (word number ++ text)))
  option_loop-Options (delay_alone arg next args text e other more) buffer h =
      let known = delay-known (lower arg) e in
      let is = is_delay (lower arg) e in
      let num = no_number next other in
      let (fits, left) = behind_word buffer (word (lower arg)) text h in
      rw (known, str_cat-word buffer (lower arg) fits, is, num)
        (option_loop-Options more (buffer ++ word (lower arg)) left
          ∙ ap built (append_assoc buffer (word (lower arg)) text))
