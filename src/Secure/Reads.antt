-- ===== src/Secure/Reads.antt =====
-- What showsb/showsb.c and showlenovo/showlenovo.c print of a firmware's variables.
use mathlib.Core.List.{append_assoc, append-nil}
use uefi_utilities.Base.{
  ◌==◌, zero, suc, ◌+◌, ◌*◌, ◌⊎◌, ◌↔◌, inl, inr, ltb, map, Bool-cases, le→ltb, ℕ, ◌≤◌, ◌≡◌, refl,
  sym, ap, subst, ◌∙◌, Bool, true, false, Option, none, some, List, [], ◌∷◌, ◌++◌, arith, leb,
  length, if◌then◌else◌,
}
use uefi_utilities.Uefi.{Text, Status, success, not_found, buffer_too_small, invalid_parameter}
use uefi_utilities.Smbios.{widen}
use uefi_utilities.Secure.{
  enabled, disabled, Services, Item, build_date, build_time, simple_boot_flag, secure_boot,
  setup_mode, Output, text_line, number_line, missing, Ending, ended, overflow, vendor_of, name_of,
  byte_of, flag_line, after_read, read, ascii_to_ucs2, show_setup_mode, show_secure_boot,
  show_boot_flag, show_build_time, show_build_date, on_options, showlenovo_main, is_any_of,
  help_texts, verbose_texts, usage,
}

-- GetVariable of a variable that has this content, or is not there.
abbrev pub answer : Option (List ℕ) → ℕ → Status × List ℕ
answer none size = (not_found, [])
answer (some bytes) size =
    if leb (length bytes) size then (success, bytes) else (buffer_too_small, [])

-- The line of a variable that has this content.
abbrev pub line : Services → Bool → Item → List ℕ → Output
line sv verbose build_date bytes = text_line build_date (ascii_to_ucs2 sv bytes)
line sv verbose build_time bytes = text_line build_time (ascii_to_ucs2 sv bytes)
line sv verbose simple_boot_flag bytes = number_line simple_boot_flag (byte_of 0 bytes)
line sv verbose secure_boot bytes = flag_line verbose secure_boot (byte_of 0 bytes)
line sv verbose setup_mode bytes = flag_line verbose setup_mode (byte_of 0 bytes)

-- The status and the lines, from what a variable is and what those behind it give.
abbrev pub prepend :
    Services → Bool → Item → Option (List ℕ) → Status × List Output → Status × List Output
prepend sv verbose item none rest = (not_found, missing item ∷ [])
prepend sv verbose item (some bytes) rest = (rest.0, line sv verbose item bytes ∷ rest.1)

-- A flag has one byte, and a text has one and fits `Data`.
abbrev pub IsSized : Item → Option (List ℕ) → Type 0
IsSized item none = Unit
IsSized build_date (some bytes) = (1 ≤ length bytes) × (length bytes ≤ 64)
IsSized build_time (some bytes) = (1 ≤ length bytes) × (length bytes ≤ 64)
IsSized simple_boot_flag (some bytes) = length bytes ≡ 1
IsSized secure_boot (some bytes) = length bytes ≡ 1
IsSized setup_mode (some bytes) = length bytes ≡ 1

le→leb : (m n : ℕ) → m ≤ n → leb m n ≡ true
le→leb m n le = ground arith

byte_of-one : (old : ℕ) (bytes : List ℕ) → length bytes ≡ 1 → byte_of old bytes ≡ byte_of 0 bytes
unfolding byte_of
byte_of-one old [] e = absurd (omega (arith, e))
byte_of-one old (b ∷ bytes) e = refl

-- The variables of showlenovo.
abbrev pub all_items : List Item
all_items = build_date ∷ build_time ∷ simple_boot_flag ∷ secure_boot ∷ setup_mode ∷ []

module _ (sv : Services) (contents : Item → Option (List ℕ)) where
  open sv use {get_variable, gives}

  -- The firmware has these contents.
  abbrev pub Keeps : Type 0
  Keeps =
      (item : Item) (size : ℕ)
      → get_variable (vendor_of item) (name_of item) size ≡ answer (contents item) size

  abbrev pub Sized : Type 0
  Sized = (item : Item) → IsSized item (contents item)

  -- The lines of the variables in their order, to the first that is not there.
  abbrev pub report : Bool → List Item → Status × List Output
  report verbose [] = (success, [])
  report verbose (item ∷ items) =
      let rest = report verbose items in prepend sv verbose item (contents item) rest

  read-prepend :
      (verbose : Bool) (item : Item) (room size : ℕ) (out : List Output) (next : List ℕ → Ending)
      (o : Option (List ℕ)) (rest : Status × List Output)
      → get_variable (vendor_of item) (name_of item) size ≡ answer o size
      → ((bytes : List ℕ) → o ≡ some bytes → (length bytes ≤ size) × (length bytes ≤ room))
      → ((bytes : List ℕ)
          → o ≡ some bytes
          → next bytes ≡ ended rest.0 ((out ++ line sv verbose item bytes ∷ []) ++ rest.1))
      → read sv item room size out next
        ≡ ended (prepend sv verbose item o rest).0 (out ++ (prepend sv verbose item o rest).1)
  unfolding read after_read
  read-prepend verbose item room size out next none rest e fits then_next =
      ap (after_read sv item room out next) e
  read-prepend verbose item room size out next (some bytes) rest e fits then_next =
      let fit = fits bytes refl in
      ap (after_read sv item room out next) e
      ∙ ap
          (λ b.
            after_read sv item room out next
              (if b then (success, bytes) else (buffer_too_small, [])))
          (le→leb (length bytes) size fit.0)
      ∙ ap (λ b. if b then overflow else next bytes) (le→ltb room (length bytes) fit.1)
      ∙ then_next bytes refl
      ∙ ap (ended rest.0) (append_assoc out (line sv verbose item bytes ∷ []) rest.1)

  abbrev outcome : List Output → Status × List Output → Ending
  outcome out r = ended r.0 (out ++ r.1)

  -- A flag of one byte, read with room for one.
  flag_fits :
      (item : Item) (size : ℕ) (bytes : List ℕ)
      → length bytes ≡ 1
      → 1 ≤ size
      → (length bytes ≤ size) × (length bytes ≤ 1)
  flag_fits item size bytes e pos = (omega (arith, e, pos), omega (arith, e))

  module _ (keeps : Keeps) (sized : Sized) (verbose : Bool) where
    -- A variable that is there has the size that it is to have.
    IsSized-at :
        (item : Item) (bytes : List ℕ) → contents item ≡ some bytes → IsSized item (some bytes)
    IsSized-at item bytes e = subst (IsSized item) e (sized item)

    show_setup_mode-report :
        (size old : ℕ) (out : List Output)
        → 1 ≤ size
        → show_setup_mode sv verbose size old out ≡ outcome out (report verbose (setup_mode ∷ []))
    unfolding show_setup_mode
    show_setup_mode-report size old out pos =
        read-prepend verbose setup_mode 1 size out _ (contents setup_mode) (success, [])
          (keeps setup_mode size)
          (λ bytes e. flag_fits setup_mode size bytes (IsSized-at setup_mode bytes e) pos)
          (λ bytes e.
            ap (λ b. ended success (out ++ flag_line verbose setup_mode b ∷ []))
              (byte_of-one old bytes (IsSized-at setup_mode bytes e))
            ∙ ap (ended success) (sym (append-nil (out ++ line sv verbose setup_mode bytes ∷ []))))

    show_secure_boot-report :
        (size old : ℕ) (out : List Output)
        → 1 ≤ size
        → show_secure_boot sv verbose size old out
          ≡ outcome out (report verbose (secure_boot ∷ setup_mode ∷ []))
    unfolding show_secure_boot
    show_secure_boot-report size old out pos =
        read-prepend verbose secure_boot 1 size out _ (contents secure_boot)
          (report verbose (setup_mode ∷ [])) (keeps secure_boot size)
          (λ bytes e. flag_fits secure_boot size bytes (IsSized-at secure_boot bytes e) pos)
          (λ bytes e.
            let one = IsSized-at secure_boot bytes e in
            show_setup_mode-report (length bytes) (byte_of old bytes)
              (out ++ flag_line verbose secure_boot (byte_of old bytes) ∷ []) (omega (arith, one))
            ∙ ap
                (λ b.
                  outcome (out ++ flag_line verbose secure_boot b ∷ [])
                    (report verbose (setup_mode ∷ [])))
                (byte_of-one old bytes one))

    show_boot_flag-report :
        (size old : ℕ) (out : List Output)
        → 1 ≤ size
        → show_boot_flag sv verbose size old out
          ≡ outcome out (report verbose (simple_boot_flag ∷ secure_boot ∷ setup_mode ∷ []))
    unfolding show_boot_flag
    show_boot_flag-report size old out pos =
        read-prepend verbose simple_boot_flag 1 size out _ (contents simple_boot_flag)
          (report verbose (secure_boot ∷ setup_mode ∷ [])) (keeps simple_boot_flag size)
          (λ bytes e.
            flag_fits simple_boot_flag size bytes (IsSized-at simple_boot_flag bytes e) pos)
          (λ bytes e.
            let one = IsSized-at simple_boot_flag bytes e in
            show_secure_boot-report (length bytes) (byte_of old bytes)
              (out ++ number_line simple_boot_flag (byte_of old bytes) ∷ []) (omega (arith, one))
            ∙ ap
                (λ b.
                  outcome (out ++ number_line simple_boot_flag b ∷ [])
                    (report verbose (secure_boot ∷ setup_mode ∷ [])))
                (byte_of-one old bytes one))

    show_build_time-report :
        (old : ℕ) (out : List Output)
        → show_build_time sv verbose old out
          ≡ outcome out
              (report verbose (build_time ∷ simple_boot_flag ∷ secure_boot ∷ setup_mode ∷ []))
    unfolding show_build_time
    show_build_time-report old out =
        read-prepend verbose build_time 64 64 out _ (contents build_time)
          (report verbose (simple_boot_flag ∷ secure_boot ∷ setup_mode ∷ [])) (keeps build_time 64)
          (λ bytes e. let fit = IsSized-at build_time bytes e in (fit.1, fit.1))
          (λ bytes e.
            show_boot_flag-report (length bytes) old (out ++ line sv verbose build_time bytes ∷ [])
              (IsSized-at build_time bytes e).0)

-- A CHAR16 of each signed char.
abbrev pub signed_chars : List ℕ → Text
signed_chars [] = []
signed_chars (b ∷ bs) = (if ltb b 128 then b else b + 65280) ∷ signed_chars bs

-- What is to be printed of a variable with this content: the text of a date or a time, or none where
-- memory for its CHAR16 and a NUL is lacking; the number of the boot flag; and the two others as
-- numbers, or verbose as disabled where they are 0 and as enabled where they are not.
abbrev pub printed_text : Services → List ℕ → Option Text
printed_text sv bytes =
    if Services.gives sv (2 * (length bytes + 1)) then some (signed_chars bytes) else none

abbrev pub printed_flag : Bool → Item → List ℕ → Output
printed_flag true item (suc b ∷ bs) = enabled item
printed_flag true item bytes = disabled item
printed_flag false item (b ∷ bs) = number_line item b
printed_flag false item [] = number_line item 0

abbrev pub printed_line : Services → Bool → Item → List ℕ → Output
printed_line sv verbose build_date bytes = text_line build_date (printed_text sv bytes)
printed_line sv verbose build_time bytes = text_line build_time (printed_text sv bytes)
printed_line sv verbose simple_boot_flag bytes = printed_flag false simple_boot_flag bytes
printed_line sv verbose secure_boot bytes = printed_flag verbose secure_boot bytes
printed_line sv verbose setup_mode bytes = printed_flag verbose setup_mode bytes

-- The status and the lines of the variables in their order, to the first that is not there.
abbrev pub behind :
    Services → Bool → Item → Option (List ℕ) → Status × List Output → Status × List Output
behind sv verbose item none rest = (not_found, missing item ∷ [])
behind sv verbose item (some bytes) rest = (rest.0, printed_line sv verbose item bytes ∷ rest.1)

abbrev pub listing : Services → (Item → Option (List ℕ)) → Bool → List Item → Status × List Output
listing sv contents verbose [] = (success, [])
listing sv contents verbose (item ∷ items) =
    let rest = listing sv contents verbose items in behind sv verbose item (contents item) rest

abbrev pub ended_listing : Services → (Item → Option (List ℕ)) → List Item → Bool → Ending
ended_listing sv contents items verbose =
    ended (listing sv contents verbose items).0 (listing sv contents verbose items).1

map-signed_chars : (bytes : List ℕ) → map widen bytes ≡ signed_chars bytes
unfolding widen
map-signed_chars [] = refl
map-signed_chars (b ∷ bs) =
    ap (λ cs. (if ltb b 128 then b else b + 65280) ∷ cs) (map-signed_chars bs)

ascii_to_ucs2-printed_text :
    (sv : Services) (bytes : List ℕ) → ascii_to_ucs2 sv bytes ≡ printed_text sv bytes
unfolding ascii_to_ucs2
ascii_to_ucs2-printed_text sv bytes =
    let same : length bytes * 2 + 2 ≡ 2 * (length bytes + 1) = omega arith in
    ap (λ n. if Services.gives sv n then some (map widen bytes) else none) same
    ∙ ap (λ t. if Services.gives sv (2 * (length bytes + 1)) then some t else none)
        (map-signed_chars bytes)

flag_line-printed_flag :
    (verbose : Bool) (item : Item) (bytes : List ℕ)
    → flag_line verbose item (byte_of 0 bytes) ≡ printed_flag verbose item bytes
unfolding flag_line byte_of
flag_line-printed_flag true item [] = refl
flag_line-printed_flag true item (zero ∷ bs) = refl
flag_line-printed_flag true item (suc b ∷ bs) =
    let more : (suc b == 0) ≡ false = ground arith in rw more refl
flag_line-printed_flag false item [] = refl
flag_line-printed_flag false item (b ∷ bs) = refl

number_line-printed_flag :
    (item : Item) (bytes : List ℕ)
    → number_line item (byte_of 0 bytes) ≡ printed_flag false item bytes
unfolding byte_of
number_line-printed_flag item [] = refl
number_line-printed_flag item (b ∷ bs) = refl

line-printed_line :
    (sv : Services) (verbose : Bool) (item : Item) (bytes : List ℕ)
    → line sv verbose item bytes ≡ printed_line sv verbose item bytes
line-printed_line sv verbose build_date bytes =
    ap (text_line build_date) (ascii_to_ucs2-printed_text sv bytes)
line-printed_line sv verbose build_time bytes =
    ap (text_line build_time) (ascii_to_ucs2-printed_text sv bytes)
line-printed_line sv verbose simple_boot_flag bytes =
    number_line-printed_flag simple_boot_flag bytes
line-printed_line sv verbose secure_boot bytes = flag_line-printed_flag verbose secure_boot bytes
line-printed_line sv verbose setup_mode bytes = flag_line-printed_flag verbose setup_mode bytes

prepend-behind :
    (sv : Services) (verbose : Bool) (item : Item) (o : Option (List ℕ))
    (rest rest' : Status × List Output)
    → rest ≡ rest'
    → prepend sv verbose item o rest ≡ behind sv verbose item o rest'
prepend-behind sv verbose item none rest rest' e = refl
prepend-behind sv verbose item (some bytes) rest rest' e =
    ap (λ r. (r.0, line sv verbose item bytes ∷ r.1)) e
    ∙ ap (λ l. (rest'.0, l ∷ rest'.1)) (line-printed_line sv verbose item bytes)

report-listing :
    (sv : Services) (contents : Item → Option (List ℕ)) (verbose : Bool) (items : List Item)
    → report sv contents verbose items ≡ listing sv contents verbose items
report-listing sv contents verbose [] = refl
report-listing sv contents verbose (item ∷ items) =
    prepend-behind sv verbose item (contents item) _ _ (report-listing sv contents verbose items)

-- The options by the codes of their characters: "-h", "--help", "-?", "-v" and "--verbose".
abbrev pub IsHelp : Text → Type 0
IsHelp arg =
    (arg ≡ 45 ∷ 45 ∷ 104 ∷ 101 ∷ 108 ∷ 112 ∷ []) ⊎ (arg ≡ 45 ∷ 104 ∷ []) ⊎ (arg ≡ 45 ∷ 63 ∷ [])

abbrev pub IsVerbose : Text → Type 0
IsVerbose arg =
    (arg ≡ 45 ∷ 45 ∷ 118 ∷ 101 ∷ 114 ∷ 98 ∷ 111 ∷ 115 ∷ 101 ∷ []) ⊎ (arg ≡ 45 ∷ 118 ∷ [])

-- How a tool that shows `f` ends on these arguments.
abbrev pub AsAsked : List Text → (Bool → Ending) → Ending → Type 0
AsAsked [] f r = r ≡ f false
AsAsked (tool ∷ []) f r = r ≡ f false
AsAsked (tool ∷ arg ∷ []) f r =
    (IsHelp arg × (r ≡ ended success (usage ∷ [])))
    ⊎ (IsVerbose arg × (r ≡ f true))
    ⊎ ((¬ IsHelp arg) × (¬ IsVerbose arg) × (r ≡ ended invalid_parameter (usage ∷ [])))
AsAsked (tool ∷ arg1 ∷ arg2 ∷ args) f r = r ≡ ended invalid_parameter (usage ∷ [])

module _ (sv : Services) where
  open sv use {same_text, same_text_iff}

  IsHelp-iff : (arg : Text) → (is_any_of sv arg (help_texts sv) ≡ true) ↔ IsHelp arg
  unfolding is_any_of
  IsHelp-iff arg = ground (
    arith,
    same_text_iff arg (45 ∷ 45 ∷ 104 ∷ 101 ∷ 108 ∷ 112 ∷ []),
    same_text_iff arg (45 ∷ 104 ∷ []),
    same_text_iff arg (45 ∷ 63 ∷ []),
  )

  IsVerbose-iff : (arg : Text) → (is_any_of sv arg (verbose_texts sv) ≡ true) ↔ IsVerbose arg
  unfolding is_any_of
  IsVerbose-iff arg = ground (
    arith,
    same_text_iff arg (45 ∷ 45 ∷ 118 ∷ 101 ∷ 114 ∷ 98 ∷ 111 ∷ 115 ∷ 101 ∷ []),
    same_text_iff arg (45 ∷ 118 ∷ []),
  )

  on_options-AsAsked :
      (f g : Bool → Ending)
      → ((verbose : Bool) → f verbose ≡ g verbose)
      → (argv : List Text) → AsAsked argv g (on_options sv f argv)
  unfolding on_options
  on_options-AsAsked f g same [] = same false
  on_options-AsAsked f g same (tool ∷ []) = same false
  on_options-AsAsked f g same (tool ∷ arg ∷ []) =
      elim (Bool-cases (is_any_of sv arg (help_texts sv))) [
        | inl help ↦ inl ((IsHelp-iff arg).0 help, rw help refl)
        | inr other ↦ elim (Bool-cases (is_any_of sv arg (verbose_texts sv))) [
          | inl v ↦ inr (inl ((IsVerbose-iff arg).0 v, rw (other, v) (same true)))
          | inr w ↦ inr (
              inr (
                (λ h. cc (other, (IsHelp-iff arg).1 h)),
                (λ h. cc (w, (IsVerbose-iff arg).1 h)),
                rw (other, w) refl,
              ))
        ]
      ]
  on_options-AsAsked f g same (tool ∷ arg1 ∷ arg2 ∷ args) = refl

module _ (sv : Services) (contents : Item → Option (List ℕ)) (old : ℕ) (argv : List Text) where
  -- On a firmware whose flags have one byte, and whose build date and time have at least one and fit the
  -- 64 bytes of `Data`, and for all arguments: showlenovo prints the five variables in their order, to
  -- the first that is not there, which it reports with EFI_NOT_FOUND; without an argument the flags of
  -- Secure Boot as numbers, on `-v` or `--verbose` as enabled or disabled; on `-h`, `--help` or `-?` it
  -- prints its usage alone, and on any other arguments with EFI_INVALID_PARAMETER. Nothing is written
  -- behind `IntData`, although the size that is asked for is that of the variable before.
  pub showlenovo_main-report :
      Keeps sv contents
      → Sized sv contents
      → AsAsked argv (ended_listing sv contents all_items) (showlenovo_main sv old argv)
  unfolding showlenovo_main show_build_date
  showlenovo_main-report keeps sized =
      on_options-AsAsked sv _ (ended_listing sv contents all_items)
        (λ verbose.
          read-prepend sv contents verbose build_date 64 64 [] _ (contents build_date)
            (report sv contents verbose
              (build_time ∷ simple_boot_flag ∷ secure_boot ∷ setup_mode ∷ []))
            (keeps build_date 64)
            (λ bytes e.
              let fit = IsSized-at sv contents keeps sized verbose build_date bytes e in
              (fit.1, fit.1))
            (λ bytes e.
              show_build_time-report sv contents keeps sized verbose old
                (line sv verbose build_date bytes ∷ []))
          ∙ ap (λ r. ended r.0 r.1) (report-listing sv contents verbose all_items))
        argv
