-- ===== src/Hotkeys/Main.antt =====
-- `efi_main` of showhotkeys/showhotkeys.c, and its tests of a variable's name.
use mathlib.Core.List.{append-nil, Perm}
use uefi_utilities.Base.{
  ==_iff, ℕ, ◌+◌, ◌*◌, ◌≤◌, ◌<◌, ◌≡◌, ◌≢◌, ◌↔◌, sym, ap, subst, ◌∙◌, Bool, true, false, not, ◌||◌,
  ◌==◌, Option, some, List, [], ◌∷◌, ◌++◌, map, arith, length, take, drop, if◌then◌else◌,
}
use uefi_utilities.Uefi.{Text, success, not_found}
use uefi_utilities.Links.{Store}
use uefi_utilities.Links.Pool.{Heap, NeverOut}
use uefi_utilities.Hotkeys.{
  Services, name, supported, not_supported, list_hot_keys, Result, option_number, option_step,
  option_loop, key_text, is_hot_key_variable, is_any_of, help_texts, verbose_texts, nosort_texts,
  show_supported, on_one, hotkeys_main,
}
use uefi_utilities.Hotkeys.Order.{Ascending, arrange, arrange-Ordered, arrange-Perm}
use uefi_utilities.Hotkeys.Build.{Enumerates, hot_names}
use uefi_utilities.Hotkeys.Correct.{Shows, list_hot_keys-arrange}

-- A character of an option number: a decimal digit, or one of the letters A to F.
pub data IsDigit (c v : ℕ) : Type 0 where
  decimal : v < 10 → c ≡ b'0' + v → IsDigit c v
  letter : v < 6 → c ≡ b'A' + v → IsDigit c v

option_step-IsDigit : (n c v : ℕ) → n ≤ 999 → IsDigit c v → option_step n c ≡ n * 10 + v
unfolding option_step
option_step-IsDigit n c v small (decimal less e) = ground arith
option_step-IsDigit n c v small (letter less e) = ground arith

IsDigit-le : (c v : ℕ) → IsDigit c v → v ≤ 9
IsDigit-le c v (decimal less e) = omega (arith, less)
IsDigit-le c v (letter less e) = omega (arith, less)

nonzero : (n : ℕ) → n ≢ 0 → (n == 0) ≡ false
nonzero n ne = ground arith

all_of :
    (a b c : Bool)
    → ((if not a || not b || not c then false else true) ≡ true)
      ↔ ((a ≡ true) × (b ≡ true) × (c ≡ true))
all_of true true true = ground arith
all_of true true false = ground arith
all_of true false c = ground arith
all_of false b c = ground arith

-- The option number of `Key` and four digits is read in the base 10, and a letter counts as its place
-- behind A, so that A is read as 0 is.
pub option_number-value :
    (c d e f v w x y : ℕ)
    → IsDigit c v
    → IsDigit d w
    → IsDigit e x
    → IsDigit f y
    → option_number (key_text ++ c ∷ d ∷ e ∷ f ∷ []) ≡ ((v * 10 + w) * 10 + x) * 10 + y
unfolding option_loop
option_number-value c d e f v w x y dc dd de df =
    let step1 : option_step 0 c ≡ v = option_step-IsDigit 0 c v (omega arith) dc ∙ omega arith in
    let step2 = option_step-IsDigit v d w (omega (arith, IsDigit-le c v dc)) dd in
    let step3 =
      option_step-IsDigit (v * 10 + w) e x (omega (arith, IsDigit-le c v dc, IsDigit-le d w dd))
        de in
    let step4 =
      option_step-IsDigit ((v * 10 + w) * 10 + x) f y
        (omega (arith, IsDigit-le c v dc, IsDigit-le d w dd, IsDigit-le e x de)) df in
    ap (λ n. option_step (option_step (option_step n d) e) f) step1
    ∙ ap (λ n. option_step (option_step n e) f) step2
    ∙ ap (λ n. option_step n f) step3
    ∙ step4

module _ (sv : Services) where
  open sv use {
    Guid, null_guid, global_guid, get_variable, compare_guid, compare_guid_iff, str_size,
    str_size-length, same_start, same_start_iff, pool,
  }

  -- The variables that are taken for hot keys are those of the global identifier whose names begin with
  -- `Key` and have four more characters, and a name and its NUL then fit an entry's eight.
  pub is_hot_key_variable_iff :
      (text : Text) (guid : Guid)
      → (is_hot_key_variable sv text guid ≡ true)
        ↔ ((guid ≡ global_guid) × (take 3 text ≡ key_text) × (length text ≡ 7))
  unfolding is_hot_key_variable
  is_hot_key_variable_iff text guid =
      let all =
        all_of (compare_guid guid global_guid == 0) (str_size text == 16)
          (same_start text key_text 3) in
      let size = str_size-length text in
      (
        λ e.
            let (same, sized, starts) = all.0 e in
            (
              (compare_guid_iff guid global_guid).0
                  ((==_iff (compare_guid guid global_guid) 0).0 same),
              (same_start_iff text key_text 3).0 starts,
              omega (arith, size, (==_iff (str_size text) 16).0 sized),
            ),
        λ e. all.1 (
          (==_iff (compare_guid guid global_guid) 0).1 ((compare_guid_iff guid global_guid).1 e.0),
          (==_iff (str_size text) 16).1 (omega (arith, size, e.2)),
          (same_start_iff text key_text 3).1 e.1,
        ),
      )

  abbrev NoneOf : List Text → List Text → Type 0
  NoneOf [] texts = Unit
  NoneOf (arg ∷ args) texts = (is_any_of sv arg texts ≡ false) × NoneOf args texts

  module _ (address : ℕ → ℕ) (fuel : ℕ) (h : Heap Store) (vs : List (Text × Guid)) (value : ℕ) where
    -- The hot keys are printed in ascending order of their option numbers as `CompareOptionNumbers`
    -- reads them, each as often as it is given.
    abbrev pub Listed : Option (Result sv) → Type 0
    Listed o =
        (verbose : Bool) × (ts : List Text) × Shows sv not_found
          ((if verbose then supported ∷ [] else []) ++ map name ts) o
        × Ascending ts
        × Perm ts (hot_names sv vs)

    listed_either :
        (c : Bool) (a b : Option (Result sv)) → Listed a → Listed b → Listed (if c then a else b)
    listed_either true a b l r = l
    listed_either false a b l r = r

    show_supported-Listed :
        (verbose : Bool)
        → NeverOut pool address
        → Enumerates sv [] null_guid vs not_found
        → length vs < fuel
        → get_variable ≡ (success, value)
        → value ≢ 0
        → Listed (show_supported sv fuel verbose false h get_variable)
    unfolding show_supported
    show_supported-Listed verbose memory en less e ne =
        let found =
          list_hot_keys-arrange sv address fuel false (if verbose then supported ∷ [] else []) h vs
            memory en less in
        let names = hot_names sv vs in
        subst (λ r. Listed (show_supported sv fuel verbose false h r)) (sym e)
          (subst
            (λ b. Listed (
              if not b
              then list_hot_keys sv fuel false (if verbose then supported ∷ [] else []) h
              else some (h, success, (if verbose then not_supported ∷ [] else []))))
            (sym (nonzero value ne))
            (
              verbose,
              arrange false names [],
              found,
              arrange-Ordered false names [] tt,
              subst (λ us. Perm (arrange false names []) us) (append-nil names)
                  (arrange-Perm false names []),
            ))

    -- Where BootOptionSupport is read and not 0, the firmware enumerates the variables `vs`, memory
    -- never runs out and the fuel is more than the variables: without an option against the sort and
    -- without one for help, the tool prints the names of the hot keys, each as often as the firmware
    -- gives it, in ascending order of their option numbers as `CompareOptionNumbers` reads them (in the
    -- base 10, and A to F as 0 to 5, so that this is not the order of the hexadecimal numbers), and
    -- returns EFI_NOT_FOUND.
    pub hotkeys_main-Listed :
        (argv : List Text)
        → NeverOut pool address
        → Enumerates sv [] null_guid vs not_found
        → length vs < fuel
        → get_variable ≡ (success, value)
        → value ≢ 0
        → NoneOf (drop 1 argv) (help_texts sv)
        → NoneOf (drop 1 argv) (nosort_texts sv)
        → Listed (hotkeys_main sv fuel h argv)
    unfolding hotkeys_main on_one
    hotkeys_main-Listed [] memory en less e ne no_help sorts =
        show_supported-Listed false memory en less e ne
    hotkeys_main-Listed (tool ∷ []) memory en less e ne no_help sorts =
        show_supported-Listed false memory en less e ne
    hotkeys_main-Listed (tool ∷ arg ∷ []) memory en less e ne no_help sorts =
        rw (no_help.0, sorts.0)
          (listed_either (is_any_of sv arg (verbose_texts sv))
            (show_supported sv fuel true false h get_variable)
            (show_supported sv fuel false false h get_variable)
            (show_supported-Listed true memory en less e ne)
            (show_supported-Listed false memory en less e ne))
    hotkeys_main-Listed (tool ∷ arg1 ∷ arg2 ∷ []) memory en less e ne no_help sorts =
        rw (sorts.0, sorts.1.0)
          (show_supported-Listed
            (is_any_of sv arg1 (verbose_texts sv) || is_any_of sv arg2 (verbose_texts sv)) memory en
            less e ne)
    hotkeys_main-Listed (tool ∷ arg1 ∷ arg2 ∷ arg3 ∷ args) memory en less e ne no_help sorts =
        show_supported-Listed false memory en less e ne
