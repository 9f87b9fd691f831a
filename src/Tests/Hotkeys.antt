-- ===== src/Tests/Hotkeys.antt =====
-- showhotkeys/showhotkeys.c on a firmware of four variables.
use uefi_utilities.Base.{
  ℕ, Option, none, get_or, ltb, ◌+◌, ◌*◌, ◌≡◌, ◌≢◌, ◌↔◌, refl, Bool, true, false, some, List, [],
  ◌∷◌, arith, ◌==◌, map, ◌++◌, ◌≤◌, ◌<◌, if◌then◌else◌, length, take,
}
use uefi_utilities.Uefi.{Text, Status, success, not_found, buffer_too_small, other}
use uefi_utilities.Links.{
  is_list_empty, insert_head_list, put_at, initialize_list_head, remove_entry_list, get_first_node,
  get_next_node, is_null, swap_list_entries, swap_removed, swap_apart, insert_tail_list,
}
use uefi_utilities.Links.{Store}
use uefi_utilities.Links.Pool.{Heap, name_at}
use uefi_utilities.Hotkeys.{
  Services, Output, name, next_failed, key_text, option_number, list_hot_keys, option_loop,
  option_step, compare_option_numbers, sort_first, sort_loop, is_hot_key_variable, hotkeys_main,
  is_any_of, show_supported,
}
use uefi_utilities.Hotkeys.Order.{arrange}
use uefi_utilities.Hotkeys.Build.{Enumerates, hot_names}
use uefi_utilities.Hotkeys.Correct.{Shows, list_hot_keys-arrange, list_hot_keys-error}
use uefi_utilities.Hotkeys.Main.{
  Listed, decimal, letter, hotkeys_main-Listed, is_hot_key_variable_iff, option_number-value,
}
use uefi_utilities.Tests.Tools.{same_text, same_text_iff}

abbrev key : ℕ → Text
key c = b'K' ∷ b'e' ∷ b'y' ∷ b'0' ∷ b'0' ∷ b'0' ∷ c ∷ []

-- The variables Key0002, a short one, Key0003 and Key0001.
abbrev follow : Text → Option Text
follow [] = some (key b'2')
follow (t ∷ []) = some (key b'3')
follow (t ∷ u ∷ ts) =
    if get_or ts 4 0 == b'2'
    then some (t ∷ [])
    else if get_or ts 4 0 == b'3'
    then some (key b'1')
    else none

abbrev fitting : ℕ → Text → ℕ → Option Text → Status → Status × ℕ × Text × ℕ
fitting size t g none end = (end, size, t, g)
fitting size t g (some t') end =
    let needed = (length t' + 1) * 2 in
    if ltb size needed then (buffer_too_small, needed, t, g) else (success, size, t', 1)

abbrev ask : Status → ℕ → Text → ℕ → Status × ℕ × Text × ℕ
ask end size t g = fitting size t g (follow t) end

abbrev same_start : Text → Text → ℕ → Bool
same_start a b n = same_text (take n a) (take n b)

abbrev compare_guid : ℕ → ℕ → ℕ
compare_guid g h = if g == h then 0 else 1

compare_guid_iff : (g h : ℕ) → (compare_guid g h ≡ 0) ↔ (g ≡ h)
compare_guid_iff g h = ground arith

apart : (i j p q : ℕ) → some (i + 2) ≡ some p → some (j + 2) ≡ some q → i ≢ j → p ≢ q
apart i j p q a b ne e = ne (ground arith)

apart_head : (i p : ℕ) → some (i + 2) ≡ some p → p ≢ 1
apart_head i p a e = absurd (ground arith)

abbrev four : Status → Services
four end = record {
  Guid = ℕ;
  null_guid = 0;
  global_guid = 1;
  get_variable = (success, 1);
  get_next_variable_name = ask end;
  compare_guid = compare_guid;
  compare_guid_iff = compare_guid_iff;
  str_size = λ t. (length t + 1) * 2;
  str_size-length = λ t. refl;
  same_start = same_start;
  same_start_iff = λ a b n. same_text_iff (take n a) (take n b);
  same_text = same_text;
  same_text_iff = same_text_iff;
  pool = record {
    head = 1;
    allocate = λ i. some (i + 2);
    allocate-apart = apart;
    allocate-head = apart_head;
  };
}

abbrev wild : Heap Store
wild = record { links = record { flink = λ x. x; blink = λ x. 0 }; names = λ x. []; calls = 0 }

abbrev printed : Option ((Heap Store) × Status × List Output) → List Output
printed none = []
printed (some (h, status, out)) = out

sorted :
    printed (hotkeys_main (four not_found) 6 wild ([] ∷ []))
    ≡ name (key b'1') ∷ name (key b'2') ∷ name (key b'3') ∷ []
unfolding hotkeys_main list_hot_keys option_loop option_step compare_option_numbers sort_first
    sort_loop is_list_empty insert_head_list put_at initialize_list_head remove_entry_list
    get_first_node get_next_node is_null swap_list_entries swap_removed swap_apart insert_tail_list
    name_at is_hot_key_variable show_supported
sorted = refl

abbrev all : List (Text × ℕ)
all = (key b'2', 1) ∷ (b'K' ∷ [], 1) ∷ (key b'3', 1) ∷ (key b'1', 1) ∷ []

fits_size :
    (size : ℕ) (t t' : Text) (g : ℕ) (end : Status)
    → (length t' + 1) * 2 ≤ size
    → fitting size t g (some t') end ≡ (success, size, t', 1)
fits_size size t t' g end fits = ground arith

fitting-Gives :
    (size g : ℕ) (t t' : Text) (end : Status)
    → ((length t' + 1) * 2 ≤ size
        → (size' : ℕ) × (fitting size t g (some t') end ≡ (success, size', t', 1)))
      × (size < (length t' + 1) * 2
          → fitting size t g (some t') end ≡ (buffer_too_small, (length t' + 1) * 2, t, g))
fitting-Gives size g t t' end =
    ((λ fits. (size, fits_size size t t' g end fits)), λ less. ground arith)

enumerates : (end : Status) → Enumerates (four end) [] 0 all end
unfolding Enumerates
enumerates end = (
  λ size. fitting-Gives size 0 [] (key b'2') end,
  (
    λ size. fitting-Gives size 1 (key b'2') (b'K' ∷ []) end,
    (
      λ size. fitting-Gives size 1 (b'K' ∷ []) (key b'3') end,
      (λ size. fitting-Gives size 1 (key b'3') (key b'1') end, λ size. refl),
    ),
  ),
)

abbrev block : ℕ → ℕ
block i = i + 2

list_hot_keys-arrange_example :
    Shows
      (four not_found)
      not_found
      ([] ++ map name (arrange true (hot_names (four not_found) all) []))
      (list_hot_keys (four not_found) 6 true [] wild)
list_hot_keys-arrange_example =
    list_hot_keys-arrange (four not_found) block 6 true [] wild all (λ i. refl)
      (enumerates not_found) (omega arith)

list_hot_keys-error_example :
    (h' : (Heap Store)) × (list_hot_keys (four (other 7)) 6 false [] wild
      ≡ some (h', other 7, [] ++ next_failed (other 7) ∷ []))
list_hot_keys-error_example =
    list_hot_keys-error (four (other 7)) block 6 false [] wild all (other 7) (λ i. refl)
      (enumerates (other 7)) (λ e. ground arith) (λ e. ground arith) (λ e. ground arith)
      (omega arith)

abbrev verbose : List Text
verbose = [] ∷ (b'-' ∷ b'v' ∷ []) ∷ []

hotkeys_main-Listed_example :
    Listed (four not_found) block 6 wild all 1 (hotkeys_main (four not_found) 6 wild verbose)
unfolding is_any_of
hotkeys_main-Listed_example =
    hotkeys_main-Listed (four not_found) block 6 wild all 1 verbose (λ i. refl)
      (enumerates not_found) (omega arith) refl (λ e. ground arith) (refl, tt) (refl, tt)

abbrev one : ℕ
one = 1

is_hot_key_variable_iff_example :
    (is_hot_key_variable (four not_found) (key b'F') one ≡ true)
    ↔ ((one ≡ one) × (take 3 (key b'F') ≡ key_text) × (length (key b'F') ≡ 7))
is_hot_key_variable_iff_example = is_hot_key_variable_iff (four not_found) (key b'F') one

-- Key000A has the number of Key0000.
option_number-value_example : option_number (key b'A') ≡ ((0 * 10 + 0) * 10 + 0) * 10 + 0
option_number-value_example =
    option_number-value b'0' b'0' b'0' b'A' 0 0 0 0 (decimal (omega arith) refl)
      (decimal (omega arith) refl) (decimal (omega arith) refl) (letter (omega arith) refl)
