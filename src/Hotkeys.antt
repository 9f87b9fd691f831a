-- ===== src/Hotkeys.antt =====
-- showhotkeys/showhotkeys.c: the hot key variables are put on a list that is kept in order, which is
-- then printed and drained. `BASE_CR` of an entry is its address, since its link stands first.
use uefi_utilities.Base.{
  ℕ, zero, suc, ◌+◌, ◌-◌, ◌*◌, ◌%◌, ◌^◌, ◌≡◌, ◌↔◌, Bool, true, false, not, ◌&&◌, ◌||◌, Option, none,
  some, List, [], ◌∷◌, ◌++◌, ◌==◌, ltb, leb, length, get_or, take, if◌then◌else◌,
}
use uefi_utilities.Uefi.{Text, Status, success, not_found, buffer_too_small, out_of_resources}
use uefi_utilities.Links.{
  Store, initialize_list_head, insert_head_list, get_first_node, get_next_node, is_null,
  is_list_empty, swap_list_entries, remove_entry_list,
}
use uefi_utilities.Links.Pool.{Pool, Heap, with_entry}
pub mod Order
pub mod Sort
pub mod Build
pub mod Correct
pub mod Main

-- What the tool asks of the firmware, which it does not change, and of gnu-efi.
pub record Services : Type 1 where
  pub Guid : Type 0
  pub null_guid : Guid
  pub global_guid : Guid
  -- BootOptionSupport
  pub get_variable : Status × ℕ
  -- the size of the buffer in bytes, the name in it and its identifier, all three updated
  pub get_next_variable_name : ℕ → Text → Guid → Status × ℕ × Text × Guid
  -- `CompareGuid`, which is 0 for the same identifier
  pub compare_guid : Guid → Guid → ℕ
  pub compare_guid_iff : (g h : Guid) → (compare_guid g h ≡ 0) ↔ (g ≡ h)
  pub str_size : Text → ℕ
  pub str_size-length : (t : Text) → str_size t ≡ (length t + 1) * 2
  -- `StrnCmp(a, b, n) == 0`
  pub same_start : Text → Text → ℕ → Bool
  pub same_start_iff : (a b : Text) (n : ℕ) → (same_start a b n ≡ true) ↔ (take n a ≡ take n b)
  -- `StrCmp(a, b) == 0`
  pub same_text : Text → Text → Bool
  pub same_text_iff : (a b : Text) → (same_text a b ≡ true) ↔ (a ≡ b)
  -- `&HotKeyList.Link` and the blocks of its entries; the buffer of the name is taken to be given
  pub pool : Pool

-- What the tool prints.
pub data Output : Type 0 where
  name : Text → Output
  get_failed next_failed : Status → Output
  no_resources usage supported not_supported : Output

-- 1, -1 and 0
pub data Comparison : Type 0 where
  above below level : Comparison

-- A turn of the loops of `CompareOptionNumbers`, in 16 bits.
unfoldable pub option_step : ℕ → ℕ → ℕ
option_step number c =
    if leb b'0' c && leb c b'9'
    then (number * 10 + c - b'0') % 2 ^ 16
    else if leb b'A' c && leb c b'F'
    then (number * 10 + c - b'A') % 2 ^ 16
    else number

unfoldable pub option_loop : ℕ → ℕ → Text → ℕ → ℕ
unfolding option_step
option_loop zero index text number = number
option_loop (suc count) index text number =
    option_loop count (suc index) text (option_step number (get_or text index 0))

abbrev pub option_number : Text → ℕ
option_number text = option_loop 4 3 text 0

unfoldable pub compare_option_numbers : Text → Text → Comparison
unfolding option_loop
compare_option_numbers name1 name2 =
    let number1 = option_number name1 in
    let number2 = option_number name2 in
    if ltb number2 number1 then above else if ltb number1 number2 then below else level

abbrev pub key_text : Text
key_text = b'K' ∷ b'e' ∷ b'y' ∷ []

-- The sort of the entry that stands first. A case of the comparison has the heap as it is then.
unfoldable pub by_comparison :
    Option (Heap Store)
    → Option (Heap Store)
    → Option (Heap Store)
    → Comparison
    → Option (Heap Store)
by_comparison swapped stays next above = swapped
by_comparison swapped stays next below = stays
by_comparison swapped stays next level = next

unfoldable pub sort_loop : ℕ → ℕ → ℕ → ℕ → (Heap Store) → Option (Heap Store)
unfolding by_comparison
sort_loop zero head prev node h = none
sort_loop (suc fuel) head prev node h =
    let (node', links') = swap_list_entries prev node h.links in
    let h' = record h { links = links' } in
    let swapped = sort_loop fuel head prev (get_next_node head node' links') h' in
    let next = sort_loop fuel head prev (get_next_node head node h.links) h in
    if is_null head node h.links
    then some h
    else by_comparison swapped (some h) next (compare_option_numbers (h.names prev) (h.names node))

-- Two turns for each entry, and one.
unfoldable pub sort_first : ℕ → Bool → (Heap Store) → Option (Heap Store)
unfolding sort_loop
sort_first head no_sort h =
    let first = get_first_node head h.links in
    if no_sort then some h else sort_loop (2 * h.calls + 1) head first first h

-- What the turn's calls of GetNextVariableName give: the end of the variables, or the size of the
-- buffer, the status, the name and its identifier.
pub data Answer (G : Type 0) : Type 0 where
  stop : Answer G
  answered : ℕ → Status → Text → G → Answer G

module _ (sv : Services) where
  open sv use {
    Guid, null_guid, global_guid, get_variable, get_next_variable_name, compare_guid, str_size,
    same_start, same_text, pool,
  }

  unfoldable pub is_hot_key_variable : Text → Guid → Bool
  is_hot_key_variable text guid =
      if not (compare_guid guid global_guid == 0)
        || not (str_size text == 16)
        || not (same_start text key_text 3)
      then false
      else true

  -- The second call, with a buffer of the size that the first asked for.
  unfoldable pub again : ℕ → Status × ℕ × Text × Guid → Answer Guid
  again size (not_found, size', text, guid) = stop
  again size (buffer_too_small, size', text, guid) =
      let (status, size'', text', guid') = get_next_variable_name size' text guid in
      answered size' status text' guid'
  again size (status, size', text, guid) = answered size status text guid

  pub data Built : Type 0 where
    built : (Heap Store) → Built
    failed : (Heap Store) → Status → List Output → Built
    out_of_fuel : Built

  unfoldable pub sorted_then : ((Heap Store) → Built) → Option (Heap Store) → Built
  sorted_then next none = out_of_fuel
  sorted_then next (some h) = next h

  -- A hot key variable that is found: its block, `StrCpy`, `InsertHeadList` and the sort.
  unfoldable pub keep : ((Heap Store) → Built) → Bool → Text → (Heap Store) → Option ℕ → Built
  unfolding sort_first sorted_then
  keep next no_sort text h none = failed h out_of_resources (no_resources ∷ [])
  keep next no_sort text h (some p) =
      let links' = (insert_head_list (Pool.head pool) p h.links).1 in
      sorted_then next (sort_first (Pool.head pool) no_sort (with_entry links' p text h))

  -- The tests of the status, with what is done with a variable that is found.
  unfoldable pub after_next : (Heap Store) → Built → Status → Built
  after_next h found success = found
  after_next h found e = failed h e (next_failed e ∷ [])

  unfoldable pub turn :
      (ℕ → Text → Guid → (Heap Store) → Built) → Bool → (Heap Store) → Answer Guid → Built
  unfolding is_hot_key_variable keep after_next
  turn next no_sort h stop = built h
  turn next no_sort h (answered size status text guid) =
      let kept = keep (next size text guid) no_sort text h (Pool.allocate pool h.calls) in
      after_next h (if is_hot_key_variable text guid then kept else next size text guid h) status

  -- The loop over GetNextVariableName.
  unfoldable pub build : ℕ → Bool → ℕ → Text → Guid → (Heap Store) → Built
  unfolding again turn
  build zero no_sort size text guid h = out_of_fuel
  build (suc fuel) no_sort size text guid h =
      turn (build fuel no_sort) no_sort h (again size (get_next_variable_name size text guid))

  -- The loop that prints and drains the list.
  unfoldable pub drain : ℕ → (Heap Store) → List Output → Option ((Heap Store) × List Output)
  drain zero h out = none
  drain (suc fuel) h out =
      let node = get_first_node (Pool.head pool) h.links in
      let rest =
        drain fuel (record h { links = (remove_entry_list node h.links).1 })
          (out ++ name (h.names node) ∷ []) in
      if is_list_empty (Pool.head pool) h.links then some (h, out) else rest

  abbrev pub Result : Type 0
  Result = (Heap Store) × Status × List Output

  -- The status is that of the enumeration.
  unfoldable pub drained : Option ((Heap Store) × List Output) → Option Result
  drained none = none
  drained (some (h, out)) = some (h, not_found, out)

  unfoldable pub drain_built : ℕ → List Output → Built → Option Result
  unfolding drain drained
  drain_built fuel out (built h) = drained (drain fuel h out)
  drain_built fuel out (failed h status more) = some (h, status, out ++ more)
  drain_built fuel out out_of_fuel = none

  -- `efi_main` behind the tests of BootOptionSupport.
  unfoldable pub list_hot_keys : ℕ → Bool → List Output → (Heap Store) → Option Result
  unfolding build drain_built
  list_hot_keys fuel no_sort out h =
      let h' = record h { links = (initialize_list_head (Pool.head pool) h.links).1 } in
      drain_built fuel out (build fuel no_sort 8 [] null_guid h')

  -- `DataValue && EFI_BOOT_OPTION_SUPPORT_KEY` is true of every value but 0.
  unfoldable pub show_supported : ℕ → Bool → Bool → (Heap Store) → Status × ℕ → Option Result
  unfolding list_hot_keys
  show_supported fuel verbose no_sort h (success, value) =
      if not (value == 0)
      then list_hot_keys fuel no_sort (if verbose then supported ∷ [] else []) h
      else some (h, success, (if verbose then not_supported ∷ [] else []))
  show_supported fuel verbose no_sort h (not_found, value) = some (h, not_found, [])
  show_supported fuel verbose no_sort h (e, value) = some (h, e, get_failed e ∷ [])

  abbrev pub help_texts : List Text
  help_texts =
      (b'-' ∷ b'-' ∷ b'h' ∷ b'e' ∷ b'l' ∷ b'p' ∷ []) ∷ (b'-' ∷ b'h' ∷ []) ∷ (b'-' ∷ b'?' ∷ []) ∷ []

  abbrev pub verbose_texts : List Text
  verbose_texts =
      (b'-' ∷ b'-' ∷ b'v' ∷ b'e' ∷ b'r' ∷ b'b' ∷ b'o' ∷ b's' ∷ b'e' ∷ []) ∷ (b'-' ∷ b'v' ∷ []) ∷ []

  abbrev pub nosort_texts : List Text
  nosort_texts =
      (b'-' ∷ b'-' ∷ b'n' ∷ b'o' ∷ b's' ∷ b'o' ∷ b'r' ∷ b't' ∷ []) ∷ (b'-' ∷ b'n' ∷ []) ∷ []

  -- `!StrCmp(arg, a) || !StrCmp(arg, b) || …`
  unfoldable pub is_any_of : Text → List Text → Bool
  is_any_of arg [] = false
  is_any_of arg (t ∷ ts) = same_text arg t || is_any_of arg ts

  unfoldable pub on_one : ℕ → (Heap Store) → Text → Option Result
  unfolding is_any_of show_supported
  on_one fuel h arg =
      if is_any_of arg help_texts
      then some (h, success, usage ∷ [])
      else if is_any_of arg verbose_texts
      then show_supported fuel true false h get_variable
      else show_supported fuel false (is_any_of arg nosort_texts) h get_variable

  -- `efi_main` on `argv`, whose first member is the tool's name, when `get_args` succeeds.
  unfoldable pub hotkeys_main : ℕ → (Heap Store) → List Text → Option Result
  unfolding on_one
  hotkeys_main fuel h (tool ∷ arg ∷ []) = on_one fuel h arg
  hotkeys_main fuel h (tool ∷ arg1 ∷ arg2 ∷ []) =
      show_supported fuel (is_any_of arg1 verbose_texts || is_any_of arg2 verbose_texts)
        (is_any_of arg1 nosort_texts || is_any_of arg2 nosort_texts) h get_variable
  hotkeys_main fuel h argv = show_supported fuel false false h get_variable
