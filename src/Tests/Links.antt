-- ===== src/Tests/Links.antt =====
-- The rings of showhotkeys/efilink.c at concrete inputs.
use uefi_utilities.Base.{◌+◌, [], ◌∷◌, arith}
use uefi_utilities.Links.{
  Store, initialize_list_head, insert_head_list, remove_entry_list, swap_list_entries,
  swap_list_entries,
}
use uefi_utilities.Links.Ring.{Ring}
use uefi_utilities.Links.Insert.{initialize_list_head-Ring, insert_head_list-Ring}
use uefi_utilities.Links.Remove.{remove_entry_list-Ring}
use uefi_utilities.Links.Swap.{swap_list_entries-Ring}
use uefi_utilities.Links.Back.{swap_list_entries_back-Ring}

abbrev wild : Store
wild = record { flink = λ x. x + 7; blink = λ x. 0 }

-- The list with the head 1 and the entries 3, 2.
abbrev empty_store : Store
empty_store = (initialize_list_head 1 wild).1

abbrev one_store : Store
one_store = (insert_head_list 1 2 empty_store).1

abbrev two_store : Store
two_store = (insert_head_list 1 3 one_store).1

one-Ring : Ring one_store 1 (2 ∷ [])
one-Ring =
    insert_head_list-Ring empty_store 1 2 [] (initialize_list_head-Ring wild 1) (ground arith) tt

two-Ring : Ring two_store 1 (3 ∷ 2 ∷ [])
two-Ring = insert_head_list-Ring one_store 1 3 (2 ∷ []) one-Ring (ground arith) (ground arith)

initialize_list_head-Ring_example : Ring (initialize_list_head 1 wild).1 1 []
initialize_list_head-Ring_example = initialize_list_head-Ring wild 1

remove_entry_list-Ring_example : Ring (remove_entry_list 3 two_store).1 1 (2 ∷ [])
remove_entry_list-Ring_example = remove_entry_list-Ring two_store 1 3 [] (2 ∷ []) two-Ring

swap_list_entries-Ring_example : Ring (swap_list_entries 3 2 two_store).1 1 (2 ∷ 3 ∷ [])
swap_list_entries-Ring_example = swap_list_entries-Ring two_store 1 3 2 [] [] [] two-Ring

swap_list_entries_back-Ring_example : Ring (swap_list_entries 2 3 two_store).1 1 (2 ∷ 3 ∷ [])
swap_list_entries_back-Ring_example = swap_list_entries_back-Ring two_store 1 2 3 [] [] [] two-Ring
