-- ===== src/Links.antt =====
-- showhotkeys/efilink.c: doubly linked rings of LIST_ENTRY, in the order of the writes. An entry is
-- an address; the store gives each entry its two links, so entries alias as the pointers do.
use uefi_utilities.Base.{ℕ, Bool, not, ◌&&◌, ◌==◌, if◌then◌else◌}
pub mod Ring
pub mod Insert
pub mod Remove
pub mod Rotate
pub mod Swap
pub mod Back
pub mod Pool

-- The LIST_ENTRY at every address.
pub record Store : Type 0 where
  pub flink : ℕ → ℕ
  pub blink : ℕ → ℕ

unfoldable pub put_at : (ℕ → ℕ) → ℕ → ℕ → ℕ → ℕ
put_at f p v x = if x == p then v else f x

-- `p->ForwardLink = v`
abbrev pub set_flink : ℕ → ℕ → Store → Store
set_flink p v s = record s { flink = put_at (Store.flink s) p v }

-- `p->BackLink = v`
abbrev pub set_blink : ℕ → ℕ → Store → Store
set_blink p v s = record s { blink = put_at (Store.blink s) p v }

-- Each operation gives the entry it returns and the store.
unfoldable pub initialize_list_head : ℕ → Store → ℕ × Store
initialize_list_head head s = (head, set_blink head head (set_flink head head s))

unfoldable pub insert_head_list : ℕ → ℕ → Store → ℕ × Store
insert_head_list head entry s =
    let s1 = set_flink entry (Store.flink s head) s in
    let s2 = set_blink entry head s1 in
    let s3 = set_blink (Store.flink s2 entry) entry s2 in (head, set_flink head entry s3)

unfoldable pub insert_tail_list : ℕ → ℕ → Store → ℕ × Store
insert_tail_list head entry s =
    let s1 = set_flink entry head s in
    let s2 = set_blink entry (Store.blink s1 head) s1 in
    let s3 = set_flink (Store.blink s2 entry) entry s2 in (head, set_blink head entry s3)

unfoldable pub get_first_node : ℕ → Store → ℕ
get_first_node list s = Store.flink s list

unfoldable pub get_next_node : ℕ → ℕ → Store → ℕ
get_next_node list node s = Store.flink s node

unfoldable pub get_previous_node : ℕ → ℕ → Store → ℕ
get_previous_node list node s = Store.blink s node

unfoldable pub is_list_empty : ℕ → Store → Bool
is_list_empty head s = Store.flink s head == head

unfoldable pub is_null : ℕ → ℕ → Store → Bool
is_null list node s = node == list

unfoldable pub is_node_at_end : ℕ → ℕ → Store → Bool
unfolding is_null
is_node_at_end list node s = not (is_null list node s) && (Store.blink s list == node)

unfoldable pub remove_entry_list : ℕ → Store → ℕ × Store
remove_entry_list entry s =
    let s1 = set_blink (Store.flink s entry) (Store.blink s entry) s in
    let s2 = set_flink (Store.blink s1 entry) (Store.flink s1 entry) s1 in
    (Store.flink s2 entry, s2)

-- The branches of `SwapListEntries` behind the removal of `first`, which returned `ptr`.
unfoldable pub swap_apart : ℕ → ℕ → ℕ → ℕ × Store → ℕ × Store
swap_apart ptr first second (head, s) =
    if ptr == head
    then (ptr, s)
    else (second, (insert_tail_list ptr second (remove_entry_list second s).1).1)

unfoldable pub swap_removed : ℕ → ℕ → ℕ × Store → ℕ × Store
swap_removed first second (ptr, s) =
    if Store.blink s ptr == second
    then insert_tail_list second first s
    else swap_apart ptr first second (insert_head_list second first s)

unfoldable pub swap_list_entries : ℕ → ℕ → Store → ℕ × Store
swap_list_entries first second s =
    if first == second then (second, s) else swap_removed first second (remove_entry_list first s)
