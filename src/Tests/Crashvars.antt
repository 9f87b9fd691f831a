-- ===== src/Tests/Crashvars.antt =====
-- clearcrashvars/clearcrashvars.c on a firmware of three variables.
use uefi_utilities.Base.{
  none, ℕ, ◌+◌, ◌≡◌, ◌≢◌, ◌↔◌, refl, some, List, [], ◌∷◌, arith, ◌==◌, if◌then◌else◌,
}
use uefi_utilities.Uefi.{Text, Status, success, not_found}
use uefi_utilities.Links.{
  Store, is_list_empty, insert_tail_list, put_at, initialize_list_head, remove_entry_list,
}
use uefi_utilities.Links.Ring.{Ring, Off}
use uefi_utilities.Links.Insert.{
  initialize_list_head-Ring, insert_tail_list-Ring, is_list_empty_iff,
}
use uefi_utilities.Links.Remove.{remove_entry_list-Ring}
use uefi_utilities.Links.Pool.{Pool, Heap, name_at, is_list_empty-filled}
use uefi_utilities.Crashvars.{
  ListMacros, IsNew, is_any_of, Services, name, clear_crash_vars, clear_main,
}
use uefi_utilities.Crashvars.Drain.{Drained, visit_all}
use uefi_utilities.Crashvars.Build.{Enumerates, crash_names}
use uefi_utilities.Crashvars.Correct.{clear_crash_vars-visit_all, map_result}
use uefi_utilities.Crashvars.Args.{Unchanged, clear_main-Unchanged}
use uefi_utilities.Tests.Tools.{same_text, same_text_iff}

-- The variables A, B and C; A and C are crash variables.
abbrev next : Status → Text → ℕ → Status × Text × ℕ
next end [] g = (success, b'A' ∷ [], 1)
next end (t ∷ ts) g =
    if t == b'A'
    then (success, b'B' ∷ [], 2)
    else if t == b'B'
    then (success, b'C' ∷ [], 1)
    else (end, t ∷ ts, g)

abbrev compare_guid : ℕ → ℕ → ℕ
compare_guid g h = if g == h then 0 else 1

compare_guid_iff : (g h : ℕ) → (compare_guid g h ≡ 0) ↔ (g ≡ h)
compare_guid_iff g h = ground arith

apart : (i j p q : ℕ) → some (i + 2) ≡ some p → some (j + 2) ≡ some q → i ≢ j → p ≢ q
apart i j p q a b ne e = ne (ground arith)

apart_head : (i p : ℕ) → some (i + 2) ≡ some p → p ≢ 1
apart_head i p a e = absurd (ground arith)

abbrev blocks : Pool
blocks = record {
  head = 1;
  allocate = λ i. some (i + 2);
  allocate-apart = apart;
  allocate-head = apart_head;
}

IsNew-Off : (p : ℕ) (xs : List ℕ) → IsNew p xs → Off p xs
IsNew-Off p [] off = tt
IsNew-Off p (x ∷ xs) off = (off.0, IsNew-Off p xs off.1)

-- Macros that do what showhotkeys/efilink.c does.
abbrev rings : ListMacros
rings = record {
  Links = Store;
  initialize = λ head s. (initialize_list_head head s).1;
  insert_tail = λ head p s. (insert_tail_list head p s).1;
  is_empty = is_list_empty;
  flink = λ s x. Store.flink s x;
  remove = λ x s. (remove_entry_list x s).1;
  Holds = Ring;
  initialize-Holds = initialize_list_head-Ring;
  insert_tail-Holds =
      λ s head p xs ring ne off. insert_tail_list-Ring s head p xs ring ne (IsNew-Off p xs off);
  is_empty-nil = λ s head ring. (is_list_empty_iff s head [] ring).1 refl;
  is_empty-cons = is_list_empty-filled;
  flink-first = λ s head x xs ring. ring.0.0;
  remove-first = λ s head x xs ring. remove_entry_list-Ring s head x [] xs ring;
}

-- The world is the list of the names that were deleted.
abbrev three : Status → Services
three end = record {
  World = List Text;
  Guid = ℕ;
  null_guid = 0;
  crash_guid = 1;
  get_next_variable_name = λ w text g. next end text g;
  set_variable = λ text g bytes w. (success, text ∷ w);
  compare_guid = compare_guid;
  compare_guid_iff = compare_guid_iff;
  lib_get_variable = λ w text g. none;
  free_pool = λ val w. w;
  free_pool-same = λ val w. refl;
  macros = rings;
  pool = blocks;
  same_text = same_text;
  same_text_iff = same_text_iff;
}

abbrev block : ℕ → ℕ
block i = i + 2

abbrev wild : Heap Store
wild = record { links = record { flink = λ x. x; blink = λ x. 0 }; names = λ x. []; calls = 0 }

abbrev all : List (Text × ℕ)
all = (b'A' ∷ [], 1) ∷ (b'B' ∷ [], 2) ∷ (b'C' ∷ [], 1) ∷ []

enumerates : (end : Status) → Enumerates (three end) [] [] 0 all end
unfolding Enumerates
enumerates end = (refl, (refl, (refl, refl)))

deleted :
    map_result (three not_found) (clear_crash_vars (three not_found) 4 3 wild [])
    ≡ some (success, (b'C' ∷ []) ∷ (b'A' ∷ []) ∷ [], name (b'A' ∷ []) ∷ name (b'C' ∷ []) ∷ [])
unfolding clear_crash_vars is_list_empty insert_tail_list put_at initialize_list_head
    remove_entry_list name_at
deleted = refl

clear_crash_vars-visit_all_example :
    Drained
      (three not_found)
      (clear_crash_vars (three not_found) 4 2 wild [])
      (visit_all (three not_found) 2 (crash_names (three not_found) all) (not_found, [], []))
clear_crash_vars-visit_all_example =
    clear_crash_vars-visit_all (three not_found) block 4 2 wild [] all (λ i. refl)
      (enumerates not_found) (omega arith)

abbrev verbose : List Text
verbose = [] ∷ (b'-' ∷ b'v' ∷ []) ∷ []

clear_main-Unchanged_example :
    Unchanged (three not_found) [] (clear_main (three not_found) 4 wild verbose [])
unfolding is_any_of
clear_main-Unchanged_example =
    clear_main-Unchanged (three not_found) block 4 wild [] all not_found verbose (λ i. refl)
      (enumerates not_found) (λ e. ground arith) (omega arith) (refl, tt)
