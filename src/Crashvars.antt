-- ===== src/Crashvars.antt =====
-- clearcrashvars/clearcrashvars.c: the crash variables are put on a list, which is then drained. The
-- macros of the list are those of gnu-efi's efilink.h, which are parameters; a CRASH_VAR has the address
-- of its link, and its name.
use uefi_utilities.Base.{
  ℕ, zero, suc, ◌+◌, ◌≡◌, ◌≢◌, ◌↔◌, Bool, true, false, not, ◌&&◌, ◌||◌, Option, none, some, List,
  [], ◌∷◌, ◌++◌, ◌==◌, if◌then◌else◌,
}
use uefi_utilities.Uefi.{Text, Status, success, not_found, out_of_resources, other}
use uefi_utilities.Links.Pool.{Pool, Heap, with_entry}
pub mod Drain
pub mod Build
pub mod Correct
pub mod Args

-- An address is none of these.
abbrev pub IsNew : ℕ → List ℕ → Type 0
IsNew p [] = Unit
IsNew p (x ∷ xs) = (p ≢ x) × IsNew p xs

-- The macros of gnu-efi's efilink.h on the links of the entries, by their addresses, with what they do
-- to a list of which the head and the entries in their order are given.
pub record ListMacros : Type 1 where
  pub Links : Type 0
  pub initialize : ℕ → Links → Links
  pub insert_tail : ℕ → ℕ → Links → Links
  pub is_empty : ℕ → Links → Bool
  pub flink : Links → ℕ → ℕ
  pub remove : ℕ → Links → Links
  pub Holds : Links → ℕ → List ℕ → Type 0
  pub initialize-Holds : (s : Links) (head : ℕ) → Holds (initialize head s) head []
  pub insert_tail-Holds :
      (s : Links) (head p : ℕ) (xs : List ℕ)
      → Holds s head xs
      → p ≢ head
      → IsNew p xs
      → Holds (insert_tail head p s) head (xs ++ p ∷ [])
  pub is_empty-nil : (s : Links) (head : ℕ) → Holds s head [] → is_empty head s ≡ true
  pub is_empty-cons :
      (s : Links) (head x : ℕ) (xs : List ℕ) → Holds s head (x ∷ xs) → is_empty head s ≡ false
  pub flink-first :
      (s : Links) (head x : ℕ) (xs : List ℕ) → Holds s head (x ∷ xs) → flink s head ≡ x
  pub remove-first :
      (s : Links) (head x : ℕ) (xs : List ℕ) → Holds s head (x ∷ xs) → Holds (remove x s) head xs

-- What the tool asks of the firmware and of gnu-efi.
pub record Services : Type 1 where
  pub World : Type 0
  pub Guid : Type 0
  pub null_guid : Guid
  pub crash_guid : Guid
  -- the variable behind this one
  pub get_next_variable_name : World → Text → Guid → Status × Text × Guid
  pub set_variable : Text → Guid → List ℕ → World → Status × World
  -- `CompareGuid`, which is 0 for the same identifier
  pub compare_guid : Guid → Guid → ℕ
  pub compare_guid_iff : (g h : Guid) → (compare_guid g h ≡ 0) ↔ (g ≡ h)
  -- `LibGetVariable`, whose data is none for NULL, and `FreePool` of it, which changes no variable
  pub lib_get_variable : World → Text → Guid → Option ℕ
  pub free_pool : Option ℕ → World → World
  pub free_pool-same : (val : Option ℕ) (w : World) → free_pool val w ≡ w
  pub macros : ListMacros
  -- `&CrashVarList` and the blocks of its entries
  pub pool : Pool
  -- `StrCmp(a, b) == 0`
  pub same_text : Text → Text → Bool
  pub same_text_iff : (a b : Text) → (same_text a b ≡ true) ↔ (a ≡ b)

-- What the tool prints.
pub data Output : Type 0 where
  name : Text → Output
  next_failed set_failed : Status → Output
  no_resources usage : Output

module _ (sv : Services) where
  open sv use {
    World, Guid, null_guid, crash_guid, get_next_variable_name, set_variable, compare_guid, pool,
    same_text, macros, lib_get_variable, free_pool,
  }

  abbrev pub Chain : Type 0
  Chain = Heap (ListMacros.Links macros)

  -- A status that is returned, what is printed, and the firmware.
  abbrev pub Result : Type 0
  Result = Status × World × List Output

  pub data Built : Type 0 where
    built : Chain → Built
    failed : Chain → Status → List Output → Built
    out_of_fuel : Built

  -- A crash variable that is found, with `StrCpy` and `InsertTailList`.
  unfoldable pub keep : Text → Option ℕ → Chain → Option Chain
  keep text none h = none
  keep text (some p) h =
      some (with_entry (ListMacros.insert_tail macros (Pool.head pool) p h.links) p text h)

  unfoldable pub keep_then : (Chain → Built) → Chain → Option Chain → Built
  keep_then next h none = failed h out_of_resources (no_resources ∷ [])
  keep_then next h (some h') = next h'

  -- The tests of the status, with what is done with a variable.
  unfoldable pub after_next : Chain → Built → Status → Built
  after_next h found success = found
  after_next h found not_found = built h
  after_next h found e = failed h e (next_failed e ∷ [])

  -- The loop over GetNextVariableName, from the variable it gave last, the data of which is read and freed.
  unfoldable pub build : ℕ → World → Text → Guid → Chain → Built
  unfolding keep keep_then after_next
  build zero w text guid h = out_of_fuel
  build (suc fuel) w text guid h =
      let (status, text', guid') = get_next_variable_name w text guid in
      let next = build fuel (free_pool (lib_get_variable w text' guid') w) text' guid' in
      let kept = keep_then next h (keep text' (Pool.allocate pool h.calls) h) in
      after_next h (if compare_guid guid' crash_guid == 0 then kept else next h) status

  -- `Print(…)` in the modes 1 and 3, `SetVariable` in the modes 2 and 3.
  unfoldable pub show : ℕ → Text → List Output
  show mode text = if (mode == 1) || (mode == 3) then name text ∷ [] else []

  unfoldable pub delete : ℕ → Text → Status → World → Result
  delete mode text status w =
      if (mode == 2) || (mode == 3)
      then (let (status', w') = set_variable text crash_guid [] w in
          elim status' [ success ↦ (success, w', []) | e ↦ (e, w', set_failed e ∷ []) ])
      else (status, w, [])

  unfoldable pub visit : ℕ → Text → Result → Result
  unfolding show delete
  visit mode text (status, w, out) =
      let (status', w', more) = delete mode text status w in
      (status', w', out ++ show mode text ++ more)

  -- The loop that drains the list.
  unfoldable pub drain : ℕ → ℕ → Chain → Result → Option (Chain × Result)
  unfolding visit
  drain zero mode h r = none
  drain (suc fuel) mode h r =
      let entry = ListMacros.flink macros h.links (Pool.head pool) in
      let rest =
        drain fuel mode (record h { links = ListMacros.remove macros entry h.links })
          (visit mode (h.names entry) r) in
      if ListMacros.is_empty macros (Pool.head pool) h.links then some (h, r) else rest

  unfoldable pub drain_built : ℕ → ℕ → World → Built → Option (Chain × Result)
  unfolding drain
  drain_built fuel mode w (built h) = drain fuel mode h (not_found, w, [])
  drain_built fuel mode w (failed h status out) = some (h, (status, w, out))
  drain_built fuel mode w out_of_fuel = none

  -- `ClearCrashVars`
  unfoldable pub clear_crash_vars : ℕ → ℕ → Chain → World → Option (Chain × Result)
  unfolding build drain_built
  clear_crash_vars fuel mode h w =
      let h' = record h { links = ListMacros.initialize macros (Pool.head pool) h.links } in
      drain_built fuel mode w (build fuel w [] null_guid h')

  abbrev pub help_texts : List Text
  help_texts =
      (b'-' ∷ b'-' ∷ b'h' ∷ b'e' ∷ b'l' ∷ b'p' ∷ []) ∷ (b'-' ∷ b'h' ∷ []) ∷ (b'-' ∷ b'?' ∷ []) ∷ []

  abbrev pub verbose_texts : List Text
  verbose_texts =
      (b'-' ∷ b'-' ∷ b'v' ∷ b'e' ∷ b'r' ∷ b'b' ∷ b'o' ∷ b's' ∷ b'e' ∷ []) ∷ (b'-' ∷ b'v' ∷ []) ∷ []

  abbrev pub delete_texts : List Text
  delete_texts =
      (b'-' ∷ b'-' ∷ b'd' ∷ b'e' ∷ b'l' ∷ b'e' ∷ b't' ∷ b'e' ∷ []) ∷ (b'-' ∷ b'd' ∷ []) ∷ []

  -- `!StrCmp(arg, a) || !StrCmp(arg, b) || …`
  unfoldable pub is_any_of : Text → List Text → Bool
  is_any_of arg [] = false
  is_any_of arg (t ∷ ts) = same_text arg t || is_any_of arg ts

  unfoldable pub on_one : ℕ → Chain → Text → World → Option (Chain × Result)
  unfolding is_any_of clear_crash_vars
  on_one fuel h arg w =
      if is_any_of arg help_texts
      then some (h, (success, w, usage ∷ []))
      else if is_any_of arg verbose_texts
      then clear_crash_vars fuel 1 h w
      else if is_any_of arg delete_texts
      then clear_crash_vars fuel 2 h w
      else some (h, (other 1, w, []))

  unfoldable pub on_two : ℕ → Chain → Text → Text → World → Option (Chain × Result)
  unfolding is_any_of clear_crash_vars
  on_two fuel h arg1 arg2 w =
      if is_any_of arg1 delete_texts && is_any_of arg2 verbose_texts
      then clear_crash_vars fuel 3 h w
      else if is_any_of arg2 delete_texts && is_any_of arg1 verbose_texts
      then clear_crash_vars fuel 3 h w
      else some (h, (other 1, w, []))

  -- `efi_main` on `argv`, whose first member is the tool's name.
  unfoldable pub clear_main : ℕ → Chain → List Text → World → Option (Chain × Result)
  unfolding on_one on_two
  clear_main fuel h (tool ∷ []) w = some (h, (success, w, usage ∷ []))
  clear_main fuel h (tool ∷ arg ∷ []) w = on_one fuel h arg w
  clear_main fuel h (tool ∷ arg1 ∷ arg2 ∷ []) w = on_two fuel h arg1 arg2 w
  clear_main fuel h argv w = some (h, (success, w, []))
