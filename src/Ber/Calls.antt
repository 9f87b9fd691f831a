-- ===== src/Ber/Calls.antt =====
-- Runs that call actions: the history of calls goes along, the latest first. What an action answers
-- may depend on all calls before it, which stands for any state that the actions keep.
use uefi_utilities.Base.{ℕ, Option, List, ◌∷◌}
use uefi_utilities.Ber.Run.{Run, ok, stop, data_fault, machine_fault, out_of_fuel}

-- The arguments of an `asn1_action_t`: the value is its offset in the buffer.
pub record Call : Type 0 where
  pub action : ℕ
  pub hdr : ℕ
  pub tag : ℕ
  pub value : ℕ
  pub vlen : ℕ

-- The action functions: `none` for a result that is not negative, `some e` for the result -e.
abbrev pub Actions : Type 0
Actions = List Call → Call → Option ℕ

abbrev pub Calling : Type 0 → Type 0
Calling A = List Call → List Call × Run A

module _ {A B : Type 0} where
  abbrev pub and_then : List Call × Run A → (A → Calling B) → List Call × Run B
  and_then (h, ok a) k = k a h
  and_then (h, stop m) k = (h, stop m)
  and_then (h, data_fault) k = (h, data_fault)
  and_then (h, machine_fault) k = (h, machine_fault)
  and_then (h, out_of_fuel) k = (h, out_of_fuel)

  infixl 5 ◌>>=◌
  abbrev pub ◌>>=◌ : Calling A → (A → Calling B) → Calling B
  m >>= k = λ h. and_then (m h) k

-- A part that calls no action.
abbrev pub lift : {A : Type 0} → Run A → Calling A
lift r h = (h, r)

abbrev pub perform : Actions → Call → Calling (Option ℕ)
perform actions c h = (c ∷ h, ok (actions h c))
