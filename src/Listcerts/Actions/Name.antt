-- ===== src/Listcerts/Actions/Name.antt =====
-- The line that listcerts/listcerts.c prints for the name of an issuer.
use uefi_utilities.Base.{ℕ, Bool, Option, none, some, List, [], ◌∷◌, ◌++◌}
use uefi_utilities.Uefi.{Text}
use uefi_utilities.Oid.Lookup.{Search, hit, miss, fault, lookup_oid}
use uefi_utilities.Oid.Sprint.{Sprinted, printed, bad_message, no_buffers, sprint_oid}
use uefi_utilities.Listcerts.Labels.{attribute_label}
use uefi_utilities.Listcerts.Actions.{
  Display, Acted, acted, ◌then_act◌, widened, do_attribute_value, do_attribute_type,
}

-- What `Sprint_OID` printed, in brackets.
abbrev pub number_text : Sprinted → Option Text
number_text (printed text) = some ((32 ∷ b'(' ∷ []) ++ text ++ (b')' ∷ []))
number_text bad_message = none
number_text no_buffers = none

-- The text of an attribute type: its name, or its numbers in brackets if it has none.
unfoldable pub type_text : Search → Sprinted → Option Text
unfolding attribute_label
type_text (hit oid) number = elim (attribute_label oid) [
  | none ↦ number_text number
  | some text ↦ some text
]
type_text miss number = number_text number
type_text fault number = none

module _ (sprint : ℕ → List ℕ → List ℕ) (dec : ℕ → List ℕ) where
  -- The calls for the attributes of a name, each with its type and its value.
  unfoldable pub name_actions : (ℕ → Bool) → List (List ℕ × List ℕ) → Display → Acted
  unfolding do_attribute_type do_attribute_value
  name_actions gives [] d = acted d []
  name_actions gives ((oid, value) ∷ rest) d =
      do_attribute_type sprint dec oid d
      then_act do_attribute_value gives value
      then_act name_actions gives rest

  unfoldable pub name_text : List (List ℕ × List ℕ) → Option Text
  unfolding type_text lookup_oid sprint_oid widened
  name_text [] = some []
  name_text ((oid, value) ∷ rest) =
      elim (type_text (lookup_oid oid) (sprint_oid sprint dec oid 120)) [
        | none ↦ none
        | some t ↦ elim (name_text rest) [ none ↦ none | some u ↦ some ((t ++ widened value) ++ u) ]
      ]
