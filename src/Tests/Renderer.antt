-- ===== src/Tests/Renderer.antt =====
-- The renderer of listcerts/asn1_compiler.c on a SEQUENCE with one optional SEQUENCE.
use uefi_utilities.Base.{ℕ, ◌≡◌, refl, true, false, none, List, [], ◌∷◌}
use uefi_utilities.Grammar.Element.{Head, Element, element, sequence, universal, child, no_elements}
use uefi_utilities.Grammar.Cells.{
  Route, Cell, match, tag, jump_target, end_seq, complete, return, plain, jump, Place,
}
use uefi_utilities.Grammar.Renderer.{listed, put_entry, render_pass}

abbrev optional : Head
optional = record {
  name = none;
  action = none;
  compound = sequence;
  class = universal;
  constructed = true;
  tag = 16;
  ref = none;
  implicit = false;
  explicit = false;
  skippable = true;
  conditional = false;
}

abbrev outer : ℕ → Element
outer t =
    element (record optional { skippable = false })
      (child (element optional no_elements) no_elements)

abbrev unplaced : Route → ℕ
unplaced p = 0

abbrev first_cells : List Cell
first_cells =
    match false false plain
    ∷ tag universal true 16
    ∷ match false true jump
    ∷ tag universal true 16
    ∷ jump_target 0
    ∷ end_seq false
    ∷ complete
    ∷ end_seq false
    ∷ return
    ∷ []

abbrev last_place : Place
last_place = record { nr_entries = 9; rendered = (0 ∷ 0 ∷ []) ∷ []; queue = [] }

first_pass :
    render_pass outer (λ t. 1) 5 unplaced (record { nr_entries = 4; rendered = []; queue = [] })
    ≡ listed first_cells last_place (put_entry (0 ∷ 0 ∷ []) 7 unplaced)
unfolding render_pass
first_pass = refl
