-- ===== src/Grammar/Cells.antt =====
-- The entries of the table that the renderer of listcerts/asn1_compiler.c makes, and what it keeps. An
-- element is known by its route: the number of its type, and in front of it the indices of the members
-- down to the element.
use uefi_utilities.Base.{
  ℕ, ◌+◌, Bool, true, false, not, ◌&&◌, ◌||◌, Option, none, some, List, [], ◌∷◌, ◌++◌, ltb, ◌==◌,
  if◌then◌else◌, length,
}
use uefi_utilities.Grammar.Element.{
  Compound, set, set_of, sequence, sequence_of, Class, universal, Head, Element, Elements,
}

abbrev pub Route : Type 0
Route = List ℕ

unfoldable pub same_path : Route → Route → Bool
same_path [] [] = true
same_path [] (j ∷ q) = false
same_path (i ∷ p) [] = false
same_path (i ∷ p) (j ∷ q) = (i == j) && same_path p q

unfoldable pub has_path : Route → List Route → Bool
unfolding same_path
has_path p [] = false
has_path p (q ∷ qs) = same_path p q || has_path p qs

-- The form of a matching operation; `or_skip` and `cond` are told apart from it.
pub data Form : Type 0 where
  plain with_act jump any_value any_with_act : Form

-- An entry of the table; the operations that end a compound say whether they call an action.
pub data Cell : Type 0 where
  match : (cond or_skip : Bool) → Form → Cell
  tag : Class → (constructed : Bool) → ℕ → Cell
  jump_target : ℕ → Cell
  action : List ℕ → Cell
  end_seq end_set end_seq_of end_set_of : (act : Bool) → Cell
  cond_fail act return complete : Cell

-- `nr_entries`, the elements with the flag ELEMENT_RENDERED, and `render_list`.
pub record Place : Type 0 where
  pub nr_entries : ℕ
  pub rendered : List Route
  pub queue : List (Route × Element)

-- The cells that are rendered and the place behind them; the exit on SET; a read behind the names of
-- the universal tags; a read of the null link to the children.
pub data Rendered : Type 0 where
  done : List Cell → Place → Rendered
  set_unsupported no_tag_name no_children out_of_fuel : Rendered

abbrev pub in_front : List Cell → Rendered → Rendered
in_front cs (done ds s) = done (cs ++ ds) s
in_front cs set_unsupported = set_unsupported
in_front cs no_tag_name = no_tag_name
in_front cs no_children = no_children
in_front cs out_of_fuel = out_of_fuel

infixl 5 ◌then_render◌
abbrev pub ◌then_render◌ : Rendered → (Place → Rendered) → Rendered
done cs s then_render k = in_front cs (k s)
set_unsupported then_render k = set_unsupported
no_tag_name then_render k = no_tag_name
no_children then_render k = no_children
out_of_fuel then_render k = out_of_fuel

-- `render_opcode`, once for each cell.
unfoldable pub render_opcode : List Cell → Place → Rendered
render_opcode cs s = done cs (record s { nr_entries = s.nr_entries + length cs })

abbrev pub has_action : Head → Bool
has_action h = elim (Head.action h) [ none ↦ false | some a ↦ true ]

-- `if (e->action) render_opcode(out, "_action(ACT_%s),\n", …)`
abbrev pub action_cells : Head → List Cell
action_cells h = elim (Head.action h) [ none ↦ [] | some a ↦ action a ∷ [] ]

-- `tag && tag->flags & …`
abbrev pub tag_flag : (Head → Bool) → Option Head → Bool
tag_flag flag none = false
tag_flag flag (some t) = flag t

abbrev pub ElementRenderer : Type 0
ElementRenderer = Route → Element → Option Head → Place → Rendered

-- The children from an index on.
abbrev pub ChildrenRenderer : Type 0
ChildrenRenderer = Route → ℕ → Elements → Place → Rendered

-- The tag of `tag`, or of the element itself.
unfoldable pub render_tag : Head → Option Head → Place → Rendered
unfolding render_opcode
render_tag h t s =
    let own : Head = elim t [ none ↦ h | some u ↦ u ] in
    let named : Bool = elim (Head.class own) [ universal ↦ true | _ ↦ false ] in
    if named && not (ltb (Head.tag own) 32)
    then no_tag_name
    else render_opcode
        (tag (Head.class own) (Head.constructed own || Head.constructed h) (Head.tag own) ∷ []) s

-- The end of a compound, with the entry of its code.
unfoldable pub end_cells : Compound → Bool → ℕ → List Cell
end_cells sequence a entry = end_seq a ∷ []
end_cells sequence_of a entry = end_seq_of a ∷ jump_target entry ∷ []
end_cells set a entry = end_set a ∷ []
end_cells set_of a entry = end_set_of a ∷ jump_target entry ∷ []
end_cells _ a entry = []
