-- ===== src/Grammar/Renderer.antt =====
-- The renderer of listcerts/asn1_compiler.c, which makes the byte code from the elements: the entries
-- of the table as cells, without the layout and the comments of the text.
pub mod Alike
pub mod Passes
use uefi_utilities.Base.{
  ℕ, zero, suc, ◌+◌, Bool, true, false, not, ◌&&◌, ◌||◌, Option, none, some, List, [], ◌∷◌, ◌++◌,
  ltb, ◌==◌, if◌then◌else◌, length,
}
use uefi_utilities.Grammar.Element.{
  Compound, not_compound, set, set_of, sequence, sequence_of, choice, any, type_ref, tag_override,
  Class, universal, Head, Element, element, Elements, no_elements, child,
}
use uefi_utilities.Grammar.Cells.{
  Cell, ChildrenRenderer, ElementRenderer, Form, Place, Rendered, Route, act, action, action_cells,
  any_value, any_with_act, complete, cond_fail, done, end_cells, end_seq, end_seq_of, end_set,
  end_set_of, has_action, has_path, in_front, jump, jump_target, match, no_children, no_tag_name,
  out_of_fuel, plain, render_opcode, render_tag, return, same_path, set_unsupported, tag, tag_flag,
  with_act, ◌then_render◌,
}

-- `refs` is `ref_count` of the types, `entries` is `entry_index` of the elements.
module _ (types : ℕ → Element) (refs : ℕ → ℕ) (entries : Route → ℕ) where
  -- `e->type_def && e->type_def->ref_count > 1`
  unfoldable pub shared : Route → Bool
  shared [] = false
  shared (t ∷ []) = ltb 1 (refs t)
  shared (i ∷ j ∷ p) = false

  -- The jump to an element that is rendered out of line, and its entry in `render_list`.
  unfoldable pub render_jump : Route → Element → Place → Rendered
  unfolding render_opcode has_path
  render_jump p e s = render_opcode (jump_target (entries p) ∷ []) s then_render λ s1.
      if has_path p (Place.rendered s1)
      then done [] s1
      else done []
          (record s1 { rendered = p ∷ Place.rendered s1; queue = Place.queue s1 ++ (p, e) ∷ [] })

  -- The one child of SEQUENCE OF and SET OF.
  unfoldable pub render_member : ElementRenderer → Route → Elements → Place → Rendered
  render_member render p no_elements s = no_children
  render_member render p (child e es) s = render (0 ∷ p) e none s

  -- A compound that is rendered in its place.
  unfoldable pub render_inline :
      ElementRenderer → ChildrenRenderer → Route → Head → Elements → Place → Rendered
  unfolding render_opcode end_cells render_member
  render_inline render children p h es s =
      (elim (Head.compound h) [ sequence ↦ children p 0 es s | _ ↦ render_member render p es s ])
      then_render λ s1.
          render_opcode
            (end_cells (Head.compound h) (has_action h) (Place.nr_entries s) ++ action_cells h) s1

  -- The element below a TAG_OVERRIDE.
  unfoldable pub render_below : ElementRenderer → Route → Head → Elements → Place → Rendered
  render_below render p h no_elements s = no_children
  render_below render p h (child e es) s = render (0 ∷ p) e (some h) s

  unfoldable pub render_ref : ElementRenderer → Head → Option ℕ → Option Head → Place → Rendered
  unfolding render_opcode
  render_ref render h none t s = no_children
  render_ref render h (some r) t s =
      render (r ∷ []) (types r) t s
      then_render render_opcode ((if has_action h then act ∷ [] else []) ++ action_cells h)

  -- One of SEQUENCE, SEQUENCE OF and SET OF, behind its tag.
  unfoldable pub render_compound :
      ElementRenderer
      → ChildrenRenderer
      → (out_of_line : Bool) → Route
      → Head
      → Elements
      → Place
      → Rendered
  unfolding render_jump render_inline
  render_compound render children true p h es s = render_jump p (element h es) s
  render_compound render children false p h es s = render_inline render children p h es s

  -- `render_element` by `e->compound`, with its variables `skippable`, `outofline` and `cond`.
  unfoldable pub render_kind :
      ElementRenderer
      → ChildrenRenderer
      → (skippable out_of_line cond : Bool) → Route
      → Head
      → Elements
      → Option Head
      → Place
      → Compound
      → Rendered
  unfolding render_tag render_compound render_below render_ref render_opcode
  render_kind render children sk line cond p h es t s any =
      render_opcode
        (match cond false (if has_action h then any_with_act else any_value) ∷ action_cells h) s
  render_kind render children sk line cond p h es t s tag_override = render_below render p h es s
  render_kind render children sk line cond p h es t s choice =
      children p 0 es s
      then_render render_opcode (
          (if sk then [] else cond_fail ∷ [])
          ++ (if has_action h then act ∷ [] else [])
          ++ action_cells h)
  render_kind render children sk line cond p h es t s type_ref =
      if (elim (Head.class h) [ universal ↦ true | _ ↦ false ])
        && not (Head.constructed h)
        && (Head.tag h == 0)
      then render_ref render h (Head.ref h) t s
      else render_opcode (match cond sk (if has_action h then with_act else plain) ∷ []) s
        then_render render_tag h t
        then_render render_ref render h (Head.ref h) none
  render_kind render children sk line cond p h es t s set =
      render_opcode (match cond sk (if line then jump else plain) ∷ []) s
      then_render render_tag h t
      then_render λ s1. set_unsupported
  render_kind render children sk line cond p h es t s not_compound =
      render_opcode (match cond sk (if has_action h then with_act else plain) ∷ []) s
      then_render render_tag h t
      then_render render_opcode (action_cells h)
  render_kind render children sk line cond p h es t s _ =
      render_opcode (match cond sk (if line then jump else plain) ∷ []) s
      then_render render_tag h t
      then_render render_compound render children line p h es

  unfoldable pub render_one : ElementRenderer → ChildrenRenderer → ElementRenderer
  unfolding render_kind shared
  render_one render children p (element h es) t s =
      let skippable = Head.skippable h || tag_flag (λ u. Head.skippable u) t in
      let cond = Head.conditional h || tag_flag (λ u. Head.conditional u) t in
      render_kind render children skippable (shared p || skippable) cond p h es t s
        (Head.compound h)

  unfoldable pub render_next : ElementRenderer → ChildrenRenderer → ChildrenRenderer
  render_next render children p i no_elements s = done [] s
  render_next render children p i (child e es) s =
      render (i ∷ p) e none s then_render children p (suc i) es

  -- `render_element`, and its loops over the children.
  unfoldable mutual
    unfolding render_one render_next

    pub render_element : ℕ → ElementRenderer
    render_element zero p e t s = out_of_fuel
    render_element (suc fuel) p e t s =
        render_one (render_element fuel) (render_children fuel) p e t s

    pub render_children : ℕ → ChildrenRenderer
    render_children zero p i es s = out_of_fuel
    render_children (suc fuel) p i es s =
        render_next (render_element fuel) (render_children fuel) p i es s

-- `e->entry_index = entry`
unfoldable pub put_entry : Route → ℕ → (Route → ℕ) → Route → ℕ
unfolding same_path
put_entry p n entries q = if same_path q p then n else entries q

-- The cells, the place behind them and the entries; or how the rendering fails.
pub data Listed : Type 0 where
  listed : List Cell → Place → (Route → ℕ) → Listed
  failed : Rendered → Listed

abbrev pub list_then : (Place → Listed) → Rendered → Listed
list_then k (done cs s) = elim (k s) [
  | listed ds s' f ↦ listed (cs ++ ds) s' f
  | failed r ↦ failed r
]
list_then k set_unsupported = failed set_unsupported
list_then k no_tag_name = failed no_tag_name
list_then k no_children = failed no_children
list_then k out_of_fuel = failed out_of_fuel

module _ (types : ℕ → Element) (refs : ℕ → ℕ) where
  -- The code of an element of `render_list`, which stands at this place.
  unfoldable pub render_out_of_line : ℕ → (Route → ℕ) → Route → Element → Place → Rendered
  unfolding render_element render_opcode end_cells
  render_out_of_line fuel entries p (element h es) s =
      render_children types refs entries fuel p 0 es s
      then_render render_opcode (
          end_cells (Head.compound h) (has_action h) (Place.nr_entries s)
          ++ action_cells h
          ++ return ∷ [])

  -- `render_out_of_line_list`
  unfoldable mutual
    unfolding render_out_of_line put_entry

    pub render_out_of_line_list : ℕ → (Route → ℕ) → Place → Listed
    render_out_of_line_list zero entries s = failed out_of_fuel
    render_out_of_line_list (suc fuel) entries s = render_queue fuel entries s (Place.queue s)

    pub render_queue : ℕ → (Route → ℕ) → Place → List (Route × Element) → Listed
    render_queue fuel entries s [] = listed [] s entries
    render_queue zero entries s ((p, e) ∷ rest) = failed out_of_fuel
    render_queue (suc fuel) entries s ((p, e) ∷ rest) =
        let entries' = put_entry p (Place.nr_entries s) entries in
        list_then (render_out_of_line_list fuel entries')
          (render_out_of_line fuel entries' p e (record s { queue = rest }))

  -- One of the two passes of `render`, with the entries that the elements have before it and the place
  -- where the pass before it ended: only `nr_entries` is set again.
  unfoldable pub render_pass : ℕ → (Route → ℕ) → Place → Listed
  unfolding render_element render_opcode render_out_of_line_list
  render_pass fuel entries place = list_then (render_out_of_line_list fuel entries) (
      render_element types refs entries fuel (0 ∷ []) (types 0) none
        (record place { nr_entries = 0 })
      then_render render_opcode (complete ∷ []))

  -- `e->flags &= ~ELEMENT_RENDERED` for all elements, and the second pass.
  unfoldable pub second_pass : ℕ → Listed → Listed
  unfolding render_pass
  second_pass fuel (listed cells place entries) =
      render_pass fuel entries (record place { rendered = [] })
  second_pass fuel (failed r) = failed r
