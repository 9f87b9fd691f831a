-- ===== src/Grammar/Renderer/Alike.antt =====
-- The renderer of listcerts/asn1_compiler.c uses the entries of the elements for nothing but the
-- targets of its jumps.
use uefi_utilities.Base.{
  ℕ, zero, suc, ◌≡◌, refl, sym, ap, ◌∙◌, subst, Bool, true, false, not, ◌&&◌, Option, none, some,
  List, [], ◌∷◌, ◌++◌, ◌==◌, map, if◌then◌else◌,
}
use uefi_utilities.Grammar.Element.{
  Compound, not_compound, set, set_of, sequence, sequence_of, choice, any, type_ref, tag_override,
  universal, Head, Element, element, Elements, no_elements, child,
}
use uefi_utilities.Grammar.Cells.{
  Route, Cell, jump_target, match, plain, jump, Place, Rendered, done, set_unsupported, no_tag_name,
  no_children, out_of_fuel, in_front, ◌then_render◌, render_opcode, has_action, action_cells, act,
  cond_fail, any_value, any_with_act, with_act, end_cells, ElementRenderer, ChildrenRenderer,
  render_tag, has_path,
}
use uefi_utilities.Grammar.Renderer.{
  render_jump, render_inline, render_member, render_below, render_ref, render_compound, render_kind,
  render_one, render_next, render_element, render_children,
}

-- A cell without the target of a jump.
unfoldable pub blank : Cell → Cell
blank (jump_target n) = jump_target 0
blank c = c

-- The same failure; or the same place, and the same cells but for the targets of the jumps.
abbrev pub Alike : Rendered → Rendered → Type 0
Alike (done cs s) r = (ds : List Cell) × (r ≡ done ds s) × (map blank cs ≡ map blank ds)
Alike set_unsupported r = r ≡ set_unsupported
Alike no_tag_name r = r ≡ no_tag_name
Alike no_children r = r ≡ no_children
Alike out_of_fuel r = r ≡ out_of_fuel

pub Alike-refl : (r : Rendered) → Alike r r
Alike-refl (done cs s) = (cs, refl, refl)
Alike-refl set_unsupported = refl
Alike-refl no_tag_name = refl
Alike-refl no_children = refl
Alike-refl out_of_fuel = refl

pub map-append :
    {A B : Type 0} (f : A → B) (xs ys : List A) → map f (xs ++ ys) ≡ map f xs ++ map f ys
map-append f [] ys = refl
map-append f (x ∷ xs) ys = ap (λ zs. f x ∷ zs) (map-append f xs ys)

pub blank-append :
    (cs ds cs' ds' : List Cell)
    → map blank cs ≡ map blank ds
    → map blank cs' ≡ map blank ds'
    → map blank (cs ++ cs') ≡ map blank (ds ++ ds')
blank-append cs ds cs' ds' e e' =
    map-append blank cs cs'
    ∙ ap (λ zs. zs ++ map blank cs') e
    ∙ ap (λ zs. map blank ds ++ zs) e'
    ∙ sym (map-append blank ds ds')

in_front-Alike :
    (cs ds : List Cell) (r r' : Rendered)
    → map blank cs ≡ map blank ds
    → Alike r r'
    → Alike (in_front cs r) (in_front ds r')
in_front-Alike cs ds (done es s) r' e (fs, r_eq, h) =
    (ds ++ fs, ap (in_front ds) r_eq, blank-append cs ds es fs e h)
in_front-Alike cs ds set_unsupported r' e h = ap (in_front ds) h
in_front-Alike cs ds no_tag_name r' e h = ap (in_front ds) h
in_front-Alike cs ds no_children r' e h = ap (in_front ds) h
in_front-Alike cs ds out_of_fuel r' e h = ap (in_front ds) h

pub then-Alike :
    (r r' : Rendered) (k k' : Place → Rendered)
    → Alike r r'
    → ((s : Place) → Alike (k s) (k' s))
    → Alike (r then_render k) (r' then_render k')
then-Alike (done cs s) r' k k' (ds, r_eq, e) h =
    subst (λ q. Alike (done cs s then_render k) (q then_render k')) (sym r_eq)
      (in_front-Alike cs ds (k s) (k' s) e (h s))
then-Alike set_unsupported r' k k' e h = ap (λ q. q then_render k') e
then-Alike no_tag_name r' k k' e h = ap (λ q. q then_render k') e
then-Alike no_children r' k k' e h = ap (λ q. q then_render k') e
then-Alike out_of_fuel r' k k' e h = ap (λ q. q then_render k') e

pub then-keep :
    (r r' : Rendered) (k : Place → Rendered)
    → Alike r r'
    → Alike (r then_render k) (r' then_render k)
then-keep r r' k h = then-Alike r r' k k h λ s. Alike-refl (k s)

from-Alike :
    (r : Rendered) (k k' : Place → Rendered)
    → ((s : Place) → Alike (k s) (k' s))
    → Alike (r then_render k) (r then_render k')
from-Alike r k k' h = then-Alike r r k k' (Alike-refl r) h

if-Alike :
    (b : Bool) (x y x' y' : Rendered)
    → Alike x x'
    → Alike y y'
    → Alike (if b then x else y) (if b then x' else y')
if-Alike true x y x' y' hx hy = hx
if-Alike false x y x' y' hx hy = hy

-- Two renderers that are alike everywhere.
abbrev pub ElementsAlike : ElementRenderer → ElementRenderer → Type 0
ElementsAlike r r' =
    (p : Route) (e : Element) (t : Option Head) (s : Place) → Alike (r p e t s) (r' p e t s)

abbrev pub ChildrenAlike : ChildrenRenderer → ChildrenRenderer → Type 0
ChildrenAlike r r' =
    (p : Route) (i : ℕ) (es : Elements) (s : Place) → Alike (r p i es s) (r' p i es s)

module _ (types : ℕ → Element) (refs : ℕ → ℕ) (f g : Route → ℕ) where
  jump-Alike :
      (p : Route) (e : Element) (s : Place)
      → Alike (render_jump types refs f p e s) (render_jump types refs g p e s)
  unfolding render_jump render_opcode blank
  jump-Alike p e s =
      let enqueue = λ (s1 : Place).
        if has_path p (Place.rendered s1)
        then done [] s1
        else done [] (record s1 {
          rendered = p ∷ Place.rendered s1;
          queue = Place.queue s1 ++ (p, e) ∷ [];
        }) in
      then-keep (render_opcode (jump_target (f p) ∷ []) s)
        (render_opcode (jump_target (g p) ∷ []) s) enqueue (jump_target (g p) ∷ [], refl, refl)

  module _ (render render' : ElementRenderer) (children children' : ChildrenRenderer)
      (same_render : ElementsAlike render render')
      (same_children : ChildrenAlike children children') where
    below-Alike :
        (p : Route) (h : Head) (es : Elements) (s : Place)
        → Alike
            (render_below types refs f render p h es s)
            (render_below types refs g render' p h es s)
    unfolding render_below
    below-Alike p h no_elements s = refl
    below-Alike p h (child e es) s = same_render (0 ∷ p) e (some h) s

    ref-Alike :
        (h : Head) (r : Option ℕ) (t : Option Head) (s : Place)
        → Alike (render_ref types refs f render h r t s) (render_ref types refs g render' h r t s)
    unfolding render_ref
    ref-Alike h none t s = refl
    ref-Alike h (some r) t s =
        then-keep (render (r ∷ []) (types r) t s) (render' (r ∷ []) (types r) t s)
          (render_opcode ((if has_action h then act ∷ [] else []) ++ action_cells h))
          (same_render (r ∷ []) (types r) t s)

    member-Alike :
        (p : Route) (es : Elements) (s : Place)
        → Alike
            (render_member types refs f render p es s)
            (render_member types refs g render' p es s)
    unfolding render_member
    member-Alike p no_elements s = refl
    member-Alike p (child e es) s = same_render (0 ∷ p) e none s

    inline-Alike :
        (p : Route) (h : Head) (es : Elements) (s : Place)
        → Alike
            (render_inline types refs f render children p h es s)
            (render_inline types refs g render' children' p h es s)
    unfolding render_inline
    inline-Alike p h es s =
        then-keep
          (elim (Head.compound h) [
            | sequence ↦ children p 0 es s
            | _ ↦ render_member types refs f render p es s
          ])
          (elim (Head.compound h) [
            | sequence ↦ children' p 0 es s
            | _ ↦ render_member types refs g render' p es s
          ])
          (render_opcode
            (end_cells (Head.compound h) (has_action h) (Place.nr_entries s) ++ action_cells h))
          (elim (Head.compound h)
            as (λ c.
              Alike
                (elim c [
                  | sequence ↦ children p 0 es s
                  | _ ↦ render_member types refs f render p es s
                ])
                (elim c [
                  | sequence ↦ children' p 0 es s
                  | _ ↦ render_member types refs g render' p es s
                ])) [ sequence ↦ same_children p 0 es s | _ ↦ member-Alike p es s ])

    compound-Alike :
        (line : Bool) (p : Route) (h : Head) (es : Elements) (s : Place)
        → Alike
            (render_compound types refs f render children line p h es s)
            (render_compound types refs g render' children' line p h es s)
    unfolding render_compound
    compound-Alike true p h es s = jump-Alike p (element h es) s
    compound-Alike false p h es s = inline-Alike p h es s

    tagged-Alike :
        (line sk cond : Bool) (p : Route) (h : Head) (es : Elements) (t : Option Head) (s : Place)
        → Alike
            (render_opcode (match cond sk (if line then jump else plain) ∷ []) s
              then_render render_tag h t
              then_render render_compound types refs f render children line p h es)
            (render_opcode (match cond sk (if line then jump else plain) ∷ []) s
              then_render render_tag h t
              then_render render_compound types refs g render' children' line p h es)
    tagged-Alike line sk cond p h es t s =
        from-Alike
          (render_opcode (match cond sk (if line then jump else plain) ∷ []) s
            then_render render_tag h t)
          (render_compound types refs f render children line p h es)
          (render_compound types refs g render' children' line p h es) (compound-Alike line p h es)

    kind-Alike :
        (sk line cond : Bool) (p : Route) (h : Head) (es : Elements) (t : Option Head) (s : Place)
        (c : Compound)
        → Alike
            (render_kind types refs f render children sk line cond p h es t s c)
            (render_kind types refs g render' children' sk line cond p h es t s c)
    unfolding render_kind
    kind-Alike sk line cond p h es t s any = Alike-refl (
        render_opcode
          (match cond false (if has_action h then any_with_act else any_value) ∷ action_cells h) s)
    kind-Alike sk line cond p h es t s tag_override = below-Alike p h es s
    kind-Alike sk line cond p h es t s choice =
        then-keep (children p 0 es s) (children' p 0 es s)
          (render_opcode (
            (if sk then [] else cond_fail ∷ [])
            ++ (if has_action h then act ∷ [] else [])
            ++ action_cells h))
          (same_children p 0 es s)
    kind-Alike sk line cond p h es t s type_ref =
        let head =
          render_opcode (match cond sk (if has_action h then with_act else plain) ∷ []) s
          then_render render_tag h t in
        if-Alike
          ((elim (Head.class h) [ universal ↦ true | _ ↦ false ])
            && not (Head.constructed h)
            && (Head.tag h == 0))
          (render_ref types refs f render h (Head.ref h) t s)
          (head then_render render_ref types refs f render h (Head.ref h) none)
          (render_ref types refs g render' h (Head.ref h) t s)
          (head then_render render_ref types refs g render' h (Head.ref h) none)
          (ref-Alike h (Head.ref h) t s)
          (from-Alike head (render_ref types refs f render h (Head.ref h) none)
            (render_ref types refs g render' h (Head.ref h) none) (ref-Alike h (Head.ref h) none))
    kind-Alike sk line cond p h es t s set = Alike-refl (
        render_opcode (match cond sk (if line then jump else plain) ∷ []) s
        then_render render_tag h t
        then_render λ s1. set_unsupported)
    kind-Alike sk line cond p h es t s not_compound = Alike-refl (
        render_opcode (match cond sk (if has_action h then with_act else plain) ∷ []) s
        then_render render_tag h t
        then_render render_opcode (action_cells h))
    kind-Alike sk line cond p h es t s sequence = tagged-Alike line sk cond p h es t s
    kind-Alike sk line cond p h es t s sequence_of = tagged-Alike line sk cond p h es t s
    kind-Alike sk line cond p h es t s set_of = tagged-Alike line sk cond p h es t s

    one-Alike :
        (p : Route) (e : Element) (t : Option Head) (s : Place)
        → Alike
            (render_one types refs f render children p e t s)
            (render_one types refs g render' children' p e t s)
    unfolding render_one
    one-Alike p (element h es) t s = kind-Alike _ _ _ p h es t s (Head.compound h)

    next-Alike :
        (p : Route) (i : ℕ) (es : Elements) (s : Place)
        → Alike
            (render_next types refs f render children p i es s)
            (render_next types refs g render' children' p i es s)
    unfolding render_next
    next-Alike p i no_elements s = Alike-refl (done [] s)
    next-Alike p i (child e es) s =
        then-Alike (render (i ∷ p) e none s) (render' (i ∷ p) e none s) (children p (suc i) es)
          (children' p (suc i) es) (same_render (i ∷ p) e none s) (same_children p (suc i) es)

  mutual
    unfolding render_element

    pub element-Alike :
        (fuel : ℕ) (p : Route) (e : Element) (t : Option Head) (s : Place)
        → Alike
            (render_element types refs f fuel p e t s)
            (render_element types refs g fuel p e t s)
    element-Alike zero p e t s = refl
    element-Alike (suc fuel) p e t s =
        one-Alike _ _ _ _ (element-Alike fuel) (children-Alike fuel) p e t s

    pub children-Alike :
        (fuel : ℕ) (p : Route) (i : ℕ) (es : Elements) (s : Place)
        → Alike
            (render_children types refs f fuel p i es s)
            (render_children types refs g fuel p i es s)
    children-Alike zero p i es s = refl
    children-Alike (suc fuel) p i es s =
        next-Alike _ _ _ _ (element-Alike fuel) (children-Alike fuel) p i es s
