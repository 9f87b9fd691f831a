-- ===== src/Grammar/Renderer/Passes.antt =====
-- The two passes of `render` in listcerts/asn1_compiler.c.
use uefi_utilities.Base.{
  ℕ, zero, suc, ◌≡◌, ◌⊎◌, inl, inr, refl, sym, ap, ◌∙◌, subst, Bool, true, false, none, List, [],
  ◌∷◌, ◌++◌, map, if◌then◌else◌,
}
use uefi_utilities.Grammar.Element.{Element, element, Head}
use uefi_utilities.Grammar.Cells.{
  Route, same_path, Cell, return, complete, Place, Rendered, done, set_unsupported, no_tag_name,
  no_children, out_of_fuel, render_opcode, has_action, action_cells, end_cells,
}
use uefi_utilities.Grammar.Renderer.{
  render_element, render_children, put_entry, Listed, listed, failed, list_then, render_out_of_line,
  render_out_of_line_list, render_queue, render_pass,
}
use uefi_utilities.Grammar.Renderer.Alike.{
  blank, blank-append, Alike, then-keep, element-Alike, children-Alike,
}

-- What two renderings that start at `f` and `g` do to an element: the same entry, or none.
abbrev pub Keeps : (f g f' g' : Route → ℕ) → Type 0
Keeps f g f' g' = (p : Route) → (f' p ≡ g' p) ⊎ ((f' p ≡ f p) × (g' p ≡ g p))

-- The same failure; or the same place, the same cells but for the targets, and the same new entries.
abbrev pub ListedAlike : (f g : Route → ℕ) → Listed → Listed → Type 0
ListedAlike f g (listed cs s f') r =
    (ds : List Cell) × (g' : Route → ℕ) × (r ≡ listed ds s g')
    × (map blank cs ≡ map blank ds)
    × Keeps f g f' g'
ListedAlike f g (failed x) r = r ≡ failed x

put-cases :
    (b : Bool) (n x y a c : ℕ)
    → x ≡ (if b then n else a)
    → y ≡ (if b then n else c)
    → (x ≡ y) ⊎ ((x ≡ a) × (y ≡ c))
put-cases true n x y a c e e' = inl (e ∙ sym e')
put-cases false n x y a c e e' = inr (e, e')

Keeps-put :
    (f g f' g' : Route → ℕ) (p : Route) (n : ℕ)
    → Keeps (put_entry p n f) (put_entry p n g) f' g'
    → Keeps f g f' g'
unfolding put_entry
Keeps-put f g f' g' p n h q = elim (h q) [
  | inl e ↦ inl e
  | inr k ↦ put-cases (same_path q p) n _ _ _ _ k.0 k.1
]

more-ListedAlike :
    (f g : Route → ℕ) (cs ds : List Cell) (r r' : Listed)
    → map blank cs ≡ map blank ds
    → ListedAlike f g r r'
    → ListedAlike f g
        (elim r [ listed es s f' ↦ listed (cs ++ es) s f' | failed x ↦ failed x ])
        (elim r' [ listed es s f' ↦ listed (ds ++ es) s f' | failed x ↦ failed x ])
more-ListedAlike f g cs ds (listed es s f') r' e (fs, g', r_eq, h, keeps) = (
  ds ++ fs,
  g',
  ap
      (λ q. elim q as (λ _. Listed) [
        | listed es s f' ↦ listed (ds ++ es) s f'
        | failed x ↦ failed x
      ])
      r_eq,
  blank-append cs ds es fs e h,
  keeps,
)
more-ListedAlike f g cs ds (failed x) r' e h =
    ap
      (λ q. elim q as (λ _. Listed) [
        | listed es s f' ↦ listed (ds ++ es) s f'
        | failed x ↦ failed x
      ])
      h

list_then-Alike :
    (f g : Route → ℕ) (k k' : Place → Listed) (r r' : Rendered)
    → Alike r r'
    → ((s : Place) → ListedAlike f g (k s) (k' s))
    → ListedAlike f g (list_then k r) (list_then k' r')
list_then-Alike f g k k' (done cs s) r' (ds, r_eq, e) h =
    subst (λ q. ListedAlike f g (list_then k (done cs s)) (list_then k' q)) (sym r_eq)
      (more-ListedAlike f g cs ds (k s) (k' s) e (h s))
list_then-Alike f g k k' set_unsupported r' e h = ap (list_then k') e
list_then-Alike f g k k' no_tag_name r' e h = ap (list_then k') e
list_then-Alike f g k k' no_children r' e h = ap (list_then k') e
list_then-Alike f g k k' out_of_fuel r' e h = ap (list_then k') e

wider-ListedAlike :
    (f g : Route → ℕ) (p : Route) (n : ℕ) (r r' : Listed)
    → ListedAlike (put_entry p n f) (put_entry p n g) r r'
    → ListedAlike f g r r'
wider-ListedAlike f g p n (listed cs s f') r' (ds, g', r_eq, e, keeps) =
    (ds, g', r_eq, e, Keeps-put f g f' g' p n keeps)
wider-ListedAlike f g p n (failed x) r' h = h

module _ (types : ℕ → Element) (refs : ℕ → ℕ) where
  out_of_line-Alike :
      (fuel : ℕ) (f g : Route → ℕ) (p : Route) (e : Element) (s : Place)
      → Alike
          (render_out_of_line types refs fuel f p e s)
          (render_out_of_line types refs fuel g p e s)
  unfolding render_out_of_line
  out_of_line-Alike fuel f g p (element h es) s =
      then-keep (render_children types refs f fuel p 0 es s)
        (render_children types refs g fuel p 0 es s)
        (render_opcode (
          end_cells (Head.compound h) (has_action h) (Place.nr_entries s)
          ++ action_cells h
          ++ return ∷ []))
        (children-Alike types refs f g fuel p 0 es s)

  mutual
    unfolding render_out_of_line_list

    list-Alike :
        (fuel : ℕ) (f g : Route → ℕ) (s : Place)
        → ListedAlike f g
            (render_out_of_line_list types refs fuel f s)
            (render_out_of_line_list types refs fuel g s)
    list-Alike zero f g s = refl
    list-Alike (suc fuel) f g s = queue-Alike fuel f g s (Place.queue s)

    queue-Alike :
        (fuel : ℕ) (f g : Route → ℕ) (s : Place) (q : List (Route × Element))
        → ListedAlike f g (render_queue types refs fuel f s q) (render_queue types refs fuel g s q)
    queue-Alike fuel f g s [] = ([], g, refl, refl, λ p. inr (refl, refl))
    queue-Alike zero f g s ((p, e) ∷ rest) = refl
    queue-Alike (suc fuel) f g s ((p, e) ∷ rest) =
        let f' = put_entry p (Place.nr_entries s) f in
        let g' = put_entry p (Place.nr_entries s) g in
        wider-ListedAlike f g p (Place.nr_entries s) _ _ (
          list_then-Alike f' g' (render_out_of_line_list types refs fuel f')
            (render_out_of_line_list types refs fuel g')
            (render_out_of_line types refs fuel f' p e (record s { queue = rest }))
            (render_out_of_line types refs fuel g' p e (record s { queue = rest }))
            (out_of_line-Alike fuel f' g' p e (record s { queue = rest })) (list-Alike fuel f' g'))

  pass-Alike :
      (fuel : ℕ) (f g : Route → ℕ) (place : Place)
      → ListedAlike f g (render_pass types refs fuel f place) (render_pass types refs fuel g place)
  unfolding render_pass
  pass-Alike fuel f g place =
      let start : Place = record place { nr_entries = 0 } in
      list_then-Alike f g (render_out_of_line_list types refs fuel f)
        (render_out_of_line_list types refs fuel g) _ _
        (then-keep (render_element types refs f fuel (0 ∷ []) (types 0) none start)
          (render_element types refs g fuel (0 ∷ []) (types 0) none start)
          (render_opcode (complete ∷ []))
          (element-Alike types refs f g fuel (0 ∷ []) (types 0) none start))
        (list-Alike fuel f g)

  -- What the second pass gives from the entries that the first pass left.
  abbrev pub Repeats : Listed → List Cell → Place → (Route → ℕ) → Type 0
  Repeats (listed ds s' g) cs s f =
      (map blank cs ≡ map blank ds) × (s' ≡ s) × ((p : Route) → g p ≡ f p)
  Repeats (failed x) cs s f = ⊥

  -- Where a pass of `render` comes to its end, one that begins at the same place with the entries that
  -- the first left comes to its end with the same fuel at the same place, with the same cells but for
  -- the targets of the jumps, and leaves every element the entry that it had from the first.
  pub render_pass-Repeats :
      (fuel : ℕ) (before after : Route → ℕ) (start : Place) (cs : List Cell) (s : Place)
      → render_pass types refs fuel before start ≡ listed cs s after
      → Repeats (render_pass types refs fuel after start) cs s after
  render_pass-Repeats fuel before after start cs s first =
      let (ds, g, r_eq, e, keeps) =
        subst (λ r. ListedAlike before after r (render_pass types refs fuel after start)) first
          (pass-Alike fuel before after start) in
      subst (λ r. Repeats r cs s after) (sym r_eq)
        (e, refl, λ p. elim (keeps p) [ inl same ↦ sym same | inr kept ↦ kept.1 ])
