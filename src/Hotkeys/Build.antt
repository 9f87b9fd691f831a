-- ===== src/Hotkeys/Build.antt =====
-- The loop over GetNextVariableName of showhotkeys/showhotkeys.c, on the list in memory.
use uefi_utilities.Base.{
  ℕ, zero, suc, ◌+◌, ◌*◌, ◌≤◌, ◌<◌, ◌≡◌, ◌≢◌, refl, sym, ap, subst, ◌∙◌, Bool, true, false, some,
  List, [], ◌∷◌, map, arith, length, inl, inr, if◌then◌else◌,
}
use uefi_utilities.Uefi.{
  Text, Status, success, not_found, buffer_too_small, out_of_resources, invalid_parameter, other,
}
use uefi_utilities.Links.{insert_head_list, get_first_node}
use uefi_utilities.Links.Ring.{Ring}
use uefi_utilities.Links.Insert.{insert_head_list-Ring}
use uefi_utilities.Links.{Store}
use uefi_utilities.Links.Pool.{
  Pool, Heap, with_entry, NeverOut, Unused, new-Unused, new-head, names_kept, name_at-same,
}
use uefi_utilities.Hotkeys.{
  sorted_then, Services, Answer, answered, again, is_hot_key_variable, Built, built, failed,
  out_of_fuel, keep, next_failed, after_next, turn, build, sort_first, sort_loop,
}
use uefi_utilities.Hotkeys.Order.{add_name, arrange, Ordered, add_name-Ordered, insert_name}
use uefi_utilities.Hotkeys.Sort.{lt_or_le, sort_loop-inserts}

module _ (sv : Services) where
  open sv use {Guid, get_next_variable_name, str_size, pool}

  -- The next variable, for every size of the buffer: it is given where it fits, and its size else.
  abbrev pub Gives : Text → Guid → Text → Guid → Type 0
  Gives text guid t g =
      (size : ℕ)
      → (str_size t ≤ size
          → (size' : ℕ) × (get_next_variable_name size text guid ≡ (success, size', t, g)))
        × (size < str_size t
            → get_next_variable_name size text guid ≡ (buffer_too_small, str_size t, text, guid))

  -- Behind this variable the firmware gives these, and then a status.
  unfoldable pub Enumerates : Text → Guid → List (Text × Guid) → Status → Type 0
  Enumerates text guid [] end = (size : ℕ) → (get_next_variable_name size text guid).0 ≡ end
  Enumerates text guid ((t, g) ∷ vs) end = Gives text guid t g × Enumerates t g vs end

  -- The names of those that are hot keys.
  unfoldable pub hot_names : List (Text × Guid) → List Text
  hot_names [] = []
  hot_names ((t, g) ∷ vs) =
      let rest = hot_names vs in if is_hot_key_variable sv t g then t ∷ rest else rest

  abbrev as_answer : ℕ → Status × ℕ × Text × Guid → Answer Guid
  as_answer size (status, size', text, guid) = answered size status text guid

  again-Gives :
      (size : ℕ) (text : Text) (guid : Guid) (t : Text) (g : Guid)
      → Gives text guid t g
      → (size' : ℕ) × (again sv size (get_next_variable_name size text guid)
          ≡ answered size' success t g)
  unfolding again
  again-Gives size text guid t g gives = elim (lt_or_le size (str_size t)) [
    | inl less ↦
        let (size', e) = (gives (str_size t)).0 (omega arith) in
        (str_size t, ap (again sv size) ((gives size).1 less) ∙ ap (as_answer (str_size t)) e)
    | inr fits ↦ let (size', e) = (gives size).0 fits in (size, ap (again sv size) e)
  ]

  -- The list has these names, and at most as many as there were calls.
  abbrev pub Holds : (ℕ → ℕ) → (Heap Store) → List Text → Type 0
  Holds address h ts =
      (xs : List ℕ) × Ring (Heap.links h) (Pool.head pool) xs
      × Unused pool address h xs
      × (length xs ≤ Heap.calls h)
      × (map (Heap.names h) xs ≡ ts)

  module _ (address : ℕ → ℕ) (memory : NeverOut pool address) where
    sort_first-Holds :
        (no_sort : Bool) (h : Heap Store) (p : ℕ) (xs : List ℕ) (t : Text) (ts : List Text)
        → Ring (Heap.links h) (Pool.head pool) (p ∷ xs)
        → Unused pool address h (p ∷ xs)
        → suc (length xs) ≤ Heap.calls h
        → Heap.names h p ≡ t
        → map (Heap.names h) xs ≡ ts
        → Ordered no_sort ts
        → (h' : (Heap Store)) × (sort_first (Pool.head pool) no_sort h ≡ some h')
          × Holds address h' (add_name no_sort t ts)
    unfolding sort_first add_name get_first_node
    sort_first-Holds true h p xs t ts ring unused size e es up =
        (h, refl, (p ∷ xs, ring, unused, size, cc (e, es)))
    sort_first-Holds false h p xs t ts ring unused size e es up =
        let (links, zs, ring', names, run, more, off) =
          sort_loop-inserts (Pool.head pool) (2 * Heap.calls h + 1) p h [] xs ring
            (subst (λ us. Ordered false us) (sym es) up) (omega (arith, size)) in
        (
          record h { links = links },
          ap (λ n. sort_loop (2 * Heap.calls h + 1) (Pool.head pool) n n h) ring.0.0 ∙ run,
          (
            zs,
            ring',
            (λ i less. off (address i) (unused i less)),
            omega (arith, more, size),
            names ∙ ap (insert_name (Heap.names h p)) es ∙ ap (λ u. insert_name u ts) e,
          ),
        )

    keep-Holds :
        (next : (Heap Store) → Built sv) (no_sort : Bool) (h : Heap Store) (t : Text)
        (ts : List Text)
        → Holds address h ts
        → Ordered no_sort ts
        → (h' : (Heap Store)) × (keep sv next no_sort t h (Pool.allocate pool (Heap.calls h))
            ≡ next h')
          × Holds address h' (add_name no_sort t ts)
    unfolding keep sorted_then
    keep-Holds next no_sort h t ts (xs, ring, unused, size, es) up =
        let p = address (Heap.calls h) in
        let off = unused (Heap.calls h) (omega arith) in
        let links = (insert_head_list (Pool.head pool) p (Heap.links h)).1 in
        let h1 : (Heap Store) = with_entry links p t h in
        let (h', run, holds) =
          sort_first-Holds no_sort h1 p xs t ts
            (insert_head_list-Ring (Heap.links h) (Pool.head pool) p xs ring
              (new-head pool address memory h) off)
            (new-Unused pool address memory links t h [] xs unused) (omega (arith, size))
            (name_at-same (Heap.names h) p t) (names_kept (Heap.names h) p t xs off ∙ es) up in
        (
          h',
          ap (keep sv next no_sort t h) (memory (Heap.calls h)) ∙ ap (sorted_then sv next) run,
          holds,
        )

    -- The status with which the enumeration ends, as the loop takes it.
    abbrev pub Outcome : Status → Built sv → List Text → Type 0
    Outcome end (built h) ts = (end ≡ not_found) × Holds address h ts
    Outcome end (failed h status out) ts =
        (status ≡ end) × (end ≢ not_found) × (out ≡ next_failed end ∷ [])
    Outcome end out_of_fuel ts = ⊥

    last-Outcome :
        (next : ℕ → Text → Guid → (Heap Store) → Built sv) (no_sort : Bool) (size : ℕ)
        (r : Status × ℕ × Text × Guid) (h : Heap Store) (ts : List Text)
        → Holds address h ts
        → r.0 ≢ success
        → r.0 ≢ buffer_too_small
        → Outcome r.0 (turn sv next no_sort h (again sv size r)) ts
    unfolding turn again after_next
    last-Outcome next no_sort size (success, s, text, guid) h ts holds ne nb = absurd (ne refl)
    last-Outcome next no_sort size (not_found, s, text, guid) h ts holds ne nb = (refl, holds)
    last-Outcome next no_sort size (buffer_too_small, s, text, guid) h ts holds ne nb =
        absurd (nb refl)
    last-Outcome next no_sort size (out_of_resources, s, text, guid) h ts holds ne nb =
        (refl, (λ e. ground arith), refl)
    last-Outcome next no_sort size (invalid_parameter, s, text, guid) h ts holds ne nb =
        (refl, (λ e. ground arith), refl)
    last-Outcome next no_sort size (other n, s, text, guid) h ts holds ne nb =
        (refl, (λ e. ground arith), refl)

    pub build-Outcome :
        (fuel : ℕ) (no_sort : Bool) (size : ℕ) (text : Text) (guid : Guid) (h : Heap Store)
        (ts : List Text) (vs : List (Text × Guid)) (end : Status)
        → Holds address h ts
        → Ordered no_sort ts
        → Enumerates text guid vs end
        → end ≢ success
        → end ≢ buffer_too_small
        → length vs < fuel
        → Outcome end (build sv fuel no_sort size text guid h) (arrange no_sort (hot_names vs) ts)
    unfolding build Enumerates hot_names arrange turn after_next
    build-Outcome zero no_sort size text guid h ts vs end holds up en ne nb less =
        absurd (omega arith)
    build-Outcome (suc fuel) no_sort size text guid h ts [] end holds up en ne nb less =
        let r = get_next_variable_name size text guid in
        subst (λ st. Outcome st (turn sv (build sv fuel no_sort) no_sort h (again sv size r)) ts)
          (en size)
          (last-Outcome (build sv fuel no_sort) no_sort size r h ts holds
            (λ e. ne (sym (en size) ∙ e)) (λ e. nb (sym (en size) ∙ e)))
    build-Outcome (suc fuel) no_sort size text guid h ts ((t, g) ∷ vs) end holds up en ne nb less =
        let (size', e) = again-Gives size text guid t g en.0 in
        let next = build sv fuel no_sort size' t g in
        let kept = keep-Holds next no_sort h t ts holds up in
        subst
          (λ a.
            Outcome end (turn sv (build sv fuel no_sort) no_sort h a)
              (arrange no_sort (hot_names ((t, g) ∷ vs)) ts))
          (sym e)
          (elim (is_hot_key_variable sv t g)
            as (λ b.
              Outcome end
                (if b then keep sv next no_sort t h (Pool.allocate pool (Heap.calls h)) else next h)
                (arrange no_sort (if b then t ∷ hot_names vs else hot_names vs) ts)) [
                  | false ↦
                      build-Outcome fuel no_sort size' t g h ts vs end holds up en.1 ne nb
                        (omega arith)
                  | true ↦
                      subst
                        (λ b.
                          Outcome end b (arrange no_sort (hot_names vs) (add_name no_sort t ts)))
                        (sym kept.1)
                        (build-Outcome fuel no_sort size' t g kept.0 (add_name no_sort t ts) vs end
                          kept.2 (add_name-Ordered no_sort t ts up) en.1 ne nb (omega arith))
                ])
