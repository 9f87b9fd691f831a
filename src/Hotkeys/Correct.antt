-- ===== src/Hotkeys/Correct.antt =====
-- The list of hot keys that showhotkeys/showhotkeys.c prints, as its two loops compose.
use mathlib.Core.List.{append-nil, append_assoc}
use uefi_utilities.Base.{
  ℕ, zero, suc, ◌<◌, ◌≡◌, ◌≢◌, refl, sym, ap, subst, Bool, true, false, Option, none, some, List,
  [], ◌∷◌, ◌++◌, map, arith, length, length-map, if◌then◌else◌,
}
use uefi_utilities.Uefi.{Text, Status, success, not_found, buffer_too_small}
use uefi_utilities.Links.{Store, remove_entry_list, get_first_node}
use uefi_utilities.Links.Ring.{Ring}
use uefi_utilities.Links.Insert.{is_list_empty_iff, initialize_list_head-Ring}
use uefi_utilities.Links.{initialize_list_head}
use uefi_utilities.Links.Remove.{remove_entry_list-Ring}
use uefi_utilities.Links.Pool.{Pool, Heap, NeverOut, is_list_empty-filled}
use uefi_utilities.Hotkeys.{
  Services, Output, name, next_failed, Built, built, failed, out_of_fuel, Result, drain, drained,
  drain_built, list_hot_keys,
}
use uefi_utilities.Hotkeys.Order.{arrange, length-arrange, Ordered}
use uefi_utilities.Hotkeys.Build.{Enumerates, hot_names, Holds, Outcome, build-Outcome}

module _ (sv : Services) where
  open sv use {Guid, null_guid, pool}

  -- The loop ends with this output, and with no entry on the list.
  abbrev Drained : Option ((Heap Store) × List Output) → List Output → Type 0
  Drained none out = ⊥
  Drained (some (h, out')) out = (out' ≡ out) × Ring (Heap.links h) (Pool.head pool) []

  drain-Drained :
      (fuel : ℕ) (h : Heap Store) (out : List Output) (xs : List ℕ)
      → Ring (Heap.links h) (Pool.head pool) xs
      → length xs < fuel
      → Drained (drain sv fuel h out) (out ++ map name (map (Heap.names h) xs))
  unfolding drain get_first_node
  drain-Drained zero h out xs ring less = absurd (omega arith)
  drain-Drained (suc fuel) h out [] ring less =
      let node = Store.flink (Heap.links h) (Pool.head pool) in
      subst
        (λ b.
          Drained
            (if b
              then some (h, out)
              else drain sv fuel (record h { links = (remove_entry_list node (Heap.links h)).1 })
                  (out ++ name (Heap.names h node) ∷ []))
            (out ++ []))
        (sym ((is_list_empty_iff (Heap.links h) (Pool.head pool) [] ring).1 refl))
        (sym (append-nil out), ring)
  drain-Drained (suc fuel) h out (x ∷ xs) ring less =
      let node = Store.flink (Heap.links h) (Pool.head pool) in
      let rest : ℕ → Option ((Heap Store) × List Output) = λ e.
        drain sv fuel (record h { links = (remove_entry_list e (Heap.links h)).1 })
          (out ++ name (Heap.names h e) ∷ []) in
      let goal = out ++ name (Heap.names h x) ∷ map name (map (Heap.names h) xs) in
      subst (λ b. Drained (if b then some (h, out) else rest node) goal)
        (sym (is_list_empty-filled (Heap.links h) (Pool.head pool) x xs ring))
        (subst (λ e. Drained (rest e) goal) (sym ring.0.0)
          (subst (λ us. Drained (rest x) us)
            (append_assoc out (name (Heap.names h x) ∷ []) (map name (map (Heap.names h) xs)))
            (drain-Drained fuel (record h { links = (remove_entry_list x (Heap.links h)).1 })
              (out ++ name (Heap.names h x) ∷ []) xs
              (remove_entry_list-Ring (Heap.links h) (Pool.head pool) x [] xs ring) (omega arith))))

  -- The tool returns this status, prints this, and leaves no entry on the list.
  abbrev pub Shows : Status → List Output → Option (Result sv) → Type 0
  Shows status out none = ⊥
  Shows status out (some (h, status', out')) =
      (status' ≡ status) × (out' ≡ out) × Ring (Heap.links h) (Pool.head pool) []

  drained-Shows :
      (o : Option ((Heap Store) × List Output)) (out : List Output)
      → Drained o out
      → Shows not_found out (drained sv o)
  unfolding drained
  drained-Shows none out d = d
  drained-Shows (some (h, out')) out d = (refl, d.0, d.1)

  module _ (address : ℕ → ℕ) (memory : NeverOut pool address) where
    drain_built-Shows :
        (fuel : ℕ) (out : List Output) (b : Built sv) (ts : List Text)
        → Outcome sv address memory not_found b ts
        → length ts < fuel
        → Shows not_found (out ++ map name ts) (drain_built sv fuel out b)
    unfolding drain_built
    drain_built-Shows fuel out (built h) ts (e, (xs, ring, unused, size, names)) less =
        subst (λ us. Shows not_found (out ++ map name us) (drain_built sv fuel out (built h))) names
          (drained-Shows (drain sv fuel h out) (out ++ map name (map (Heap.names h) xs)) (
            drain-Drained fuel h out xs ring
              (omega (arith, less, ap length names, length-map (Heap.names h) xs))))
    drain_built-Shows fuel out (failed h status more) ts (e, ne, out_eq) less = absurd (ne refl)
    drain_built-Shows fuel out out_of_fuel ts o less = absurd o

    drain_built-error :
        (fuel : ℕ) (out : List Output) (b : Built sv) (ts : List Text) (end : Status)
        → Outcome sv address memory end b ts
        → end ≢ not_found
        → (h : Heap Store) × (drain_built sv fuel out b
            ≡ some (h, end, out ++ next_failed end ∷ []))
    unfolding drain_built
    drain_built-error fuel out (built h) ts end (e, holds) nf = absurd (nf e)
    drain_built-error fuel out (failed h status more) ts end (e, ne, out_eq) nf =
        (h, cc (e, out_eq))
    drain_built-error fuel out out_of_fuel ts end o nf = absurd o

    start-Holds :
        (h : Heap Store)
        → Holds sv address
            (record h { links = (initialize_list_head (Pool.head pool) (Heap.links h)).1 })
            []
    start-Holds h = (
      [],
      initialize_list_head-Ring (Heap.links h) (Pool.head pool),
      (λ i less. tt),
      omega arith,
      refl,
    )

    start-Ordered : (no_sort : Bool) → Ordered no_sort []
    start-Ordered true = tt
    start-Ordered false = tt

  length-hot_names : (vs : List (Text × Guid)) → length (hot_names sv vs) < suc (length vs)
  unfolding hot_names
  length-hot_names [] = omega arith
  length-hot_names ((t, g) ∷ vs) = ground (arith, length-hot_names vs)

  module _ (address : ℕ → ℕ) (fuel : ℕ) (no_sort : Bool) (out : List Output) (h : Heap Store)
      (vs : List (Text × Guid)) where
    -- Where the firmware enumerates the variables `vs`, memory never runs out and the fuel is more than
    -- the variables, the list in memory behaves as the plain list on which every hot key is put in its
    -- place as it is found: without the sort in front of the others, and with it behind those of
    -- smaller option numbers. The names of that list are printed in their order, EFI_NOT_FOUND is
    -- returned, and the list ends without an entry.
    pub list_hot_keys-arrange :
        NeverOut pool address
        → Enumerates sv [] null_guid vs not_found
        → length vs < fuel
        → Shows not_found
            (out ++ map name (arrange no_sort (hot_names sv vs) []))
            (list_hot_keys sv fuel no_sort out h)
    unfolding list_hot_keys
    list_hot_keys-arrange memory en less =
        drain_built-Shows address memory fuel out _ (arrange no_sort (hot_names sv vs) [])
          (build-Outcome sv address memory fuel no_sort 8 [] null_guid
            (record h { links = (initialize_list_head (Pool.head pool) (Heap.links h)).1 }) [] vs
            not_found (start-Holds address memory h) (start-Ordered address memory no_sort) en
            (λ e. ground arith) (λ e. ground arith) less)
          (omega (arith, length-hot_names vs, length-arrange no_sort (hot_names sv vs) []))

    -- Where the enumeration ends with a status that is none of success, EFI_NOT_FOUND and
    -- EFI_BUFFER_TOO_SMALL, memory never runs out and the fuel is more than the variables, that status
    -- is returned and printed, and no hot key is.
    pub list_hot_keys-error :
        (end : Status)
        → NeverOut pool address
        → Enumerates sv [] null_guid vs end
        → end ≢ success
        → end ≢ buffer_too_small
        → end ≢ not_found
        → length vs < fuel
        → (h' : (Heap Store)) × (list_hot_keys sv fuel no_sort out h
            ≡ some (h', end, out ++ next_failed end ∷ []))
    unfolding list_hot_keys
    list_hot_keys-error end memory en ne nb nf less =
        drain_built-error address memory fuel out _ (arrange no_sort (hot_names sv vs) []) end
          (build-Outcome sv address memory fuel no_sort 8 [] null_guid
            (record h { links = (initialize_list_head (Pool.head pool) (Heap.links h)).1 }) [] vs
            end (start-Holds address memory h) (start-Ordered address memory no_sort) en ne nb less)
          nf
