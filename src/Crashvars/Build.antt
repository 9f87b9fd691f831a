-- ===== src/Crashvars/Build.antt =====
-- The first loop of `ClearCrashVars`: the names of the crash variables in the order of the firmware.
use uefi_utilities.Base.{
  ℕ, zero, suc, ◌<◌, ◌≡◌, ◌≢◌, refl, sym, ap, subst, ◌∙◌, true, false, some, List, [], ◌∷◌, ◌++◌,
  ◌==◌, map, arith, length, if◌then◌else◌,
}
use mathlib.Core.List.{append-nil, append_assoc}
use uefi_utilities.Uefi.{
  Text, Status, success, not_found, buffer_too_small, out_of_resources, invalid_parameter, other,
}
use uefi_utilities.Links.Ring.{Off}
use uefi_utilities.Links.Pool.{
  Pool, Heap, with_entry, name_at, NeverOut, Unused, new-Unused, new-head, names_kept, name_at-same,
}
use uefi_utilities.Crashvars.{
  ListMacros, Chain, IsNew, Services, next_failed, Built, built, failed, out_of_fuel, keep_then,
  keep, after_next, build,
}

map_snoc {ℓ k} :
    {A : Type ℓ} {B : Type k} (f : A → B) (xs : List A) (x : A)
    → map f (xs ++ x ∷ []) ≡ map f xs ++ f x ∷ []
map_snoc f [] x = refl
map_snoc f (y ∷ xs) x = ap (λ zs. f y ∷ zs) (map_snoc f xs x)

module _ (sv : Services) where
  open sv use {
    World, Guid, null_guid, crash_guid, get_next_variable_name, compare_guid, pool, macros,
    lib_get_variable, free_pool, free_pool-same,
  }

  -- Behind this variable the firmware gives these, and then a status that is not success.
  unfoldable pub Enumerates : World → Text → Guid → List (Text × Guid) → Status → Type 0
  Enumerates w text guid [] end = (get_next_variable_name w text guid).0 ≡ end
  Enumerates w text guid ((t, g) ∷ vs) end =
      (get_next_variable_name w text guid ≡ (success, t, g)) × Enumerates w t g vs end

  -- The names of those that are crash variables.
  unfoldable pub crash_names : List (Text × Guid) → List Text
  crash_names [] = []
  crash_names ((t, g) ∷ vs) =
      let rest = crash_names vs in if compare_guid g crash_guid == 0 then t ∷ rest else rest

  -- The list has these names.
  abbrev pub Entries : (ℕ → ℕ) → Chain sv → List Text → Type 0
  Entries address h ts =
      (xs : List ℕ) × ListMacros.Holds macros (Heap.links h) (Pool.head pool) xs
      × Unused pool address h xs
      × (map (Heap.names h) xs ≡ ts)

  Off-IsNew : (p : ℕ) (xs : List ℕ) → Off p xs → IsNew p xs
  Off-IsNew p [] off = tt
  Off-IsNew p (x ∷ xs) off = (off.0, Off-IsNew p xs off.1)

  module _ (address : ℕ → ℕ) (memory : NeverOut pool address) where
    keep-Entries :
        (h : Chain sv) (ts : List Text) (t : Text)
        → Entries address h ts
        → (h' : Chain sv) × (keep sv t (Pool.allocate pool (Heap.calls h)) h ≡ some h')
          × Entries address h' (ts ++ t ∷ [])
    unfolding keep
    keep-Entries h ts t (xs, ring, unused, e) =
        let p = address (Heap.calls h) in
        let off = unused (Heap.calls h) (omega arith) in
        let links = ListMacros.insert_tail macros (Pool.head pool) p (Heap.links h) in
        (
          with_entry links p t h,
          ap (λ o. keep sv t o h) (memory (Heap.calls h)),
          (
            xs ++ p ∷ [],
            ListMacros.insert_tail-Holds macros (Heap.links h) (Pool.head pool) p xs ring
                (new-head pool address memory h) (Off-IsNew p xs off),
            new-Unused pool address memory links t h xs []
                (subst (λ ys. Unused pool address h ys) (sym (append-nil xs)) unused),
            map_snoc (name_at (Heap.names h) p t) xs p
                ∙ ap (λ ys. ys ++ name_at (Heap.names h) p t p ∷ [])
                    (names_kept (Heap.names h) p t xs off ∙ e)
                ∙ ap (λ u. ts ++ u ∷ []) (name_at-same (Heap.names h) p t),
          ),
        )

    -- The status with which the enumeration ends, as the loop takes it.
    abbrev pub Outcome : Status → Built sv → List Text → Type 0
    Outcome end (built h) ts = (end ≡ not_found) × Entries address h ts
    Outcome end (failed h status out) ts =
        (status ≡ end) × (end ≢ not_found) × (out ≡ next_failed end ∷ [])
    Outcome end out_of_fuel ts = ⊥

    after_next-Outcome :
        (h : Chain sv) (found : Built sv) (end : Status) (ts : List Text)
        → Entries address h ts
        → end ≢ success
        → Outcome end (after_next sv h found end) ts
    unfolding after_next
    after_next-Outcome h found success ts es ne = absurd (ne refl)
    after_next-Outcome h found not_found ts es ne = (refl, es)
    after_next-Outcome h found buffer_too_small ts es ne = (refl, (λ e. ground arith), refl)
    after_next-Outcome h found out_of_resources ts es ne = (refl, (λ e. ground arith), refl)
    after_next-Outcome h found invalid_parameter ts es ne = (refl, (λ e. ground arith), refl)
    after_next-Outcome h found (other n) ts es ne = (refl, (λ e. ground arith), refl)

    -- What is done with a variable, and with those behind it from this world on.
    abbrev visited : ℕ → World → Text → Guid → Chain sv → Built sv
    visited fuel w text guid h =
        if compare_guid guid crash_guid == 0
        then keep_then sv (build sv fuel w text guid) h
            (keep sv text (Pool.allocate pool (Heap.calls h)) h)
        else build sv fuel w text guid h

    -- What a turn of the loop does with the answer of the firmware.
    abbrev turn : ℕ → World → Chain sv → Status × Text × Guid → Built sv
    turn fuel w h (status, text, guid) =
        after_next sv h (visited fuel (free_pool (lib_get_variable w text guid) w) text guid h)
          status

    pub build-Outcome :
        (fuel : ℕ) (w : World) (text : Text) (guid : Guid) (h : Chain sv) (ts : List Text)
        (vs : List (Text × Guid)) (end : Status)
        → Entries address h ts
        → Enumerates w text guid vs end
        → end ≢ success
        → length vs < fuel
        → Outcome end (build sv fuel w text guid h) (ts ++ crash_names vs)
    unfolding build Enumerates crash_names
    build-Outcome zero w text guid h ts vs end es en ne less = absurd (omega arith)
    build-Outcome (suc fuel) w text guid h ts [] end es en ne less =
        let (status, text', guid') = get_next_variable_name w text guid in
        subst (λ ys. Outcome end (turn fuel w h (status, text', guid')) ys) (sym (append-nil ts))
          (subst (λ st. Outcome end (turn fuel w h (st, text', guid')) ts) (sym en)
            (after_next-Outcome h
              (visited fuel (free_pool (lib_get_variable w text' guid') w) text' guid' h) end ts es
              ne))
    build-Outcome (suc fuel) w text guid h ts ((t, g) ∷ vs) end es en ne less =
        subst (λ r. Outcome end (turn fuel w h r) (ts ++ crash_names ((t, g) ∷ vs))) (sym en.0)
          (subst (λ w'. Outcome end (visited fuel w' t g h) (ts ++ crash_names ((t, g) ∷ vs)))
            (sym (free_pool-same (lib_get_variable w t g) w))
            (elim (compare_guid g crash_guid == 0)
              as (λ b.
                Outcome end
                  (if b
                    then keep_then sv (build sv fuel w t g) h
                        (keep sv t (Pool.allocate pool (Heap.calls h)) h)
                    else build sv fuel w t g h)
                  (ts ++ (if b then t ∷ crash_names vs else crash_names vs))) [
                    | false ↦ build-Outcome fuel w t g h ts vs end es en.1 ne (omega arith)
                    | true ↦
                        let kept = keep-Entries h ts t es in
                        subst
                          (λ o.
                            Outcome end (keep_then sv (build sv fuel w t g) h o)
                              (ts ++ t ∷ crash_names vs))
                          (sym kept.1)
                          (subst (λ ys. Outcome end (build sv fuel w t g kept.0) ys)
                            (append_assoc ts (t ∷ []) (crash_names vs))
                            (build-Outcome fuel w t g kept.0 (ts ++ t ∷ []) vs end kept.2 en.1 ne
                              (omega arith)))
                  ]))
