-- ===== src/Crashvars/Drain.antt =====
-- The second loop of `ClearCrashVars` on the entries of the list.
use uefi_utilities.Base.{
  ℕ, zero, suc, ◌<◌, ◌≡◌, refl, sym, subst, ap, ◌∙◌, false, ◌==◌, Option, none, some, List, [], ◌∷◌,
  ◌++◌, map, arith, length, if◌then◌else◌,
}
use uefi_utilities.Uefi.{
  Text, Status, success, not_found, buffer_too_small, out_of_resources, invalid_parameter, other,
}
use mathlib.Core.List.{append-nil}
use uefi_utilities.Links.Pool.{Pool, Heap}
use uefi_utilities.Crashvars.{
  ListMacros, Chain, Services, Result, Output, name, set_failed, visit, show, delete, drain,
}

module _ (sv : Services) where
  open sv use {World, pool, macros, set_variable, crash_guid}

  -- What is printed of a SetVariable.
  abbrev pub complaint : Status → List Output
  complaint success = []
  complaint not_found = set_failed not_found ∷ []
  complaint buffer_too_small = set_failed buffer_too_small ∷ []
  complaint out_of_resources = set_failed out_of_resources ∷ []
  complaint invalid_parameter = set_failed invalid_parameter ∷ []
  complaint (other n) = set_failed (other n) ∷ []

  -- The variable is set to no data, and its status is that of the tool so far.
  abbrev pub removed : Text → World → List Output → Result sv
  removed t w out =
      let (status, w') = set_variable t crash_guid [] w in (status, w', out ++ complaint status)

  -- A variable in the modes 1, 2 and 3: it is shown, deleted, or both; another mode does neither.
  abbrev pub one_by_mode : ℕ → Text → Result sv → Result sv
  one_by_mode (suc zero) t (status, w, out) = (status, w, out ++ name t ∷ [])
  one_by_mode (suc (suc zero)) t (status, w, out) = removed t w out
  one_by_mode (suc (suc (suc zero))) t (status, w, out) = removed t w (out ++ name t ∷ [])
  one_by_mode _ t r = r

  -- The names in their order, without the list.
  unfoldable pub visit_all : ℕ → List Text → Result sv → Result sv
  visit_all mode [] r = r
  visit_all mode (t ∷ ts) r = visit_all mode ts (one_by_mode mode t r)

  tried :
      (status : Status) (w : World) (out : List Output) (front : List Output)
      → ◌≡◌ {A = Result sv}
          (let (st, w', more) : Result sv = elim status as (λ _. Result sv) [
            | success ↦ (success, w, [])
            | e ↦ (e, w, set_failed e ∷ [])
          ] in
            (st, w', out ++ front ++ more))
          (status, w, out ++ front ++ complaint status)
  tried success w out front = refl
  tried not_found w out front = refl
  tried buffer_too_small w out front = refl
  tried out_of_resources w out front = refl
  tried invalid_parameter w out front = refl
  tried (other n) w out front = refl

  nothing_in :
      (n : ℕ)
      → ((suc (suc (suc (suc n))) == 1) ≡ false)
        × ((suc (suc (suc (suc n))) == 2) ≡ false)
        × ((suc (suc (suc (suc n))) == 3) ≡ false)
  nothing_in n = (ground arith, ground arith, ground arith)

  visit-one_by_mode :
      (mode : ℕ) (t : Text) (r : Result sv) → visit sv mode t r ≡ one_by_mode mode t r
  unfolding visit show delete
  visit-one_by_mode zero t (status, w, out) =
      ap (λ o. (status, w, o)) (append-nil (out ++ []) ∙ append-nil out)
  visit-one_by_mode (suc zero) t (status, w, out) =
      ap (λ o. (status, w, o)) (append-nil (out ++ name t ∷ []))
  visit-one_by_mode (suc (suc zero)) t (status, w, out) =
      tried (set_variable t crash_guid [] w).0 (set_variable t crash_guid [] w).1 out []
      ∙ ap
          (λ o. (
            (set_variable t crash_guid [] w).0,
            (set_variable t crash_guid [] w).1,
            o ++ complaint (set_variable t crash_guid [] w).0,
          ))
          (append-nil out)
  visit-one_by_mode (suc (suc (suc zero))) t (status, w, out) =
      let (status', w') = set_variable t crash_guid [] w in tried status' w' out (name t ∷ [])
  visit-one_by_mode (suc (suc (suc (suc n)))) t (status, w, out) =
      let (one, two, three) = nothing_in n in
      rw (one, two, three) (ap (λ o. (status, w, o)) (append-nil (out ++ []) ∙ append-nil out))

  -- The loop ends with this result, and with no entry on the list.
  abbrev pub Drained : Option (Chain sv × Result sv) → Result sv → Type 0
  Drained none r = ⊥
  Drained (some (h, r')) r = (r' ≡ r) × ListMacros.Holds macros (Heap.links h) (Pool.head pool) []

  pub drain-visit_all :
      (fuel mode : ℕ) (h : Chain sv) (r : Result sv) (xs : List ℕ)
      → ListMacros.Holds macros (Heap.links h) (Pool.head pool) xs
      → length xs < fuel
      → Drained (drain sv fuel mode h r) (visit_all mode (map (Heap.names h) xs) r)
  unfolding drain visit_all
  drain-visit_all zero mode h r xs holds less = absurd (omega arith)
  drain-visit_all (suc fuel) mode h r [] holds less =
      let entry = ListMacros.flink macros (Heap.links h) (Pool.head pool) in
      let after : Chain sv = record h { links = ListMacros.remove macros entry (Heap.links h) } in
      let rest = drain sv fuel mode after (visit sv mode (Heap.names h entry) r) in
      subst (λ b. Drained (if b then some (h, r) else rest) r)
        (sym (ListMacros.is_empty-nil macros (Heap.links h) (Pool.head pool) holds)) (refl, holds)
  drain-visit_all (suc fuel) mode h r (x ∷ xs) holds less =
      let head = Pool.head pool in
      let links = Heap.links h in
      let from : ℕ → Option (Chain sv × Result sv) = λ e.
        drain sv fuel mode (record h { links = ListMacros.remove macros e links })
          (visit sv mode (Heap.names h e) r) in
      subst
        (λ b.
          Drained (if b then some (h, r) else from (ListMacros.flink macros links head))
            (visit_all mode (map (Heap.names h) (x ∷ xs)) r))
        (sym (ListMacros.is_empty-cons macros links head x xs holds))
        (subst (λ e. Drained (from e) (visit_all mode (map (Heap.names h) (x ∷ xs)) r))
          (sym (ListMacros.flink-first macros links head x xs holds))
          (subst
            (λ r'.
              Drained
                (drain sv fuel mode (record h { links = ListMacros.remove macros x links }) r')
                (visit_all mode (map (Heap.names h) (x ∷ xs)) r))
            (sym (visit-one_by_mode mode (Heap.names h x) r))
            (drain-visit_all fuel mode (record h { links = ListMacros.remove macros x links })
              (one_by_mode mode (Heap.names h x) r) xs
              (ListMacros.remove-first macros links head x xs holds) (omega arith))))
