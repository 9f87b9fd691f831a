-- ===== src/Crashvars/Args.antt =====
-- The options of clearcrashvars/clearcrashvars.c.
use uefi_utilities.Base.{
  ℕ, ◌<◌, ◌≡◌, ◌≢◌, ◌⊎◌, inl, inr, refl, ap, subst, ◌∙◌, false, Option, none, some, List, [], ◌∷◌,
  arith, length, drop,
}
use uefi_utilities.Uefi.{
  Text, Status, success, not_found, buffer_too_small, out_of_resources, invalid_parameter, other,
}
use uefi_utilities.Links.Pool.{NeverOut}
use uefi_utilities.Crashvars.{
  Chain, Services, Result, next_failed, delete_texts, is_any_of, on_one, on_two, clear_main,
  clear_crash_vars,
}
use uefi_utilities.Crashvars.Drain.{visit_all, Drained}
use uefi_utilities.Crashvars.Build.{Enumerates, crash_names}
use uefi_utilities.Crashvars.Correct.{
  map_result, clear_crash_vars-visit_all, clear_crash_vars-error,
}

is_not_found : (st : Status) → (st ≡ not_found) ⊎ (st ≢ not_found)
is_not_found success = inr (λ e. ground arith)
is_not_found not_found = inl refl
is_not_found buffer_too_small = inr (λ e. ground arith)
is_not_found out_of_resources = inr (λ e. ground arith)
is_not_found invalid_parameter = inr (λ e. ground arith)
is_not_found (other n) = inr (λ e. ground arith)

module _ (sv : Services) where
  open sv use {World, Guid, null_guid, pool}

  -- The tool returns, and the firmware is as it was.
  abbrev pub Unchanged : World → Option (Chain sv × Result sv) → Type 0
  Unchanged w none = ⊥
  Unchanged w (some (h, r)) = r.1 ≡ w

  visit_all-one : (names : List Text) (r : Result sv) → (visit_all sv 1 names r).1 ≡ r.1
  unfolding visit_all
  visit_all-one [] r = refl
  visit_all-one (t ∷ names) r = visit_all-one names _

  Drained-Unchanged :
      (w : World) (o : Option (Chain sv × Result sv)) (r : Result sv)
      → Drained sv o r
      → r.1 ≡ w
      → Unchanged w o
  Drained-Unchanged w none r d e = d
  Drained-Unchanged w (some (h, r')) r d e = ap (λ q. q.1) d.0 ∙ e

  map_result-Unchanged :
      (w : World) (o : Option (Chain sv × Result sv)) (r : Result sv)
      → map_result sv o ≡ some r
      → r.1 ≡ w
      → Unchanged w o
  map_result-Unchanged w none r d e = absurd (ground arith)
  map_result-Unchanged w (some (h, r')) r d e = cc (d, e)

  -- None of the arguments is `--delete` or `-d`.
  abbrev pub NoDelete : List Text → Type 0
  NoDelete [] = Unit
  NoDelete (arg ∷ args) = (is_any_of sv arg (delete_texts sv) ≡ false) × NoDelete args

  module _ (address : ℕ → ℕ) (fuel : ℕ) (h : Chain sv) (w : World) (vs : List (Text × Guid))
      (end : Status) where
    verbose-Unchanged :
        NeverOut pool address
        → Enumerates sv w [] null_guid vs end
        → end ≢ success
        → length vs < fuel
        → Unchanged w (clear_crash_vars sv fuel 1 h w)
    verbose-Unchanged memory en ne less = elim (is_not_found end) [
      | inl e ↦
          Drained-Unchanged w (clear_crash_vars sv fuel 1 h w)
            (visit_all sv 1 (crash_names sv vs) (not_found, w, []))
            (clear_crash_vars-visit_all sv address fuel 1 h w vs memory
              (subst (λ st. Enumerates sv w [] null_guid vs st) e en) less)
            (visit_all-one (crash_names sv vs) (not_found, w, []))
      | inr nf ↦
          map_result-Unchanged w (clear_crash_vars sv fuel 1 h w) (end, w, next_failed end ∷ [])
            (clear_crash_vars-error sv address fuel 1 h w vs end memory en ne nf less) refl
    ]

    -- Without a delete option among the arguments, where the enumeration of the variables ends with a
    -- status other than success, memory never runs out and the fuel is more than the variables, the
    -- tool returns and leaves the firmware as it was.
    pub clear_main-Unchanged :
        (argv : List Text)
        → NeverOut pool address
        → Enumerates sv w [] null_guid vs end
        → end ≢ success
        → length vs < fuel
        → NoDelete (drop 1 argv)
        → Unchanged w (clear_main sv fuel h argv w)
    unfolding clear_main on_one on_two
    clear_main-Unchanged [] memory en ne less none_of = refl
    clear_main-Unchanged (tool ∷ []) memory en ne less none_of = refl
    clear_main-Unchanged (tool ∷ arg ∷ []) memory en ne less none_of =
        ground (arith, verbose-Unchanged memory en ne less)
    clear_main-Unchanged (tool ∷ arg1 ∷ arg2 ∷ []) memory en ne less none_of = ground arith
    clear_main-Unchanged (tool ∷ arg1 ∷ arg2 ∷ arg3 ∷ argv) memory en ne less none_of = refl
