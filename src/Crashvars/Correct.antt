-- ===== src/Crashvars/Correct.antt =====
-- `ClearCrashVars` of clearcrashvars/clearcrashvars.c, as its two loops compose.
use uefi_utilities.Base.{
  length-map, ℕ, suc, ◌<◌, ◌≡◌, ◌≢◌, refl, ap, subst, Option, none, some, List, [], ◌∷◌, arith,
  length,
}
use uefi_utilities.Uefi.{Text, Status, success, not_found}
use uefi_utilities.Links.Pool.{Pool, Heap, NeverOut}
use uefi_utilities.Crashvars.{
  ListMacros, Chain, Services, Result, next_failed, Built, built, failed, out_of_fuel,
  clear_crash_vars, drain_built,
}
use uefi_utilities.Crashvars.Build.{Enumerates, crash_names, Outcome, build-Outcome}
use uefi_utilities.Crashvars.Drain.{visit_all, Drained, drain-visit_all}

module _ (sv : Services) where
  open sv use {World, Guid, null_guid, pool, macros}

  -- What the tool returns, prints and leaves, without its memory.
  abbrev pub map_result : Option (Chain sv × Result sv) → Option (Result sv)
  map_result none = none
  map_result (some (h, r)) = some r

  module _ (address : ℕ → ℕ) (memory : NeverOut pool address) where
    drain_built-Drained :
        (fuel mode : ℕ) (w : World) (b : Built sv) (ts : List Text)
        → Outcome sv address memory not_found b ts
        → length ts < fuel
        → Drained sv (drain_built sv fuel mode w b) (visit_all sv mode ts (not_found, w, []))
    unfolding drain_built
    drain_built-Drained fuel mode w (built h) ts (e, (xs, ring, unused, names)) less =
        subst
          (λ us.
            Drained sv (drain_built sv fuel mode w (built h))
              (visit_all sv mode us (not_found, w, [])))
          names
          (drain-visit_all sv fuel mode h (not_found, w, []) xs ring
            (omega (arith, less, ap length names, length-map (Heap.names h) xs)))
    drain_built-Drained fuel mode w (failed h status out) ts (e, ne, out_eq) less = absurd (ne refl)
    drain_built-Drained fuel mode w out_of_fuel ts o less = absurd o

    drain_built-error :
        (fuel mode : ℕ) (w : World) (b : Built sv) (ts : List Text) (end : Status)
        → Outcome sv address memory end b ts
        → end ≢ not_found
        → map_result (drain_built sv fuel mode w b) ≡ some (end, w, next_failed end ∷ [])
    unfolding drain_built
    drain_built-error fuel mode w (built h) ts end (e, es) ne = absurd (ne e)
    drain_built-error fuel mode w (failed h status out) ts end (e, nf, out_eq) ne = cc (e, out_eq)
    drain_built-error fuel mode w out_of_fuel ts end o ne = absurd o

  length-crash_names : (vs : List (Text × Guid)) → length (crash_names sv vs) < suc (length vs)
  unfolding crash_names
  length-crash_names [] = omega arith
  length-crash_names ((t, g) ∷ vs) = ground (arith, length-crash_names vs)

  -- `ClearCrashVars` in a mode, where the firmware enumerates the variables `vs`, memory never runs
  -- out and the fuel is more than the variables: the list in memory behaves as the plain list of the
  -- names of the crash variables in the order of the firmware. Each is visited once and in that order,
  -- from the status with which the enumeration ended: in the mode 1 its name is printed, in the mode 2
  -- it is set to no data under the identifier of the crash variables, which gives the status that is
  -- returned and is printed where it is an error, and in the mode 3 its name is printed and then it is
  -- set so. The list ends without an entry.
  pub clear_crash_vars-visit_all :
      (address : ℕ → ℕ) (fuel mode : ℕ) (h : Chain sv) (w : World) (vs : List (Text × Guid))
      → NeverOut pool address
      → Enumerates sv w [] null_guid vs not_found
      → length vs < fuel
      → Drained sv
          (clear_crash_vars sv fuel mode h w)
          (visit_all sv mode (crash_names sv vs) (not_found, w, []))
  unfolding clear_crash_vars
  clear_crash_vars-visit_all address fuel mode h w vs memory en less =
      drain_built-Drained address memory fuel mode w _ (crash_names sv vs)
        (build-Outcome sv address memory fuel w [] null_guid
          (record h { links = ListMacros.initialize macros (Pool.head pool) (Heap.links h) }) [] vs
          not_found
          (
            [],
            ListMacros.initialize-Holds macros (Heap.links h) (Pool.head pool),
            (λ i less. tt),
            refl,
          )
          en (λ e. ground arith) less)
        (omega (arith, length-crash_names vs))

  -- Where the enumeration of the variables ends with a status that is neither success nor
  -- EFI_NOT_FOUND, memory never runs out and the fuel is more than the variables, `ClearCrashVars`
  -- returns that status, prints it, and leaves the firmware as it was.
  pub clear_crash_vars-error :
      (address : ℕ → ℕ) (fuel mode : ℕ) (h : Chain sv) (w : World) (vs : List (Text × Guid))
      (end : Status)
      → NeverOut pool address
      → Enumerates sv w [] null_guid vs end
      → end ≢ success
      → end ≢ not_found
      → length vs < fuel
      → map_result (clear_crash_vars sv fuel mode h w) ≡ some (end, w, next_failed end ∷ [])
  unfolding clear_crash_vars
  clear_crash_vars-error address fuel mode h w vs end memory en ne nf less =
      drain_built-error address memory fuel mode w _ (crash_names sv vs) end
        (build-Outcome sv address memory fuel w [] null_guid
          (record h { links = ListMacros.initialize macros (Pool.head pool) (Heap.links h) }) [] vs
          end
          (
            [],
            ListMacros.initialize-Holds macros (Heap.links h) (Pool.head pool),
            (λ i less. tt),
            refl,
          )
          en ne less)
        nf
