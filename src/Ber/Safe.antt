-- ===== src/Ber/Safe.antt =====
-- Postconditions of runs that may loop or meet bad byte code, but read no byte outside the buffer.
use uefi_utilities.Base.{
  ℕ, ◌<◌, ◌≡◌, refl, some, Bool, true, false, List, length, get_elem?, get_elem?-some,
  if◌then◌else◌,
}
use uefi_utilities.Ber.Run.{
  Run, ok, stop, data_fault, machine_fault, out_of_fuel, ◌>>=◌, read, read-ok,
}
use uefi_utilities.Ber.Ends.{Ends}
use uefi_utilities.Ber.Calls.{Call, Calling, and_then}

abbrev pub Safe : {A : Type 0} → (A → Type 0) → Run A → Type 0
Safe P (ok a) = P a
Safe P (stop m) = Unit
Safe P data_fault = ⊥
Safe P machine_fault = Unit
Safe P out_of_fuel = Unit

module _ {A : Type 0} (P : A → Type 0) where
  pub Ends→Safe : (r : Run A) → Ends P r → Safe P r
  Ends→Safe (ok a) h = h
  Ends→Safe (stop m) h = tt
  Ends→Safe data_fault h = h
  Ends→Safe machine_fault h = tt
  Ends→Safe out_of_fuel h = tt

  pub Safe-if :
      (c : Bool) (x y : Run A)
      → (c ≡ true → Safe P x)
      → (c ≡ false → Safe P y)
      → Safe P (if c then x else y)
  Safe-if true x y f g = f refl
  Safe-if false x y f g = g refl

  pub Safe-if_calling :
      (c : Bool) (x y : Calling A) (h : List Call)
      → (c ≡ true → Safe P (x h).1)
      → (c ≡ false → Safe P (y h).1)
      → Safe P ((if c then x else y) h).1
  Safe-if_calling true x y h f g = f refl
  Safe-if_calling false x y h f g = g refl

  pub Safe-read :
      (d : List ℕ) (dp : ℕ) (k : ℕ → Run A)
      → dp < length d
      → ((b : ℕ) → get_elem? d dp ≡ some b → Safe P (k b))
      → Safe P (read d dp >>= k)
  Safe-read d dp k h next = let (b, e) = get_elem?-some d dp h in rw (read-ok d dp e) (next b e)

module _ {A B : Type 0} (P : A → Type 0) (Q : B → Type 0) where
  pub Safe-bind :
      (r : Run A) (k : A → Run B) → Safe P r → ((a : A) → P a → Safe Q (k a)) → Safe Q (r >>= k)
  Safe-bind (ok a) k h next = next a h
  Safe-bind (stop m) k h next = tt
  Safe-bind data_fault k h next = h
  Safe-bind machine_fault k h next = tt
  Safe-bind out_of_fuel k h next = tt

  -- The same for a part that calls actions.
  pub Safe-and_then :
      (r : List Call × Run A) (k : A → Calling B)
      → Safe P r.1
      → ((a : A) (h : List Call) → P a → Safe Q (k a h).1)
      → Safe Q (and_then r k).1
  Safe-and_then (h, ok a) k s next = next a h s
  Safe-and_then (h, stop m) k s next = tt
  Safe-and_then (h, data_fault) k s next = s
  Safe-and_then (h, machine_fault) k s next = tt
  Safe-and_then (h, out_of_fuel) k s next = tt
