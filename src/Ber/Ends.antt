-- ===== src/Ber/Ends.antt =====
-- Postconditions of runs: no fault, enough fuel, and a property of the result.
use uefi_utilities.Base.{
  ℕ, ◌<◌, ◌≡◌, refl, some, Bool, true, false, List, length, get_elem?, get_elem?-some,
  if◌then◌else◌,
}
use uefi_utilities.Ber.Run.{
  Run, ok, stop, data_fault, machine_fault, out_of_fuel, ◌>>=◌, read, read-ok,
}

-- The run ends, with an error or with a result that has the property.
abbrev pub Ends : {A : Type 0} → (A → Type 0) → Run A → Type 0
Ends P (ok a) = P a
Ends P (stop m) = Unit
Ends P data_fault = ⊥
Ends P machine_fault = ⊥
Ends P out_of_fuel = ⊥

pub Ends-bind :
    {A B : Type 0} (P : A → Type 0) (Q : B → Type 0) (r : Run A) (k : A → Run B)
    → Ends P r
    → ((a : A) → P a → Ends Q (k a))
    → Ends Q (r >>= k)
Ends-bind P Q (ok a) k h next = next a h
Ends-bind P Q (stop m) k h next = tt
Ends-bind P Q data_fault k h next = h
Ends-bind P Q machine_fault k h next = h
Ends-bind P Q out_of_fuel k h next = h

pub Ends-mono :
    {A : Type 0} (P Q : A → Type 0) (r : Run A) → Ends P r → ((a : A) → P a → Q a) → Ends Q r
Ends-mono P Q (ok a) h weaken = weaken a h
Ends-mono P Q (stop m) h weaken = tt
Ends-mono P Q data_fault h weaken = h
Ends-mono P Q machine_fault h weaken = h
Ends-mono P Q out_of_fuel h weaken = h

pub Ends-if :
    {A : Type 0} (P : A → Type 0) (c : Bool) (x y : Run A)
    → (c ≡ true → Ends P x)
    → (c ≡ false → Ends P y)
    → Ends P (if c then x else y)
Ends-if P true x y f g = f refl
Ends-if P false x y f g = g refl

pub Ends-read :
    {B : Type 0} (Q : B → Type 0) (d : List ℕ) (dp : ℕ) (k : ℕ → Run B)
    → dp < length d
    → ((b : ℕ) → get_elem? d dp ≡ some b → Ends Q (k b))
    → Ends Q (read d dp >>= k)
Ends-read Q d dp k h next = let (b, e) = get_elem?-some d dp h in rw (read-ok d dp e) (next b e)
