-- ===== src/Hotkeys/Order.antt =====
-- The order in which showhotkeys/showhotkeys.c keeps its list, on plain lists of names.
use mathlib.Core.List.Perm
use mathlib.Core.List.{Perm, perm_middle}
use uefi_utilities.Base.{
  lt→ltb, le→ltb, ℕ, suc, ◌+◌, length, ◌≤◌, ◌<◌, ◌≡◌, refl, Bool, true, false, List, [], ◌∷◌, ◌++◌,
  arith, ltb, if◌then◌else◌,
}
use uefi_utilities.Uefi.{Text}
use uefi_utilities.Hotkeys.{option_number}

-- Behind the names of smaller numbers.
unfoldable pub insert_name : Text → List Text → List Text
insert_name t [] = t ∷ []
insert_name t (u ∷ us) =
    let rest = insert_name t us in
    if ltb (option_number u) (option_number t) then u ∷ rest else t ∷ u ∷ us

pub insert_name-nil : (t : Text) → insert_name t [] ≡ t ∷ []
unfolding insert_name
insert_name-nil t = refl

pub insert_name-behind :
    (t u : Text) (us : List Text)
    → option_number u < option_number t
    → insert_name t (u ∷ us) ≡ u ∷ insert_name t us
unfolding insert_name
insert_name-behind t u us less =
    let e : ltb (option_number u) (option_number t) ≡ true = lt→ltb _ _ less in rw e refl

pub insert_name-before :
    (t u : Text) (us : List Text)
    → option_number t ≤ option_number u
    → insert_name t (u ∷ us) ≡ t ∷ u ∷ us
unfolding insert_name
insert_name-before t u us le =
    let e : ltb (option_number u) (option_number t) ≡ false = le→ltb _ _ le in rw e refl

-- A name that is found, with the sort and without.
unfoldable pub add_name : Bool → Text → List Text → List Text
add_name true t us = t ∷ us
add_name false t us = insert_name t us

-- The names in the order in which they are found, put on a list.
unfoldable pub arrange : Bool → List Text → List Text → List Text
arrange no_sort [] us = us
arrange no_sort (t ∷ ts) us = arrange no_sort ts (add_name no_sort t us)

-- A number that is at most those of all the names.
abbrev pub Below : ℕ → List Text → Type 0
Below n [] = Unit
Below n (t ∷ ts) = (n ≤ option_number t) × Below n ts

abbrev pub Ascending : List Text → Type 0
Ascending [] = Unit
Ascending (t ∷ ts) = Below (option_number t) ts × Ascending ts

pub Below-le : (m n : ℕ) (ts : List Text) → m ≤ n → Below n ts → Below m ts
Below-le m n [] le b = tt
Below-le m n (t ∷ ts) le b = (omega (arith, le, b.0), Below-le m n ts le b.1)

insert_name-Below :
    (n : ℕ) (t : Text) (us : List Text)
    → n ≤ option_number t
    → Below n us
    → Below n (insert_name t us)
unfolding insert_name
insert_name-Below n t [] le b = (le, tt)
insert_name-Below n t (u ∷ us) le b = ground (arith, insert_name-Below n t us le b.1)

pub insert_name-Ascending :
    (t : Text) (us : List Text) → Ascending us → Ascending (insert_name t us)
unfolding insert_name
insert_name-Ascending t [] up = (tt, tt)
insert_name-Ascending t (u ∷ us) up =
    let number = option_number t in
    ground (
      arith,
      insert_name-Ascending t us up.1,
      insert_name-Below (option_number u) t us,
      Below-le number (option_number u) us,
    )

insert_name-Perm : (t : Text) (us : List Text) → Perm (insert_name t us) (t ∷ us)
unfolding insert_name
insert_name-Perm t [] = Perm.rfl
insert_name-Perm t (u ∷ us) =
    elim (ltb (option_number u) (option_number t))
      as (λ b. Perm (if b then u ∷ insert_name t us else t ∷ u ∷ us) (t ∷ u ∷ us)) [
        | true ↦ Perm.trans (Perm.cons u (insert_name-Perm t us)) (Perm.swap t u us)
        | false ↦ Perm.rfl
      ]

add_name-Perm : (no_sort : Bool) (t : Text) (us : List Text) → Perm (add_name no_sort t us) (t ∷ us)
unfolding add_name
add_name-Perm true t us = Perm.rfl
add_name-Perm false t us = insert_name-Perm t us

-- With the sort the list ascends.
abbrev pub Ordered : Bool → List Text → Type 0
Ordered true ts = Unit
Ordered false ts = Ascending ts

pub add_name-Ordered :
    (no_sort : Bool) (t : Text) (us : List Text)
    → Ordered no_sort us
    → Ordered no_sort (add_name no_sort t us)
unfolding add_name
add_name-Ordered true t us o = tt
add_name-Ordered false t us o = insert_name-Ascending t us o

pub arrange-Ordered :
    (no_sort : Bool) (ts us : List Text)
    → Ordered no_sort us
    → Ordered no_sort (arrange no_sort ts us)
unfolding arrange
arrange-Ordered no_sort [] us o = o
arrange-Ordered no_sort (t ∷ ts) us o =
    arrange-Ordered no_sort ts (add_name no_sort t us) (add_name-Ordered no_sort t us o)

pub arrange-Perm : (no_sort : Bool) (ts us : List Text) → Perm (arrange no_sort ts us) (ts ++ us)
unfolding arrange
arrange-Perm no_sort [] us = Perm.rfl
arrange-Perm no_sort (t ∷ ts) us =
    Perm.trans (arrange-Perm no_sort ts (add_name no_sort t us))
      (Perm.trans (Perm.append_left ts (add_name-Perm no_sort t us)) (perm_middle ts us))

length-insert_name : (t : Text) (us : List Text) → length (insert_name t us) ≡ suc (length us)
unfolding insert_name
length-insert_name t [] = refl
length-insert_name t (u ∷ us) = ground (arith, length-insert_name t us)

length-add_name :
    (no_sort : Bool) (t : Text) (us : List Text) → length (add_name no_sort t us) ≡ suc (length us)
unfolding add_name
length-add_name true t us = refl
length-add_name false t us = length-insert_name t us

pub length-arrange :
    (no_sort : Bool) (ts us : List Text) → length (arrange no_sort ts us) ≡ length ts + length us
unfolding arrange
length-arrange no_sort [] us = omega arith
length-arrange no_sort (t ∷ ts) us =
    omega (arith, length-arrange no_sort ts (add_name no_sort t us), length-add_name no_sort t us)
