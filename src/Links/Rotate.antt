-- ===== src/Links/Rotate.antt =====
-- A ring of showhotkeys/efilink.c seen from any of its entries: insertions beside an inner entry.
use mathlib.Core.List.{append_assoc}
use uefi_utilities.Base.{ℕ, ◌≢◌, subst, List, [], ◌∷◌, ◌++◌, arith}
use uefi_utilities.Links.{Store, insert_head_list, insert_tail_list}
use uefi_utilities.Links.Ring.{Off, Ring, Seg-join, Off-append}
use uefi_utilities.Links.Insert.{insert_head_list-Ring, insert_tail_list-Ring}
use uefi_utilities.Links.Remove.{Clear, Apart-join, Clear-cons}

pub ne_sym : {a b : ℕ} → a ≢ b → b ≢ a
ne_sym ne e = ne (omega arith)

Clear-nil : (xs : List ℕ) → Clear xs []
Clear-nil [] = tt
Clear-nil (x ∷ xs) = (tt, Clear-nil xs)

pub Clear-put : (xs : List ℕ) (z : ℕ) (zs : List ℕ) → Off z xs → Clear xs zs → Clear xs (z ∷ zs)
Clear-put [] z zs off clear = tt
Clear-put (x ∷ xs) z zs off clear = ((ne_sym off.0, clear.0), Clear-put xs z zs off.1 clear.1)

Clear-sym : (xs zs : List ℕ) → Clear xs zs → Clear zs xs
Clear-sym [] zs h = Clear-nil zs
Clear-sym (x ∷ xs) zs h = Clear-put zs x xs h.0 (Clear-sym xs zs h.1)

-- Any entry may be taken for the head.
pub Ring-rotate :
    (s : Store) (head entry : ℕ) (xs ys : List ℕ)
    → Ring s head (xs ++ entry ∷ ys)
    → Ring s entry (ys ++ head ∷ xs)
Ring-rotate s head entry xs ys ring =
    let parts = (Seg-join s head xs entry ys head).0 ring.0 in
    let head_off = (Off-append head xs (entry ∷ ys)).0 ring.1 in
    let apart = (Apart-join xs (entry ∷ ys)).0 ring.2 in
    let clear = Clear-cons xs entry ys apart.2 in
    (
      (Seg-join s entry ys head xs entry).1 (parts.1, parts.0),
      (Off-append entry ys (head ∷ xs)).1 (apart.1.0, (ne_sym head_off.1.0, clear.0)),
      (Apart-join ys (head ∷ xs)).1 (
        apart.1.1,
        (head_off.0, apart.0),
        Clear-put ys head xs head_off.1.1 (Clear-sym xs ys clear.1),
      ),
    )

-- An entry that is none of a list's.
pub insert_head_list-inner :
    (s : Store) (head at entry : ℕ) (xs ys : List ℕ)
    → Ring s head (xs ++ at ∷ ys)
    → entry ≢ head
    → Off entry (xs ++ at ∷ ys)
    → Ring (insert_head_list at entry s).1 head (xs ++ at ∷ entry ∷ ys)
insert_head_list-inner s head at entry xs ys ring ne off =
    let parts = (Off-append entry xs (at ∷ ys)).0 off in
    Ring-rotate _ at head (entry ∷ ys) xs (
      insert_head_list-Ring s at entry (ys ++ head ∷ xs) (Ring-rotate s head at xs ys ring)
        parts.1.0 ((Off-append entry ys (head ∷ xs)).1 (parts.1.1, (ne, parts.0))))

pub insert_tail_list-inner :
    (s : Store) (head at entry : ℕ) (xs ys : List ℕ)
    → Ring s head (xs ++ at ∷ ys)
    → entry ≢ head
    → Off entry (xs ++ at ∷ ys)
    → Ring (insert_tail_list at entry s).1 head (xs ++ entry ∷ at ∷ ys)
insert_tail_list-inner s head at entry xs ys ring ne off =
    let parts = (Off-append entry xs (at ∷ ys)).0 off in
    let put =
      insert_tail_list-Ring s at entry (ys ++ head ∷ xs) (Ring-rotate s head at xs ys ring)
        parts.1.0 ((Off-append entry ys (head ∷ xs)).1 (parts.1.1, (ne, parts.0))) in
    subst (λ zs. Ring (insert_tail_list at entry s).1 head zs)
      (append_assoc xs (entry ∷ []) (at ∷ ys))
      (Ring-rotate _ at head ys (xs ++ entry ∷ []) (
        subst (λ zs. Ring (insert_tail_list at entry s).1 at zs)
          (append_assoc ys (head ∷ xs) (entry ∷ [])) put))
