-- ===== src/Links/Remove.antt =====
-- `RemoveEntryList` of showhotkeys/efilink.c.
use uefi_utilities.Base.{ℕ, ◌≡◌, ◌≢◌, ◌↔◌, refl, sym, ap, subst, ◌∙◌, List, [], ◌∷◌, ◌++◌, arith}
use uefi_utilities.Links.{Store, put_at, set_flink, set_blink, remove_entry_list}
use uefi_utilities.Links.Ring.{
  Seg, Off, Apart, Ring, Seg-set_flink, Seg-set_blink, Seg-join, Off-append,
}

-- No entry of the first list is on the second.
abbrev pub Clear : List ℕ → List ℕ → Type 0
Clear [] zs = Unit
Clear (x ∷ xs) zs = Off x zs × Clear xs zs

pub Apart-join : (xs zs : List ℕ) → Apart (xs ++ zs) ↔ (Apart xs × Apart zs × Clear xs zs)
Apart-join [] zs = ground arith
Apart-join (x ∷ xs) zs = ground (arith, Apart-join xs zs, Off-append x xs zs)

pub Clear-cons : (xs : List ℕ) (z : ℕ) (zs : List ℕ) → Clear xs (z ∷ zs) → Off z xs × Clear xs zs
Clear-cons [] z zs h = (tt, tt)
Clear-cons (x ∷ xs) z zs h = ground (arith, Clear-cons xs z zs h.1)

pub Clear-one : (xs : List ℕ) (z : ℕ) → Off z xs → Clear xs (z ∷ [])
Clear-one [] z off = tt
Clear-one (x ∷ xs) z off = ((λ e. off.0 (sym e), tt), Clear-one xs z off.1)

-- The entry before the end, `a` or the last of `xs`, is none of `zs` if they are not.
pub blink-Off :
    (s : Store) (a : ℕ) (xs : List ℕ) (e : ℕ) (zs : List ℕ)
    → Seg s a xs e
    → Off a zs
    → Clear xs zs
    → Off (Store.blink s e) zs
blink-Off s a [] e zs h off clear = subst (λ p. Off p zs) (sym h.1) off
blink-Off s a (x ∷ xs) e zs h off clear = blink-Off s x xs e zs h.2 clear.0 clear.1

append_nil : (xs : List ℕ) → xs ++ [] ≡ xs
append_nil [] = refl
append_nil (x ∷ xs) = ap (λ zs. x ∷ zs) (append_nil xs)

pub put_at_other : (f : ℕ → ℕ) (p v x : ℕ) → p ≢ x → put_at f p v x ≡ f x
unfolding put_at
put_at_other f p v x ne = ground arith

-- Two neighbours.
abbrev join : ℕ → ℕ → Store → Store
join p n s = set_flink p n (set_blink n p s)

-- A segment that ended at `e` ends at `n`.
Seg-join_end :
    (s : Store) (a : ℕ) (xs : List ℕ) (e n : ℕ)
    → Seg s a xs e
    → Apart (a ∷ xs)
    → Off n xs
    → Seg (join (Store.blink s e) n s) a xs n
unfolding put_at
Seg-join_end s a [] e n h apart off = ground arith
Seg-join_end s a (x ∷ xs) e n h apart off = ground (
  arith,
  blink-Off s x xs e (a ∷ []) h.2 ((λ p. apart.0.0 (sym p)), tt) (Clear-one xs a apart.0.1),
  Seg-join_end s x xs e n h.2 apart.1 off.1,
)

-- Whatever store the removal leaves, the neighbours of the entry are joined in it.
remove_entry_list-join :
    (s : Store) (e : ℕ)
    → e ≢ Store.flink s e
    → (remove_entry_list e s).1 ≡ join (Store.blink s e) (Store.flink s e) s
unfolding remove_entry_list put_at
remove_entry_list-join s e ne =
    ap (λ p. set_flink p (Store.flink s e) (set_blink (Store.flink s e) (Store.blink s e) s))
      (put_at_other (Store.blink s) (Store.flink s e) (Store.blink s e) e λ q. ne (sym q))

remove_last-Ring :
    (s : Store) (head entry : ℕ) (xs : List ℕ)
    → Ring s head (xs ++ entry ∷ [])
    → Ring (remove_entry_list entry s).1 head xs
remove_last-Ring s head entry xs ring =
    let parts = (Seg-join s head xs entry [] head).0 ring.0 in
    let head_off = (Off-append head xs (entry ∷ [])).0 ring.1 in
    let apart = (Apart-join xs (entry ∷ [])).0 ring.2 in
    let ne = λ (e : entry ≡ Store.flink s entry). head_off.1.0 (sym (e ∙ parts.1.0)) in
    let store =
      remove_entry_list-join s entry ne ∙ ap (λ n. join (Store.blink s entry) n s) parts.1.0 in
    subst (λ t. Ring t head xs) (sym store)
      (
        Seg-join_end s head xs entry head parts.0 (head_off.0, apart.0) head_off.0,
        head_off.0,
        apart.0,
      )

remove_inner-Ring :
    (s : Store) (head entry : ℕ) (xs : List ℕ) (y : ℕ) (ys : List ℕ)
    → Ring s head (xs ++ entry ∷ y ∷ ys)
    → Ring (remove_entry_list entry s).1 head (xs ++ y ∷ ys)
remove_inner-Ring s head entry xs y ys ring =
    let parts = (Seg-join s head xs entry (y ∷ ys) head).0 ring.0 in
    let head_off = (Off-append head xs (entry ∷ y ∷ ys)).0 ring.1 in
    let apart = (Apart-join xs (entry ∷ y ∷ ys)).0 ring.2 in
    let clear = (Clear-cons xs entry (y ∷ ys) apart.2).1 in
    let y_clear = Clear-cons xs y ys clear in
    let ne = λ (e : entry ≡ Store.flink s entry). apart.1.0.0 (e ∙ parts.1.0) in
    let p_off = blink-Off s head xs entry (y ∷ ys) parts.0 head_off.1.1 clear in
    let front = Seg-join_end s head xs entry y parts.0 (head_off.0, apart.0) y_clear.0 in
    let back = Seg-set_flink _ (Store.blink s entry) y y ys head p_off.0 p_off.1 (
      Seg-set_blink s y (Store.blink s entry) y ys head (λ e. head_off.1.1.0 (sym e)) apart.1.1.0
        parts.1.2) in
    let store =
      remove_entry_list-join s entry ne ∙ ap (λ n. join (Store.blink s entry) n s) parts.1.0 in
    subst (λ t. Ring t head (xs ++ y ∷ ys)) (sym store)
      (
        (Seg-join _ head xs y ys head).1 (front, back),
        (Off-append head xs (y ∷ ys)).1 (head_off.0, head_off.1.1),
        (Apart-join xs (y ∷ ys)).1 (apart.0, apart.1.1, clear),
      )

-- `RemoveEntryList` takes an entry out of a list, wherever it stands, and leaves the others.
pub remove_entry_list-Ring :
    (s : Store) (head entry : ℕ) (xs ys : List ℕ)
    → Ring s head (xs ++ entry ∷ ys)
    → Ring (remove_entry_list entry s).1 head (xs ++ ys)
remove_entry_list-Ring s head entry xs [] ring =
    subst (λ zs. Ring (remove_entry_list entry s).1 head zs) (sym (append_nil xs))
      (remove_last-Ring s head entry xs ring)
remove_entry_list-Ring s head entry xs (y ∷ ys) ring = remove_inner-Ring s head entry xs y ys ring
