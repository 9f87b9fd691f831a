-- ===== src/Links/Swap.antt =====
-- `SwapListEntries` of showhotkeys/efilink.c.
use mathlib.Core.List.{append_assoc}
use uefi_utilities.Base.{
  ℕ, ◌≡◌, ◌≢◌, refl, sym, ap, subst, ◌∙◌, true, false, List, [], ◌∷◌, ◌++◌, arith, ◌==◌,
}
use uefi_utilities.Links.{
  Store, insert_head_list, insert_tail_list, remove_entry_list, swap_apart, swap_removed,
  swap_list_entries,
}
use uefi_utilities.Links.Ring.{Off, Ring, Seg-join, Off-append}
use uefi_utilities.Links.Remove.{
  Apart-join, Clear-cons, Clear-one, blink-Off, put_at_other, remove_entry_list-Ring,
}
use uefi_utilities.Links.Rotate.{insert_head_list-inner, insert_tail_list-inner, ne_sym}

-- What a ring says of one of its entries: it stands once, and its neighbours are others.
pub Ring-once :
    (s : Store) (head e : ℕ) (xs ys : List ℕ)
    → Ring s head (xs ++ e ∷ ys)
    → (e ≢ head) × Off e (xs ++ ys)
Ring-once s head e xs ys ring =
    let head_off = (Off-append head xs (e ∷ ys)).0 ring.1 in
    let apart = (Apart-join xs (e ∷ ys)).0 ring.2 in
    let clear = Clear-cons xs e ys apart.2 in
    (ne_sym head_off.1.0, (Off-append e xs ys).1 (clear.0, apart.1.0))

-- The entry before the first of two is not the second.
pub blink-apart :
    (s : Store) (head e f : ℕ) (xs ys : List ℕ)
    → Ring s head (xs ++ e ∷ ys)
    → f ≢ head
    → Off f xs
    → Store.blink s e ≢ f
blink-apart s head e f xs ys ring ne off =
    let parts = (Seg-join s head xs e ys head).0 ring.0 in
    (blink-Off s head xs e (f ∷ []) parts.0 (ne_sym ne, tt) (Clear-one xs f off)).0

-- `RemoveEntryList` returns the entry behind, where both neighbours are others.
pub remove_entry_list-next :
    (s : Store) (e : ℕ)
    → Store.flink s e ≢ e
    → Store.blink s e ≢ e
    → (remove_entry_list e s).0 ≡ Store.flink s e
unfolding remove_entry_list
remove_entry_list-next s e ne_next ne_back =
    rw (put_at_other (Store.blink s) (Store.flink s e) (Store.blink s e) e ne_next)
      (put_at_other (Store.flink s) (Store.blink s e) (Store.flink s e) e ne_back)

-- The branch that inserts `first` behind `second`.
swap_removed-behind :
    (ptr first second : ℕ) (s : Store)
    → Store.blink s ptr ≢ second
    → swap_removed first second (ptr, s)
      ≡ swap_apart ptr first second (insert_head_list second first s)
unfolding swap_removed
swap_removed-behind ptr first second s ne =
    let other : (Store.blink s ptr == second) ≡ false = ground arith in rw other refl

swap_list_entries-behind :
    (s : Store) (first second next : ℕ)
    → first ≢ second
    → Store.flink s first ≡ next
    → next ≢ first
    → Store.blink s first ≢ first
    → Store.blink (remove_entry_list first s).1 next ≢ second
    → swap_list_entries first second s
      ≡ swap_apart next first second (insert_head_list second first (remove_entry_list first s).1)
unfolding swap_list_entries
swap_list_entries-behind s first second next ne e ne_next ne_back apart =
    let other : (first == second) ≡ false = ground arith in
    rw (other, remove_entry_list-next s first (λ p. ne_next (sym e ∙ p)) ne_back, e)
      (swap_removed-behind next first second (remove_entry_list first s).1 apart)

swap_apart-done :
    (ptr first second : ℕ) (r : ℕ × Store) → r.0 ≡ ptr → swap_apart ptr first second r ≡ (ptr, r.1)
unfolding swap_apart
swap_apart-done ptr first second r e = let same : (ptr == r.0) ≡ true = ground arith in rw same refl

swap_apart-moved :
    (ptr first second : ℕ) (r : ℕ × Store)
    → ptr ≢ r.0
    → (swap_apart ptr first second r).1
      ≡ (insert_tail_list ptr second (remove_entry_list second r.1).1).1
unfolding swap_apart
swap_apart-moved ptr first second r ne =
    let other : (ptr == r.0) ≡ false = ground arith in rw other refl

insert_head_list-head : (head entry : ℕ) (s : Store) → (insert_head_list head entry s).0 ≡ head
unfolding insert_head_list
insert_head_list-head head entry s = refl

-- On two neighbours the entry that now stands first is returned.
pub swap_adjacent-done :
    (s : Store) (head a b : ℕ) (xs ys : List ℕ)
    → Ring s head (xs ++ a ∷ b ∷ ys)
    → swap_list_entries a b s ≡ (b, (insert_head_list b a (remove_entry_list a s).1).1)
swap_adjacent-done s head a b xs ys ring =
    let s1 = (remove_entry_list a s).1 in
    let ring1 = remove_entry_list-Ring s head a xs (b ∷ ys) ring in
    let (a_head, a_off) = Ring-once s head a xs (b ∷ ys) ring in
    let (b_head, b_off) = Ring-once s1 head b xs ys ring1 in
    let a_parts = (Off-append a xs (b ∷ ys)).0 a_off in
    let b_parts = (Off-append b xs ys).0 b_off in
    swap_list_entries-behind s a b b a_parts.1.0 ((Seg-join s head xs a (b ∷ ys) head).0 ring.0).1.0
      (ne_sym a_parts.1.0) (blink-apart s head a a xs (b ∷ ys) ring a_head a_parts.0)
      (blink-apart s1 head b b xs ys ring1 b_head b_parts.0)
    ∙ swap_apart-done b a b (insert_head_list b a s1) (insert_head_list-head b a s1)

pub swap_adjacent-Ring :
    (s : Store) (head a b : ℕ) (xs ys : List ℕ)
    → Ring s head (xs ++ a ∷ b ∷ ys)
    → Ring (swap_list_entries a b s).1 head (xs ++ b ∷ a ∷ ys)
swap_adjacent-Ring s head a b xs ys ring =
    let s1 = (remove_entry_list a s).1 in
    let ring1 = remove_entry_list-Ring s head a xs (b ∷ ys) ring in
    let (a_head, a_off) = Ring-once s head a xs (b ∷ ys) ring in
    subst (λ t. Ring t head (xs ++ b ∷ a ∷ ys))
      (sym (ap (λ r. r.1) (swap_adjacent-done s head a b xs ys ring)))
      (insert_head_list-inner s1 head b a xs ys ring1 a_head a_off)

swap_distant-Ring :
    (s : Store) (head a m b : ℕ) (xs mid ys : List ℕ)
    → Ring s head (xs ++ a ∷ m ∷ (mid ++ b ∷ ys))
    → Ring (swap_list_entries a b s).1 head (xs ++ b ∷ m ∷ (mid ++ a ∷ ys))
swap_distant-Ring s head a m b xs mid ys ring =
    let s1 = (remove_entry_list a s).1 in
    let s2 = (insert_head_list b a s1).1 in
    let s3 = (remove_entry_list b s2).1 in
    let rest : List ℕ = m ∷ (mid ++ b ∷ ys) in
    let front : List ℕ = xs ++ m ∷ mid in
    let ring1 = remove_entry_list-Ring s head a xs rest ring in
    let (a_head, a_off) = Ring-once s head a xs rest ring in
    let to_front = sym (append_assoc xs (m ∷ mid) (b ∷ ys)) in
    let from_front = append_assoc xs (m ∷ mid) (a ∷ ys) in
    let ring1' = subst (λ zs. Ring s1 head zs) to_front ring1 in
    let (b_head, b_off) = Ring-once s1 head b front ys ring1' in
    let a_parts = (Off-append a front (b ∷ ys)).0 (subst (λ zs. Off a zs) to_front a_off) in
    let m_apart = (Off-append a xs rest).0 a_off in
    let b_xs = (Off-append b xs (m ∷ mid)).0 ((Off-append b front ys).0 b_off).0 in
    let behind =
      swap_list_entries-behind s a b m a_parts.1.0 ((Seg-join s head xs a rest head).0 ring.0).1.0
        (ne_sym m_apart.1.0) (blink-apart s head a a xs rest ring a_head m_apart.0)
        (blink-apart s1 head m b xs (mid ++ b ∷ ys) ring1 b_head b_xs.0) in
    let ring2 =
      insert_head_list-inner s1 head b a front ys ring1' a_head
        (subst (λ zs. Off a zs) to_front a_off) in
    let ring3 = remove_entry_list-Ring s2 head b front (a ∷ ys) ring2 in
    let once = Ring-once s2 head b front (a ∷ ys) ring2 in
    let moved =
      swap_apart-moved m a b (insert_head_list b a s1)
        λ e. b_xs.1.0 (sym (e ∙ insert_head_list-head b a s1)) in
    subst (λ t. Ring t head (xs ++ b ∷ m ∷ (mid ++ a ∷ ys))) (sym (ap (λ r. r.1) behind ∙ moved))
      (insert_tail_list-inner s3 head m b xs (mid ++ a ∷ ys)
        (subst (λ zs. Ring s3 head zs) from_front ring3) once.0
        (subst (λ zs. Off b zs) from_front once.1))

-- `SwapListEntries` exchanges two entries of a list, given the one that stands first as the first:
-- all others keep their places, whether the two are neighbours or not.
pub swap_list_entries-Ring :
    (s : Store) (head a b : ℕ) (xs mid ys : List ℕ)
    → Ring s head (xs ++ a ∷ (mid ++ b ∷ ys))
    → Ring (swap_list_entries a b s).1 head (xs ++ b ∷ (mid ++ a ∷ ys))
swap_list_entries-Ring s head a b xs [] ys ring = swap_adjacent-Ring s head a b xs ys ring
swap_list_entries-Ring s head a b xs (m ∷ mid) ys ring =
    swap_distant-Ring s head a m b xs mid ys ring
