-- ===== src/Links/Back.antt =====
-- `SwapListEntries` of showhotkeys/efilink.c when its first entry stands behind its second.
use mathlib.Core.List.{append_assoc}
use uefi_utilities.Base.{
  ℕ, ◌≡◌, ◌≢◌, refl, sym, ap, subst, ◌∙◌, true, false, List, [], ◌∷◌, ◌++◌, arith, ◌==◌,
}
use uefi_utilities.Links.{
  Store, insert_tail_list, remove_entry_list, swap_removed, swap_list_entries,
}
use uefi_utilities.Links.Ring.{Seg, Off, Ring, Seg-join, Off-append}
use uefi_utilities.Links.Remove.{remove_entry_list-Ring}
use uefi_utilities.Links.Rotate.{insert_tail_list-inner, Ring-rotate, ne_sym}
use uefi_utilities.Links.Swap.{
  Ring-once, blink-apart, remove_entry_list-next, swap_list_entries-Ring,
}

-- The entry behind the start of a segment points back to the start.
blink-flink :
    (s : Store) (a : ℕ) (xs : List ℕ) (b : ℕ) → Seg s a xs b → Store.blink s (Store.flink s a) ≡ a
blink-flink s a [] b h = rw h.0 h.1
blink-flink s a (x ∷ xs) b h = rw h.0 h.1

-- The entry that stands first, or the head.
abbrev pub first_of : List ℕ → ℕ → ℕ
first_of [] b = b
first_of (x ∷ xs) b = x

pub flink-first_of :
    (s : Store) (a : ℕ) (xs : List ℕ) (b : ℕ) → Seg s a xs b → Store.flink s a ≡ first_of xs b
flink-first_of s a [] b h = h.0
flink-first_of s a (x ∷ xs) b h = h.0

first_of-Off : (p : ℕ) (xs : List ℕ) (b : ℕ) → p ≢ b → Off p xs → first_of xs b ≢ p
first_of-Off p [] b ne off = ne_sym ne
first_of-Off p (x ∷ xs) b ne off = ne_sym off.0

swap_removed-before :
    (ptr first second : ℕ) (s : Store)
    → Store.blink s ptr ≡ second
    → swap_removed first second (ptr, s) ≡ insert_tail_list second first s
unfolding swap_removed
swap_removed-before ptr first second s e =
    let same : (Store.blink s ptr == second) ≡ true = ground arith in rw same refl

swap_list_entries-before :
    (s : Store) (first second next : ℕ)
    → first ≢ second
    → Store.flink s first ≡ next
    → next ≢ first
    → Store.blink s first ≢ first
    → Store.blink (remove_entry_list first s).1 next ≡ second
    → swap_list_entries first second s ≡ insert_tail_list second first (remove_entry_list first s).1
unfolding swap_list_entries
swap_list_entries-before s first second next ne e ne_next ne_back before =
    let other : (first == second) ≡ false = ground arith in
    rw (other, remove_entry_list-next s first (λ p. ne_next (sym e ∙ p)) ne_back, e)
      (swap_removed-before next first second (remove_entry_list first s).1 before)

swap_neighbour-Ring :
    (s : Store) (head a b : ℕ) (xs ys : List ℕ)
    → Ring s head (xs ++ b ∷ a ∷ ys)
    → Ring (swap_list_entries a b s).1 head (xs ++ a ∷ b ∷ ys)
swap_neighbour-Ring s head a b xs ys ring =
    let s1 = (remove_entry_list a s).1 in
    let split = append_assoc xs (b ∷ []) in
    let ring' = subst (λ zs. Ring s head zs) (sym (split (a ∷ ys))) ring in
    let removed = remove_entry_list-Ring s head a (xs ++ b ∷ []) ys ring' in
    let ring1 = subst (λ zs. Ring s1 head zs) (split ys) removed in
    let (a_head, a_off) = Ring-once s head a (xs ++ b ∷ []) ys ring' in
    let a_parts = (Off-append a (xs ++ b ∷ []) ys).0 a_off in
    let a_b = ((Off-append a xs (b ∷ [])).0 a_parts.0).1.0 in
    let behind_b = ((Seg-join s1 head xs b ys head).0 ring1.0).1 in
    let before =
      swap_list_entries-before s a b (first_of ys head) a_b
        (flink-first_of s a ys head ((Seg-join s head (xs ++ b ∷ []) a ys head).0 ring'.0).1)
        (first_of-Off a ys head a_head a_parts.1)
        (blink-apart s head a a (xs ++ b ∷ []) ys ring' a_head a_parts.0)
        (ap (Store.blink s1) (sym (flink-first_of s1 b ys head behind_b))
          ∙ blink-flink s1 b ys head behind_b) in
    subst (λ t. Ring t head (xs ++ a ∷ b ∷ ys)) (sym (ap (λ r. r.1) before))
      (insert_tail_list-inner s1 head b a xs ys ring1 a_head
        (subst (λ zs. Off a zs) (split ys) a_off))

-- The two ways to read a ring with `b`, `m` and `a` on it: from its head, and from `m`.
from_head :
    (head p q m : ℕ) (xs mid ys : List ℕ)
    → (mid ++ q ∷ ys) ++ head ∷ (xs ++ p ∷ []) ≡ mid ++ q ∷ ((ys ++ head ∷ xs) ++ p ∷ [])
from_head head p q m xs mid ys =
    append_assoc mid (q ∷ ys) (head ∷ (xs ++ p ∷ []))
    ∙ ap (λ zs. mid ++ q ∷ zs) (sym (append_assoc ys (head ∷ xs) (p ∷ [])))

Ring-turn :
    (s : Store) (head p q m : ℕ) (xs mid ys : List ℕ)
    → Ring s head (xs ++ p ∷ m ∷ (mid ++ q ∷ ys))
    → Ring s m (mid ++ q ∷ ((ys ++ head ∷ xs) ++ p ∷ []))
Ring-turn s head p q m xs mid ys ring =
    subst (λ zs. Ring s m zs) (from_head head p q m xs mid ys)
      (Ring-rotate s head m (xs ++ p ∷ []) (mid ++ q ∷ ys)
        (subst (λ zs. Ring s head zs) (sym (append_assoc xs (p ∷ []) (m ∷ (mid ++ q ∷ ys)))) ring))

Ring-unturn :
    (s : Store) (head p q m : ℕ) (xs mid ys : List ℕ)
    → Ring s m (mid ++ q ∷ ((ys ++ head ∷ xs) ++ p ∷ []))
    → Ring s head (xs ++ p ∷ m ∷ (mid ++ q ∷ ys))
Ring-unturn s head p q m xs mid ys ring =
    subst (λ zs. Ring s head zs) (append_assoc xs (p ∷ []) (m ∷ (mid ++ q ∷ ys)))
      (Ring-rotate s m head (mid ++ q ∷ ys) (xs ++ p ∷ [])
        (subst (λ zs. Ring s m zs) (sym (from_head head p q m xs mid ys)) ring))

-- `SwapListEntries` also exchanges two entries of a list given the one that stands last as the
-- first: all others keep their places, whether the two are neighbours or not.
pub swap_list_entries_back-Ring :
    (s : Store) (head a b : ℕ) (xs mid ys : List ℕ)
    → Ring s head (xs ++ b ∷ (mid ++ a ∷ ys))
    → Ring (swap_list_entries a b s).1 head (xs ++ a ∷ (mid ++ b ∷ ys))
swap_list_entries_back-Ring s head a b xs [] ys ring = swap_neighbour-Ring s head a b xs ys ring
swap_list_entries_back-Ring s head a b xs (m ∷ mid) ys ring = Ring-unturn _ head a b m xs mid ys (
    swap_list_entries-Ring s m a b mid (ys ++ head ∷ xs) [] (Ring-turn s head b a m xs mid ys ring))
