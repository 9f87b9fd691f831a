-- ===== src/Links/Insert.antt =====
-- The operations of showhotkeys/efilink.c that make a list or put an entry into one.
use uefi_utilities.Base.{
  ℕ, ◌≡◌, ◌≢◌, ◌↔◌, refl, sym, subst, ◌∙◌, ap, true, List, [], ◌∷◌, ◌++◌, arith,
}
use uefi_utilities.Links.{
  Store, put_at, set_flink, set_blink, initialize_list_head, insert_head_list, insert_tail_list,
  is_list_empty,
}
use uefi_utilities.Links.Ring.{
  Seg, Off, Apart, Ring, Seg-set_flink, Seg-set_blink, Seg-join, Off-append,
}

-- `InitializeListHead` makes the list without entries, whatever the links were.
pub initialize_list_head-Ring :
    (s : Store) (head : ℕ) → Ring (initialize_list_head head s).1 head []
unfolding initialize_list_head put_at
initialize_list_head-Ring s head = ground arith

-- An entry between two neighbours.
abbrev between : ℕ → ℕ → ℕ → Store → Store
between p q e s = set_flink p e (set_blink q e (set_blink e p (set_flink e q s)))

put_at_same : (f : ℕ → ℕ) (p v : ℕ) → put_at f p v p ≡ v
unfolding put_at
put_at_same f p v = ground arith

between-Seg : (s : Store) (p q e : ℕ) → e ≢ p → e ≢ q → Seg (between p q e s) p (e ∷ []) q
unfolding put_at
between-Seg s p q e ne_p ne_q = ground arith

between-frame :
    (s : Store) (p q e a : ℕ) (xs : List ℕ) (b : ℕ)
    → (p ≢ a) × Off p xs
    → (q ≢ b) × Off q xs
    → (e ≢ a) × (e ≢ b) × Off e xs
    → Seg s a xs b
    → Seg (between p q e s) a xs b
between-frame s p q e a xs b off_p off_q off_e h = Seg-set_flink _ p e a xs b off_p.0 off_p.1 (
    Seg-set_blink _ q e a xs b off_q.0 off_q.1
      (Seg-set_blink _ e p a xs b off_e.1 off_e.2 (Seg-set_flink s e q a xs b off_e.0 off_e.2 h)))

insert_head_list-between :
    (s : Store) (head entry : ℕ)
    → (insert_head_list head entry s).1 ≡ between head (Store.flink s head) entry s
unfolding insert_head_list
insert_head_list-between s head entry =
    ap
      (λ q.
        set_flink head entry
          (set_blink q entry (set_blink entry head (set_flink entry (Store.flink s head) s))))
      (put_at_same (Store.flink s) entry (Store.flink s head))

insert_tail_list-between :
    (s : Store) (head entry : ℕ)
    → (insert_tail_list head entry s).1 ≡ between (Store.blink s head) head entry s
unfolding insert_tail_list
insert_tail_list-between s head entry =
    ap
      (λ p.
        set_flink p entry
          (set_blink head entry (set_blink entry (Store.blink s head) (set_flink entry head s))))
      (put_at_same (Store.blink s) entry (Store.blink s head))

ne_sym : {a b : ℕ} → a ≢ b → b ≢ a
ne_sym ne e = ne (omega arith)

-- `InsertHeadList` puts an entry that is not on the list in front of its entries.
pub insert_head_list-Ring :
    (s : Store) (head entry : ℕ) (xs : List ℕ)
    → Ring s head xs
    → entry ≢ head
    → Off entry xs
    → Ring (insert_head_list head entry s).1 head (entry ∷ xs)
insert_head_list-Ring s head entry [] ring ne off =
    rw (insert_head_list-between s head entry, ring.0.0)
      (between-Seg s head head entry ne ne, (ne_sym ne, tt), (tt, tt))
insert_head_list-Ring s head entry (x ∷ xs) ring ne off =
    let fit = between-Seg s head x entry ne off.0 in
    let tail =
      between-frame s head x entry x xs head (ring.1.0, ring.1.1) (ne_sym ring.1.0, ring.2.0)
        (off.0, ne, off.1) ring.0.2 in
    let store = insert_head_list-between s head entry ∙ ap (λ q. between head q entry s) ring.0.0 in
    subst (λ t. Ring t head (entry ∷ x ∷ xs)) (sym store)
      ((fit.0, fit.1, (fit.2.0, fit.2.1, tail)), (ne_sym ne, ring.1), (off, ring.2))

-- The entries but the last, and the last.
data Snoc (xs : List ℕ) : Type 0 where
  nil : xs ≡ [] → Snoc xs
  snoc : (ys : List ℕ) (l : ℕ) → xs ≡ ys ++ l ∷ [] → Snoc xs

Snoc-cons : (x : ℕ) {xs : List ℕ} → Snoc xs → Snoc (x ∷ xs)
Snoc-cons x (nil e) = snoc [] x (ap (λ zs. x ∷ zs) e)
Snoc-cons x (snoc ys l e) = snoc (x ∷ ys) l (ap (λ zs. x ∷ zs) e)

Snoc-all : (xs : List ℕ) → Snoc xs
Snoc-all [] = nil refl
Snoc-all (x ∷ xs) = Snoc-cons x (Snoc-all xs)

Apart-append : (xs : List ℕ) (p : ℕ) → Apart (xs ++ p ∷ []) ↔ (Apart xs × Off p xs)
Apart-append [] p = ground arith
Apart-append (x ∷ xs) p = ground (arith, Apart-append xs p, Off-append x xs (p ∷ []))

tail_last-Ring :
    (s : Store) (head entry : ℕ) (ys : List ℕ) (l : ℕ)
    → Ring s head (ys ++ l ∷ [])
    → entry ≢ head
    → Off entry (ys ++ l ∷ [])
    → Ring (insert_tail_list head entry s).1 head ((ys ++ l ∷ []) ++ entry ∷ [])
tail_last-Ring s head entry ys l ring ne off =
    let parts = (Seg-join s head ys l [] head).0 ring.0 in
    let head_off = (Off-append head ys (l ∷ [])).0 ring.1 in
    let entry_off = (Off-append entry ys (l ∷ [])).0 off in
    let apart = (Apart-append ys l).0 ring.2 in
    let fit = between-Seg s l head entry entry_off.1.0 ne in
    let front =
      between-frame s l head entry head ys l (ne_sym head_off.1.0, apart.1)
        (head_off.1.0, head_off.0) (ne, entry_off.1.0, entry_off.0) parts.0 in
    let store =
      insert_tail_list-between s head entry ∙ ap (λ p. between p head entry s) parts.1.1 in
    subst (λ t. Ring t head ((ys ++ l ∷ []) ++ entry ∷ [])) (sym store)
      (
        (Seg-join _ head (ys ++ l ∷ []) entry [] head).1
            ((Seg-join _ head ys l [] entry).1 (front, (fit.0, fit.1)), fit.2),
        (Off-append head (ys ++ l ∷ []) (entry ∷ [])).1 (ring.1, (ne_sym ne, tt)),
        (Apart-append (ys ++ l ∷ []) entry).1 (ring.2, off),
      )

tail_none-Ring :
    (s : Store) (head entry : ℕ)
    → Ring s head []
    → entry ≢ head
    → Ring (insert_tail_list head entry s).1 head (entry ∷ [])
tail_none-Ring s head entry ring ne =
    rw (insert_tail_list-between s head entry, ring.0.1)
      (between-Seg s head head entry ne ne, (ne_sym ne, tt), (tt, tt))

-- `InsertTailList` puts an entry that is not on the list behind its entries.
pub insert_tail_list-Ring :
    (s : Store) (head entry : ℕ) (xs : List ℕ)
    → Ring s head xs
    → entry ≢ head
    → Off entry xs
    → Ring (insert_tail_list head entry s).1 head (xs ++ entry ∷ [])
insert_tail_list-Ring s head entry xs ring ne off = elim (Snoc-all xs) [
  | nil e ↦
      subst (λ zs. Ring (insert_tail_list head entry s).1 head (zs ++ entry ∷ [])) (sym e)
        (tail_none-Ring s head entry (subst (λ zs. Ring s head zs) e ring) ne)
  | snoc ys l e ↦
      subst (λ zs. Ring (insert_tail_list head entry s).1 head (zs ++ entry ∷ [])) (sym e)
        (tail_last-Ring s head entry ys l (subst (λ zs. Ring s head zs) e ring) ne
          (subst (λ zs. Off entry zs) e off))
]

-- On a list, `IsListEmpty` tells whether it has no entries.
pub is_list_empty_iff :
    (s : Store) (head : ℕ) (xs : List ℕ)
    → Ring s head xs
    → (is_list_empty head s ≡ true) ↔ (xs ≡ [])
unfolding is_list_empty
is_list_empty_iff s head [] ring = ground arith
is_list_empty_iff s head (x ∷ xs) ring = ground arith
