-- ===== src/Hotkeys/Sort.antt =====
-- The sort loop of showhotkeys/showhotkeys.c on the list in memory.
use mathlib.Core.List.{append_assoc}
use uefi_utilities.Base.{
  ℕ, zero, suc, ◌+◌, ◌*◌, ◌≤◌, ◌<◌, ◌≡◌, ◌⊎◌, inl, inr, refl, sym, ap, subst, ◌∙◌, true, false,
  Option, some, List, [], ◌∷◌, ◌++◌, map, arith, length, ltb, if◌then◌else◌,
}
use uefi_utilities.Uefi.{Text}
use uefi_utilities.Links.{Store, is_null, get_next_node, swap_list_entries}
use uefi_utilities.Links.Ring.{Ring, Off, Seg-join, Off-append}
use uefi_utilities.Links.Swap.{swap_adjacent-Ring, swap_adjacent-done}
use uefi_utilities.Links.Back.{first_of, flink-first_of}
use uefi_utilities.Links.Pool.{Heap}
use uefi_utilities.Hotkeys.{
  Comparison, above, below, level, option_number, compare_option_numbers, by_comparison, sort_loop,
}
use uefi_utilities.Hotkeys.Order.{
  insert_name-nil, insert_name-behind, insert_name-before, insert_name, Below, Ascending, Below-le,
}

-- `GetNextNode` of an entry.
next_node :
    (s : Store) (head : ℕ) (xs : List ℕ) (x : ℕ) (ys : List ℕ)
    → Ring s head (xs ++ x ∷ ys)
    → get_next_node head x s ≡ first_of ys head
unfolding get_next_node
next_node s head xs x ys ring =
    flink-first_of s x ys head ((Seg-join s head xs x ys head).0 ring.0).1

is_null-entry :
    (s : Store) (head : ℕ) (xs : List ℕ) (x : ℕ) (ys : List ℕ)
    → Ring s head (xs ++ x ∷ ys)
    → is_null head x s ≡ false
unfolding is_null
is_null-entry s head xs x ys ring =
    let apart = ((Off-append head xs (x ∷ ys)).0 ring.1).1.0 in ground (arith, apart)

is_null-head : (s : Store) (head : ℕ) → is_null head head s ≡ true
unfolding is_null
is_null-head s head = ground arith

pub lt_or_le : (m n : ℕ) → (m < n) ⊎ (n ≤ m)
lt_or_le m n = ground arith

-- `CompareOptionNumbers` on the numbers.
abbrev judged : ℕ → ℕ → Comparison
judged m n = if ltb n m then above else if ltb m n then below else level

compare_option_numbers-judged :
    (a b : Text) → compare_option_numbers a b ≡ judged (option_number a) (option_number b)
unfolding compare_option_numbers
compare_option_numbers-judged a b = refl

judged-above : (m n : ℕ) → n < m → judged m n ≡ above
judged-above m n less = ground arith

judged-le :
    (m n : ℕ) (swapped next : Option (Heap Store)) (h : Heap Store)
    → m ≤ n
    → next ≡ some h
    → by_comparison swapped (some h) next (judged m n) ≡ some h
unfolding by_comparison
judged-le m n swapped next h le e = ground arith

judged-same : (n : ℕ) → judged n n ≡ level
judged-same n = ground arith

compare_option_numbers-same : (t : Text) → compare_option_numbers t t ≡ level
compare_option_numbers-same t = compare_option_numbers-judged t t ∙ judged-same (option_number t)

-- An entry of the same number is passed, and at one of a greater the loop ends.
by_comparison-le :
    (a b : Text) (swapped next : Option (Heap Store)) (h : Heap Store)
    → option_number a ≤ option_number b
    → next ≡ some h
    → by_comparison swapped (some h) next (compare_option_numbers a b) ≡ some h
by_comparison-le a b swapped next h le e =
    ap (by_comparison swapped (some h) next) (compare_option_numbers-judged a b)
    ∙ judged-le (option_number a) (option_number b) swapped next h le e

module _ (head : ℕ) where
  -- What a turn does with an entry.
  abbrev turn : ℕ → ℕ → ℕ → (Heap Store) → Option (Heap Store)
  turn fuel prev node h =
      let (node', links') = swap_list_entries prev node (Heap.links h) in
      by_comparison
        (sort_loop fuel head prev (get_next_node head node' links') (record h { links = links' }))
        (some h) (sort_loop fuel head prev (get_next_node head node (Heap.links h)) h)
        (compare_option_numbers (Heap.names h prev) (Heap.names h node))

  sort_loop-turn :
      (fuel prev node : ℕ) (h : Heap Store)
      → is_null head node (Heap.links h) ≡ false
      → sort_loop (suc fuel) head prev node h ≡ turn fuel prev node h
  unfolding sort_loop
  sort_loop-turn fuel prev node h e = rw e refl

  sort_loop-end : (fuel prev : ℕ) (h : Heap Store) → sort_loop (suc fuel) head prev head h ≡ some h
  unfolding sort_loop
  sort_loop-end fuel prev h = rw (is_null-head (Heap.links h) head) refl

  -- From an entry on whose number, and on whose followers', is at least that of `prev`.
  sort_loop-stays :
      (fuel prev : ℕ) (h : Heap Store) (xs ys : List ℕ)
      → Ring (Heap.links h) head (xs ++ ys)
      → Below (option_number (Heap.names h prev)) (map (Heap.names h) ys)
      → length ys < fuel
      → sort_loop fuel head prev (first_of ys head) h ≡ some h
  sort_loop-stays zero prev h xs ys ring least less = absurd (omega arith)
  sort_loop-stays (suc fuel) prev h xs [] ring least less = sort_loop-end fuel prev h
  sort_loop-stays (suc fuel) prev h xs (y ∷ ys) ring least less =
      let rest =
        sort_loop-stays fuel prev h (xs ++ y ∷ []) ys
          (subst (λ zs. Ring (Heap.links h) head zs) (sym (append_assoc xs (y ∷ []) ys)) ring)
          least.1 (omega arith) in
      let again =
        ap (λ n. sort_loop fuel head prev n h) (next_node (Heap.links h) head xs y ys ring)
        ∙ rest in
      sort_loop-turn fuel prev y h (is_null-entry (Heap.links h) head xs y ys ring)
      ∙ by_comparison-le (Heap.names h prev) (Heap.names h y) _ _ h least.0 again

  -- Past an entry of a smaller number, with which it changes places.
  sort_loop-swaps :
      (fuel e : ℕ) (h : Heap Store) (xs : List ℕ) (y : ℕ) (ys : List ℕ)
      → Ring (Heap.links h) head (xs ++ e ∷ y ∷ ys)
      → option_number (Heap.names h y) < option_number (Heap.names h e)
      → (links : Store) × Ring links head (xs ++ y ∷ e ∷ ys)
        × (sort_loop (suc (suc fuel)) head e e h
            ≡ sort_loop fuel head e e (record h { links = links }))
  unfolding by_comparison
  sort_loop-swaps fuel e h xs y ys ring less =
      let s = Heap.links h in
      let links = (swap_list_entries e y s).1 in
      let ring' = swap_adjacent-Ring s head e y xs ys ring in
      let ring_y = subst (λ zs. Ring s head zs) (sym (append_assoc xs (e ∷ []) (y ∷ ys))) ring in
      (
        links,
        ring',
        sort_loop-turn (suc fuel) e e h (is_null-entry s head xs e (y ∷ ys) ring)
            ∙ ap (by_comparison _ (some h) _) (compare_option_numbers-same (Heap.names h e))
            ∙ ap (λ n. sort_loop (suc fuel) head e n h) (next_node s head xs e (y ∷ ys) ring)
            ∙ sort_loop-turn fuel e y h (is_null-entry s head (xs ++ e ∷ []) y ys ring_y)
            ∙ ap (by_comparison _ (some h) _) (
                compare_option_numbers-judged (Heap.names h e) (Heap.names h y)
                ∙ judged-above (option_number (Heap.names h e)) (option_number (Heap.names h y))
                    less)
            ∙ ap (λ n. sort_loop fuel head e n (record h { links = links }))
                (ap (λ n. get_next_node head n links)
                    (ap (λ r. r.0) (swap_adjacent-done s head e y xs ys ring))
                  ∙ next_node links head xs y (e ∷ ys) ring'),
      )

  -- Where no number is smaller the list stays.
  stays :
      (fuel e : ℕ) (h : Heap Store) (xs ys : List ℕ)
      → Ring (Heap.links h) head (xs ++ e ∷ ys)
      → Below (option_number (Heap.names h e)) (map (Heap.names h) ys)
      → length ys + 1 < fuel
      → sort_loop fuel head e e h ≡ some h
  stays fuel e h xs ys ring least less =
      sort_loop-stays fuel e h xs (e ∷ ys) ring (omega arith, least) (omega (arith, less))

  -- The entry that stands first among these goes behind those of smaller numbers.
  pub sort_loop-inserts :
      (fuel e : ℕ) (h : Heap Store) (xs ys : List ℕ)
      → Ring (Heap.links h) head (xs ++ e ∷ ys)
      → Ascending (map (Heap.names h) ys)
      → 2 * length ys + 1 < fuel
      → (links : Store) × (zs : List ℕ) × Ring links head (xs ++ zs)
        × (map (Heap.names h) zs ≡ insert_name (Heap.names h e) (map (Heap.names h) ys))
        × (sort_loop fuel head e e h ≡ some (record h { links = links }))
        × (length zs ≡ suc (length ys))
        × ((q : ℕ) → Off q (e ∷ ys) → Off q zs)
  sort_loop-inserts fuel e h xs [] ring up less = (
    Heap.links h,
    e ∷ [],
    ring,
    sym (insert_name-nil (Heap.names h e)),
    stays fuel e h xs [] ring tt (omega (arith, less)),
    refl,
    λ q off. off,
  )
  sort_loop-inserts zero e h xs (y ∷ ys) ring up less = absurd (omega (arith, less))
  sort_loop-inserts (suc zero) e h xs (y ∷ ys) ring up less = absurd (omega (arith, less))
  sort_loop-inserts (suc (suc fuel)) e h xs (y ∷ ys) ring up less =
      elim (lt_or_le (option_number (Heap.names h y)) (option_number (Heap.names h e))) [
        | inl smaller ↦
            let (links, ring', step) = sort_loop-swaps fuel e h xs y ys ring smaller in
            let (links', zs, ring'', names, run, size, off) =
              sort_loop-inserts fuel e (record h { links = links }) (xs ++ y ∷ []) ys
                (subst (λ zs. Ring links head zs) (sym (append_assoc xs (y ∷ []) (e ∷ ys))) ring')
                up.1 (omega (arith, less)) in
            (
              links',
              y ∷ zs,
              subst (λ us. Ring links' head us) (append_assoc xs (y ∷ []) zs) ring'',
              ap (λ us. Heap.names h y ∷ us) names
                  ∙ sym (
                      insert_name-behind (Heap.names h e) (Heap.names h y) (map (Heap.names h) ys)
                        smaller),
              step ∙ run,
              omega (arith, size),
              λ q apart. (apart.1.0, off q (apart.0, apart.1.1)),
            )
        | inr least ↦ (
          Heap.links h,
          e ∷ y ∷ ys,
          ring,
          sym (insert_name-before (Heap.names h e) (Heap.names h y) (map (Heap.names h) ys) least),
          stays (suc (suc fuel)) e h xs (y ∷ ys) ring
              (
                least,
                Below-le (option_number (Heap.names h e)) (option_number (Heap.names h y))
                    (map (Heap.names h) ys) least up.0,
              )
              (omega (arith, less)),
          refl,
          λ q apart. apart,
        )
      ]
