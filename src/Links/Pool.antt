-- ===== src/Links/Pool.antt =====
-- Entries in pool memory on a list: an entry has the address of its link, and a name. The list of
-- showhotkeys/showhotkeys.c is one of showhotkeys/efilink.c, that of clearcrashvars/clearcrashvars.c is
-- one of gnu-efi's macros.
use uefi_utilities.Base.{
  ℕ, suc, ◌≤◌, ◌≡◌, ◌≢◌, refl, false, ◌==◌, Option, some, List, [], ◌∷◌, ◌++◌, map, arith,
  if◌then◌else◌,
}
use uefi_utilities.Uefi.{Text}
use uefi_utilities.Links.{Store, initialize_list_head, is_list_empty}
use uefi_utilities.Links.Ring.{Ring, Off, Off-append}
use uefi_utilities.Links.Insert.{initialize_list_head-Ring, is_list_empty_iff}

-- The head of the list, and `AllocateZeroPool` by the number of the call; no block is freed before
-- the last of the calls.
pub record Pool : Type 0 where
  pub head : ℕ
  pub allocate : ℕ → Option ℕ
  pub allocate-apart : (i j p q : ℕ) → allocate i ≡ some p → allocate j ≡ some q → i ≢ j → p ≢ q
  pub allocate-head : (i p : ℕ) → allocate i ≡ some p → p ≢ head

-- The links, the names at the addresses, and the calls of `AllocateZeroPool` so far.
pub record Heap (Links : Type 0) : Type 0 where
  pub links : Links
  pub names : ℕ → Text
  pub calls : ℕ

unfoldable pub name_at : (ℕ → Text) → ℕ → Text → ℕ → Text
name_at f p v x = if x == p then v else f x

-- The heap with a new entry, on whose name and link were written.
abbrev pub with_entry : {L : Type 0} → L → ℕ → Text → Heap L → Heap L
with_entry links p t h = record {
  links = links;
  names = name_at (Heap.names h) p t;
  calls = suc (Heap.calls h);
}

module _ (pool : Pool) where
  open pool use {head, allocate, allocate-apart, allocate-head}

  -- Every call of `AllocateZeroPool` is given a block.
  abbrev pub NeverOut : (ℕ → ℕ) → Type 0
  NeverOut address = (i : ℕ) → allocate i ≡ some (address i)

  module _ (address : ℕ → ℕ) where
    -- The blocks that are still to be given are none of these entries.
    abbrev pub Unused : {L : Type 0} → Heap L → List ℕ → Type 0
    Unused h xs = (i : ℕ) → Heap.calls h ≤ i → Off (address i) xs

    -- The list has these names.
    abbrev pub Entries : Heap Store → List Text → Type 0
    Entries h ts =
        (xs : List ℕ) × Ring (Heap.links h) head xs × Unused h xs × (map (Heap.names h) xs ≡ ts)

    module _ (memory : NeverOut address) where
      pub new-Unused :
          {L : Type 0} (links : L) (t : Text) (h : Heap L) (xs ys : List ℕ)
          → Unused h (xs ++ ys)
          → Unused
              (with_entry links (address (Heap.calls h)) t h)
              (xs ++ address (Heap.calls h) ∷ ys)
      new-Unused links t h xs ys unused i less =
          let c = Heap.calls h in
          let parts = (Off-append (address i) xs ys).0 (unused i (omega (arith, less))) in
          let apart : address i ≢ address c =
            allocate-apart i c (address i) (address c) (memory i) (memory c)
              (λ e. absurd (omega (arith, e, less))) in
          (Off-append (address i) xs (address c ∷ ys)).1 (parts.0, (apart, parts.1))

      pub new-head : {L : Type 0} → (h : Heap L) → address (Heap.calls h) ≢ head
      new-head h = allocate-head (Heap.calls h) (address (Heap.calls h)) (memory (Heap.calls h))

      -- The empty list, as it is made first.
      pub start-Entries :
          (h : Heap Store)
          → Entries (record h { links = (initialize_list_head head (Heap.links h)).1 }) []
      start-Entries h = ([], initialize_list_head-Ring (Heap.links h) head, (λ i less. tt), refl)

name_at-other : (f : ℕ → Text) (p : ℕ) (t : Text) (x : ℕ) → p ≢ x → name_at f p t x ≡ f x
unfolding name_at
name_at-other f p t x ne = ground arith

pub names_kept :
    (f : ℕ → Text) (p : ℕ) (t : Text) (xs : List ℕ) → Off p xs → map (name_at f p t) xs ≡ map f xs
names_kept f p t [] off = refl
names_kept f p t (x ∷ xs) off = cc (name_at-other f p t x off.0, names_kept f p t xs off.1)

pub name_at-same : (f : ℕ → Text) (p : ℕ) (t : Text) → name_at f p t p ≡ t
unfolding name_at
name_at-same f p t = ground arith

-- `IsListEmpty` on a list with an entry, as the loops that drain one ask it.
pub is_list_empty-filled :
    (s : Store) (head x : ℕ) (xs : List ℕ) → Ring s head (x ∷ xs) → is_list_empty head s ≡ false
is_list_empty-filled s head x xs ring = ground (arith, is_list_empty_iff s head (x ∷ xs) ring)
