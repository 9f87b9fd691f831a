-- ===== src/Oid/Search.antt =====
-- The binary search is right on every byte string.
use uefi_utilities.Base.{
  ℕ, zero, suc, ◌+◌, ◌-◌, ◌/◌, ◌≤◌, ◌<◌, ◌≡◌, ◌≢◌, refl, sym, ap, ◌∙◌, inl, inr, Bool, true, false,
  ◌&&◌, Option, none, some, List, arith, ltb, leb, ◌==◌, length, get_elem?, get_elem?-some,
  get_elem?-drop, take-eq_of_get_elem?, drop, get_or, holds_below, holds_below_at, Bool-cases,
}
use uefi_utilities.Oid.Registry.{Oid, index, nr}
use uefi_utilities.Oid.Tables.{oid_index, oid_data}
use uefi_utilities.Oid.Dotted.{arcs, encode}
use uefi_utilities.Oid.Lookup.{
  hash_of, Verdict, lower, upper, equal, compare_bytes, compare_octets, judge_at, Entry, entry,
  judge, Search, hit, miss, fault, search_loop, lookup_oid,
}
use uefi_utilities.Oid.Contents.{take-drop-bytes_of, bytes_of-encode, lookup_oid-encode}

-- What a verdict says of the bytes: `equal` comes with equal bytes.
abbrev Agrees : (octets : List ℕ) (oid : Oid) (base len : ℕ) → Option Verdict → Type 0
Agrees octets oid base len none = ⊥
Agrees octets oid base len (some lower) = Unit
Agrees octets oid base len (some upper) = Unit
Agrees octets oid base len (some (equal o)) =
    (o ≡ oid) × ((i : ℕ) → i < len → get_elem? oid_data (base + i) ≡ get_elem? octets i)

Agrees-suc :
    (octets : List ℕ) (oid : Oid) (base len : ℕ) (r : Option Verdict)
    → get_elem? oid_data (base + len) ≡ get_elem? octets len
    → Agrees octets oid base len r
    → Agrees octets oid base (suc len) r
Agrees-suc octets oid base len none e h = h
Agrees-suc octets oid base len (some lower) e h = tt
Agrees-suc octets oid base len (some upper) e h = tt
Agrees-suc octets oid base len (some (equal o)) e (same, h) = (same, extend)
  where
    extend : (i : ℕ) → i < suc len → get_elem? oid_data (base + i) ≡ get_elem? octets i
    extend i p = ground (arith, h i, e)

module _ (octets : List ℕ) (oid : Oid) (base : ℕ) where
  compare_bytes-Agrees :
      (len : ℕ) (x y : Option ℕ) (r : Option Verdict)
      → get_elem? oid_data (base + len) ≡ x
      → get_elem? octets len ≡ y
      → x ≢ none
      → y ≢ none
      → Agrees octets oid base len r
      → Agrees octets oid base (suc len) (compare_bytes x y r)
  unfolding compare_bytes
  compare_bytes-Agrees len none y r ex ey nx ny h = absurd (nx refl)
  compare_bytes-Agrees len (some a) none r ex ey nx ny h = absurd (ny refl)
  compare_bytes-Agrees len (some a) (some b) r ex ey nx ny h = elim (Bool-cases (ltb b a)) [
    | inl less ↦ rw less tt
    | inr ge ↦ elim (Bool-cases (ltb a b)) [
      | inl less ↦ rw (ge, less) tt
      | inr le ↦
          let same : a ≡ b = ground arith in
          rw (ge, le) (Agrees-suc octets oid base len r (ex ∙ ap some same ∙ sym ey) h)
    ]
  ]

  compare_octets-Agrees :
      (len : ℕ)
      → len ≤ length octets
      → base + len ≤ length oid_data
      → Agrees octets oid base len (compare_octets octets oid base len)
  unfolding compare_octets
  compare_octets-Agrees zero h h' = (refl, λ i p. absurd (omega arith))
  compare_octets-Agrees (suc len) h h' =
      compare_bytes-Agrees len _ _ _ refl refl (in_range oid_data (base + len) (omega arith))
        (in_range octets len (omega arith)) (compare_octets-Agrees len (omega arith) (omega arith))
    where
      in_range : (xs : List ℕ) (i : ℕ) → i < length xs → get_elem? xs i ≢ none
      in_range xs i p e = let (x, f) = get_elem?-some xs i p in cc

-- What the tables have to be for the search: the bytes of an entry lie in `oid_data`.
abbrev pub IsEntry : Option Entry → Type 0
IsEntry none = ⊥
IsEntry (some e) =
    (e.base ≡ get_or oid_index (index e.oid) 0)
    × (e.len ≡ get_or oid_index (index e.oid + 1) 0 - e.base)
    × (e.base + e.len ≤ length oid_data)

-- What a round of the search knows of its verdict.
abbrev Judged : List ℕ → Option Verdict → Type 0
Judged octets none = ⊥
Judged octets (some lower) = Unit
Judged octets (some upper) = Unit
Judged octets (some (equal oid)) = octets ≡ encode (arcs oid)

module _ (octets : List ℕ) (e : Entry) (ok : IsEntry (some e)) where
  Agrees→Judged :
      (r : Option Verdict)
      → length octets ≡ e.len
      → Agrees octets e.oid e.base e.len r
      → Judged octets r
  Agrees→Judged none size h = h
  Agrees→Judged (some lower) size h = tt
  Agrees→Judged (some upper) size h = tt
  Agrees→Judged (some (equal o)) size (same, h) =
      sym (take-eq_of_get_elem? e.len (drop e.base oid_data) octets size agree)
      ∙ take-drop-bytes_of e.oid e.base e.len ok.0 ok.1
      ∙ bytes_of-encode e.oid
      ∙ ap (λ x. encode (arcs x)) (sym same)
    where
      agree : (i : ℕ) → i < e.len → get_elem? (drop e.base oid_data) i ≡ get_elem? octets i
      agree i p = get_elem?-drop e.base i oid_data ∙ h i p

  judge-Judged : (hash : ℕ) → Judged octets (judge octets hash e)
  unfolding judge
  judge-Judged hash = elim (Bool-cases (ltb hash e.hash)) [
    | inl c ↦ rw c tt
    | inr c ↦ rw c (elim (Bool-cases (ltb e.hash hash)) [
      | inl c' ↦ rw c' tt
      | inr c' ↦ rw c' (elim (Bool-cases (ltb (length octets) e.len)) [
        | inl d ↦ rw d tt
        | inr d ↦ rw d (elim (Bool-cases (ltb e.len (length octets))) [
          | inl d' ↦ rw d' tt
          | inr d' ↦
              let size : length octets ≡ e.len = ground arith in
              rw d' (
                Agrees→Judged _ size
                  (compare_octets-Agrees octets e.oid e.base e.len (omega arith) ok.2))
        ])
      ])
    ])
  ]

-- Every place of the table has an entry, and its bytes lie in `oid_data`.
check_entry : Option Entry → Bool
check_entry none = false
check_entry (some e) =
    (e.base == get_or oid_index (index e.oid) 0)
    && (e.len == get_or oid_index (index e.oid + 1) 0 - e.base)
    && leb (e.base + e.len) (length oid_data)

check_entry-IsEntry : (o : Option Entry) → check_entry o ≡ true → IsEntry o
unfolding check_entry
check_entry-IsEntry none h = cc
check_entry-IsEntry (some e) h = ground arith

entries_checked : holds_below (λ j. check_entry (entry j)) nr ≡ true
unfolding holds_below check_entry entry oid_data
entries_checked = refl

entry-IsEntry : (j : ℕ) → j < nr → IsEntry (entry j)
entry-IsEntry j h =
    check_entry-IsEntry (entry j)
      (holds_below_at (λ x. check_entry (entry x)) nr j h entries_checked)

judge_at-Judged :
    (octets : List ℕ) (hash : ℕ) (o : Option Entry)
    → IsEntry o
    → Judged octets (judge_at octets hash o)
unfolding judge_at
judge_at-Judged octets hash none h = h
judge_at-Judged octets hash (some e) h = judge-Judged octets e h hash

-- What the search knows when it ends.
abbrev Ended : List ℕ → Search → Type 0
Ended octets (hit oid) = octets ≡ encode (arcs oid)
Ended octets miss = Unit
Ended octets fault = ⊥

search_loop-Ended :
    (fuel : ℕ) (octets : List ℕ) (hash i k : ℕ)
    → k ≤ nr
    → k - i < fuel
    → Ended octets (search_loop fuel octets hash i k)
unfolding search_loop
search_loop-Ended zero octets hash i k h f = absurd (omega arith)
search_loop-Ended (suc fuel) octets hash i k h f =
    let j : ℕ = (i + k) / 2 in
    elim (Bool-cases (ltb i k)) [
      | inr stop ↦ rw stop tt
      | inl more ↦ rw more (
          (elim (judge_at octets hash (entry j))
              as (λ v.
                Judged octets v
                → Ended octets (elim v [
                  | none ↦ fault
                  | some lower ↦ search_loop fuel octets hash i j
                  | some upper ↦ search_loop fuel octets hash (j + 1) k
                  | some (equal oid) ↦ hit oid
                ])) [
                  | none ↦ λ v. v
                  | some lower ↦
                      λ v. search_loop-Ended fuel octets hash i j (ground arith) (ground arith)
                  | some upper ↦ λ v. search_loop-Ended fuel octets hash (j + 1) k h (ground arith)
                  | some (equal oid) ↦ λ v. v
                ])
            (judge_at-Judged octets hash (entry j) (entry-IsEntry j (ground arith))))
    ]

-- The specification: an identifier whose encoding is the input, or no identifier has it.
abbrev pub IsLookup : List ℕ → Search → Type 0
IsLookup octets (hit oid) = octets ≡ encode (arcs oid)
IsLookup octets miss = (oid : Oid) → octets ≢ encode (arcs oid)
IsLookup octets fault = ⊥

Ended→IsLookup :
    (octets : List ℕ) (r : Search) → lookup_oid octets ≡ r → Ended octets r → IsLookup octets r
Ended→IsLookup octets (hit oid) e h = h
Ended→IsLookup octets miss e h = λ oid same.
    let found : lookup_oid octets ≡ hit oid = ap lookup_oid same ∙ lookup_oid-encode oid in
    let clash : hit oid ≡ miss = sym found ∙ e in cc
Ended→IsLookup octets fault e h = h

-- On every byte string the search ends without a read outside its arrays. It returns an
-- identifier only if the string is the encoding of that identifier's dotted form, and OID__NR only
-- if it is the encoding of none of the 52 identifiers.
pub lookup_oid-IsLookup : (octets : List ℕ) → IsLookup octets (lookup_oid octets)
lookup_oid-IsLookup octets = Ended→IsLookup octets (lookup_oid octets) refl ended
  where
    ended : Ended octets (lookup_oid octets)
    ended =
        unfold lookup_oid in
        search_loop-Ended (suc nr) octets (hash_of octets) 0 nr (omega arith) (omega arith)
