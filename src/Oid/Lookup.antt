-- ===== src/Oid/Lookup.antt =====
-- `Lookup_OID` of listcerts/oid_registry.c: a hash, then a binary search of the table.
use Prim.Native.Nat.{bit_xor}
use uefi_utilities.Base.{
  ℕ, zero, suc, ◌+◌, ◌-◌, ◌*◌, ◌/◌, ◌%◌, ◌^◌, Option, none, some, List, [], ◌∷◌, ltb, if◌then◌else◌,
  length, get_elem?,
}
use uefi_utilities.Oid.Registry.{Oid, index, nr}
use uefi_utilities.Oid.Tables.{oid_index, oid_data, oid_search_table}

-- `hash` is an unsigned int, and is `datasize - 1` at first.
unfoldable pub add_octets : ℕ → List ℕ → ℕ
add_octets hash [] = hash
add_octets hash (o ∷ os) = add_octets ((hash + o * 33) % 2 ^ 32) os

unfoldable pub hash_of : List ℕ → ℕ
unfolding add_octets
hash_of octets =
    let hash = add_octets ((length octets + (2 ^ 32 - 1)) % 2 ^ 32) octets in
    bit_xor (bit_xor (bit_xor (hash / 2 ^ 24) (hash / 2 ^ 16)) (hash / 2 ^ 8)) hash % 256

-- Where the search goes next, or that the entry is the one.
pub data Verdict : Type 0 where
  lower upper : Verdict
  equal : Oid → Verdict

-- One byte of each side, and the verdict of the bytes before them. `none` is a read outside an
-- array.
unfoldable pub compare_bytes : (a b : Option ℕ) → Option Verdict → Option Verdict
compare_bytes none b rest = none
compare_bytes (some a) none rest = none
compare_bytes (some a) (some b) rest =
    if ltb b a then some lower else if ltb a b then some upper else rest

-- The comparison from the last byte on.
unfoldable pub compare_octets : (octets : List ℕ) (oid : Oid) (base len : ℕ) → Option Verdict
unfolding compare_bytes
compare_octets octets oid base zero = some (equal oid)
compare_octets octets oid base (suc len) =
    compare_bytes (get_elem? oid_data (base + len)) (get_elem? octets len)
      (compare_octets octets oid base len)

-- An entry of the table with `oid_index[oid]` and `oid_index[oid + 1] - oid_index[oid]`.
pub record Entry : Type 0 where
  pub hash : ℕ
  pub oid : Oid
  pub base : ℕ
  pub len : ℕ

unfoldable pub entry_of : Option (ℕ × Oid) → Option Entry
unfolding index oid_index
entry_of none = none
entry_of (some (hash, oid)) = elim (get_elem? oid_index (index oid)) [
  | none ↦ none
  | some base ↦ elim (get_elem? oid_index (index oid + 1)) [
    | none ↦ none
    | some end ↦ some (record { hash = hash; oid = oid; base = base; len = end - base })
  ]
]

unfoldable pub entry : ℕ → Option Entry
unfolding entry_of oid_search_table
entry j = entry_of (get_elem? oid_search_table j)

unfoldable pub judge : (octets : List ℕ) (hash : ℕ) → Entry → Option Verdict
judge octets hash e =
    if ltb hash e.hash
    then some lower
    else if ltb e.hash hash
    then some upper
    else if ltb (length octets) e.len
    then some lower
    else if ltb e.len (length octets)
    then some upper
    else compare_octets octets e.oid e.base e.len

unfoldable pub judge_at : (octets : List ℕ) (hash : ℕ) → Option Entry → Option Verdict
judge_at octets hash none = none
judge_at octets hash (some e) = judge octets hash e

pub data Search : Type 0 where
  hit : Oid → Search
  miss fault : Search

-- The loop over `[i, k)`; `miss` is the result OID__NR.
unfoldable pub search_loop : (fuel : ℕ) (octets : List ℕ) (hash i k : ℕ) → Search
search_loop zero octets hash i k = fault
search_loop (suc fuel) octets hash i k =
    let j = (i + k) / 2 in
    let body : Search = elim (judge_at octets hash (entry j)) [
      | none ↦ fault
      | some lower ↦ search_loop fuel octets hash i j
      | some upper ↦ search_loop fuel octets hash (j + 1) k
      | some (equal oid) ↦ hit oid
    ] in
    if ltb i k then body else miss

-- Each round shortens the range, so `nr + 1` rounds are enough.
unfoldable pub lookup_oid : List ℕ → Search
unfolding search_loop judge judge_at compare_octets entry hash_of oid_data
lookup_oid octets = search_loop (suc nr) octets (hash_of octets) 0 nr
