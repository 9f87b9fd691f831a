-- ===== src/Oid/Sprint.antt =====
-- `Sprint_OID` of listcerts/oid_registry.c. `SPrint` is gnu-efi's: it is the parameter `sprint`, which
-- is given a size in bytes and a text of CHAR16 and returns the characters that it wrote, and `dec`
-- is its decimal form of a number. The code takes the count of characters from the size in bytes.
use uefi_utilities.Base.{
  ℕ, zero, suc, ◌+◌, ◌-◌, ◌*◌, ◌/◌, ◌%◌, ◌^◌, Option, none, some, List, [], ◌∷◌, ◌++◌, ◌==◌,
  if◌then◌else◌, has_bit, length,
}
pub mod Print

-- The text in the buffer (the result is its length), -EBADMSG or -ENOBUFS.
pub data Sprinted : Type 0 where
  printed : List ℕ → Sprinted
  bad_message no_buffers : Sprinted

-- The `do … while (n & 0x80)`: `num` is a UINT64, and its low bits are clear after the shift.
unfoldable pub more_arc : ℕ → List ℕ → Option (ℕ × List ℕ)
more_arc num [] = none
more_arc num (n ∷ v) =
    let num' = num * 128 % 2 ^ 64 + n % 128 in
    let rest = more_arc num' v in if has_bit n 7 then rest else some (num', v)

-- The next number, from its first byte.
unfoldable pub next_arc : ℕ → List ℕ → Option (ℕ × List ℕ)
unfolding more_arc
next_arc n v = if has_bit n 7 then more_arc (n % 128) v else some (n, v)

module _ (sprint : ℕ → List ℕ → List ℕ) (dec : ℕ → List ℕ) where
  -- `buffer += count; bufsize -= count`, and `none` where nothing is left of the size.
  unfoldable pub put : (bufsize : ℕ) (buffer text : List ℕ) → Option (ℕ × List ℕ)
  put bufsize buffer text =
      let out = sprint bufsize text in
      if bufsize - length out == 0 then none else some (bufsize - length out, buffer ++ out)

  -- `while (v < end)`, with what has been printed; the fuel is at least the bytes left.
  unfoldable pub arc_loop : (fuel bufsize : ℕ) → (buffer v : List ℕ) → Sprinted
  arc_loop fuel bufsize buffer [] = printed buffer
  arc_loop zero bufsize buffer (n ∷ v) = bad_message
  arc_loop (suc fuel) bufsize buffer (n ∷ v) = elim (next_arc n v) [
    | none ↦ bad_message
    | some (num, v') ↦ elim (put bufsize buffer (b'.' ∷ dec num)) [
      | none ↦ no_buffers
      | some (bufsize', buffer') ↦ arc_loop fuel bufsize' buffer' v'
    ]
  ]

  unfoldable pub sprint_oid : List ℕ → ℕ → Sprinted
  sprint_oid [] bufsize = bad_message
  sprint_oid (n ∷ v) bufsize = elim (put bufsize [] (dec (n / 40) ++ (b'.' ∷ dec (n % 40)))) [
    | none ↦ no_buffers
    | some (bufsize', buffer) ↦ arc_loop (length v) bufsize' buffer v
  ]
