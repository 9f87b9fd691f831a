-- ===== src/Ber/Indefinite.antt =====
-- `asn1_find_indefinite_length` of listcerts/asn1_ber_decoder.c. `size_t` is `long` there
-- (asn1_ber_decoder.h), so `datalen - dp < 2` is a signed test, here `datalen < dp + 2`; no cursor
-- comes near 2 ^ 63, since a length has at most seven bytes and the next test stops an overrun.
pub mod Bounds
pub mod Element
pub mod Scan
use uefi_utilities.Base.{
  ℕ, zero, suc, ◌+◌, ◌-◌, ◌%◌, ◌^◌, Bool, true, false, List, ltb, leb, ◌==◌, if◌then◌else◌, has_bit,
  ◌||◌,
}
use uefi_utilities.Ber.Run.{
  Run, ok, stop, out_of_fuel, Message, data_overrun, missing_eoc, invalid_eoc, length_too_long,
  indefinite_len_primitive, ◌>>=◌, read, read_len,
}

-- The loop variables, or the cursor behind the last end-of-contents.
pub data Next : Type 0 where
  finished : ℕ → Next
  again : (dp level : ℕ) → Next

-- The `do … while (tmp & 0x80)` over the bytes of a long tag.
unfoldable pub skip_long_tag : ℕ → List ℕ → ℕ → ℕ → Run ℕ
skip_long_tag zero d datalen dp = out_of_fuel
skip_long_tag (suc fuel) d datalen dp =
    if ltb datalen (dp + 2)
    then stop data_overrun
    else read d dp >>= λ tmp. elim (has_bit tmp 7) [
      | true ↦ skip_long_tag fuel d datalen (dp + 1)
      | false ↦ ok (dp + 1)
    ]

-- From the length byte on; `tag` is the first byte of the tag. `len - 0x80` is compared unsigned,
-- so it is too long at 0x7f as well.
unfoldable pub skip_length : List ℕ → ℕ → ℕ → ℕ → ℕ → Run Next
skip_length d datalen tag dp level = read d dp >>= λ len.
    if ltb len 0x7f
    then ok (again (dp + 1 + len) level)
    else if len == 0x80
    then if has_bit tag 5 then ok (again (dp + 1) (level + 1)) else stop indefinite_len_primitive
    else if len == 0x7f || ltb 7 (len - 0x80)
    then stop length_too_long
    else if ltb datalen (dp + 1 + (len - 0x80))
    then stop data_overrun
    else read_len d (len - 0x80) (dp + 1) 0 >>= λ size.
        ok (again (dp + 1 + (len - 0x80) + size) level)

-- The end of contents: a second zero, after which the level falls.
unfoldable pub skip_eoc : List ℕ → ℕ → ℕ → Run Next
skip_eoc d dp level = read d (dp + 1) >>= λ e.
    if e == 0
    then ok (if leb level 1 then finished (dp + 2) else again (dp + 2) (level - 1))
    else stop invalid_eoc

unfoldable pub skip_tag : List ℕ → ℕ → ℕ → ℕ → Run ℕ
skip_tag d datalen tag dp =
    if tag % 32 == 31 then skip_long_tag (suc datalen) d datalen (dp + 1) else ok (dp + 1)

-- One round from the label `next_tag`.
unfoldable pub next_tag : List ℕ → ℕ → ℕ → ℕ → Run Next
next_tag d datalen dp level =
    if ltb datalen (dp + 2)
    then stop (if datalen == dp then missing_eoc else data_overrun)
    else (read d dp >>= λ tag.
        if tag == 0
        then skip_eoc d dp level
        else (skip_tag d datalen tag dp >>= λ dp'. skip_length d datalen tag dp' level))

unfoldable pub tag_loop : ℕ → List ℕ → ℕ → ℕ → ℕ → Run ℕ
tag_loop zero d datalen dp level = out_of_fuel
tag_loop (suc fuel) d datalen dp level = next_tag d datalen dp level >>= λ n. elim n [
  | finished dp' ↦ ok dp'
  | again dp' level' ↦ tag_loop fuel d datalen dp' level'
]

-- The new cursor and the length; the fuel is enough, since every round moves the cursor.
unfoldable pub find_indefinite_length : List ℕ → ℕ → ℕ → Run (ℕ × ℕ)
find_indefinite_length d datalen dp =
    tag_loop (suc datalen) d datalen dp 1 >>= λ dp'. ok (dp', dp' - dp)
