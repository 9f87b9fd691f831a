-- ===== src/Ber/Decoder.antt =====
-- The variables of `asn1_ber_decoder` of listcerts/asn1_ber_decoder.c, and the part of its round
-- that matches a tag; the rest is in the child `Exec`. `size_t` is `long`, so the tests on lengths
-- are signed; they are written with sums here. The stacks are lists, the top first.
pub mod Exec
pub mod Reads
pub mod Cases
pub mod Safety
pub mod Element
use uefi_utilities.Base.{
  ℕ, ◌+◌, ◌-◌, ◌*◌, ◌/◌, ◌%◌, Bool, true, false, not, Option, none, some, List, ◌∷◌, ltb, leb, ◌==◌,
  if◌then◌else◌, has_bit, length, get_elem?,
}
use Prim.Native.Nat.{bit_xor}
use uefi_utilities.Ber.Run.{
  Run, ok, stop, machine_fault, data_overrun, cons_stack_overflow, length_too_long,
  indefinite_len_primitive, tag_mismatch, long_tag_not_supported, ◌>>=◌, read, read_len,
}
use uefi_utilities.Ber.Opcode.{is_skip, is_any}

-- One level of `cons_dp_stack`, `cons_datalen_stack` and `cons_hdrlen_stack`.
pub record Frame : Type 0 where
  pub dp : ℕ
  pub datalen : ℕ
  pub hdr : ℕ

-- The variables of the function; `flags` as its three bits.
pub record State : Type 0 where
  pub pc : ℕ
  pub dp : ℕ
  pub tdp : ℕ
  pub len : ℕ
  pub datalen : ℕ
  pub tag : ℕ
  pub hdr : ℕ
  pub indefinite : Bool
  pub matched : Bool
  pub cons : Bool
  pub cons_stack : List Frame
  pub jump_stack : List ℕ

-- NR_CONS_STACK and NR_JUMP_STACK
abbrev pub stack_size : ℕ
stack_size = 10

-- An operand or operation of the byte code.
abbrev pub in_machine : Option ℕ → Run ℕ
in_machine none = machine_fault
in_machine (some b) = ok b

unfoldable pub fetch : List ℕ → ℕ → Run ℕ
fetch m pc = in_machine (get_elem? m pc)

-- `tmp = optag ^ tag; tmp &= ~(optag & ASN1_CONS_BIT); tmp != 0`: bit 5 is cleared where `optag`
-- has it.
unfoldable pub tag_differs : ℕ → ℕ → Bool
tag_differs optag tag =
    let tmp = bit_xor optag tag in
    not ((if has_bit optag 5 then tmp / 64 * 64 + tmp % 32 else tmp) == 0)

-- What the tag matching makes of an operation: it is skipped, or the tag has been read.
pub data Head : Type 0 where
  skipped : State → Head
  taken : State → Head

-- From the test `dp >= datalen - 1` up to the length byte. `oplen` is `asn1_op_lengths[op]`.
unfoldable pub match_tag : List ℕ → List ℕ → (op oplen : ℕ) → State → Run Head
match_tag m d op oplen s =
    if leb s.datalen (s.dp + 1)
    then stop data_overrun
    else (read d s.dp >>= λ tag.
        let t = record s {
          dp = s.dp + 1;
          tag = tag;
          hdr = 2;
          indefinite = false;
          matched = true;
          cons = false;
        } in
        if tag % 32 == 31
        then stop long_tag_not_supported
        else if is_any op
        then ok (taken t)
        else (fetch m (s.pc + 1) >>= λ optag.
            let u = record t { cons = has_bit optag 5 } in
            if tag_differs optag tag
            then if is_skip op
              then ok (skipped (record u { pc = s.pc + oplen; dp = s.dp; matched = false }))
              else stop tag_mismatch
            else ok (taken u)))

-- From `len = data[dp++]` up to the stacking of compound forms.
unfoldable pub match_length : List ℕ → State → Run State
match_length d s = read d s.dp >>= λ len.
    let t = record s { dp = s.dp + 1; len = len } in
    if leb len 0x7f
    then ok t
    else if len == 0x80
    then if has_bit s.tag 5
      then if ltb s.datalen (s.dp + 1 + 2)
        then stop data_overrun
        else ok (record t { indefinite = true })
      else stop indefinite_len_primitive
    else let n = len - 0x80 in
      if ltb 2 n
      then stop length_too_long
      else if leb s.datalen (s.dp + 1 + n)
      then stop data_overrun
      else (read_len d n (s.dp + 1) 0 >>= λ size.
          if ltb s.datalen (s.dp + 1 + n + size)
          then stop data_overrun
          else ok (record t { dp = s.dp + 1 + n; len = size; hdr = s.hdr + n }))

-- `if (flags & FLAG_CONS) { … }  tdp = dp;`: the stacks hold 16 and 8 bits.
unfoldable pub match_cons : State → Run State
match_cons s =
    let stored = if s.indefinite then 0 else s.datalen % 65536 in
    let frame : Frame = record { dp = s.dp % 65536; datalen = stored; hdr = s.hdr % 256 } in
    let end = if s.indefinite then s.datalen else s.dp + s.len in
    if s.cons
    then if leb stack_size (length s.cons_stack)
      then stop cons_stack_overflow
      else ok (record s { tdp = s.dp; datalen = end; cons_stack = frame ∷ s.cons_stack })
    else ok (record s { tdp = s.dp })
