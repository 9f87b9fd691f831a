-- ===== src/Ber/Decoder/Element.antt =====
-- A round of `asn1_ber_decoder` of listcerts/asn1_ber_decoder.c at MATCH_ACT, on a primitive element
-- with a short length.
use Prim.Native.Nat.{bit_xor}
use uefi_utilities.Base.{
  ℕ, ◌+◌, ◌%◌, ◌≤◌, ◌<◌, ◌≡◌, ◌≢◌, refl, ap, ◌∙◌, true, false, Option, none, some, List, [], ◌∷◌,
  arith, ltb, leb, ◌==◌, has_bit, length, get_elem?, holds_below, holds_below_at,
}
use uefi_utilities.Ber.Run.{ok, At, read-ok}
use uefi_utilities.Ber.Calls.{Call, Actions}
use uefi_utilities.Ber.Opcode
use uefi_utilities.Ber.Opcode.{op_lengths, matches_tag, switch, code}
use uefi_utilities.Ber.Decoder.{
  State, taken, fetch, tag_differs, match_tag, match_length, match_cons,
}
use uefi_utilities.Ber.Decoder.Exec.{
  Step, next, returned, failed, fetch_op, match_head, exec, exec_case, match_act, after_action,
  skip_value, step,
}

same_byte : (tag : ℕ) → tag < 256 → bit_xor tag tag ≡ 0
same_byte tag h = eq (holds_below_at (λ t. bit_xor t t == 0) 256 tag h checked)
  where
    checked : holds_below (λ t. bit_xor t t == 0) 256 ≡ true
    checked = unfold holds_below in refl

    eq : (bit_xor tag tag == 0) ≡ true → bit_xor tag tag ≡ 0
    eq e = ground arith

tag_differs-same : (tag : ℕ) → tag < 256 → tag_differs tag tag ≡ false
unfolding tag_differs
tag_differs-same tag h = rw (same_byte tag h) (ground arith)

fetch-ok : (m : List ℕ) (pc b : ℕ) → get_elem? m pc ≡ some b → fetch m pc ≡ ok b
unfolding fetch
fetch-ok m pc b e = rw e refl

fetch_op-match_act :
    (m : List ℕ) (pc : ℕ) → get_elem? m pc ≡ some 2 → pc + 3 ≤ length m → fetch_op m pc ≡ ok (2, 3)
unfolding fetch_op
fetch_op-match_act m pc e h =
    let inside : leb (length m) pc ≡ false = ground arith in
    let whole : ltb (length m) (pc + 3) ≡ false = ground arith in
    rw (inside, fetch-ok m pc 2 e, fetch-ok op_lengths 2 3 refl, whole) refl

-- The variables behind the tag, behind the length, and where the value begins.
abbrev behind_tag : ℕ → State → State
behind_tag tag s = record s {
  dp = s.dp + 1;
  tag = tag;
  hdr = 2;
  indefinite = false;
  matched = true;
  cons = has_bit tag 5;
}

abbrev behind_length : ℕ → ℕ → State → State
behind_length tag len s = record (behind_tag tag s) { dp = s.dp + 1 + 1; len = len }

abbrev at_value : ℕ → ℕ → State → State
at_value tag len s = record (behind_length tag len s) { tdp = s.dp + 1 + 1 }

match_tag-taken :
    (m d : List ℕ) (s : State) (tag : ℕ)
    → get_elem? m (s.pc + 1) ≡ some tag
    → get_elem? d s.dp ≡ some tag
    → tag < 256
    → tag % 32 ≢ 31
    → s.dp + 1 < s.datalen
    → match_tag m d 2 3 s ≡ ok (taken (behind_tag tag s))
unfolding match_tag
match_tag-taken m d s tag op e byte short room =
    let inside : leb s.datalen (s.dp + 1) ≡ false = ground arith in
    let low : (tag % 32 == 31) ≡ false = ground arith in
    rw (inside, read-ok d s.dp e, low, fetch-ok m (s.pc + 1) tag op, tag_differs-same tag byte) refl

match_length-short :
    (d : List ℕ) (s : State) (len : ℕ)
    → get_elem? d s.dp ≡ some len
    → len ≤ 0x7f
    → match_length d s ≡ ok (record s { dp = s.dp + 1; len = len })
unfolding match_length
match_length-short d s len e short =
    let below : leb len 0x7f ≡ true = ground arith in rw (read-ok d s.dp e, below) refl

match_head-taken :
    (m d : List ℕ) (s : State) (tag len : ℕ)
    → get_elem? m (s.pc + 1) ≡ some tag
    → get_elem? d s.dp ≡ some tag
    → get_elem? d (s.dp + 1) ≡ some len
    → tag < 256
    → tag % 32 ≢ 31
    → has_bit tag 5 ≡ false
    → len ≤ 0x7f
    → s.dp + 1 < s.datalen
    → match_head m d 2 3 s ≡ ok (taken (at_value tag len s))
unfolding match_head match_cons
match_head-taken m d s tag len op e e' byte low primitive short room =
    let inside : (s.dp == s.datalen) ≡ false = ground arith in
    rw
      (
        inside,
        match_tag-taken m d s tag op e byte low room,
        match_length-short d (behind_tag tag s) len e' short,
        primitive,
      )
      refl

-- What follows the answer of the action: its error is returned, or the cursor moves behind the
-- value and the next operation follows.
abbrev pub answered : ℕ → ℕ → State → Option ℕ → Step
answered tag len s (some e) = returned (failed e)
answered tag len s none =
    next (record (at_value tag len s) { pc = s.pc + 3; dp = s.dp + 1 + 1 + len })

after_action-answered :
    (d : List ℕ) (tag len : ℕ) (s : State) (answer : Option ℕ)
    → has_bit tag 5 ≡ false
    → after_action d 3 (at_value tag len s) answer ≡ ok (answered tag len s answer)
unfolding after_action skip_value
after_action-answered d tag len s (some e) primitive = refl
after_action-answered d tag len s none primitive = rw primitive refl

abbrev pub call_at : ℕ → ℕ → ℕ → State → Call
call_at a tag len s = record { action = a; hdr = 2; tag = tag; value = s.dp + 1 + 1; vlen = len }

-- The operation MATCH_ACT for a primitive tag of one byte stands in the byte code, and the same tag
-- and a short length stand at the cursor, before the end of the data. Then the round calls the
-- action once, with the tag, the offset behind both bytes and the length, and afterwards returns
-- the action's error, or goes on behind the operation and behind the value.
pub step-match_act :
    (actions : Actions) (m d : List ℕ) (s : State) (h : List Call) (a tag len : ℕ)
    → At m s.pc (code Opcode.match_act ∷ tag ∷ a ∷ [])
    → s.pc + 3 ≤ length m
    → At d s.dp (tag ∷ len ∷ [])
    → tag < 256
    → tag % 32 ≢ 31
    → has_bit tag 5 ≡ false
    → len ≤ 0x7f
    → s.dp + 1 < s.datalen
    → step actions m d s h
      ≡ (call_at a tag len s ∷ h, ok (answered tag len s (actions h (call_at a tag len s))))
unfolding step exec exec_case switch match_act code
step-match_act actions m d s h a tag len ops inside bytes byte low primitive short room =
    let third : get_elem? m (s.pc + 2) ≡ some a = ap (get_elem? m) (omega arith) ∙ ops.1.1.0 in
    rw
      (
        fetch_op-match_act m s.pc ops.0 inside,
        match_head-taken m d s tag len ops.1.0 bytes.0 bytes.1.0 byte low primitive short room,
        fetch-ok m (s.pc + 2) a third,
        after_action-answered d tag len s (actions h (call_at a tag len s)) primitive,
      )
      refl
