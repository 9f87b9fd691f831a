-- ===== src/Ber/Opcode.antt =====
-- The byte code of listcerts/asn1_ber_bytecode.h, and the table of operation lengths.
use uefi_utilities.Base.{ℕ, Bool, ◌||◌, List, [], ◌∷◌, ◌==◌, if◌then◌else◌, has_bit}

-- `enum asn1_opcode`; the other values of a byte have no name.
pub data Opcode : Type 0 where
  match match_or_skip match_act match_act_or_skip match_jump match_jump_or_skip : Opcode
  match_any match_any_act : Opcode
  cond_match_or_skip cond_match_act_or_skip cond_match_jump_or_skip : Opcode
  cond_match_any cond_match_any_act : Opcode
  cond_fail complete act return : Opcode
  end_seq end_set end_seq_of end_set_of end_seq_act end_set_act end_seq_of_act end_set_of_act :
      Opcode

unfoldable pub code : Opcode → ℕ
code match = 0x00
code match_or_skip = 0x01
code match_act = 0x02
code match_act_or_skip = 0x03
code match_jump = 0x04
code match_jump_or_skip = 0x05
code match_any = 0x08
code match_any_act = 0x0a
code cond_match_or_skip = 0x11
code cond_match_act_or_skip = 0x13
code cond_match_jump_or_skip = 0x15
code cond_match_any = 0x18
code cond_match_any_act = 0x1a
code cond_fail = 0x1b
code complete = 0x1c
code act = 0x1d
code return = 0x1e
code end_seq = 0x20
code end_set = 0x21
code end_seq_of = 0x22
code end_set_of = 0x23
code end_seq_act = 0x24
code end_set_act = 0x25
code end_seq_of_act = 0x26
code end_set_of_act = 0x27

-- `ASN1_OP__MATCHES_TAG`
abbrev pub matches_tag : ℕ
matches_tag = 0x1a

-- `asn1_op_lengths`; an entry that the initialiser does not name is 0.
abbrev pub op_lengths : List ℕ
op_lengths =
    2 ∷ 2 ∷ 3 ∷ 3 ∷ 3 ∷ 3 ∷ 0 ∷ 0 ∷ 1 ∷ 0 ∷ 2 ∷ 0 ∷ 0 ∷ 0 ∷ 0 ∷ 0  -- 0x00
    ∷ 0 ∷ 2 ∷ 0 ∷ 3 ∷ 0 ∷ 3 ∷ 0 ∷ 0 ∷ 1 ∷ 0 ∷ 2 ∷ 1 ∷ 1 ∷ 2 ∷ 1 ∷ 0  -- 0x10
    ∷ 1 ∷ 1 ∷ 2 ∷ 2 ∷ 2 ∷ 2 ∷ 3 ∷ 3 ∷ []  -- 0x20

-- The flag bits that the macros of the header name: SKIP, ACT, JUMP, ANY and COND of a matching
-- operation, SET, OF and ACT of an ending one.
abbrev pub is_skip : ℕ → Bool
is_skip op = has_bit op 0

abbrev pub is_any : ℕ → Bool
is_any op = has_bit op 3

abbrev pub is_cond : ℕ → Bool
is_cond op = has_bit op 4

abbrev pub is_end_of : ℕ → Bool
is_end_of op = has_bit op 1

abbrev pub is_end_act : ℕ → Bool
is_end_act op = has_bit op 2

-- The groups of cases of the `switch` in `asn1_ber_decoder`.
pub data Case : Type 0 where
  any_act tag_act skip_data jump fail_unmatched done end_set_case end_case call ret bad : Case

unfoldable pub switch : ℕ → Case
unfolding code
switch op =
    if op == code match_any_act || op == code cond_match_any_act
    then any_act
    else if op == code match_act
        || op == code match_act_or_skip
        || op == code cond_match_act_or_skip
    then tag_act
    else if op == code match
        || op == code match_or_skip
        || op == code match_any
        || op == code cond_match_or_skip
        || op == code cond_match_any
    then skip_data
    else if op == code match_jump
        || op == code match_jump_or_skip
        || op == code cond_match_jump_or_skip
    then jump
    else if op == code cond_fail
    then fail_unmatched
    else if op == code complete
    then done
    else if op == code end_set || op == code end_set_act
    then end_set_case
    else if op == code end_seq
        || op == code end_set_of
        || op == code end_seq_of
        || op == code end_seq_act
        || op == code end_set_of_act
        || op == code end_seq_of_act
    then end_case
    else if op == code act
    then call
    else if op == code return
    then ret
    else bad
