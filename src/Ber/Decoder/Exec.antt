-- ===== src/Ber/Decoder/Exec.antt =====
-- The `switch` of `asn1_ber_decoder` of listcerts/asn1_ber_decoder.c, its round and its loop. The
-- loop runs on fuel, since a machine may loop for ever.
use uefi_utilities.Base.{
  ℕ, zero, suc, ◌+◌, ◌-◌, ◌%◌, Bool, true, false, ◌&&◌, ◌||◌, Option, none, some, List, [], ◌∷◌,
  ltb, leb, ◌==◌, if◌then◌else◌, length,
}
use uefi_utilities.Ber.Run
use uefi_utilities.Ber.Run.{
  Run, ok, stop, data_fault, machine_fault, out_of_fuel, data_overrun, machine_overrun,
  jump_stack_underflow, jump_stack_overflow, cons_stack_underflow, cons_length, missing_eoc,
  invalid_eoc, tag_mismatch, no_message, read,
}
use uefi_utilities.Ber.Calls.{Actions, Calling, ◌>>=◌, lift, perform}
use uefi_utilities.Ber.Opcode.{
  matches_tag, op_lengths, is_cond, is_end_of, is_end_act, Case, any_act, tag_act, skip_data, jump,
  fail_unmatched, done, end_set_case, end_case, call, ret, bad, switch,
}
use uefi_utilities.Ber.Indefinite.{find_indefinite_length}
use uefi_utilities.Ber.Decoder.{
  Frame, State, stack_size, fetch, Head, skipped, taken, match_tag, match_length, match_cons,
}

-- What the function returns where no message is printed: 0, -EBADMSG, -EMSGSIZE, or the negative
-- result of an action.
pub data Status : Type 0 where
  success bad_message message_size : Status
  failed : ℕ → Status

pub data Step : Type 0 where
  next : State → Step
  returned : Status → Step

-- On an error of the scan the caller jumps to `error` with `Errmsg` still NULL.
unfoldable pub drop_message : {A : Type 0} → Run A → Run A
drop_message (ok a) = ok a
drop_message (stop m) = stop no_message
drop_message data_fault = data_fault
drop_message machine_fault = machine_fault
drop_message out_of_fuel = out_of_fuel

-- The label `skip_data`.
unfoldable pub skip_value : List ℕ → (oplen : ℕ) → State → Run Step
skip_value d oplen s =
    if s.cons
    then ok (next (record s { pc = s.pc + oplen }))
    else if s.indefinite
    then Run.◌>>=◌ (drop_message (find_indefinite_length d s.datalen s.dp))
        (λ r. ok (next (record s { pc = s.pc + oplen; dp = r.0; len = r.1 })))
    else ok (next (record s { pc = s.pc + oplen; dp = s.dp + s.len }))

unfoldable pub after_action : List ℕ → (oplen : ℕ) → State → Option ℕ → Run Step
after_action d oplen s (some e) = ok (returned (failed e))
after_action d oplen s none = skip_value d oplen s

-- The cases of a match with an action, whose number is operand `k`.
unfoldable pub match_act : Actions → List ℕ → List ℕ → (k oplen : ℕ) → State → Calling Step
match_act actions m d k oplen s = lift (fetch m (s.pc + k)) >>= λ a.
    perform actions (record { action = a; hdr = s.hdr; tag = s.tag; value = s.dp; vlen = s.len })
    >>= λ r. lift (after_action d oplen s r)

unfoldable pub match_jump : List ℕ → (oplen : ℕ) → State → Run Step
match_jump m oplen s =
    if length s.jump_stack == stack_size
    then stop jump_stack_overflow
    else Run.◌>>=◌ (fetch m (s.pc + 2)) (λ target.
      ok (next (record s { pc = target; jump_stack = (s.pc + oplen) % 256 ∷ s.jump_stack })))

unfoldable pub pop_jump : List ℕ → State → Run Step
pop_jump [] s = stop jump_stack_underflow
pop_jump (pc ∷ rest) s = ok (next (record s { pc = pc; jump_stack = rest }))

-- `csp++; pc = machine[pc + 1]`: the frame stays, for one more element of a SEQUENCE OF or SET OF.
unfoldable pub once_more : List ℕ → State → Frame → Run (State × Bool)
once_more m s f =
    Run.◌>>=◌ (fetch m (s.pc + 1))
      (λ target. ok (record s { pc = target; tdp = f.dp; hdr = f.hdr; len = s.datalen }, false))

-- The end of a compound form with frame `f` on top. The flag says whether the form is closed.
unfoldable pub end_frame :
    List ℕ → List ℕ → (op : ℕ) → State → Frame → List Frame → Run (State × Bool)
end_frame m d op s f rest =
    let closed = record s { tdp = f.dp; hdr = f.hdr; cons_stack = rest } in
    if f.datalen == 0
    then if ltb s.datalen (s.dp + 2)
      then stop data_overrun
      else Run.◌>>=◌ (read d s.dp) (λ b.
        if b == 0
        then Run.◌>>=◌ (read d (s.dp + 1)) (λ c.
          if c == 0
          then ok (record closed { dp = s.dp + 2; len = s.dp - f.dp }, true)
          else stop invalid_eoc)
        else if is_end_of op
        then once_more m s f
        else stop missing_eoc)
    else if ltb s.dp s.datalen && is_end_of op
    then once_more m s f
    else if s.dp == s.datalen
    then ok (record closed { datalen = f.datalen; len = s.datalen - f.dp }, true)
    else stop cons_length

unfoldable pub end_top : List ℕ → List ℕ → (op : ℕ) → State → List Frame → Run (State × Bool)
end_top m d op s [] = stop cons_stack_underflow
end_top m d op s (f ∷ rest) = end_frame m d op s f rest

-- Behind a compound form: its action, whose result is not looked at, and the next operation. Where
-- the form is not closed, only its body is entered again.
unfoldable pub after_frame : Actions → List ℕ → (op oplen : ℕ) → State → Bool → Calling Step
after_frame actions m op oplen t false = lift (ok (next t))
after_frame actions m op oplen t true =
    let u = record t { pc = t.pc + oplen } in
    if is_end_act op
    then (lift (fetch m (t.pc + (if is_end_of op then 2 else 1))) >>= λ a.
        perform actions (record { action = a; hdr = t.hdr; tag = 0; value = t.tdp; vlen = t.len })
        >>= λ _. lift (ok (next u)))
    else lift (ok (next u))

-- The cases END_SEQ to END_SET_OF_ACT, without the test of END_SET.
unfoldable pub end_compound : Actions → List ℕ → List ℕ → (op oplen : ℕ) → State → Calling Step
end_compound actions m d op oplen s =
    lift (end_top m d op s s.cons_stack) >>= λ r. after_frame actions m op oplen r.0 r.1

-- ASN1_OP_ACT
unfoldable pub act_on_last : Actions → List ℕ → (oplen : ℕ) → State → Calling Step
act_on_last actions m oplen s = lift (fetch m (s.pc + 1)) >>= λ a.
    perform actions (record { action = a; hdr = s.hdr; tag = s.tag; value = s.tdp; vlen = s.len })
    >>= λ _. lift (ok (next (record s { pc = s.pc + oplen })))

unfoldable pub is_empty {ℓ} : {A : Type ℓ} → List A → Bool
is_empty [] = true
is_empty (x ∷ xs) = false

unfoldable pub exec_case : Actions → List ℕ → List ℕ → (op oplen : ℕ) → State → Case → Calling Step
exec_case actions m d op oplen s any_act = match_act actions m d 1 oplen s
exec_case actions m d op oplen s tag_act = match_act actions m d 2 oplen s
exec_case actions m d op oplen s skip_data = lift (skip_value d oplen s)
exec_case actions m d op oplen s jump = lift (match_jump m oplen s)
exec_case actions m d op oplen s fail_unmatched =
    lift (if s.matched then ok (next (record s { pc = s.pc + oplen })) else stop tag_mismatch)
exec_case actions m d op oplen s done = lift (
    ok (returned (if is_empty s.jump_stack && is_empty s.cons_stack then success else bad_message)))
exec_case actions m d op oplen s end_set_case =
    if s.matched then end_compound actions m d op oplen s else lift (stop tag_mismatch)
exec_case actions m d op oplen s end_case = end_compound actions m d op oplen s
exec_case actions m d op oplen s call = act_on_last actions m oplen s
exec_case actions m d op oplen s ret = lift (pop_jump s.jump_stack s)
exec_case actions m d op oplen s bad = lift (ok (returned bad_message))

unfoldable pub exec : Actions → List ℕ → List ℕ → (op oplen : ℕ) → State → Calling Step
exec actions m d op oplen s = exec_case actions m d op oplen s (switch op)

-- `op` and its length, with the two tests against the end of the byte code.
unfoldable pub fetch_op : List ℕ → (pc : ℕ) → Run (ℕ × ℕ)
fetch_op m pc =
    if leb (length m) pc
    then stop machine_overrun
    else Run.◌>>=◌ (fetch m pc) (λ op.
      Run.◌>>=◌ (fetch op_lengths op)
        (λ oplen. if ltb (length m) (pc + oplen) then stop machine_overrun else ok (op, oplen)))

unfoldable pub match_head : List ℕ → List ℕ → (op oplen : ℕ) → State → Run Head
match_head m d op oplen s =
    if (is_cond op && s.matched) || s.dp == s.datalen
    then ok (skipped (record s { pc = s.pc + oplen }))
    else Run.◌>>=◌ (match_tag m d op oplen s) (elim [
      | skipped t ↦ ok (skipped t)
      | taken t ↦ Run.◌>>=◌ (match_length d t) (λ u. Run.◌>>=◌ (match_cons u) (λ v. ok (taken v)))
    ])

-- One round from the label `next_op`.
unfoldable pub step : Actions → List ℕ → List ℕ → State → Calling Step
step actions m d s = lift (fetch_op m s.pc) >>= λ o.
    if leb o.0 matches_tag
    then (lift (match_head m d o.0 o.1 s) >>= λ h. elim h [
      | skipped t ↦ lift (ok (next t))
      | taken t ↦ exec actions m d o.0 o.1 t
    ])
    else exec actions m d o.0 o.1 s

unfoldable pub loop : ℕ → Actions → List ℕ → List ℕ → State → Calling Status
loop zero actions m d s = lift out_of_fuel
loop (suc fuel) actions m d s = step actions m d s >>= λ r. elim r [
  | next t ↦ loop fuel actions m d t
  | returned c ↦ lift (ok c)
]

abbrev pub start : (datalen : ℕ) → State
start datalen = record {
  pc = 0;
  dp = 0;
  tdp = 0;
  len = 0;
  datalen = datalen;
  tag = 0;
  hdr = 0;
  indefinite = false;
  matched = false;
  cons = false;
  cons_stack = [];
  jump_stack = [];
}

-- `d` is the memory behind the pointer, `datalen` the length that the caller gives.
unfoldable pub asn1_ber_decoder :
    (fuel : ℕ) → Actions → (machine d : List ℕ) → (datalen : ℕ) → Calling Status
asn1_ber_decoder fuel actions m d datalen =
    if ltb 65535 datalen then lift (ok message_size) else loop fuel actions m d (start datalen)
