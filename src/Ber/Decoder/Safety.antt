-- ===== src/Ber/Decoder/Safety.antt =====
-- The invariant of the decoder's loop: reads inside the buffer with its slack, stacks within bounds.
use uefi_utilities.Base.{
  ℕ, zero, suc, ◌+◌, ◌*◌, ◌≤◌, ◌<◌, ◌≢◌, ◌&&◌, ◌||◌, List, [], arith, ltb, leb, ◌==◌, length, subst,
}
use uefi_utilities.Ber.Run.{data_fault}
use uefi_utilities.Ber.Safe.{Safe, Safe-if, Safe-if_calling, Safe-bind, Safe-and_then}
use uefi_utilities.Ber.Calls.{Call, Actions}
use uefi_utilities.Ber.Opcode.{op_lengths, matches_tag, is_cond}
use uefi_utilities.Ber.Decoder.{
  State, stack_size, fetch, Head, skipped, taken, match_tag, match_length, match_cons,
}
use uefi_utilities.Ber.Decoder.Exec.{
  next, returned, fetch_op, match_head, step, loop, start, asn1_ber_decoder,
}
use uefi_utilities.Ber.Decoder.Reads.{
  slack, Inv, fetch-Safe, HeadInv, match_tag-Safe, Headed, match_length-Safe, match_cons-Safe,
}
use uefi_utilities.Ber.Decoder.Cases.{StepInv, exec-Safe}

module _ (d : List ℕ) (datalen : ℕ) (room : datalen + stack_size * slack ≤ length d)
    (small : datalen + stack_size * slack < 65536) where
  fetch_op-Safe : (m : List ℕ) (pc : ℕ) → Safe (λ _. Unit {0}) (fetch_op m pc)
  unfolding fetch_op
  fetch_op-Safe m pc =
      Safe-if _ (leb (length m) pc) _ _ (λ _. tt)
        λ _.
          Safe-bind (λ _. Unit {0}) _ (fetch m pc) _ (fetch-Safe m pc)
            λ op _.
              Safe-bind (λ _. Unit {0}) _ (fetch op_lengths op) _ (fetch-Safe op_lengths op)
                λ n _. Safe-if _ (ltb (length m) (pc + n)) _ _ (λ _. tt) (λ _. tt)

  abbrev OpHeadInv : Head → Type 0
  OpHeadInv (skipped t) = Inv d datalen t
  OpHeadInv (taken t) = Inv d datalen t

  match_head-Safe :
      (m : List ℕ) (op oplen : ℕ) (s : State)
      → Inv d datalen s
      → Safe OpHeadInv (match_head m d op oplen s)
  unfolding match_head
  match_head-Safe m op oplen s i =
      Safe-if _ ((is_cond op && s.matched) || s.dp == s.datalen) _ _ (λ _. ground arith)
        λ _.
          Safe-bind (HeadInv d datalen room small) _ (match_tag m d op oplen s) _
            (match_tag-Safe d datalen room small m op oplen s i)
            (elim [
              | skipped t ↦ λ i'. i'
              | taken t ↦ λ (i', low, e).
                  Safe-bind (Headed d datalen room small) _ (match_length d t) _
                    (match_length-Safe d datalen room small t i' low e)
                    λ u hu.
                      Safe-bind (Inv d datalen) _ (match_cons u) _
                        (match_cons-Safe d datalen room small u hu) λ v iv. iv
            ])

  -- One round keeps the invariant.
  step-Safe :
      (actions : Actions) (m : List ℕ) (s : State) (h : List Call)
      → Inv d datalen s
      → Safe (StepInv d datalen room small) (step actions m d s h).1
  unfolding step
  step-Safe actions m s h i =
      Safe-and_then (λ _. Unit {0}) _ (h, fetch_op m s.pc) _ (fetch_op-Safe m s.pc)
        λ o h' _.
          Safe-if_calling _ (leb o.0 matches_tag) _ _ h'
            (λ _.
              Safe-and_then OpHeadInv _ (h', match_head m d o.0 o.1 s) _
                (match_head-Safe m o.0 o.1 s i)
                (elim [
                  | skipped t ↦ λ h'' i'. i'
                  | taken t ↦ λ h'' i'. exec-Safe d datalen room small actions m o.0 o.1 t h'' i'
                ]))
            (λ _. exec-Safe d datalen room small actions m o.0 o.1 s h' i)

  loop-Safe :
      (fuel : ℕ) (actions : Actions) (m : List ℕ) (s : State) (h : List Call)
      → Inv d datalen s
      → Safe (λ _. Unit {0}) (loop fuel actions m d s h).1
  unfolding loop
  loop-Safe zero actions m s h i = tt
  loop-Safe (suc fuel) actions m s h i =
      Safe-and_then (StepInv d datalen room small) _ (step actions m d s h) _
        (step-Safe actions m s h i)
        (elim [ next t ↦ λ h' i'. loop-Safe fuel actions m t h' i' | returned c ↦ λ h' _. tt ])

  -- With ten times 127 readable bytes behind the data, and the sum of both below 2 ^ 16, the
  -- decoder reads no byte outside the buffer: for any byte code, any bytes in the buffer, any
  -- answers of the actions, and any number of rounds.
  pub asn1_ber_decoder-ne-data_fault :
      (fuel : ℕ) (actions : Actions) (m : List ℕ)
      → (asn1_ber_decoder fuel actions m d datalen []).1 ≢ data_fault
  unfolding asn1_ber_decoder
  asn1_ber_decoder-ne-data_fault fuel actions m e = subst (Safe (λ _. Unit {0})) e (
      Safe-if_calling _ (ltb 65535 datalen) _ _ [] (λ _. tt)
        λ _. loop-Safe fuel actions m (start datalen) [] started)
    where
      started : Inv d datalen (start datalen)
      started = omega arith
