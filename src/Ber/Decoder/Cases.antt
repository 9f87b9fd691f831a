-- ===== src/Ber/Decoder/Cases.antt =====
-- Every case of the decoder's `switch` keeps the invariant of `Reads`.
use uefi_utilities.Base.{
  ℕ, ◌+◌, ◌*◌, ◌≤◌, ◌<◌, ◌≡◌, refl, Bool, true, false, ◌&&◌, Option, none, some, List, [], ◌∷◌,
  arith, ltb, ◌==◌, if◌then◌else◌, length, subst,
}
use uefi_utilities.Ber.Run.{Run, ok, stop, data_fault, machine_fault, out_of_fuel}
use uefi_utilities.Ber.Ends.{Ends-mono}
use uefi_utilities.Ber.Safe.{
  Safe, Ends→Safe, Safe-if, Safe-if_calling, Safe-read, Safe-bind, Safe-and_then,
}
use uefi_utilities.Ber.Calls.{Call, Actions}
use uefi_utilities.Ber.Opcode.{
  is_end_of, is_end_act, Case, switch, any_act, tag_act, skip_data, jump, fail_unmatched, done,
  end_set_case, end_case, call, ret, bad,
}
use uefi_utilities.Ber.Indefinite.{find_indefinite_length}
use uefi_utilities.Ber.Indefinite.Bounds.{find_indefinite_length-Ends}
use uefi_utilities.Ber.Decoder.{Frame, State, stack_size, fetch}
use uefi_utilities.Ber.Decoder.Exec.{
  Step, next, returned, drop_message, skip_value, after_action, after_frame, match_act, match_jump,
  pop_jump, once_more, end_frame, end_top, end_compound, act_on_last, exec_case, exec,
}
use uefi_utilities.Ber.Decoder.Reads.{slack, limit, FramesWithin, Inv, Inv-fits, fetch-Safe}

drop_message-Safe : {A : Type 0} (P : A → Type 0) (r : Run A) → Safe P r → Safe P (drop_message r)
unfolding drop_message
drop_message-Safe P (ok a) h = h
drop_message-Safe P (stop m) h = h
drop_message-Safe P data_fault h = h
drop_message-Safe P machine_fault h = h
drop_message-Safe P out_of_fuel h = h

module _ (d : List ℕ) (datalen : ℕ) (room : datalen + stack_size * slack ≤ length d)
    (small : datalen + stack_size * slack < 65536) where
  -- What a round keeps.
  abbrev pub StepInv : Step → Type 0
  StepInv (next t) = Inv d datalen t
  StepInv (returned c) = Unit

  skip_value-Safe : (oplen : ℕ) (s : State) → Inv d datalen s → Safe StepInv (skip_value d oplen s)
  unfolding skip_value
  skip_value-Safe oplen s i =
      Safe-if _ s.cons _ _ (λ _. ground arith)
        λ _.
          Safe-if _ s.indefinite _ _
            (λ _.
              Safe-bind (λ _. Unit {0}) _ (drop_message (find_indefinite_length d s.datalen s.dp)) _
                (drop_message-Safe _ _ found) λ r _. ground arith)
            (λ _. ground arith)
    where
      fits : s.datalen ≤ length d
      fits = Inv-fits d datalen room small i

      found : Safe (λ _. Unit {0}) (find_indefinite_length d s.datalen s.dp)
      found =
          Ends→Safe (λ _. Unit {0}) (find_indefinite_length d s.datalen s.dp)
            (Ends-mono _ (λ _. Unit {0}) (find_indefinite_length d s.datalen s.dp)
              (find_indefinite_length-Ends d s.datalen fits s.dp) λ a p. tt)

  after_action-Safe :
      (oplen : ℕ) (s : State) (r : Option ℕ)
      → Inv d datalen s
      → Safe StepInv (after_action d oplen s r)
  unfolding after_action
  after_action-Safe oplen s none i = skip_value-Safe oplen s i
  after_action-Safe oplen s (some e) i = tt

  match_act-Safe :
      (actions : Actions) (m : List ℕ) (k oplen : ℕ) (s : State) (h : List Call)
      → Inv d datalen s
      → Safe StepInv (match_act actions m d k oplen s h).1
  unfolding match_act
  match_act-Safe actions m k oplen s h i =
      Safe-and_then (λ _. Unit {0}) _ (h, fetch m (s.pc + k)) _ (fetch-Safe m (s.pc + k))
        λ a h' _. after_action-Safe oplen s _ i

  match_jump-Safe :
      (m : List ℕ) (oplen : ℕ) (s : State) → Inv d datalen s → Safe StepInv (match_jump m oplen s)
  unfolding match_jump
  match_jump-Safe m oplen s i =
      Safe-if _ (length s.jump_stack == stack_size) _ _ (λ _. tt)
        λ c.
          Safe-bind (λ _. Unit {0}) _ (fetch m (s.pc + 2)) _ (fetch-Safe m (s.pc + 2))
            λ target _. ground arith

  pop_jump-Safe :
      (stack : List ℕ) (s : State)
      → Inv d datalen s
      → length stack ≤ stack_size
      → Safe StepInv (pop_jump stack s)
  unfolding pop_jump
  pop_jump-Safe [] s i h = tt
  pop_jump-Safe (pc ∷ rest) s i h = ground arith

  -- The state before the action of a compound form.
  abbrev FrameInv : State × Bool → Type 0
  FrameInv r = Inv d datalen r.0

  once_more-Safe :
      (m : List ℕ) (s : State) (f : Frame) → Inv d datalen s → Safe FrameInv (once_more m s f)
  unfolding once_more
  once_more-Safe m s f i =
      Safe-bind (λ _. Unit {0}) _ (fetch m (s.pc + 1)) _ (fetch-Safe m (s.pc + 1))
        λ target _. ground arith

  -- The invariant read at the top frame.
  abbrev TopInv : State → List Frame → Type 0
  TopInv s fs =
      (s.datalen ≤ limit d datalen fs) × FramesWithin d datalen fs × (length fs ≤ stack_size)

  Inv-TopInv : (s : State) (fs : List Frame) → Inv d datalen s → s.cons_stack ≡ fs → TopInv s fs
  Inv-TopInv s fs i e = subst (TopInv s) e (i.within, i.frames, i.cons_depth)

  end_frame-Safe :
      (m : List ℕ) (op : ℕ) (s : State) (f : Frame) (rest : List Frame)
      → Inv d datalen s
      → s.cons_stack ≡ f ∷ rest
      → Safe FrameInv (end_frame m d op s f rest)
  unfolding end_frame
  end_frame-Safe m op s f rest i e =
      Safe-if _ (f.datalen == 0) _ _
        (λ z.
          Safe-if _ (ltb s.datalen (s.dp + 2)) _ _ (λ _. tt)
            λ c. Safe-read _ d s.dp _ (ground (arith, fits)) λ b _.
              Safe-if _ (b == 0) _ _
                (λ _.
                  Safe-read _ d (s.dp + 1) _ (ground (arith, fits))
                    λ b' _. Safe-if _ (b' == 0) _ _ (λ _. ground (arith, top)) (λ _. tt))
                (λ _. Safe-if _ (is_end_of op) _ _ (λ _. once_more-Safe m s f i) (λ _. tt)))
        λ z.
          Safe-if _ (ltb s.dp s.datalen && is_end_of op) _ _ (λ _. once_more-Safe m s f i)
            λ _. Safe-if _ (s.dp == s.datalen) _ _ (λ _. ground (arith, top)) (λ _. tt)
    where
      fits : s.datalen ≤ length d
      fits = Inv-fits d datalen room small i

      top : TopInv s (f ∷ rest)
      top = Inv-TopInv s (f ∷ rest) i e

  end_top-Safe :
      (m : List ℕ) (op : ℕ) (s : State) (stack : List Frame)
      → Inv d datalen s
      → s.cons_stack ≡ stack
      → Safe FrameInv (end_top m d op s stack)
  unfolding end_top
  end_top-Safe m op s [] i e = tt
  end_top-Safe m op s (f ∷ rest) i e = end_frame-Safe m op s f rest i e

  after_frame-Safe :
      (actions : Actions) (m : List ℕ) (op oplen : ℕ) (t : State) (closed : Bool) (h : List Call)
      → Inv d datalen t
      → Safe StepInv (after_frame actions m op oplen t closed h).1
  unfolding after_frame
  after_frame-Safe actions m op oplen t false h i = i
  after_frame-Safe actions m op oplen t true h i =
      Safe-if_calling _ (is_end_act op) _ _ h
        (λ _.
          Safe-and_then (λ _. Unit {0}) _ (h, fetch m operand) _ (fetch-Safe m operand)
            λ a h' _. ground arith)
        (λ _. ground arith)
    where
      operand : ℕ
      operand = t.pc + (if is_end_of op then 2 else 1)

  end_compound-Safe :
      (actions : Actions) (m : List ℕ) (op oplen : ℕ) (s : State) (h : List Call)
      → Inv d datalen s
      → Safe StepInv (end_compound actions m d op oplen s h).1
  unfolding end_compound
  end_compound-Safe actions m op oplen s h i =
      Safe-and_then FrameInv _ (h, end_top m d op s s.cons_stack) _
        (end_top-Safe m op s s.cons_stack i refl)
        λ r h' i'. after_frame-Safe actions m op oplen r.0 r.1 h' i'

  act_on_last-Safe :
      (actions : Actions) (m : List ℕ) (oplen : ℕ) (s : State) (h : List Call)
      → Inv d datalen s
      → Safe StepInv (act_on_last actions m oplen s h).1
  unfolding act_on_last
  act_on_last-Safe actions m oplen s h i =
      Safe-and_then (λ _. Unit {0}) _ (h, fetch m (s.pc + 1)) _ (fetch-Safe m (s.pc + 1))
        λ a h' _. ground arith

  pub exec-Safe :
      (actions : Actions) (m : List ℕ) (op oplen : ℕ) (s : State) (h : List Call)
      → Inv d datalen s
      → Safe StepInv (exec actions m d op oplen s h).1
  unfolding exec exec_case
  exec-Safe actions m op oplen s h i = go (switch op)
    where
      go : (c : Case) → Safe StepInv (exec_case actions m d op oplen s c h).1
      go any_act = match_act-Safe actions m 1 oplen s h i
      go tag_act = match_act-Safe actions m 2 oplen s h i
      go skip_data = skip_value-Safe oplen s i
      go jump = match_jump-Safe m oplen s i
      go fail_unmatched = ground arith
      go done = tt
      go end_set_case =
          Safe-if_calling _ s.matched _ _ h (λ _. end_compound-Safe actions m op oplen s h i)
            (λ _. tt)
      go end_case = end_compound-Safe actions m op oplen s h i
      go call = act_on_last-Safe actions m oplen s h i
      go ret = pop_jump-Safe s.jump_stack s i i.jump_depth
      go bad = tt
