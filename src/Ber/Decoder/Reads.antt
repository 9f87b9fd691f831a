-- ===== src/Ber/Decoder/Reads.antt =====
-- Which bytes the decoder reads, and how deep its stacks get.
use uefi_utilities.Base.{
  ℕ, zero, suc, ◌+◌, ◌-◌, ◌*◌, ◌%◌, ◌≤◌, ◌<◌, ◌≡◌, false, List, [], ◌∷◌, Option, none, some, arith,
  ltb, leb, ◌==◌, if◌then◌else◌, has_bit, length, get_elem?,
}
use uefi_utilities.Ber.Run.{read_len}
use uefi_utilities.Ber.Safe.{Safe, Safe-if, Safe-read, Safe-bind}
use uefi_utilities.Ber.Opcode.{is_skip, is_any}
use uefi_utilities.Ber.Decoder.{
  Frame, State, stack_size, fetch, in_machine, tag_differs, Head, skipped, taken, match_tag,
  match_length, match_cons,
}

-- The most that a nested definite length can move the end of data: a length byte of 127.
abbrev pub slack : ℕ
slack = 127

pub fetch-Safe : (m : List ℕ) (pc : ℕ) → Safe (λ _. Unit {0}) (fetch m pc)
unfolding fetch
fetch-Safe m pc = found (get_elem? m pc)
  where
    found : (o : Option ℕ) → Safe (λ _. Unit {0}) (in_machine o)
    found none = tt
    found (some b) = tt

module _ (d : List ℕ) (datalen : ℕ) where
  -- The end of data that the frames allow: each definite one moves it by the slack at most.
  abbrev pub limit : List Frame → ℕ
  limit [] = datalen
  limit (f ∷ fs) = if f.datalen == 0 then limit fs else limit fs + slack

  abbrev pub FramesWithin : List Frame → Type 0
  FramesWithin [] = Unit
  FramesWithin (f ∷ fs) = (f.datalen ≤ limit fs) × FramesWithin fs

  pub record Inv (s : State) : Type 0 where
    pub within : s.datalen ≤ limit s.cons_stack
    pub frames : FramesWithin s.cons_stack
    pub cons_depth : length s.cons_stack ≤ stack_size
    pub jump_depth : length s.jump_stack ≤ stack_size

  limit-le : (fs : List Frame) → limit fs ≤ datalen + length fs * slack
  limit-le [] = omega arith
  limit-le (f ∷ fs) = ground (arith, limit-le fs)

  module _ (room : datalen + stack_size * slack ≤ length d)
      (small : datalen + stack_size * slack < 65536) where
    pub Inv-datalen : {s : State} → Inv s → s.datalen ≤ datalen + stack_size * slack
    Inv-datalen {s} i = omega (arith, limit-le s.cons_stack)

    pub Inv-fits : {s : State} → Inv s → s.datalen ≤ length d
    Inv-fits i = omega (arith, Inv-datalen i)

    abbrev pub HeadInv : Head → Type 0
    HeadInv (skipped t) = Inv t
    HeadInv (taken t) = Inv t × (t.dp < t.datalen) × (t.indefinite ≡ false)

    pub match_tag-Safe :
        (m : List ℕ) (op oplen : ℕ) (s : State) → Inv s → Safe HeadInv (match_tag m d op oplen s)
    unfolding match_tag
    match_tag-Safe m op oplen s i =
        Safe-if _ (leb s.datalen (s.dp + 1)) _ _ (λ _. tt)
          λ more. Safe-read _ d s.dp _ (ground (arith, Inv-fits i)) λ tag _.
            Safe-if _ (tag % 32 == 31) _ _ (λ _. tt)
              λ _.
                Safe-if _ (is_any op) _ _ (λ _. ground arith)
                  λ _.
                    Safe-bind (λ _. Unit {0}) _ (fetch m (s.pc + 1)) _ (fetch-Safe m (s.pc + 1))
                      λ optag _.
                        Safe-if _ (tag_differs optag tag) _ _
                          (λ _. Safe-if _ (is_skip op) _ _ (λ _. ground arith) (λ _. tt))
                          (λ _. ground arith)

    -- Behind the header: the value ends at most the slack behind the end of data.
    abbrev pub Headed : State → Type 0
    Headed t =
        Inv t
        × (t.dp ≤ t.datalen)
        × (0 < t.datalen)
        × (t.indefinite ≡ false → t.dp + t.len ≤ t.datalen + slack)

    read_len-Safe : (n dp len : ℕ) → dp + n ≤ length d → Safe (λ _. Unit {0}) (read_len d n dp len)
    unfolding read_len
    read_len-Safe zero dp len h = tt
    read_len-Safe (suc n) dp len h =
        Safe-read _ d dp _ (omega arith)
          λ b _. read_len-Safe n (dp + 1) (len * 256 + b) (omega arith)

    pub match_length-Safe :
        (s : State)
        → Inv s
        → s.dp < s.datalen
        → s.indefinite ≡ false
        → Safe Headed (match_length d s)
    unfolding match_length
    match_length-Safe s i h e = Safe-read _ d s.dp _ (omega (arith, Inv-fits i)) λ len _.
        Safe-if _ (leb len 0x7f) _ _ (λ c. ground arith)
          λ _.
            Safe-if _ (len == 0x80) _ _
              (λ _.
                Safe-if _ (has_bit s.tag 5) _ _
                  (λ _. Safe-if _ (ltb s.datalen (s.dp + 1 + 2)) _ _ (λ _. tt) (λ c. ground arith))
                  (λ _. tt))
              λ _.
                Safe-if _ (ltb 2 (len - 0x80)) _ _ (λ _. tt)
                  λ _.
                    Safe-if _ (leb s.datalen (s.dp + 1 + (len - 0x80))) _ _ (λ _. tt)
                      λ c.
                        Safe-bind (λ _. Unit) _ (read_len d (len - 0x80) (s.dp + 1) 0) _
                          (read_len-Safe (len - 0x80) (s.dp + 1) 0 (ground (arith, Inv-fits i)))
                          λ size _.
                            Safe-if _ (ltb s.datalen (s.dp + 1 + (len - 0x80) + size)) _ _ (λ _. tt)
                              (λ c'. ground arith)

    pub match_cons-Safe : (s : State) → Headed s → Safe Inv (match_cons s)
    unfolding match_cons
    match_cons-Safe s (i, inside, pos, ends) =
        Safe-if _ s.cons _ _
          (λ _.
            Safe-if _ (leb stack_size (length s.cons_stack)) _ _ (λ _. tt)
              λ c. ground (arith, Inv-datalen i))
          (λ _. ground arith)
