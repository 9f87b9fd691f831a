-- ===== src/Ber/Indefinite/Bounds.antt =====
-- The scan stays inside the buffer and comes to an end.
use uefi_utilities.Base.{
  ℕ, zero, suc, ◌+◌, ◌-◌, ◌*◌, ◌%◌, ◌≤◌, ◌<◌, ◌≡◌, some, inl, inr, ◌||◌, List, arith, length,
  get_elem?, Bool-cases, ltb, ◌==◌, has_bit,
}
use uefi_utilities.Ber.Run.{read_len, At}
use uefi_utilities.Ber.Ends.{Ends, Ends-bind, Ends-mono, Ends-if, Ends-read}
use uefi_utilities.Ber.Indefinite.Element.{eoc}
use uefi_utilities.Ber.Indefinite.{
  Next, finished, again, skip_long_tag, skip_length, skip_eoc, skip_tag, next_tag, tag_loop,
  find_indefinite_length,
}

module _ (d : List ℕ) (datalen : ℕ) (fits : datalen ≤ length d) where
  skip_long_tag-Ends :
      (start fuel dp : ℕ)
      → start ≤ dp
      → dp ≤ datalen
      → datalen < dp + fuel
      → Ends (λ e. (start < e) × (e < datalen)) (skip_long_tag fuel d datalen dp)
  unfolding skip_long_tag
  skip_long_tag-Ends start zero dp s inside h = absurd (omega arith)
  skip_long_tag-Ends start (suc fuel) dp s inside h =
      Ends-if _ (ltb datalen (dp + 2)) _ _ (λ _. tt)
        λ long. Ends-read _ d dp _ (ground arith) λ tmp e. elim (Bool-cases (has_bit tmp 7)) [
          | inl more ↦
              rw more
                (skip_long_tag-Ends start fuel (dp + 1) (omega arith) (ground arith) (omega arith))
          | inr last ↦ rw last (ground arith)
        ]

  read_len-Ends : (n dp len : ℕ) → dp + n ≤ length d → Ends (λ _. Unit {0}) (read_len d n dp len)
  unfolding read_len
  read_len-Ends zero dp len h = tt
  read_len-Ends (suc n) dp len h =
      Ends-read _ d dp _ (omega arith) λ b e. read_len-Ends n (dp + 1) (len * 256 + b) (omega arith)

  -- What a round does to the cursor.
  abbrev pub Moves : ℕ → Next → Type 0
  Moves dp (finished e) = At d dp eoc × (e ≡ dp + 2) × (e ≤ datalen)
  Moves dp (again e level) = dp + 2 ≤ e

  skip_length-Ends :
      (tag start dp level : ℕ)
      → start < dp
      → dp < datalen
      → Ends (Moves start) (skip_length d datalen tag dp level)
  unfolding skip_length
  skip_length-Ends tag start dp level s h = Ends-read (Moves start) d dp _ (omega arith) λ len e.
      Ends-if _ (ltb len 0x7f) _ _ (λ _. omega arith)
        λ _.
          Ends-if _ (len == 0x80) _ _
            (λ _. Ends-if _ (has_bit tag 5) _ _ (λ _. omega arith) (λ _. tt))
            λ _.
              Ends-if _ (len == 0x7f || ltb 7 (len - 0x80)) _ _ (λ _. tt)
                λ _.
                  Ends-if _ (ltb datalen (dp + 1 + (len - 0x80))) _ _ (λ _. tt)
                    λ room.
                      Ends-bind (λ _. Unit) (Moves start) (read_len d (len - 0x80) (dp + 1) 0) _
                        (read_len-Ends (len - 0x80) (dp + 1) 0 (ground arith)) λ size _. omega arith

  skip_eoc-Ends :
      (dp level : ℕ)
      → dp + 2 ≤ datalen
      → get_elem? d dp ≡ some 0
      → Ends (Moves dp) (skip_eoc d dp level)
  unfolding skip_eoc
  skip_eoc-Ends dp level h z = Ends-read (Moves dp) d (dp + 1) _ (omega arith) λ e r. ground arith

  skip_tag-Ends :
      (tag dp : ℕ)
      → dp + 2 ≤ datalen
      → Ends (λ e. (dp < e) × (e < datalen)) (skip_tag d datalen tag dp)
  unfolding skip_tag
  skip_tag-Ends tag dp h =
      Ends-if _ (tag % 32 == 31) _ _
        (λ _.
          skip_long_tag-Ends dp (suc datalen) (dp + 1) (omega arith) (omega arith) (omega arith))
        (λ _. omega arith)

  -- The round also needs two bytes before the end.
  abbrev pub MovesWithin : ℕ → Next → Type 0
  MovesWithin dp n = (dp + 2 ≤ datalen) × Moves dp n

  pub next_tag-Ends : (dp level : ℕ) → Ends (MovesWithin dp) (next_tag d datalen dp level)
  unfolding next_tag
  next_tag-Ends dp level =
      Ends-if _ (ltb datalen (dp + 2)) _ _ (λ _. tt)
        λ room.
          let room' : dp + 2 ≤ datalen = ground arith in
          Ends-read _ d dp _ (omega arith) λ tag r.
            Ends-if _ (tag == 0) _ _
              (λ z.
                Ends-mono (Moves dp) _ _ (skip_eoc-Ends dp level room' (ground (arith, r)))
                  λ n m. (room', m))
              λ _.
                Ends-bind (λ e. (dp < e) × (e < datalen)) _ (skip_tag d datalen tag dp) _
                  (skip_tag-Ends tag dp room')
                  λ e (low, high).
                    Ends-mono (Moves dp) _ _ (skip_length-Ends tag dp e level low high)
                      λ n m. (room', m)

  -- The cursor behind the end of contents that closes the element.
  abbrev pub Closes : ℕ → ℕ → Type 0
  Closes start e = (q : ℕ) × (start ≤ q) × At d q eoc × (e ≡ q + 2) × (e ≤ datalen)

  tag_loop-Ends :
      (start fuel dp level : ℕ)
      → start ≤ dp
      → datalen - dp < fuel
      → Ends (Closes start) (tag_loop fuel d datalen dp level)
  unfolding tag_loop
  tag_loop-Ends start zero dp level s h = absurd (omega arith)
  tag_loop-Ends start (suc fuel) dp level s h =
      Ends-bind (MovesWithin dp) _ (next_tag d datalen dp level) _ (next_tag-Ends dp level) (elim [
        | finished e ↦ λ m. (dp, s, m.1.0, m.1.1, m.1.2)
        | again e l ↦ λ m. tag_loop-Ends start fuel e l (omega arith) (omega arith)
      ])

  -- On any bytes, with the end of the element inside the buffer, the scan reads no byte outside
  -- the buffer, never runs out of fuel, and ends with an error message or with a cursor and a
  -- length: the length is the distance that the cursor moved, and the cursor stands inside the
  -- element behind two zero bytes that lie at or behind its start.
  pub find_indefinite_length-Ends :
      (dp : ℕ) → Ends (λ r. (r.0 ≡ dp + r.1) × Closes dp r.0) (find_indefinite_length d datalen dp)
  unfolding find_indefinite_length
  find_indefinite_length-Ends dp =
      Ends-bind (Closes dp) _ (tag_loop (suc datalen) d datalen dp 1) _
        (tag_loop-Ends dp (suc datalen) dp 1 (omega arith) (omega arith)) λ e c. (omega arith, c)
