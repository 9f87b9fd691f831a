-- ===== src/Ber/Indefinite/Scan.antt =====
-- The scan finds the end of every element of the grammar.
use uefi_utilities.Base.{
  ℕ, zero, suc, ◌+◌, ◌-◌, ◌*◌, ◌≤◌, ◌<◌, ◌≡◌, refl, ap, ◌∙◌, inl, inr, List, [], ◌∷◌, ◌++◌, arith,
  length, length-append, true, has_bit, if◌then◌else◌, leb,
}
use uefi_utilities.Ber.Run.{ok, read-ok, read_len, At, At-append}
use uefi_utilities.Ber.Indefinite.{
  finished, again, skip_long_tag, skip_length, skip_eoc, skip_tag, next_tag, tag_loop,
  find_indefinite_length,
}
use uefi_utilities.Ber.Indefinite.Bounds.{next_tag-Ends}
use uefi_utilities.Ber.Indefinite.Element.{
  eoc, LongTag, IsTag, big_endian, IsLength, short, long, Element, Elements, definite, indefinite,
  nil, cons,
}

read_len-big_endian :
    (d bs : List ℕ) (dp acc : ℕ)
    → At d dp bs
    → read_len d (length bs) dp acc ≡ ok (big_endian acc bs)
unfolding read_len
read_len-big_endian d [] dp acc at = refl
read_len-big_endian d (b ∷ bs) dp acc at =
    rw (read-ok d dp at.0) (read_len-big_endian d bs (dp + 1) (acc * 256 + b) at.1)

module _ (d : List ℕ) (datalen : ℕ) where
  skip_long_tag-ok :
      (fuel dp : ℕ) (more : List ℕ)
      → LongTag more
      → At d dp more
      → dp + length more < datalen
      → datalen < dp + fuel
      → skip_long_tag fuel d datalen dp ≡ ok (dp + length more)
  unfolding skip_long_tag
  skip_long_tag-ok zero dp more t at h f = absurd (omega arith)
  skip_long_tag-ok (suc fuel) dp [] t at h f = absurd t
  skip_long_tag-ok (suc fuel) dp (b ∷ []) t at h f = rw (read-ok d dp at.0) (ground arith)
  skip_long_tag-ok (suc fuel) dp (b ∷ c ∷ bs) t at h f =
      rw (read-ok d dp at.0) (
        ground
          (arith, skip_long_tag-ok fuel (dp + 1) (c ∷ bs) t.1 at.1 (omega arith) (omega arith)))

  skip_tag-ok :
      (tag dp : ℕ) (more : List ℕ)
      → IsTag tag more
      → At d (dp + 1) more
      → dp + 1 + length more < datalen
      → skip_tag d datalen tag dp ≡ ok (dp + 1 + length more)
  unfolding skip_tag
  skip_tag-ok tag dp more (ne, inl (low, e)) at h = ground (arith, ap length e)
  skip_tag-ok tag dp more (ne, inr (high, t)) at h =
      ground (arith, skip_long_tag-ok (suc datalen) (dp + 1) more t at (omega arith) (omega arith))

  skip_length-ok :
      (tag dp level n : ℕ) (len : List ℕ)
      → IsLength n len
      → At d dp len
      → dp + length len + n ≤ datalen
      → skip_length d datalen tag dp level ≡ ok (again (dp + length len + n) level)
  unfolding skip_length
  skip_length-ok tag dp level n _ (short s) at h = rw (read-ok d dp at.0) (ground arith)
  skip_length-ok tag dp level n _ (long bs one seven e) at h =
      rw (read-ok d dp at.0) (ground (arith, number))
    where
      count : 0x80 + length bs - 0x80 ≡ length bs
      count = omega arith

      number : read_len d (0x80 + length bs - 0x80) (dp + 1) 0 ≡ ok n
      number = rw count (read_len-big_endian d bs (dp + 1) 0 at.1 ∙ ap ok e)

  -- One round on the header of an element: over the tag, then on to the length byte.
  next_tag-tag :
      (tag dp level : ℕ) (more : List ℕ)
      → IsTag tag more
      → At d dp (tag ∷ more)
      → dp + 1 + length more < datalen
      → next_tag d datalen dp level ≡ skip_length d datalen tag (dp + 1 + length more) level
  unfolding next_tag
  next_tag-tag tag dp level more t at h =
      rw (read-ok d dp at.0) (ground (arith, skip_tag-ok tag dp more t at.1 h))

  -- One round on an end of contents that does not close the outermost element.
  next_tag-eoc :
      (dp level : ℕ)
      → At d dp eoc
      → dp + 2 ≤ datalen
      → next_tag d datalen dp (level + 1)
        ≡ ok (if leb (level + 1) 1 then finished (dp + 2) else again (dp + 2) level)
  unfolding next_tag skip_eoc
  next_tag-eoc dp level at h =
      rw (read-ok d dp at.0) (rw (read-ok d (dp + 1) at.1.0) (ground arith))

  -- Rounds of the loop, from one cursor and level to another.
  data Rounds : (dp level dp' level' : ℕ) → Type 0 where
    here : (dp level : ℕ) → Rounds dp level dp level
    next :
        (dp level dp' level' e k : ℕ)
        → next_tag d datalen dp level ≡ ok (again dp' level')
        → Rounds dp' level' e k
        → Rounds dp level e k

  Rounds-trans : {dp l e k e' k' : ℕ} → Rounds dp l e k → Rounds e k e' k' → Rounds dp l e' k'
  Rounds-trans (here dp l) r = r
  Rounds-trans (next dp l dp' l' e k s r) r' = next dp l dp' l' _ _ s (Rounds-trans r r')

  -- With enough fuel the loop gets through its rounds to the last one.
  Rounds-tag_loop :
      (fits : datalen ≤ length d) (fuel : ℕ) {dp l e k x : ℕ}
      → Rounds dp l e k
      → next_tag d datalen e k ≡ ok (finished x)
      → datalen - dp < fuel
      → tag_loop fuel d datalen dp l ≡ ok x
  unfolding tag_loop
  Rounds-tag_loop fits zero r last f = absurd (omega arith)
  Rounds-tag_loop fits (suc fuel) (here dp l) last f = rw last
  Rounds-tag_loop fits (suc fuel) (next dp l dp' l' e k s r) last f =
      let moved : (dp + 2 ≤ datalen) × (dp + 2 ≤ dp') =
        rw s at (next_tag-Ends d datalen fits dp l) in
      rw s (Rounds-tag_loop fits fuel r last (omega arith))

  IsLength-pos : (n : ℕ) (len : List ℕ) → IsLength n len → 1 ≤ length len
  IsLength-pos n _ (short s) = omega arith
  IsLength-pos n _ (long bs one seven e) = omega arith

  -- The header of an element of definite length, and its contents, take one round.
  definite-Rounds :
      (dp level tag : ℕ) (more len content : List ℕ)
      → IsTag tag more
      → IsLength (length content) len
      → At d dp (tag ∷ (more ++ (len ++ content)))
      → dp + length {A = ℕ} (tag ∷ (more ++ (len ++ content))) + 2 ≤ datalen
      → next_tag d datalen dp level
        ≡ ok (again (dp + length {A = ℕ} (tag ∷ (more ++ (len ++ content)))) level)
  definite-Rounds dp level tag more len content t l at h =
      next_tag-tag tag dp level more t (at.0, (split at).0) (omega (arith, size, pos))
      ∙ skip_length-ok tag (dp + 1 + length more) level (length content) len l
          (At-append d (dp + 1 + length more) _ len content (split at).1 refl).0
          (omega (arith, size))
      ∙ ap (λ p. ok (again p level)) (omega (arith, size))
    where
      size : length (more ++ (len ++ content)) ≡ length more + length len + length content
      size = omega (arith, length-append more (len ++ content), length-append len content)

      pos : 1 ≤ length len
      pos = IsLength-pos (length content) len l

      split :
          At d dp (tag ∷ (more ++ (len ++ content)))
          → At d (dp + 1) more × At d (dp + 1 + length more) (len ++ content)
      split a = At-append d (dp + 1) (dp + 1 + length more) more (len ++ content) a.1 refl

  -- The header of an element of indefinite length takes one round, and opens a level.
  indefinite-Rounds :
      (dp level tag : ℕ) (more body : List ℕ)
      → IsTag tag more
      → has_bit tag 5 ≡ true
      → At d dp (tag ∷ (more ++ (0x80 ∷ body)))
      → dp + 1 + length more < datalen
      → next_tag d datalen dp level ≡ ok (again (dp + 1 + length more + 1) (level + 1))
  unfolding skip_length
  indefinite-Rounds dp level tag more body t c at h =
      next_tag-tag tag dp level more t (at.0, split.0) h
      ∙ rw (read-ok d (dp + 1 + length more) split.1.0, c)
    where
      split : At d (dp + 1) more × At d (dp + 1 + length more) (0x80 ∷ body)
      split = At-append d (dp + 1) (dp + 1 + length more) more (0x80 ∷ body) at.1 refl

  eoc-Rounds :
      (q level e : ℕ)
      → At d q eoc
      → q + 2 ≡ e
      → e ≤ datalen
      → 1 ≤ level
      → next_tag d datalen q (level + 1) ≡ ok (again e level)
  eoc-Rounds q level e at eq h pos = next_tag-eoc q level at (omega arith) ∙ ground (arith, eq)

  mutual
    Element-Rounds :
        {bs : List ℕ}
        → Element bs
        → (dp level e : ℕ) → At d dp bs
        → e ≡ dp + length bs
        → e + 2 ≤ datalen
        → 1 ≤ level
        → Rounds dp level e level
    Element-Rounds (definite tag more len content t l) dp level e at eq h pos = rw eq (
        next dp level _ level _ level
          (definite-Rounds dp level tag more len content t l at (omega arith)) (here _ level))
    Element-Rounds (indefinite tag more body t c els) dp level e at eq h pos =
        next dp level p (level + 1) e level
          (indefinite-Rounds dp level tag more (body ++ eoc) t c at (omega (arith, size)))
          (Rounds-trans
            (Elements-Rounds els p (level + 1) q left refl (omega (arith, size)) (omega arith))
            (next q (level + 1) e level e level
              (eoc-Rounds q level e right (omega (arith, size)) (omega (arith, size)) pos)
              (here e level)))
      where
        p : ℕ
        p = dp + 1 + length more + 1

        q : ℕ
        q = p + length body

        size : length (more ++ (0x80 ∷ (body ++ eoc))) ≡ length more + length body + 3
        size = omega (arith, length-append more (0x80 ∷ (body ++ eoc)), length-append body eoc)

        inner : At d (dp + 1 + length more) (0x80 ∷ (body ++ eoc))
        inner = (At-append d (dp + 1) _ more (0x80 ∷ (body ++ eoc)) at.1 refl).1

        left : At d p body
        left = (At-append d p q body eoc inner.1 refl).0

        right : At d q eoc
        right = (At-append d p q body eoc inner.1 refl).1

    Elements-Rounds :
        {bs : List ℕ}
        → Elements bs
        → (dp level e : ℕ) → At d dp bs
        → e ≡ dp + length bs
        → e + 2 ≤ datalen
        → 1 ≤ level
        → Rounds dp level e level
    Elements-Rounds nil dp level e at eq h pos =
        let end : e ≡ dp = omega arith in rw end (here dp level)
    Elements-Rounds (cons x xs el els) dp level e at eq h pos =
        let (left, right) = At-append d dp (dp + length x) x xs at refl in
        Rounds-trans
          (Element-Rounds el dp level (dp + length x) left refl (omega (arith, length-append x xs))
            pos)
          (Elements-Rounds els (dp + length x) level e right (omega (arith, length-append x xs)) h
            pos)

  -- Elements of any tags and nesting, with their end of contents, stand in the buffer from the cursor
  -- on, inside the innermost containing element; a length is indefinite, in the short form below 127
  -- (the code refuses 127), or in the long form with at most 7 bytes. Then the scan succeeds: the new
  -- cursor stands behind that end of contents, and the length is that of all these bytes.
  pub find_indefinite_length-Elements :
      (dp : ℕ) (body : List ℕ)
      → datalen ≤ length d
      → Elements body
      → At d dp (body ++ eoc)
      → dp + length body + 2 ≤ datalen
      → find_indefinite_length d datalen dp ≡ ok (dp + length body + 2, length body + 2)
  unfolding find_indefinite_length
  find_indefinite_length-Elements dp body fits els at h =
      rw (Rounds-tag_loop fits (suc datalen) rounds last (omega arith)) (ground arith)
    where
      q : ℕ
      q = dp + length body

      at' : At d dp body × At d q eoc
      at' = At-append d dp q body eoc at refl

      rounds : Rounds dp 1 q 1
      rounds = Elements-Rounds els dp 1 q at'.0 refl h (omega arith)

      last : next_tag d datalen q 1 ≡ ok (finished (q + 2))
      last = next_tag-eoc q 0 at'.1 h
