-- ===== src/Oid/Sprint/Print.antt =====
-- `Sprint_OID` prints the dotted form of what it is given encoded.
use uefi_utilities.Base.{
  ℕ, zero, suc, ◌+◌, ◌-◌, ◌*◌, ◌/◌, ◌%◌, ◌^◌, ◌≤◌, ◌<◌, ◌≡◌, refl, sym, ap, ◌∙◌, inl, inr, true,
  false, Option, none, some, List, [], ◌∷◌, ◌++◌, arith, ltb, ◌==◌, has_bit, length, length-append,
  Bool-cases,
}
use mathlib.Core.List.{append_assoc, append-nil}
use uefi_utilities.Oid.Dotted.{high_bytes, base128, base128s, encode}
use uefi_utilities.Oid.Sprint.{printed, more_arc, next_arc, put, arc_loop, sprint_oid}

-- `q` has at most `k` digits in base 128.
abbrev Digits : ℕ → ℕ → Type 0
Digits zero q = q ≡ 0
Digits (suc k) q = Digits k (q / 128)

-- The bytes above the last one give the number above the last seven bits.
more_arc-high_bytes :
    (k q : ℕ) (ys : List ℕ)
    → Digits k q
    → q < 2 ^ 57
    → more_arc 0 (high_bytes k q ++ ys) ≡ more_arc q ys
unfolding more_arc high_bytes
more_arc-high_bytes zero q ys h s = ap (λ n. more_arc n ys) (omega arith)
more_arc-high_bytes (suc k) q ys h s = elim (Bool-cases (ltb 0 q)) [
  | inr none_left ↦ rw none_left (ap (λ n. more_arc n ys) (ground arith))
  | inl some_left ↦
      rw (some_left, append_assoc)
        (more_arc-high_bytes k (q / 128) ((128 + q % 128) ∷ ys) h (omega arith)
          ∙ rw more (ap (λ n. more_arc n ys) (omega arith)))
]
  where
    more : has_bit (128 + q % 128) 7 ≡ true
    more = ground arith

-- A list whose first member, if any, is a byte.
abbrev HeadByte : List ℕ → Type 0
HeadByte [] = Unit
HeadByte (b ∷ bs) = b < 256

HeadByte-append :
    (xs : List ℕ) (c : ℕ) (ys : List ℕ) → HeadByte xs → c < 256 → HeadByte (xs ++ (c ∷ ys))
HeadByte-append [] c ys h h' = h'
HeadByte-append (x ∷ xs) c ys h h' = h

high_bytes-HeadByte : (k q : ℕ) → HeadByte (high_bytes k q)
unfolding high_bytes
high_bytes-HeadByte zero q = tt
high_bytes-HeadByte (suc k) q = elim (Bool-cases (ltb 0 q)) [
  | inl c ↦ rw c (
      HeadByte-append (high_bytes k (q / 128)) (128 + q % 128) [] (high_bytes-HeadByte k (q / 128))
        (omega arith))
  | inr c ↦ rw c tt
]

-- On a byte, the first round is a round of the inner loop.
next_arc-more_arc : (n : ℕ) (v : List ℕ) → n < 256 → next_arc n v ≡ more_arc 0 (n ∷ v)
unfolding next_arc more_arc
next_arc-more_arc n v h = ground arith

-- The result of reading the first number of a byte string.
first_arc : List ℕ → Option (ℕ × List ℕ)
first_arc [] = none
first_arc (n ∷ v) = next_arc n v

first_arc-more_arc :
    (xs : List ℕ) (x : ℕ) (ys : List ℕ)
    → HeadByte (xs ++ (x ∷ ys))
    → first_arc (xs ++ (x ∷ ys)) ≡ more_arc 0 (xs ++ (x ∷ ys))
unfolding first_arc
first_arc-more_arc [] x ys h = next_arc-more_arc x ys h
first_arc-more_arc (y ∷ xs) x ys h = next_arc-more_arc y (xs ++ (x ∷ ys)) h

first_arc-base128 : (n : ℕ) (ys : List ℕ) → n < 2 ^ 42 → first_arc (base128 n ++ ys) ≡ some (n, ys)
unfolding base128 more_arc
first_arc-base128 n ys h = rw append_assoc (
    first_arc-more_arc (high_bytes 5 (n / 128)) (n % 128) ys (
      HeadByte-append (high_bytes 5 (n / 128)) (n % 128) ys (high_bytes-HeadByte 5 (n / 128))
        (omega arith))
    ∙ more_arc-high_bytes 5 (n / 128) (n % 128 ∷ ys) (omega arith) (omega arith)
    ∙ ground arith)

-- The texts of the numbers, a dot before each.
abbrev pub dotted : (ℕ → List ℕ) → List ℕ → List ℕ
dotted dec [] = []
dotted dec (n ∷ ns) = (b'.' ∷ dec n) ++ dotted dec ns

abbrev pub AllBelow : ℕ → List ℕ → Type 0
AllBelow m [] = Unit
AllBelow m (n ∷ ns) = (n < m) × AllBelow m ns

base128s-pos : (n : ℕ) (ns : List ℕ) → length (base128s ns) + 1 ≤ length (base128s (n ∷ ns))
unfolding base128s base128
base128s-pos n ns = omega (
  arith,
  length-append (base128 n) (base128s ns),
  length-append (high_bytes 5 (n / 128)) (n % 128 ∷ []),
)

module _ (sprint : ℕ → List ℕ → List ℕ) (dec : ℕ → List ℕ)
    (whole : (size : ℕ) (text : List ℕ)
      → (length text + 1) * 2 ≤ size
      → sprint size text ≡ text) where
  put-ok :
      (bufsize : ℕ) (buffer text : List ℕ)
      → (length text + 1) * 2 ≤ bufsize
      → put sprint dec bufsize buffer text ≡ some (bufsize - length text, buffer ++ text)
  unfolding put
  put-ok bufsize buffer text h = rw (whole bufsize text h, more)
    where
      more : (bufsize - length text == 0) ≡ false
      more = ground arith

  round :
      (fuel bufsize : ℕ) (buffer v : List ℕ) (num : ℕ) (v' : List ℕ)
      → first_arc v ≡ some (num, v')
      → (length (dec num) + 2) * 2 ≤ bufsize
      → arc_loop sprint dec (suc fuel) bufsize buffer v
        ≡ arc_loop sprint dec fuel
            (bufsize - (length (dec num) + 1))
            (buffer ++ (b'.' ∷ dec num))
            v'
  unfolding arc_loop first_arc
  round fuel bufsize buffer [] num v' e h = cc
  round fuel bufsize buffer (n ∷ v) num v' e h =
      let e' : next_arc n v ≡ some (num, v') = e in
      rw (e', arc_loop, put-ok bufsize buffer (b'.' ∷ dec num) (omega arith))
        (ap (λ room. arc_loop sprint dec fuel room (buffer ++ (b'.' ∷ dec num)) v') (omega arith))

  ended :
      (fuel bufsize : ℕ) (buffer : List ℕ)
      → arc_loop sprint dec fuel bufsize buffer [] ≡ printed buffer
  unfolding arc_loop
  ended fuel bufsize buffer = refl

  arc_loop-base128s :
      (ns : List ℕ) (fuel bufsize : ℕ) (buffer : List ℕ)
      → AllBelow (2 ^ 42) ns
      → length (base128s ns) ≤ fuel
      → (length (dotted dec ns) + 1) * 2 ≤ bufsize
      → arc_loop sprint dec fuel bufsize buffer (base128s ns) ≡ printed (buffer ++ dotted dec ns)
  unfolding base128s
  arc_loop-base128s [] fuel bufsize buffer all f h =
      ended fuel bufsize buffer ∙ ap printed (sym (append-nil buffer))
  arc_loop-base128s (n ∷ ns) zero bufsize buffer all f h = absurd (omega (arith, base128s-pos n ns))
  arc_loop-base128s (n ∷ ns) (suc fuel) bufsize buffer all f h =
      round fuel bufsize buffer (base128 n ++ base128s ns) n (base128s ns)
        (first_arc-base128 n (base128s ns) all.0)
        (omega (arith, length-append (b'.' ∷ dec n) (dotted dec ns)))
      ∙ arc_loop-base128s ns fuel (bufsize - (length (dec n) + 1)) (buffer ++ (b'.' ∷ dec n)) all.1
          (omega (arith, base128s-pos n ns))
          (omega (arith, length-append (b'.' ∷ dec n) (dotted dec ns)))
      ∙ ap printed (append_assoc buffer (b'.' ∷ dec n) (dotted dec ns))

  -- Given a byte string that encodes numbers (the second below 40, the later ones below 2 ^ 42), and
  -- a size of the buffer of at least the bytes of the text and its NUL in CHAR16, `Sprint_OID` prints
  -- exactly those numbers with dots between them. `SPrint` is assumed to write a text whole where the
  -- size that it is given, in bytes, has room for the text and its NUL in CHAR16.
  pub sprint_oid-encode :
      (a b : ℕ) (ns : List ℕ) (bufsize : ℕ)
      → b < 40
      → AllBelow (2 ^ 42) ns
      → (length (dec a ++ dotted dec (b ∷ ns)) + 1) * 2 ≤ bufsize
      → sprint_oid sprint dec (encode (a ∷ b ∷ ns)) bufsize ≡ printed (dec a ++ dotted dec (b ∷ ns))
  unfolding sprint_oid encode
  sprint_oid-encode a b ns bufsize small all h =
      rw (sprint_oid, first, second, put-ok bufsize [] (dec a ++ (b'.' ∷ dec b)) fits)
        (arc_loop-base128s ns (length (base128s ns)) _ (dec a ++ (b'.' ∷ dec b)) all (omega arith)
            left
          ∙ ap printed (append_assoc (dec a) (b'.' ∷ dec b) (dotted dec ns)))
    where
      first : (40 * a + b) / 40 ≡ a
      first = omega arith

      second : (40 * a + b) % 40 ≡ b
      second = omega arith

      size :
          length (dec a ++ dotted dec (b ∷ ns))
          ≡ length (dec a ++ (b'.' ∷ dec b)) + length (dotted dec ns)
      size = omega (
        arith,
        length-append (dec a) (dotted dec (b ∷ ns)),
        length-append (b'.' ∷ dec b) (dotted dec ns),
        length-append (dec a) (b'.' ∷ dec b),
      )

      fits : (length (dec a ++ (b'.' ∷ dec b)) + 1) * 2 ≤ bufsize
      fits = omega (arith, size)

      left : (length (dotted dec ns) + 1) * 2 ≤ bufsize - length (dec a ++ (b'.' ∷ dec b))
      left = omega (arith, size)
