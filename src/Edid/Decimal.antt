-- ===== src/Edid/Decimal.antt =====
-- `Integer2AsciiString` of showedid/showedid.c.
use uefi_utilities.Base.{
  ℕ, zero, suc, ◌+◌, ◌-◌, ◌*◌, ◌/◌, ◌%◌, ◌^◌, ◌<◌, ◌≤◌, ◌≡◌, ◌≢◌, ◌⊎◌, inl, inr, Bool-cases, ==_iff,
  Option, none, some, refl, ◌∙◌, false, List, [], ◌∷◌, ◌++◌, arith, leb, ◌==◌, if◌then◌else◌,
}

-- The do-while loop: the digits of `u`, the lowest first. The `int` has at most ten.
unfoldable pub digit_loop : ℕ → ℕ → List ℕ
digit_loop zero u = []
digit_loop (suc fuel) u =
    let rest = digit_loop fuel (u / 10) in (u % 10 + b'0') ∷ (if u / 10 == 0 then [] else rest)

-- The second do-while loop exchanges the first and the last byte, then those between them.
abbrev pub swap : List ℕ → List ℕ
swap [] = []
swap (x ∷ xs) = swap xs ++ x ∷ []

-- An `int` is given by its 32 bits; the result is the text without its NUL, or `none` on the least
-- `int`, whose negation C does not define.
unfoldable pub integer_2_ascii_string : ℕ → Option (List ℕ)
unfolding digit_loop
integer_2_ascii_string val =
    if val == 2 ^ 31
    then none
    else if leb (2 ^ 31) val
    then some (b'-' ∷ swap (digit_loop 10 (2 ^ 32 - val)))
    else some (swap (digit_loop 10 val))

-- What a text of digits says, when the digits before it say `n`.
abbrev pub reads_as : ℕ → List ℕ → ℕ
reads_as n [] = n
reads_as n (d ∷ ds) = reads_as (n * 10 + (d - b'0')) ds

abbrev value_from_lowest : List ℕ → ℕ
value_from_lowest [] = 0
value_from_lowest (d ∷ ds) = (d - b'0') + 10 * value_from_lowest ds

digit_loop-value : (fuel u : ℕ) → u < 10 ^ fuel → value_from_lowest (digit_loop fuel u) ≡ u
unfolding digit_loop
digit_loop-value zero u h = omega arith
digit_loop-value (suc fuel) u h =
    ground (arith, digit_loop-value fuel (u / 10) (omega (arith, power fuel)))
  where
    power : (k : ℕ) → 10 ^ suc k ≡ 10 * 10 ^ k
    power k = omega arith

reads_as-last :
    (n : ℕ) (ds : List ℕ) (d : ℕ) → reads_as n (ds ++ d ∷ []) ≡ reads_as n ds * 10 + (d - b'0')
reads_as-last n [] d = refl
reads_as-last n (e ∷ ds) d = reads_as-last (n * 10 + (e - b'0')) ds d

reads_as-swap : (ds : List ℕ) → reads_as 0 (swap ds) ≡ value_from_lowest ds
reads_as-swap [] = refl
reads_as-swap (d ∷ ds) = omega (arith, reads_as-last 0 (swap ds) d, reads_as-swap ds)

swap-digit_loop : (u : ℕ) → u < 10 ^ 10 → reads_as 0 (swap (digit_loop 10 u)) ≡ u
swap-digit_loop u h = reads_as-swap (digit_loop 10 u) ∙ digit_loop-value 10 u h

abbrev pub AllDigits : List ℕ → Type 0
AllDigits [] = Unit
AllDigits (d ∷ ds) = (48 ≤ d) × (d ≤ 57) × AllDigits ds

-- The first digit is there and is not 0.
abbrev pub Leading : List ℕ → Type 0
Leading [] = ⊥
Leading (d ∷ ds) = 48 < d

-- Digits without a 0 before them: the one digit 0, or a first digit that is not 0.
abbrev pub IsDecimal : List ℕ → Type 0
IsDecimal ds = AllDigits ds × ((ds ≡ 48 ∷ []) ⊎ Leading ds)

AllDigits-append : (xs ys : List ℕ) → AllDigits xs → AllDigits ys → AllDigits (xs ++ ys)
AllDigits-append [] ys hx hy = hy
AllDigits-append (x ∷ xs) ys hx hy = (hx.0, hx.1, AllDigits-append xs ys hx.2 hy)

Leading-append : (xs ys : List ℕ) → Leading xs → Leading (xs ++ ys)
Leading-append [] ys h = absurd h
Leading-append (x ∷ xs) ys h = h

digit_loop-AllDigits : (fuel u : ℕ) → AllDigits (swap (digit_loop fuel u))
unfolding digit_loop
digit_loop-AllDigits zero u = tt
digit_loop-AllDigits (suc fuel) u = elim (Bool-cases (u / 10 == 0)) [
  | inl e ↦ rw e (omega arith, omega arith, tt)
  | inr e ↦ rw e (
      AllDigits-append (swap (digit_loop fuel (u / 10))) ((u % 10 + b'0') ∷ [])
        (digit_loop-AllDigits fuel (u / 10)) (omega arith, omega arith, tt))
]

digit_loop-Leading : (fuel u : ℕ) → 0 < u → u < 10 ^ fuel → Leading (swap (digit_loop fuel u))
unfolding digit_loop
digit_loop-Leading zero u pos h = absurd (omega arith)
digit_loop-Leading (suc fuel) u pos h = elim (Bool-cases (u / 10 == 0)) [
  | inl e ↦ let small = (==_iff (u / 10) 0).0 e in rw e (omega (arith, small))
  | inr e ↦
      let more : 0 < u / 10 = ground (arith, e) in
      let power : 10 ^ suc fuel ≡ 10 * 10 ^ fuel = omega arith in
      rw e (
        Leading-append (swap (digit_loop fuel (u / 10))) ((u % 10 + b'0') ∷ [])
          (digit_loop-Leading fuel (u / 10) more (omega (arith, power))))
]

swap-digit_loop-IsDecimal : (u : ℕ) → u < 10 ^ 10 → IsDecimal (swap (digit_loop 10 u))
unfolding digit_loop
swap-digit_loop-IsDecimal zero h = (digit_loop-AllDigits 10 0, inl refl)
swap-digit_loop-IsDecimal (suc u) h =
    (digit_loop-AllDigits 10 (suc u), inr (digit_loop-Leading 10 (suc u) (omega arith) h))

-- The text of an `int` of 32 bits, the least one not counted, is digits without zeros before them that
-- read as its absolute value, with a minus sign before them exactly when it is negative.
pub integer_2_ascii_string-reads :
    (val : ℕ)
    → val < 2 ^ 32
    → val ≢ 2 ^ 31
    → (ds : List ℕ) × (integer_2_ascii_string val
        ≡ some (if leb (2 ^ 31) val then b'-' ∷ ds else ds))
      × IsDecimal ds
      × (reads_as 0 ds ≡ (if leb (2 ^ 31) val then 2 ^ 32 - val else val))
unfolding integer_2_ascii_string
integer_2_ascii_string-reads val small ne =
    let other : (val == 2 ^ 31) ≡ false = ground (arith, ne) in
    elim (Bool-cases (leb (2 ^ 31) val)) [
      | inl e ↦
          rw (other, e)
            (
              swap (digit_loop 10 (2 ^ 32 - val)),
              refl,
              swap-digit_loop-IsDecimal (2 ^ 32 - val) (ground arith),
              swap-digit_loop (2 ^ 32 - val) (ground arith),
            )
      | inr e ↦
          rw (other, e)
            (
              swap (digit_loop 10 val),
              refl,
              swap-digit_loop-IsDecimal val (ground arith),
              swap-digit_loop val (ground arith),
            )
    ]
