-- ===== src/Edid/Float.antt =====
-- `Float2AsciiString` of showedid/showedid.c. A float is its 32 bits, of which the sign is not looked
-- at; `long` has 64 bits, and the text is without its NUL.
use uefi_utilities.Base.{
  ℕ, zero, suc, ◌+◌, ◌-◌, ◌*◌, ◌/◌, ◌%◌, ◌^◌, ◌≤◌, ◌<◌, ◌≡◌, ◌||◌, Option, none, some, List, [],
  ◌∷◌, ◌++◌, ltb, leb, length, ◌==◌, if◌then◌else◌,
}
use uefi_utilities.Edid.Decimal.{integer_2_ascii_string, reads_as, IsDecimal, AllDigits}

-- A status and the text, or behaviour that C does not define: a shift by a negative count, or the
-- negation of the least `int`.
pub data Printed : Type 0 where
  printed : ℕ → List ℕ → Printed
  bad_shift bad_negation : Printed

-- `exp2` is 127 less.
abbrev pub exponent : ℕ → ℕ
exponent bits = bits / 2 ^ 23 % 256

abbrev pub mantissa : ℕ → ℕ
mantissa bits = 2 ^ 23 + bits % 2 ^ 23

unfoldable pub int_text : ℕ → Option (List ℕ)
unfolding integer_2_ascii_string
int_text int_part = if int_part == 0 then some (b'0' ∷ []) else integer_2_ascii_string int_part

-- The loop over the decimals; a fraction has 24 bits.
unfoldable pub decimal_loop : ℕ → ℕ → List ℕ
decimal_loop zero frac_part = []
decimal_loop (suc m) frac_part =
    let scaled = frac_part * 8 + frac_part * 2 in
    (scaled / 2 ^ 24 + b'0') ∷ decimal_loop m (scaled % 2 ^ 24)

unfoldable pub frac_text : ℕ → ℕ → List ℕ
unfolding decimal_loop
frac_text frac_part decimals = if frac_part == 0 then b'0' ∷ [] else decimal_loop decimals frac_part

-- The point and the decimals behind the digits of the whole part.
unfoldable pub with_decimals : Option (List ℕ) → List ℕ → Printed
with_decimals none fs = bad_negation
with_decimals (some ds) fs = printed 0 (ds ++ b'.' ∷ fs)

abbrev pub text_of : ℕ → ℕ → ℕ → Printed
text_of int_part frac_part decimals =
    with_decimals (int_text int_part) (frac_text frac_part decimals)

unfoldable pub float_2_ascii_string : ℕ → ℕ → Printed
unfolding int_text frac_text with_decimals
float_2_ascii_string bits decimals =
    if bits % 2 ^ 31 == 0
    then printed 0 (b'0' ∷ b'.' ∷ b'0' ∷ b'0' ∷ [])
    else if leb 158 (exponent bits) || ltb (exponent bits) 104
    then printed 1 []
    else if ltb 150 (exponent bits)
    then bad_shift
    else if leb 127 (exponent bits)
    then text_of (mantissa bits / 2 ^ (150 - exponent bits))
        (mantissa bits * 2 ^ (exponent bits - 126) % 2 ^ 24) decimals
    else text_of 0 (mantissa bits / 2 ^ (126 - exponent bits)) decimals

-- The digits are the decimals of a fraction of 24 bits, cut off.
abbrev pub Cut : ℕ → List ℕ → Type 0
Cut frac fs =
    (reads_as 0 fs * 2 ^ 24 ≤ frac * 10 ^ length fs)
    × (frac * 10 ^ length fs < (reads_as 0 fs + 1) * 2 ^ 24)

-- How many decimals there are: a fraction of 0 has one.
abbrev pub places : ℕ → ℕ → ℕ
places frac decimals = if frac == 0 then 1 else decimals

-- The absolute value of the float, in units of a 2^24th, cut off.
abbrev pub scaled : ℕ → ℕ
scaled bits =
    if leb 127 (exponent bits)
    then mantissa bits * 2 ^ (exponent bits - 126)
    else mantissa bits / 2 ^ (126 - exponent bits)

-- The text of a float: the digits before the point, without zeros before them, and as many as asked
-- for behind it.
abbrev pub Decimals : ℕ → ℕ → Printed → Type 0
Decimals value decimals bad_shift = ⊥
Decimals value decimals bad_negation = ⊥
Decimals value decimals (printed status text) =
    (ds : List ℕ) × (fs : List ℕ) × (text ≡ ds ++ b'.' ∷ fs)
    × (status ≡ 0)
    × IsDecimal ds
    × (reads_as 0 ds ≡ value / 2 ^ 24)
    × AllDigits fs
    × (length fs ≡ places (value % 2 ^ 24) decimals)
    × Cut (value % 2 ^ 24) fs

-- The text that `Ascii2UnicodeString` copies, from the float of 1.00 + gamma / 100.
unfoldable pub display_gamma_string : (ℕ → ℕ) → ℕ → Printed
unfolding float_2_ascii_string
display_gamma_string float_of gamma = float_2_ascii_string (float_of gamma) 2
