-- ===== src/Ber/Run.antt =====
-- How a piece of the decoder in listcerts/asn1_ber_decoder.c ends, and its reads of the input.
use uefi_utilities.Base.{
  ℕ, zero, suc, ◌+◌, ◌*◌, ◌≡◌, ap, subst, Option, none, some, List, [], ◌∷◌, ◌++◌, arith, length,
  get_elem?,
}

-- The messages of asn1_ber_decoder.c; both of its functions have them. `no_message` is `Errmsg` at
-- its first value, NULL.
pub data Message : Type 0 where
  data_overrun machine_overrun jump_stack_underflow jump_stack_overflow : Message
  cons_stack_underflow cons_stack_overflow cons_length missing_eoc invalid_eoc : Message
  length_too_long indefinite_len_primitive tag_mismatch long_tag_not_supported : Message
  no_message : Message

-- `stop` is an error return with its message. A read behind the end of the data buffer, or of the
-- byte code and its tables, is undefined in C and a fault here.
pub data Run (A : Type 0) : Type 0 where
  ok : A → Run A
  stop : Message → Run A
  data_fault machine_fault out_of_fuel : Run A

infixl 5 ◌>>=◌ ◌>>◌
abbrev pub ◌>>=◌ : {A B : Type 0} → Run A → (A → Run B) → Run B
ok a >>= k = k a
stop m >>= k = stop m
data_fault >>= k = data_fault
machine_fault >>= k = machine_fault
out_of_fuel >>= k = out_of_fuel

abbrev pub ◌>>◌ : {B : Type 0} → Run (Unit {0}) → Run B → Run B
m >> k = m >>= λ _. k

in_buffer : Option ℕ → Run ℕ
in_buffer none = data_fault
in_buffer (some b) = ok b

-- `data[dp]`
unfoldable pub read : List ℕ → ℕ → Run ℕ
unfolding in_buffer
read d dp = in_buffer (get_elem? d dp)

-- `for (len = 0; n > 0; n--) { len <<= 8; len |= data[dp++]; }`, from a given `len`. The low byte
-- is clear after the shift, so the bitwise or adds.
unfoldable pub read_len : List ℕ → ℕ → ℕ → ℕ → Run ℕ
read_len d zero dp len = ok len
read_len d (suc n) dp len = read d dp >>= λ b. read_len d n (dp + 1) (len * 256 + b)

-- The bytes `bs` stand in the buffer from `dp` on.
abbrev pub At : List ℕ → ℕ → List ℕ → Type 0
At d dp [] = Unit
At d dp (b ∷ bs) = (get_elem? d dp ≡ some b) × At d (dp + 1) bs

pub read-ok : (d : List ℕ) (dp : ℕ) {b : ℕ} → get_elem? d dp ≡ some b → read d dp ≡ ok b
unfolding read
read-ok d dp e = ap in_buffer e

pub At-append :
    (d : List ℕ) (dp dp' : ℕ) (xs ys : List ℕ)
    → At d dp (xs ++ ys)
    → dp' ≡ dp + length xs
    → At d dp xs × At d dp' ys
At-append d dp dp' [] ys h e = (tt, subst (λ p. At d p ys) (omega arith) h)
At-append d dp dp' (x ∷ xs) ys h e =
    let (left, right) = At-append d (dp + 1) dp' xs ys h.1 (omega arith) in ((h.0, left), right)
