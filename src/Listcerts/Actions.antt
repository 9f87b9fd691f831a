-- ===== src/Listcerts/Actions.antt =====
-- The actions of listcerts/listcerts.c, which the decoder calls and which build their lines in `tmpbuf`.
use uefi_utilities.Base.{
  ℕ, zero, suc, ◌+◌, ◌*◌, ◌≡◌, Bool, true, false, Option, none, some, List, [], ◌∷◌, ◌++◌, map, ltb,
  ◌==◌, if◌then◌else◌, length,
}
use uefi_utilities.Uefi.{Text}
use uefi_utilities.Oid.Registry.{Oid}
use uefi_utilities.Oid.Lookup.{Search, hit, miss, fault, lookup_oid}
use uefi_utilities.Oid.Sprint.{Sprinted, printed, bad_message, no_buffers, sprint_oid}
use uefi_utilities.Listcerts.Labels.{algorithm_label, attribute_label, extension_label}
pub mod Name

-- `tmpbuf` up to its NUL, and `wrapno`.
pub record Display : Type 0 where
  pub tmpbuf : Text
  pub wrapno : ℕ

-- What is printed: the texts that stand in `tmpbuf`, the dates, and the bytes of the serial number
-- with what stands behind each. The version is its byte, which is shown as a signed number, and plus one.
pub data Line : Type 0 where
  signature_algorithm issuer subject extensions public_key_algorithm not_before not_after :
      Text → Line
  serial_number : List (ℕ × ℕ) → Line
  version : ℕ → Line

-- What an action leaves; or a write behind `tmpbuf`, a read outside the value or the tables or of NULL,
-- or the use of a text that `Sprint_OID` did not print.
pub data Acted : Type 0 where
  acted : Display → List Line → Acted
  overflow faulty unprinted : Acted

-- `StrCat(tmpbuf, text)`, with the NUL, in 1000 places.
unfoldable pub str_cat : Text → Display → Acted
str_cat text d =
    if ltb (length d.tmpbuf + length text) 1000
    then acted (record d { tmpbuf = d.tmpbuf ++ text }) []
    else overflow

infixl 5 ◌then_act◌
abbrev pub ◌then_act◌ : Acted → (Display → Acted) → Acted
acted d lines then_act k = elim (k d) [
  | acted d' more ↦ acted d' (lines ++ more)
  | overflow ↦ overflow
  | faulty ↦ faulty
  | unprinted ↦ unprinted
]
overflow then_act k = overflow
faulty then_act k = faulty
unprinted then_act k = unprinted

-- The text of a value up to its first NUL: a CHAR16 of each signed char.
unfoldable pub widened : List ℕ → Text
widened [] = []
widened (s ∷ ss) =
    let rest = widened ss in if s == 0 then [] else (if ltb s 128 then s else s + 65280) ∷ rest

-- `ASCII_to_UCS2`, with NULL where `AllocateZeroPool` does not give a block of the size.
unfoldable pub ascii_to_ucs2 : (ℕ → Bool) → List ℕ → Option Text
unfolding widened
ascii_to_ucs2 gives s = if gives (length s * 2 + 2) then some (widened s) else none

-- `make_utc_date_string` on the digits of a UTCTime; `none` where it reads behind them.
unfoldable pub make_utc_date_string : List ℕ → Option Text
make_utc_date_string (y1 ∷ y2 ∷ m1 ∷ m2 ∷ d1 ∷ d2 ∷ h1 ∷ h2 ∷ n1 ∷ n2 ∷ s1 ∷ s2 ∷ rest) = some (
    b'2' ∷ b'0' ∷ y1 ∷ y2 ∷ b'-' ∷ m1 ∷ m2 ∷ b'-' ∷ d1 ∷ d2 ∷ 32 ∷ h1 ∷ h2 ∷ b':' ∷ n1 ∷ n2 ∷ b':'
    ∷ s1 ∷ s2 ∷ 32 ∷ b'U' ∷ b'T' ∷ b'C' ∷ [])
make_utc_date_string _ = none

-- `"%02x%c"` of each byte, with a colon behind all but the last.
unfoldable pub serial_bytes : List ℕ → List (ℕ × ℕ)
serial_bytes [] = []
serial_bytes (b ∷ []) = (b, 10) ∷ []
serial_bytes (b ∷ c ∷ bs) = (b, b':') ∷ serial_bytes (c ∷ bs)

unfoldable pub do_version : List ℕ → Display → Acted
do_version [] d = faulty
do_version (v ∷ value) d = acted d (version v ∷ [])

unfoldable pub do_serialnumber : List ℕ → Display → Acted
unfolding serial_bytes
do_serialnumber value d =
    acted d (serial_number (if ltb 4 (length value) then serial_bytes value else []) ∷ [])

-- The actions that print `tmpbuf` and empty it.
abbrev pub emptied : Display → Display
emptied d = record d { tmpbuf = [] }

unfoldable pub do_signature : Display → Acted
do_signature d = acted (emptied d) (signature_algorithm d.tmpbuf ∷ [])

unfoldable pub do_issuer : Display → Acted
do_issuer d = acted (emptied d) (issuer d.tmpbuf ∷ [])

unfoldable pub do_subject : Display → Acted
do_subject d = acted (emptied d) (subject d.tmpbuf ∷ [])

unfoldable pub do_subject_public_key_info : Display → Acted
do_subject_public_key_info d = acted (emptied d) (public_key_algorithm d.tmpbuf ∷ [])

unfoldable pub do_extensions : Display → Acted
do_extensions d = acted (record { tmpbuf = []; wrapno = 1 }) (extensions d.tmpbuf ∷ [])

-- The dates of the validity; the date has UTCDATE_LEN characters.
unfoldable pub do_validity_not_before : List ℕ → Display → Acted
unfolding make_utc_date_string
do_validity_not_before value d = elim (make_utc_date_string value) [
  | none ↦ faulty
  | some date ↦ acted d (not_before date ∷ [])
]

unfoldable pub do_validity_not_after : List ℕ → Display → Acted
unfolding make_utc_date_string
do_validity_not_after value d = elim (make_utc_date_string value) [
  | none ↦ faulty
  | some date ↦ acted d (not_after date ∷ [])
]

-- `StrCat` of a text or of NULL, which it reads.
unfoldable pub cat_pointer : Option Text → Display → Acted
unfolding str_cat
cat_pointer none d = faulty
cat_pointer (some text) d = str_cat text d

unfoldable pub do_attribute_value : (ℕ → Bool) → List ℕ → Display → Acted
unfolding cat_pointer ascii_to_ucs2
do_attribute_value gives value d = cat_pointer (ascii_to_ucs2 gives value) d

-- `SPrint` and the decimal form of a number, as `Sprint_OID` uses them.
module _ (sprint : ℕ → List ℕ → List ℕ) (dec : ℕ → List ℕ) where
  -- `StrCat(tmpbuf, L" (")`, the buffer, and `StrCat(tmpbuf, L")")`
  unfoldable pub cat_number : Sprinted → Display → Acted
  unfolding str_cat
  cat_number (printed text) d =
      str_cat (32 ∷ b'(' ∷ []) d then_act str_cat text then_act str_cat (b')' ∷ [])
  cat_number bad_message d = unprinted
  cat_number no_buffers d = unprinted

  -- The tests of `oid`, by what is done with the name of one that has a name.
  unfoldable pub name_oid :
      (Oid → Option Text) → (Text → Display → Acted) → Search → Sprinted → Display → Acted
  unfolding cat_number
  name_oid label put (hit oid) number d = elim (label oid) [
    | none ↦ cat_number number d
    | some text ↦ put text d
  ]
  name_oid label put miss number d = cat_number number d
  name_oid label put fault number d = faulty

  -- `StrCpy(tmpbuf, …)`
  unfoldable pub str_cpy : Text → Display → Acted
  str_cpy text d = acted (record d { tmpbuf = text }) []

  unfoldable pub do_algorithm : List ℕ → Display → Acted
  unfolding name_oid str_cpy algorithm_label lookup_oid sprint_oid
  do_algorithm value d =
      name_oid algorithm_label str_cpy (lookup_oid value) (sprint_oid sprint dec value 200) d

  unfoldable pub do_attribute_type : List ℕ → Display → Acted
  unfolding name_oid str_cat attribute_label lookup_oid sprint_oid
  do_attribute_type value d =
      name_oid attribute_label str_cat (lookup_oid value) (sprint_oid sprint dec value 120) d

  -- The new line in front of an extension, if the line has become long.
  unfoldable pub wrap : Display → Acted
  unfolding str_cat
  wrap d =
      let wrapped =
        str_cat (10 ∷ 32 ∷ 32 ∷ 32 ∷ 32 ∷ 32 ∷ 32 ∷ 32 ∷ 32 ∷ 32 ∷ 32 ∷ 32 ∷ 32 ∷ 32 ∷ []) d in
      if ltb (90 * d.wrapno) (length d.tmpbuf)
      then wrapped then_act (λ d'. acted (record d' { wrapno = suc (Display.wrapno d') }) [])
      else acted d []

  unfoldable pub do_extension_id : List ℕ → Display → Acted
  unfolding wrap name_oid str_cat extension_label lookup_oid sprint_oid
  do_extension_id value d =
      wrap d
      then_act name_oid extension_label str_cat (lookup_oid value) (sprint_oid sprint dec value 120)
