-- ===== src/Grammar/Directives.antt =====
-- The directives' spellings in listcerts/asn1_compiler.c, and the comparison of a token with one.
use uefi_utilities.Base.{
  ℕ, ◌≡◌, ◌↔◌, Bool, List, [], ◌∷◌, ltb, ◌==◌, if◌then◌else◌, length, take, Option, some, get_elem?,
}
use uefi_utilities.Grammar.Tables.{
  TokenType, directive_absent, directive_all, directive_any, directive_application,
  directive_automatic, directive_begin, directive_bit, directive_bmpstring, directive_boolean,
  directive_by, directive_character, directive_choice, directive_class, directive_component,
  directive_components, directive_constrained, directive_containing, directive_default,
  directive_defined, directive_definitions, directive_embedded, directive_encoded,
  directive_encoding_control, directive_end, directive_enumerated, directive_except,
  directive_explicit, directive_exports, directive_extensibility, directive_external,
  directive_false, directive_from, directive_general_string, directive_generalized_time,
  directive_graphic_string, directive_ia5_string, directive_identifier, directive_implicit,
  directive_implied, directive_imports, directive_includes, directive_instance,
  directive_instructions, directive_integer, directive_intersection, directive_iso646_string,
  directive_max, directive_min, directive_minus_infinity, directive_null, directive_numeric_string,
  directive_object, directive_octet, directive_of, directive_optional, directive_object_descriptor,
  directive_pattern, directive_pdv, directive_plus_infinity, directive_present, directive_private,
  directive_printable_string, directive_real, directive_relative_oid, directive_sequence,
  directive_set, directive_size, directive_string, directive_syntax, directive_t61_string,
  directive_tags, directive_true, directive_teletex_string, directive_union, directive_unique,
  directive_universal, directive_utctime, directive_utf8_string, directive_universal_string,
  directive_videotex_string, directive_visible_string, directive_with,
}

-- `directives`: each spelling beside the enumerator that is its index.
abbrev pub directives : List (TokenType × List ℕ)
directives =
    (directive_absent, b'A' ∷ b'B' ∷ b'S' ∷ b'E' ∷ b'N' ∷ b'T' ∷ [])
    ∷ (directive_all, b'A' ∷ b'L' ∷ b'L' ∷ [])
    ∷ (directive_any, b'A' ∷ b'N' ∷ b'Y' ∷ [])
    ∷ (
      directive_application,
      b'A' ∷ b'P' ∷ b'P' ∷ b'L' ∷ b'I' ∷ b'C' ∷ b'A' ∷ b'T' ∷ b'I' ∷ b'O' ∷ b'N' ∷ [],
    )
    ∷ (directive_automatic, b'A' ∷ b'U' ∷ b'T' ∷ b'O' ∷ b'M' ∷ b'A' ∷ b'T' ∷ b'I' ∷ b'C' ∷ [])
    ∷ (directive_begin, b'B' ∷ b'E' ∷ b'G' ∷ b'I' ∷ b'N' ∷ [])
    ∷ (directive_bit, b'B' ∷ b'I' ∷ b'T' ∷ [])
    ∷ (directive_bmpstring, b'B' ∷ b'M' ∷ b'P' ∷ b'S' ∷ b't' ∷ b'r' ∷ b'i' ∷ b'n' ∷ b'g' ∷ [])
    ∷ (directive_boolean, b'B' ∷ b'O' ∷ b'O' ∷ b'L' ∷ b'E' ∷ b'A' ∷ b'N' ∷ [])
    ∷ (directive_by, b'B' ∷ b'Y' ∷ [])
    ∷ (directive_character, b'C' ∷ b'H' ∷ b'A' ∷ b'R' ∷ b'A' ∷ b'C' ∷ b'T' ∷ b'E' ∷ b'R' ∷ [])
    ∷ (directive_choice, b'C' ∷ b'H' ∷ b'O' ∷ b'I' ∷ b'C' ∷ b'E' ∷ [])
    ∷ (directive_class, b'C' ∷ b'L' ∷ b'A' ∷ b'S' ∷ b'S' ∷ [])
    ∷ (directive_component, b'C' ∷ b'O' ∷ b'M' ∷ b'P' ∷ b'O' ∷ b'N' ∷ b'E' ∷ b'N' ∷ b'T' ∷ [])
    ∷ (
      directive_components,
      b'C' ∷ b'O' ∷ b'M' ∷ b'P' ∷ b'O' ∷ b'N' ∷ b'E' ∷ b'N' ∷ b'T' ∷ b'S' ∷ [],
    )
    ∷ (
      directive_constrained,
      b'C' ∷ b'O' ∷ b'N' ∷ b'S' ∷ b'T' ∷ b'R' ∷ b'A' ∷ b'I' ∷ b'N' ∷ b'E' ∷ b'D' ∷ [],
    )
    ∷ (
      directive_containing,
      b'C' ∷ b'O' ∷ b'N' ∷ b'T' ∷ b'A' ∷ b'I' ∷ b'N' ∷ b'I' ∷ b'N' ∷ b'G' ∷ [],
    )
    ∷ (directive_default, b'D' ∷ b'E' ∷ b'F' ∷ b'A' ∷ b'U' ∷ b'L' ∷ b'T' ∷ [])
    ∷ (directive_defined, b'D' ∷ b'E' ∷ b'F' ∷ b'I' ∷ b'N' ∷ b'E' ∷ b'D' ∷ [])
    ∷ (
      directive_definitions,
      b'D' ∷ b'E' ∷ b'F' ∷ b'I' ∷ b'N' ∷ b'I' ∷ b'T' ∷ b'I' ∷ b'O' ∷ b'N' ∷ b'S' ∷ [],
    )
    ∷ (directive_embedded, b'E' ∷ b'M' ∷ b'B' ∷ b'E' ∷ b'D' ∷ b'D' ∷ b'E' ∷ b'D' ∷ [])
    ∷ (directive_encoded, b'E' ∷ b'N' ∷ b'C' ∷ b'O' ∷ b'D' ∷ b'E' ∷ b'D' ∷ [])
    ∷ (
      directive_encoding_control,
      b'E' ∷ b'N' ∷ b'C' ∷ b'O' ∷ b'D' ∷ b'I' ∷ b'N' ∷ b'G' ∷ b'-' ∷ b'C' ∷ b'O' ∷ b'N' ∷ b'T'
          ∷ b'R' ∷ b'O' ∷ b'L' ∷ [],
    )
    ∷ (directive_end, b'E' ∷ b'N' ∷ b'D' ∷ [])
    ∷ (
      directive_enumerated,
      b'E' ∷ b'N' ∷ b'U' ∷ b'M' ∷ b'E' ∷ b'R' ∷ b'A' ∷ b'T' ∷ b'E' ∷ b'D' ∷ [],
    )
    ∷ (directive_except, b'E' ∷ b'X' ∷ b'C' ∷ b'E' ∷ b'P' ∷ b'T' ∷ [])
    ∷ (directive_explicit, b'E' ∷ b'X' ∷ b'P' ∷ b'L' ∷ b'I' ∷ b'C' ∷ b'I' ∷ b'T' ∷ [])
    ∷ (directive_exports, b'E' ∷ b'X' ∷ b'P' ∷ b'O' ∷ b'R' ∷ b'T' ∷ b'S' ∷ [])
    ∷ (
      directive_extensibility,
      b'E' ∷ b'X' ∷ b'T' ∷ b'E' ∷ b'N' ∷ b'S' ∷ b'I' ∷ b'B' ∷ b'I' ∷ b'L' ∷ b'I' ∷ b'T' ∷ b'Y' ∷ [],
    )
    ∷ (directive_external, b'E' ∷ b'X' ∷ b'T' ∷ b'E' ∷ b'R' ∷ b'N' ∷ b'A' ∷ b'L' ∷ [])
    ∷ (directive_false, b'F' ∷ b'A' ∷ b'L' ∷ b'S' ∷ b'E' ∷ [])
    ∷ (directive_from, b'F' ∷ b'R' ∷ b'O' ∷ b'M' ∷ [])
    ∷ (
      directive_general_string,
      b'G' ∷ b'e' ∷ b'n' ∷ b'e' ∷ b'r' ∷ b'a' ∷ b'l' ∷ b'S' ∷ b't' ∷ b'r' ∷ b'i' ∷ b'n' ∷ b'g' ∷ [],
    )
    ∷ (
      directive_generalized_time,
      b'G' ∷ b'e' ∷ b'n' ∷ b'e' ∷ b'r' ∷ b'a' ∷ b'l' ∷ b'i' ∷ b'z' ∷ b'e' ∷ b'd' ∷ b'T' ∷ b'i'
          ∷ b'm' ∷ b'e' ∷ [],
    )
    ∷ (
      directive_graphic_string,
      b'G' ∷ b'r' ∷ b'a' ∷ b'p' ∷ b'h' ∷ b'i' ∷ b'c' ∷ b'S' ∷ b't' ∷ b'r' ∷ b'i' ∷ b'n' ∷ b'g' ∷ [],
    )
    ∷ (directive_ia5_string, b'I' ∷ b'A' ∷ b'5' ∷ b'S' ∷ b't' ∷ b'r' ∷ b'i' ∷ b'n' ∷ b'g' ∷ [])
    ∷ (
      directive_identifier,
      b'I' ∷ b'D' ∷ b'E' ∷ b'N' ∷ b'T' ∷ b'I' ∷ b'F' ∷ b'I' ∷ b'E' ∷ b'R' ∷ [],
    )
    ∷ (directive_implicit, b'I' ∷ b'M' ∷ b'P' ∷ b'L' ∷ b'I' ∷ b'C' ∷ b'I' ∷ b'T' ∷ [])
    ∷ (directive_implied, b'I' ∷ b'M' ∷ b'P' ∷ b'L' ∷ b'I' ∷ b'E' ∷ b'D' ∷ [])
    ∷ (directive_imports, b'I' ∷ b'M' ∷ b'P' ∷ b'O' ∷ b'R' ∷ b'T' ∷ b'S' ∷ [])
    ∷ (directive_includes, b'I' ∷ b'N' ∷ b'C' ∷ b'L' ∷ b'U' ∷ b'D' ∷ b'E' ∷ b'S' ∷ [])
    ∷ (directive_instance, b'I' ∷ b'N' ∷ b'S' ∷ b'T' ∷ b'A' ∷ b'N' ∷ b'C' ∷ b'E' ∷ [])
    ∷ (
      directive_instructions,
      b'I' ∷ b'N' ∷ b'S' ∷ b'T' ∷ b'R' ∷ b'U' ∷ b'C' ∷ b'T' ∷ b'I' ∷ b'O' ∷ b'N' ∷ b'S' ∷ [],
    )
    ∷ (directive_integer, b'I' ∷ b'N' ∷ b'T' ∷ b'E' ∷ b'G' ∷ b'E' ∷ b'R' ∷ [])
    ∷ (
      directive_intersection,
      b'I' ∷ b'N' ∷ b'T' ∷ b'E' ∷ b'R' ∷ b'S' ∷ b'E' ∷ b'C' ∷ b'T' ∷ b'I' ∷ b'O' ∷ b'N' ∷ [],
    )
    ∷ (
      directive_iso646_string,
      b'I' ∷ b'S' ∷ b'O' ∷ b'6' ∷ b'4' ∷ b'6' ∷ b'S' ∷ b't' ∷ b'r' ∷ b'i' ∷ b'n' ∷ b'g' ∷ [],
    )
    ∷ (directive_max, b'M' ∷ b'A' ∷ b'X' ∷ [])
    ∷ (directive_min, b'M' ∷ b'I' ∷ b'N' ∷ [])
    ∷ (
      directive_minus_infinity,
      b'M' ∷ b'I' ∷ b'N' ∷ b'U' ∷ b'S' ∷ b'-' ∷ b'I' ∷ b'N' ∷ b'F' ∷ b'I' ∷ b'N' ∷ b'I' ∷ b'T'
          ∷ b'Y' ∷ [],
    )
    ∷ (directive_null, b'N' ∷ b'U' ∷ b'L' ∷ b'L' ∷ [])
    ∷ (
      directive_numeric_string,
      b'N' ∷ b'u' ∷ b'm' ∷ b'e' ∷ b'r' ∷ b'i' ∷ b'c' ∷ b'S' ∷ b't' ∷ b'r' ∷ b'i' ∷ b'n' ∷ b'g' ∷ [],
    )
    ∷ (directive_object, b'O' ∷ b'B' ∷ b'J' ∷ b'E' ∷ b'C' ∷ b'T' ∷ [])
    ∷ (directive_octet, b'O' ∷ b'C' ∷ b'T' ∷ b'E' ∷ b'T' ∷ [])
    ∷ (directive_of, b'O' ∷ b'F' ∷ [])
    ∷ (directive_optional, b'O' ∷ b'P' ∷ b'T' ∷ b'I' ∷ b'O' ∷ b'N' ∷ b'A' ∷ b'L' ∷ [])
    ∷ (
      directive_object_descriptor,
      b'O' ∷ b'b' ∷ b'j' ∷ b'e' ∷ b'c' ∷ b't' ∷ b'D' ∷ b'e' ∷ b's' ∷ b'c' ∷ b'r' ∷ b'i' ∷ b'p'
          ∷ b't' ∷ b'o' ∷ b'r' ∷ [],
    )
    ∷ (directive_pattern, b'P' ∷ b'A' ∷ b'T' ∷ b'T' ∷ b'E' ∷ b'R' ∷ b'N' ∷ [])
    ∷ (directive_pdv, b'P' ∷ b'D' ∷ b'V' ∷ [])
    ∷ (
      directive_plus_infinity,
      b'P' ∷ b'L' ∷ b'U' ∷ b'S' ∷ b'-' ∷ b'I' ∷ b'N' ∷ b'F' ∷ b'I' ∷ b'N' ∷ b'I' ∷ b'T' ∷ b'Y' ∷ [],
    )
    ∷ (directive_present, b'P' ∷ b'R' ∷ b'E' ∷ b'S' ∷ b'E' ∷ b'N' ∷ b'T' ∷ [])
    ∷ (directive_private, b'P' ∷ b'R' ∷ b'I' ∷ b'V' ∷ b'A' ∷ b'T' ∷ b'E' ∷ [])
    ∷ (
      directive_printable_string,
      b'P' ∷ b'r' ∷ b'i' ∷ b'n' ∷ b't' ∷ b'a' ∷ b'b' ∷ b'l' ∷ b'e' ∷ b'S' ∷ b't' ∷ b'r' ∷ b'i'
          ∷ b'n' ∷ b'g' ∷ [],
    )
    ∷ (directive_real, b'R' ∷ b'E' ∷ b'A' ∷ b'L' ∷ [])
    ∷ (
      directive_relative_oid,
      b'R' ∷ b'E' ∷ b'L' ∷ b'A' ∷ b'T' ∷ b'I' ∷ b'V' ∷ b'E' ∷ b'-' ∷ b'O' ∷ b'I' ∷ b'D' ∷ [],
    )
    ∷ (directive_sequence, b'S' ∷ b'E' ∷ b'Q' ∷ b'U' ∷ b'E' ∷ b'N' ∷ b'C' ∷ b'E' ∷ [])
    ∷ (directive_set, b'S' ∷ b'E' ∷ b'T' ∷ [])
    ∷ (directive_size, b'S' ∷ b'I' ∷ b'Z' ∷ b'E' ∷ [])
    ∷ (directive_string, b'S' ∷ b'T' ∷ b'R' ∷ b'I' ∷ b'N' ∷ b'G' ∷ [])
    ∷ (directive_syntax, b'S' ∷ b'Y' ∷ b'N' ∷ b'T' ∷ b'A' ∷ b'X' ∷ [])
    ∷ (directive_t61_string, b'T' ∷ b'6' ∷ b'1' ∷ b'S' ∷ b't' ∷ b'r' ∷ b'i' ∷ b'n' ∷ b'g' ∷ [])
    ∷ (directive_tags, b'T' ∷ b'A' ∷ b'G' ∷ b'S' ∷ [])
    ∷ (directive_true, b'T' ∷ b'R' ∷ b'U' ∷ b'E' ∷ [])
    ∷ (
      directive_teletex_string,
      b'T' ∷ b'e' ∷ b'l' ∷ b'e' ∷ b't' ∷ b'e' ∷ b'x' ∷ b'S' ∷ b't' ∷ b'r' ∷ b'i' ∷ b'n' ∷ b'g' ∷ [],
    )
    ∷ (directive_union, b'U' ∷ b'N' ∷ b'I' ∷ b'O' ∷ b'N' ∷ [])
    ∷ (directive_unique, b'U' ∷ b'N' ∷ b'I' ∷ b'Q' ∷ b'U' ∷ b'E' ∷ [])
    ∷ (directive_universal, b'U' ∷ b'N' ∷ b'I' ∷ b'V' ∷ b'E' ∷ b'R' ∷ b'S' ∷ b'A' ∷ b'L' ∷ [])
    ∷ (directive_utctime, b'U' ∷ b'T' ∷ b'C' ∷ b'T' ∷ b'i' ∷ b'm' ∷ b'e' ∷ [])
    ∷ (
      directive_utf8_string,
      b'U' ∷ b'T' ∷ b'F' ∷ b'8' ∷ b'S' ∷ b't' ∷ b'r' ∷ b'i' ∷ b'n' ∷ b'g' ∷ [],
    )
    ∷ (
      directive_universal_string,
      b'U' ∷ b'n' ∷ b'i' ∷ b'v' ∷ b'e' ∷ b'r' ∷ b's' ∷ b'a' ∷ b'l' ∷ b'S' ∷ b't' ∷ b'r' ∷ b'i'
          ∷ b'n' ∷ b'g' ∷ [],
    )
    ∷ (
      directive_videotex_string,
      b'V' ∷ b'i' ∷ b'd' ∷ b'e' ∷ b'o' ∷ b't' ∷ b'e' ∷ b'x' ∷ b'S' ∷ b't' ∷ b'r' ∷ b'i' ∷ b'n'
          ∷ b'g' ∷ [],
    )
    ∷ (
      directive_visible_string,
      b'V' ∷ b'i' ∷ b's' ∷ b'i' ∷ b'b' ∷ b'l' ∷ b'e' ∷ b'S' ∷ b't' ∷ b'r' ∷ b'i' ∷ b'n' ∷ b'g' ∷ [],
    )
    ∷ (directive_with, b'W' ∷ b'I' ∷ b'T' ∷ b'H' ∷ [])
    ∷ []

-- The sign of a C comparison.
pub data Sign : Type 0 where
  less equal greater : Sign

-- What the compiler takes from the C library. `memcmp` is called on two byte strings of one length;
-- `bsearch` gives a member that compares equal.
pub record CLib : Type 0 where
  pub memcmp : List ℕ → List ℕ → Sign
  pub memcmp_equal : (a b : List ℕ) → length a ≡ length b → (memcmp a b ≡ equal) ↔ (a ≡ b)
  pub bsearch :
      (TokenType × List ℕ → Sign) → List (TokenType × List ℕ) → Option (TokenType × List ℕ)
  pub bsearch_found :
      (cmp : TokenType × List ℕ → Sign) (table : List (TokenType × List ℕ)) (x : TokenType × List ℕ)
      → bsearch cmp table ≡ some x
      → (cmp x ≡ equal) × ((i : ℕ) × (get_elem? table i ≡ some x))
  pub isspace : ℕ → Bool
  pub isalpha : ℕ → Bool
  pub isalnum : ℕ → Bool
  pub islower : ℕ → Bool
  pub isdigit : ℕ → Bool

module _ (c : CLib) where
  -- Behind equal bytes: `dlen - token->size`.
  unfoldable pub compare_lengths : ℕ → ℕ → Sign
  compare_lengths dlen size =
      if dlen == size then equal else if ltb dlen size then less else greater

  unfoldable pub compare_bytes_first : Sign → ℕ → ℕ → Sign
  unfolding compare_lengths
  compare_bytes_first equal dlen size = compare_lengths dlen size
  compare_bytes_first less dlen size = less
  compare_bytes_first greater dlen size = greater

  -- A token is its bytes here, at most 255 of them, since `size` is an unsigned char.
  unfoldable pub directive_compare : List ℕ → List ℕ → Sign
  unfolding compare_bytes_first
  directive_compare token dir =
      let dlen = length dir in
      let size = length token in
      let clen = if ltb dlen size then dlen else size in
      compare_bytes_first (CLib.memcmp c (take clen token) (take clen dir)) dlen size
