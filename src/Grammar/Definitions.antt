-- ===== src/Grammar/Definitions.antt =====
-- `build_type_list` and `parse` of listcerts/asn1_compiler.c: the definitions of types in the tokens of a
-- grammar. A type is its name with the tokens behind `::=` up to the next name that has a definition.
use uefi_utilities.Base.{ℕ, Bool, ◌&&◌, none, List, [], ◌∷◌, if◌then◌else◌}
use uefi_utilities.Grammar.Tables.{TokenType, token_type_name, token_assignment}
use uefi_utilities.Grammar.Lexer.{Token}
use uefi_utilities.Grammar.Element.{Element, Tables}
use uefi_utilities.Grammar.Cursor.{
  Parsed, ok, err, ◌>>=◌, Cursor, at, past, is, no_types, parse_error, read_past,
}
use uefi_utilities.Grammar.Parser.{Library, parse_type}
pub mod Split
pub mod Whole

abbrev pub Definition : Type 0
Definition = Token × List Token

-- The tokens before the first definition, and the definitions.
unfoldable pub split_loop : List Token → List Token × List Definition
split_loop [] = ([], [])
split_loop (t ∷ []) = (t ∷ [], [])
split_loop (t ∷ u ∷ rest) =
    let behind = split_loop rest in
    let other = split_loop (u ∷ rest) in
    if is (Token.token_type t) token_type_name && is (Token.token_type u) token_assignment
    then ([], (t, behind.0) ∷ behind.1)
    else (t ∷ other.0, other.1)

-- `nr_tokens - 1` is unsigned: without tokens the loop reads behind their array.
unfoldable pub split_types : List Token → Parsed (List Definition)
unfolding split_loop
split_types [] = err read_past
split_types (t ∷ ts) = ok (split_loop (t ∷ ts)).1

-- `type[1].name`, which for the last type is what stands behind the tokens.
abbrev pub next_name : Token → List Definition → Token
next_name last [] = last
next_name last ((name, body) ∷ ds) = name

-- `if (cursor != type[1].name)`
abbrev pub at_end : Cursor → Parsed Cursor
at_end (at []) = ok (at [])
at_end (at (t ∷ ts)) = err parse_error
at_end past = err parse_error

module _ (lib : Library) (last : Token) where
  -- The loop of `parse`, with the element of each type.
  unfoldable pub parse_definitions : ℕ → List Definition → Tables → Parsed (List Element × Tables)
  unfolding parse_type
  parse_definitions fuel [] s = ok ([], s)
  parse_definitions fuel ((name, body) ∷ ds) s =
      parse_type lib (next_name last ds) fuel none (at body) s >>= λ (e, c, s1).
      at_end c >>= λ c1. parse_definitions fuel ds s1 >>= λ (es, s2). ok (e ∷ es, s2)

  -- `build_type_list`, and `parse`.
  unfoldable pub parse_types : ℕ → List Definition → Tables → Parsed (List Element × Tables)
  unfolding parse_definitions
  parse_types fuel [] s = err no_types
  parse_types fuel (d ∷ ds) s = parse_definitions fuel (d ∷ ds) s

  unfoldable pub parse_grammar : ℕ → List Token → Tables → Parsed (List Element × Tables)
  unfolding parse_types split_types
  parse_grammar fuel tokens s = split_types tokens >>= λ ds. parse_types fuel ds s
