-- ===== src/Tests/Parser.antt =====
-- The parser of listcerts/asn1_compiler.c on a type.
use uefi_utilities.Base.{ℕ, ◌<◌, true, Option, none, some, List, [], ◌∷◌, arith}
use uefi_utilities.Grammar.Tables.{
  TokenType, directive_sequence, directive_of, directive_integer, token_open_action,
  token_element_name, token_close_action, token_type_name,
}
use uefi_utilities.Grammar.Lexer.{Token}
use uefi_utilities.Grammar.Element.{Tables, context}
use uefi_utilities.Grammar.Cursor.{Cursor, at, unmarked, implicit}
use uefi_utilities.Grammar.Parser.{Library, parse_type}
use uefi_utilities.Grammar.Parser.Consumes.{Ends, size}
use uefi_utilities.Grammar.Parser.Ends.{parse_type-Ends}
use uefi_utilities.Grammar.Syntax.{
  Ty, ty, of_ty, sequence_kind, more, last, simple, integer, null, optional, required, default,
  print_ty,
}
use uefi_utilities.Grammar.Syntax.{bit_string}
use uefi_utilities.Grammar.Definitions.Whole.{Grammar}
use uefi_utilities.Tests.Grammar.{ascii, compare_texts}

abbrev library : Library
library = record {
  clib = ascii;
  strcmp = compare_texts;
  strtoul = λ text. (0, 1);
  search_types = λ cmp. none;
}

abbrev word : TokenType → Token
word t = record { token_type = t; size = 1; value = b'x' ∷ [] }

-- SEQUENCE OF INTEGER ({ x })
abbrev sequence_of : Cursor
sequence_of = at (
    word directive_sequence
    ∷ word directive_of
    ∷ word directive_integer
    ∷ word token_open_action
    ∷ word token_element_name
    ∷ word token_close_action
    ∷ [])

abbrev no_tables : Tables
no_tables = record { actions = []; ref_count = λ t. 0 }

parse_type-Ends_example :
    Ends
      (λ r. size r.1 < size sequence_of)
      (parse_type library (word token_type_name) 15 none sequence_of no_tables)
parse_type-Ends_example =
    parse_type-Ends library (word token_type_name) 15 none sequence_of no_tables (omega arith)

-- [0] IMPLICIT SEQUENCE { y INTEGER OPTIONAL, SET OF NULL ({ y }) } DEFAULT
abbrev name_y : Option (List ℕ)
name_y = some (b'y' ∷ [])

abbrev tree : Ty
tree =
    ty (some (context, b'0' ∷ [])) implicit
      (sequence_kind (
        more name_y (ty none unmarked (simple integer) optional none)
          (last none (of_ty none unmarked true (ty none unmarked (simple null) required name_y)))))
      default none

abbrev spelling : TokenType → List ℕ
spelling t = b'x' ∷ []

abbrev printed : List Token
printed = print_ty spelling tree []

-- x ::= the tree, y ::= BIT STRING
abbrev grammar : Grammar
grammar = (b'y' ∷ [], ty none unmarked bit_string required none) ∷ []
