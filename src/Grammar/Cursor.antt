-- ===== src/Grammar/Cursor.antt =====
-- The parts of `parse_type` of listcerts/asn1_compiler.c that need no library: the cursor, the tests of
-- a token, and the element that the function returns.
use uefi_utilities.Base.{
  ℕ, Bool, true, false, ◌||◌, Option, none, some, List, [], ◌∷◌, ltb, ◌==◌, if◌then◌else◌, take,
}
use uefi_utilities.Grammar.Tables.{
  TokenType, token_to_tag, enum_value, directive_universal, directive_application,
  directive_private, directive_any, directive_null, directive_boolean, directive_enumerated,
  directive_integer, directive_external, directive_bmpstring, directive_general_string,
  directive_graphic_string, directive_ia5_string, directive_iso646_string, directive_numeric_string,
  directive_printable_string, directive_t61_string, directive_teletex_string,
  directive_universal_string, directive_utf8_string, directive_videotex_string,
  directive_visible_string, directive_object_descriptor, directive_generalized_time,
  directive_utctime, directive_bit, directive_octet, directive_object, directive_choice,
  directive_sequence, directive_set, directive_optional, directive_default, token_number,
  token_type_name,
}
use uefi_utilities.Grammar.Directives.{Sign, less, equal, greater, CLib}
use uefi_utilities.Grammar.Lexer.{Token}
use uefi_utilities.Grammar.Element.{
  not_compound, sequence, tag_override, Class, universal, application, context, private, Head,
  Element, element, no_elements, child,
}

-- The messages before `exit(1)`, and `abort()`. `read_past` is a read of the token behind `end`.
pub data Error : Type 0 where
  tag_class missing_number missing_square undefined_type no_type not_action missing_close : Error
  unexpected_token eof no_brace empty_compound no_closure aborted read_past no_types parse_error :
      Error

pub data Parsed (A : Type 0) : Type 0 where
  ok : A → Parsed A
  err : Error → Parsed A
  out_of_fuel : Parsed A

infixl 5 ◌>>=◌
abbrev pub ◌>>=◌ : {A B : Type 0} → Parsed A → (A → Parsed B) → Parsed B
ok a >>= k = k a
err e >>= k = err e
out_of_fuel >>= k = out_of_fuel

pub data Cursor : Type 0 where
  at : List Token → Cursor
  past : Cursor

-- `cursor++`
abbrev pub advance : Cursor → Cursor
advance (at []) = past
advance (at (t ∷ ts)) = at ts
advance past = past

-- `if (cursor >= end) goto overrun_error`
abbrev pub before_end : Error → Cursor → Parsed Cursor
before_end e (at []) = err e
before_end e (at (t ∷ ts)) = ok (at (t ∷ ts))
before_end e past = err e

-- Both, one behind the other.
abbrev pub step : Cursor → Parsed Cursor
step c = before_end eof (advance c)

abbrev pub is : TokenType → TokenType → Bool
is t u = enum_value t == enum_value u

-- `cursor < end && cursor->token_type == type`
unfoldable pub stands : TokenType → Cursor → Bool
stands type (at (t ∷ ts)) = is (Token.token_type t) type
stands type (at []) = false
stands type past = false

-- The cases of the switch on the token that introduces a type.
pub data Category : Type 0 where
  any_case plain external string_case object_case name_case choice_case sequence_case set_case :
      Category
  other_case : Category

unfoldable pub category : TokenType → Category
category directive_any = any_case
category directive_null = plain
category directive_boolean = plain
category directive_enumerated = plain
category directive_integer = plain
category directive_external = external
category directive_bmpstring = plain
category directive_general_string = plain
category directive_graphic_string = plain
category directive_ia5_string = plain
category directive_iso646_string = plain
category directive_numeric_string = plain
category directive_printable_string = plain
category directive_t61_string = plain
category directive_teletex_string = plain
category directive_universal_string = plain
category directive_utf8_string = plain
category directive_videotex_string = plain
category directive_visible_string = plain
category directive_object_descriptor = plain
category directive_generalized_time = plain
category directive_utctime = plain
category directive_bit = string_case
category directive_octet = string_case
category directive_object = object_case
category token_type_name = name_case
category directive_choice = choice_case
category directive_sequence = sequence_case
category directive_set = set_case
category _ = other_case

-- `element->class`, with whether the cursor moves.
unfoldable pub class_of : TokenType → Option (Class × Bool)
class_of directive_universal = some (universal, true)
class_of directive_application = some (application, true)
class_of token_number = some (context, false)
class_of directive_private = some (private, true)
class_of _ = none

pub data Marker : Type 0 where
  unmarked implicit explicit : Marker

-- An element as `alloc_elem` and the lines behind it leave it.
abbrev pub fresh : Option Token → Token → Head
fresh name t = record {
  name = name;
  action = none;
  compound = not_compound;
  class = universal;
  constructed = false;
  tag = token_to_tag (Token.token_type t);
  ref = none;
  implicit = false;
  explicit = false;
  skippable = false;
  conditional = false;
}

-- The loop over `action_list`, which keeps the names in the order of `strcmp`.
unfoldable pub insert_action : (List ℕ → List ℕ → Sign) → List ℕ → List (List ℕ) → List (List ℕ)
insert_action strcmp name [] = name ∷ []
insert_action strcmp name (a ∷ rest) =
    let more = insert_action strcmp name rest in
    elim (strcmp name a) [ equal ↦ a ∷ rest | less ↦ name ∷ (a ∷ rest) | greater ↦ a ∷ more ]

-- `type_finder`, by the sizes and then by the bytes.
unfoldable pub type_finder : CLib → Token → ℕ × Token → Sign
type_finder c token (t, name) =
    if token.size == Token.size name
    then CLib.memcmp c (take token.size token.value) (take token.size (Token.value name))
    else if ltb token.size (Token.size name)
    then less
    else greater

-- OPTIONAL or DEFAULT
unfoldable pub parse_optional : Cursor → Bool × Cursor
unfolding stands
parse_optional c =
    if stands directive_optional c || stands directive_default c
    then (true, advance c)
    else (false, c)

-- The element for a type without a label, and with one: there a second element holds the type.
unfoldable pub assemble :
    Option (Class × ℕ)
    → Marker
    → Option Token
    → Element
    → (skippable : Bool) → Option (List ℕ)
    → Element
assemble none m name (element h es) skippable action =
    element
      (record h {
        implicit = (elim m [ implicit ↦ true | _ ↦ false ]);
        explicit = (elim m [ explicit ↦ true | _ ↦ false ]);
        skippable = skippable;
        action = action;
      })
      es
assemble (some (class, number)) m name (element h es) skippable action =
    element
      (record {
        name = name;
        action = none;
        compound = (elim m [ implicit ↦ tag_override | _ ↦ sequence ]);
        class = class;
        constructed = (elim m [ implicit ↦ false | _ ↦ true ]);
        tag = number;
        ref = none;
        implicit = (elim m [ implicit ↦ true | _ ↦ false ]);
        explicit = (elim m [ explicit ↦ true | _ ↦ false ]);
        skippable = skippable;
        conditional = false;
      })
      (child (element (record h { action = action }) es) no_elements)

-- The token whose tag a type has: the first, but behind a label the one that introduces the type.
abbrev pub tag_token : Option (Class × ℕ) → (first kind : Token) → Token
tag_token none first kind = first
tag_token (some label) first kind = kind
