-- ===== src/Grammar/Syntax/First.antt =====
-- The first tokens of the types of listcerts/asn1_compiler.c tell them from a label, a marker, a name and
-- a brace.
use uefi_utilities.Base.{ℕ, ◌≡◌, refl, Bool, true, false, Option, none, some, List, ◌∷◌}
use uefi_utilities.Grammar.Tables.{
  TokenType, enum_value, directive_implicit, directive_explicit, token_open_square,
  token_element_name, token_open_curly,
}
use uefi_utilities.Grammar.Lexer.{Token}
use uefi_utilities.Grammar.Element.{universal, application, context, private}
use uefi_utilities.Grammar.Cursor.{Marker, is, category, plain, unmarked, implicit, explicit}
use uefi_utilities.Grammar.Syntax.{
  Simple, null, boolean, enumerated, integer, bmpstring, general_string, graphic_string, ia5_string,
  iso646_string, numeric_string, printable_string, t61_string, teletex_string, universal_string,
  utf8_string, videotex_string, visible_string, object_descriptor, generalized_time, utctime,
  simple_token, Ty, ty, of_ty, Kind, any_kind, external_kind, bit_string, octet_string,
  object_identifier, simple, named, choice_kind, sequence_kind, set_kind, Members, last, more,
  kind_token, of_token, print_label, print_marker, print_ty, print_name, print_members, Label,
}

-- A token that is none of these.
abbrev pub Begins : TokenType → Type 0
Begins u =
    (is u token_open_square ≡ false)
    × (is u directive_implicit ≡ false)
    × (is u directive_explicit ≡ false)
    × (is u token_element_name ≡ false)
    × (is u token_open_curly ≡ false)

pub simple_token-plain : (s : Simple) → category (simple_token s) ≡ plain
unfolding simple_token category
simple_token-plain null = refl
simple_token-plain boolean = refl
simple_token-plain enumerated = refl
simple_token-plain integer = refl
simple_token-plain bmpstring = refl
simple_token-plain general_string = refl
simple_token-plain graphic_string = refl
simple_token-plain ia5_string = refl
simple_token-plain iso646_string = refl
simple_token-plain numeric_string = refl
simple_token-plain printable_string = refl
simple_token-plain t61_string = refl
simple_token-plain teletex_string = refl
simple_token-plain universal_string = refl
simple_token-plain utf8_string = refl
simple_token-plain videotex_string = refl
simple_token-plain visible_string = refl
simple_token-plain object_descriptor = refl
simple_token-plain generalized_time = refl
simple_token-plain utctime = refl

simple_token-Begins : (s : Simple) → Begins (simple_token s)
unfolding simple_token enum_value
simple_token-Begins null = (refl, refl, refl, refl, refl)
simple_token-Begins boolean = (refl, refl, refl, refl, refl)
simple_token-Begins enumerated = (refl, refl, refl, refl, refl)
simple_token-Begins integer = (refl, refl, refl, refl, refl)
simple_token-Begins bmpstring = (refl, refl, refl, refl, refl)
simple_token-Begins general_string = (refl, refl, refl, refl, refl)
simple_token-Begins graphic_string = (refl, refl, refl, refl, refl)
simple_token-Begins ia5_string = (refl, refl, refl, refl, refl)
simple_token-Begins iso646_string = (refl, refl, refl, refl, refl)
simple_token-Begins numeric_string = (refl, refl, refl, refl, refl)
simple_token-Begins printable_string = (refl, refl, refl, refl, refl)
simple_token-Begins t61_string = (refl, refl, refl, refl, refl)
simple_token-Begins teletex_string = (refl, refl, refl, refl, refl)
simple_token-Begins universal_string = (refl, refl, refl, refl, refl)
simple_token-Begins utf8_string = (refl, refl, refl, refl, refl)
simple_token-Begins videotex_string = (refl, refl, refl, refl, refl)
simple_token-Begins visible_string = (refl, refl, refl, refl, refl)
simple_token-Begins object_descriptor = (refl, refl, refl, refl, refl)
simple_token-Begins generalized_time = (refl, refl, refl, refl, refl)
simple_token-Begins utctime = (refl, refl, refl, refl, refl)

module _ (text : TokenType → List ℕ) where
  pub kind_token-Begins : (k : Kind) → Begins (Token.token_type (kind_token text k))
  unfolding kind_token enum_value
  kind_token-Begins any_kind = (refl, refl, refl, refl, refl)
  kind_token-Begins external_kind = (refl, refl, refl, refl, refl)
  kind_token-Begins bit_string = (refl, refl, refl, refl, refl)
  kind_token-Begins octet_string = (refl, refl, refl, refl, refl)
  kind_token-Begins object_identifier = (refl, refl, refl, refl, refl)
  kind_token-Begins (simple s) = simple_token-Begins s
  kind_token-Begins (named n t) = (refl, refl, refl, refl, refl)
  kind_token-Begins (choice_kind ms) = (refl, refl, refl, refl, refl)
  kind_token-Begins (sequence_kind ms) = (refl, refl, refl, refl, refl)
  kind_token-Begins (set_kind ms) = (refl, refl, refl, refl, refl)

  pub of_token-Begins : (is_set : Bool) → Begins (Token.token_type (of_token text is_set))
  unfolding enum_value
  of_token-Begins true = (refl, refl, refl, refl, refl)
  of_token-Begins false = (refl, refl, refl, refl, refl)

  -- The first token of a list that has one, and that is neither a name nor a brace.
  abbrev pub Opens : List Token → Type 0
  Opens ts =
      (u : Token) × (us : List Token) × (ts ≡ u ∷ us)
      × (is (Token.token_type u) token_element_name ≡ false)
      × (is (Token.token_type u) token_open_curly ≡ false)

  marker-Opens :
      (m : Marker) (u : Token) (us : List Token)
      → Begins (Token.token_type u)
      → Opens (print_marker text m (u ∷ us))
  unfolding print_marker enum_value
  marker-Opens unmarked u us b = (u, us, refl, b.3, b.4)
  marker-Opens implicit u us b = (_, _, refl, refl, refl)
  marker-Opens explicit u us b = (_, _, refl, refl, refl)

  label-Opens : (l : Label) (ts : List Token) → Opens ts → Opens (print_label text l ts)
  unfolding print_label enum_value
  label-Opens none ts o = o
  label-Opens (some (universal, n)) ts o = (_, _, refl, refl, refl)
  label-Opens (some (application, n)) ts o = (_, _, refl, refl, refl)
  label-Opens (some (context, n)) ts o = (_, _, refl, refl, refl)
  label-Opens (some (private, n)) ts o = (_, _, refl, refl, refl)

  pub ty-Opens : (t : Ty) (ts : List Token) → Opens (print_ty text t ts)
  unfolding print_ty
  ty-Opens (ty l m k p a) ts =
      label-Opens l _ (marker-Opens m (kind_token text k) _ (kind_token-Begins k))
  ty-Opens (of_ty l m is_set t) ts =
      label-Opens l _ (marker-Opens m (of_token text is_set) _ (of_token-Begins is_set))

  -- The first token of a list that has one, and that is no brace.
  abbrev pub Inside : List Token → Type 0
  Inside ts =
      (u : Token) × (us : List Token) × (ts ≡ u ∷ us)
      × (is (Token.token_type u) token_open_curly ≡ false)

  name-Inside : (n : Option (List ℕ)) (ts : List Token) → Opens ts → Inside (print_name text n ts)
  unfolding print_name enum_value
  name-Inside none ts (u, us, e, name, curly) = (u, us, e, curly)
  name-Inside (some n) ts o = (_, _, refl, refl)

  pub members-Inside : (ms : Members) (ts : List Token) → Inside (print_members text ms ts)
  unfolding print_ty
  members-Inside (last n t) ts = name-Inside n _ (ty-Opens t ts)
  members-Inside (more n t ms) ts = name-Inside n _ (ty-Opens t _)
