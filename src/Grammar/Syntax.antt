-- ===== src/Grammar/Syntax.antt =====
-- The types that a grammar of listcerts/asn1_compiler.c can define, as trees, with the tokens that
-- spell them and the elements that they mean. A type behind OF takes the OPTIONAL, the DEFAULT and the
-- action that stand behind it.
use uefi_utilities.Base.{
  ℕ, ◌%◌, ◌+◌, ◌≡◌, Bool, true, false, Option, none, some, List, [], ◌∷◌, length, if◌then◌else◌,
}
use uefi_utilities.Grammar.Tables.{
  TokenType, directive_universal, directive_application, directive_private, directive_implicit,
  directive_explicit, directive_any, directive_null, directive_boolean, directive_enumerated,
  directive_integer, directive_external, directive_bmpstring, directive_general_string,
  directive_graphic_string, directive_ia5_string, directive_iso646_string, directive_numeric_string,
  directive_printable_string, directive_t61_string, directive_teletex_string,
  directive_universal_string, directive_utf8_string, directive_videotex_string,
  directive_visible_string, directive_object_descriptor, directive_generalized_time,
  directive_utctime, directive_bit, directive_octet, directive_string, directive_object,
  directive_identifier, directive_choice, directive_sequence, directive_set, directive_of,
  directive_optional, directive_default, token_open_square, token_close_square, token_number,
  token_type_name, token_element_name, token_open_action, token_close_action, token_open_curly,
  token_close_curly, token_comma,
}
use uefi_utilities.Grammar.Lexer.{Token}
use uefi_utilities.Grammar.Element.{
  Compound, not_compound, set, set_of, sequence, sequence_of, choice, any, type_ref, Class,
  universal, application, context, private, Head, Element, element, Elements, no_elements, child,
  as_alternative, first_unconditional, Tables, count_ref,
}
use uefi_utilities.Grammar.Cursor.{
  Marker, unmarked, implicit, explicit, fresh, insert_action, type_finder, tag_token, assemble,
}
use uefi_utilities.Grammar.Parser.{Library}
pub mod First
pub mod Reads
pub mod Parts
pub mod RoundTrip
pub mod Meaning

-- The types of one word that need no more than their tag.
pub data Simple : Type 0 where
  null boolean enumerated integer bmpstring general_string graphic_string ia5_string iso646_string :
      Simple
  numeric_string printable_string t61_string teletex_string universal_string utf8_string : Simple
  videotex_string visible_string object_descriptor generalized_time utctime : Simple

unfoldable pub simple_token : Simple → TokenType
simple_token null = directive_null
simple_token boolean = directive_boolean
simple_token enumerated = directive_enumerated
simple_token integer = directive_integer
simple_token bmpstring = directive_bmpstring
simple_token general_string = directive_general_string
simple_token graphic_string = directive_graphic_string
simple_token ia5_string = directive_ia5_string
simple_token iso646_string = directive_iso646_string
simple_token numeric_string = directive_numeric_string
simple_token printable_string = directive_printable_string
simple_token t61_string = directive_t61_string
simple_token teletex_string = directive_teletex_string
simple_token universal_string = directive_universal_string
simple_token utf8_string = directive_utf8_string
simple_token videotex_string = directive_videotex_string
simple_token visible_string = directive_visible_string
simple_token object_descriptor = directive_object_descriptor
simple_token generalized_time = directive_generalized_time
simple_token utctime = directive_utctime

pub data Presence : Type 0 where
  required optional default : Presence

-- A label is a class with the text of a number; an action is its name.
abbrev pub Label : Type 0
Label = Option (Class × List ℕ)

abbrev pub Action : Type 0
Action = Option (List ℕ)

mutual
  pub data Ty : Type 0 where
    ty : Label → Marker → Kind → Presence → Action → Ty
    of_ty : Label → Marker → (is_set : Bool) → Ty → Ty

  pub data Kind : Type 0 where
    any_kind external_kind bit_string octet_string object_identifier : Kind
    simple : Simple → Kind
    -- a name and the number of the type that the index has under it
    named : List ℕ → ℕ → Kind
    choice_kind sequence_kind set_kind : Members → Kind

  pub data Members : Type 0 where
    last : Option (List ℕ) → Ty → Members
    more : Option (List ℕ) → Ty → Members → Members

-- A token with this text, and the tokens that the grammar always spells in one way.
abbrev pub spelt : TokenType → List ℕ → Token
spelt t text = record { token_type = t; value = text; size = length text }

module _ (text : TokenType → List ℕ) where
  abbrev pub word : TokenType → Token
  word t = spelt t (text t)

  unfoldable pub print_label : Label → List Token → List Token
  print_label none ts = ts
  print_label (some (universal, n)) ts =
      word token_open_square
      ∷ word directive_universal
      ∷ spelt token_number n
      ∷ word token_close_square
      ∷ ts
  print_label (some (application, n)) ts =
      word token_open_square
      ∷ word directive_application
      ∷ spelt token_number n
      ∷ word token_close_square
      ∷ ts
  print_label (some (private, n)) ts =
      word token_open_square
      ∷ word directive_private
      ∷ spelt token_number n
      ∷ word token_close_square
      ∷ ts
  print_label (some (context, n)) ts =
      word token_open_square ∷ spelt token_number n ∷ word token_close_square ∷ ts

  unfoldable pub print_marker : Marker → List Token → List Token
  print_marker unmarked ts = ts
  print_marker implicit ts = word directive_implicit ∷ ts
  print_marker explicit ts = word directive_explicit ∷ ts

  unfoldable pub print_presence : Presence → List Token → List Token
  print_presence required ts = ts
  print_presence optional ts = word directive_optional ∷ ts
  print_presence default ts = word directive_default ∷ ts

  unfoldable pub print_action : Action → List Token → List Token
  print_action none ts = ts
  print_action (some a) ts =
      word token_open_action ∷ spelt token_element_name a ∷ word token_close_action ∷ ts

  unfoldable pub print_name : Option (List ℕ) → List Token → List Token
  print_name none ts = ts
  print_name (some n) ts = spelt token_element_name n ∷ ts

  unfoldable pub kind_token : Kind → Token
  unfolding simple_token
  kind_token any_kind = word directive_any
  kind_token external_kind = word directive_external
  kind_token bit_string = word directive_bit
  kind_token octet_string = word directive_octet
  kind_token object_identifier = word directive_object
  kind_token (simple s) = word (simple_token s)
  kind_token (named n t) = spelt token_type_name n
  kind_token (choice_kind ms) = word directive_choice
  kind_token (sequence_kind ms) = word directive_sequence
  kind_token (set_kind ms) = word directive_set

  abbrev pub of_token : Bool → Token
  of_token true = word directive_set
  of_token false = word directive_sequence

  -- The tokens of a type in front of these.
  unfoldable mutual
    unfolding print_label print_marker print_presence print_action print_name kind_token

    pub print_ty : Ty → List Token → List Token
    print_ty (ty l m k p a) ts =
        print_label l
          (print_marker m (kind_token k ∷ print_behind k (print_presence p (print_action a ts))))
    print_ty (of_ty l m is_set t) ts =
        print_label l (print_marker m (of_token is_set ∷ word directive_of ∷ print_ty t ts))

    -- What stands behind the first token of a kind.
    pub print_behind : Kind → List Token → List Token
    print_behind any_kind ts = ts
    print_behind external_kind ts = ts
    print_behind bit_string ts = word directive_string ∷ ts
    print_behind octet_string ts = word directive_string ∷ ts
    print_behind object_identifier ts = word directive_identifier ∷ ts
    print_behind (simple s) ts = ts
    print_behind (named n t) ts = ts
    print_behind (choice_kind ms) ts =
        word token_open_curly ∷ print_members ms (word token_close_curly ∷ ts)
    print_behind (sequence_kind ms) ts =
        word token_open_curly ∷ print_members ms (word token_close_curly ∷ ts)
    print_behind (set_kind ms) ts =
        word token_open_curly ∷ print_members ms (word token_close_curly ∷ ts)

    pub print_members : Members → List Token → List Token
    print_members (last n t) ts = print_name n (print_ty t ts)
    print_members (more n t ms) ts =
        print_name n (print_ty t (word token_comma ∷ print_members ms ts))

  -- The first token behind a label.
  abbrev pub first_of : Marker → Token → Token
  first_of unmarked k = k
  first_of implicit k = word directive_implicit
  first_of explicit k = word directive_explicit

  module _ (lib : Library) where
    abbrev pub label_of : Label → Option (Class × ℕ)
    label_of none = none
    label_of (some (class, n)) = some (class, (Library.strtoul lib n).0 % 256)

    abbrev pub is_skippable : Presence → Bool
    is_skippable required = false
    is_skippable optional = true
    is_skippable default = true

    abbrev pub note_action : Action → Tables → Tables
    note_action none s = s
    note_action (some a) s = record s {
      actions = insert_action (Library.strcmp lib) a (Tables.actions s);
    }

    abbrev pub name_of : Option (List ℕ) → Option Token
    name_of none = none
    name_of (some n) = some (spelt token_element_name n)

    -- The element of a type with this name, and the tables with its actions and references.
    unfoldable mutual
      unfolding kind_token assemble insert_action count_ref as_alternative first_unconditional

      pub mean_ty : Ty → Option Token → Tables → Element × Tables
      mean_ty (ty l m k p a) name s =
          let k' = kind_token k in
          let h = fresh name (tag_token (label_of l) (first_of m k') k') in
          let (e, s1) = mean_kind k h s in
          (assemble (label_of l) m name e (is_skippable p) a, note_action a s1)
      mean_ty (of_ty l m is_set t) name s =
          let k' = of_token is_set in
          let h = fresh name (tag_token (label_of l) (first_of m k') k') in
          let (e, s1) = mean_ty t none s in
          (
            assemble (label_of l) m name
                (element
                  (record h {
                    compound = if is_set then set_of else sequence_of;
                    constructed = true;
                  })
                  (child e no_elements))
                false none,
            s1,
          )

      pub mean_kind : Kind → Head → Tables → Element × Tables
      mean_kind any_kind h s = (element (record h { compound = any }) no_elements, s)
      mean_kind external_kind h s = (element (record h { constructed = true }) no_elements, s)
      mean_kind bit_string h s = (element h no_elements, s)
      mean_kind octet_string h s = (element h no_elements, s)
      mean_kind object_identifier h s = (element h no_elements, s)
      mean_kind (simple u) h s = (element h no_elements, s)
      mean_kind (named n t) h s =
          (element (record h { compound = type_ref; ref = some t }) no_elements, count_ref t s)
      mean_kind (choice_kind ms) h s =
          let (es, s1) = mean_members ms true s in
          (element (record h { compound = choice }) (first_unconditional es), s1)
      mean_kind (sequence_kind ms) h s =
          let (es, s1) = mean_members ms false s in
          (
            element (record h { compound = sequence; constructed = true }) (first_unconditional es),
            s1,
          )
      mean_kind (set_kind ms) h s =
          let (es, s1) = mean_members ms true s in
          (element (record h { compound = set; constructed = true }) (first_unconditional es), s1)

      -- The members, each a skippable alternative or as it is.
      pub mean_members : Members → Bool → Tables → Elements × Tables
      mean_members (last n t) alternates s =
          let (e, s1) = mean_ty t (name_of n) s in
          (child (if alternates then as_alternative e else e) no_elements, s1)
      mean_members (more n t ms) alternates s =
          let (e, s1) = mean_ty t (name_of n) s in
          let (es, s2) = mean_members ms alternates s1 in
          (child (if alternates then as_alternative e else e) es, s2)

  -- `strtoul` reads the whole of the number of a label.
  abbrev pub KnownLabel : Library → Label → Type 0
  KnownLabel lib none = Unit
  KnownLabel lib (some (class, n)) = (Library.strtoul lib n).1 ≡ length n

  -- The names of types are in the index, and the numbers of labels are numbers.
  unfoldable mutual
    pub Known : Library → Ty → Type 0
    Known lib (ty l m k p a) = KnownLabel lib l × KnownKind lib k
    Known lib (of_ty l m is_set t) = KnownLabel lib l × Known lib t

    pub KnownKind : Library → Kind → Type 0
    KnownKind lib any_kind = Unit
    KnownKind lib external_kind = Unit
    KnownKind lib bit_string = Unit
    KnownKind lib octet_string = Unit
    KnownKind lib object_identifier = Unit
    KnownKind lib (simple s) = Unit
    KnownKind lib (named n t) =
        (found : Token) × (Library.search_types lib
            (type_finder (Library.clib lib) (spelt token_type_name n))
          ≡ some (t, found))
    KnownKind lib (choice_kind ms) = KnownMembers lib ms
    KnownKind lib (sequence_kind ms) = KnownMembers lib ms
    KnownKind lib (set_kind ms) = KnownMembers lib ms

    pub KnownMembers : Library → Members → Type 0
    KnownMembers lib (last n t) = Known lib t
    KnownMembers lib (more n t ms) = Known lib t × KnownMembers lib ms

-- The fuel that a type takes.
unfoldable mutual
  pub weight : Ty → ℕ
  weight (ty l m k p a) = 1 + weight_kind k
  weight (of_ty l m is_set t) = 1 + weight t

  pub weight_kind : Kind → ℕ
  weight_kind (choice_kind ms) = weight_members ms
  weight_kind (sequence_kind ms) = weight_members ms
  weight_kind (set_kind ms) = weight_members ms
  weight_kind _ = 0

  pub weight_members : Members → ℕ
  weight_members (last n t) = 1 + weight t
  weight_members (more n t ms) = 1 + (weight t + weight_members ms)
