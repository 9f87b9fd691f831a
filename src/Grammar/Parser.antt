-- ===== src/Grammar/Parser.antt =====
-- `parse_type` and `parse_compound` of listcerts/asn1_compiler.c. The cursor is the tokens that are
-- left before `end`, or it stands behind `end`; the token at `end` is the parameter `beyond`. A message
-- with `exit(1)` is an error. `bsearch` over the index of types and `strtoul` are parameters.
pub mod Consumes
pub mod Ends
use uefi_utilities.Base.{
  ℕ, zero, suc, ◌+◌, ◌-◌, ◌%◌, Bool, true, false, not, ◌||◌, Option, none, some, List, [], ◌∷◌, ltb,
  ◌==◌, if◌then◌else◌, length, take,
}
use uefi_utilities.Grammar.Tables.{
  TokenType, token_to_tag, enum_value, directive_universal, directive_application,
  directive_private, directive_implicit, directive_explicit, directive_any, directive_null,
  directive_boolean, directive_enumerated, directive_integer, directive_external,
  directive_bmpstring, directive_general_string, directive_graphic_string, directive_ia5_string,
  directive_iso646_string, directive_numeric_string, directive_printable_string,
  directive_t61_string, directive_teletex_string, directive_universal_string, directive_utf8_string,
  directive_videotex_string, directive_visible_string, directive_object_descriptor,
  directive_generalized_time, directive_utctime, directive_bit, directive_octet, directive_string,
  directive_object, directive_identifier, directive_choice, directive_sequence, directive_set,
  directive_of, directive_optional, directive_default, token_open_square, token_close_square,
  token_number, token_type_name, token_element_name, token_open_action, token_close_action,
  token_open_curly, token_close_curly, token_comma,
}
use uefi_utilities.Grammar.Directives.{Sign, less, equal, greater, CLib}
use uefi_utilities.Grammar.Lexer.{Token}
use uefi_utilities.Grammar.Element.{
  Compound, not_compound, set, set_of, sequence, sequence_of, choice, any, type_ref, tag_override,
  Class, universal, application, context, private, Head, Element, element, Elements, no_elements,
  child, as_alternative, first_unconditional, Tables, count_ref,
}
use uefi_utilities.Grammar.Cursor.{
  Category, Cursor, Error, Marker, Parsed, aborted, advance, any_case, assemble, at, before_end,
  category, choice_case, class_of, empty_compound, eof, err, explicit, external, fresh, implicit,
  insert_action, is, missing_close, missing_number, missing_square, name_case, no_brace, no_closure,
  no_type, not_action, object_case, ok, other_case, out_of_fuel, parse_optional, past, plain,
  read_past, sequence_case, set_case, stands, step, string_case, tag_class, tag_token, type_finder,
  undefined_type, unexpected_token, unmarked, ◌>>=◌,
}

pub record Library : Type 0 where
  pub clib : CLib
  pub strcmp : List ℕ → List ℕ → Sign
  -- `strtoul` in base 10: the number, and how many characters it read
  pub strtoul : List ℕ → ℕ × ℕ
  -- `bsearch` over `type_index`; a type comes with its number
  pub search_types : (ℕ × Token → Sign) → Option (ℕ × Token)

module _ (lib : Library) (beyond : Token) where
  -- `*cursor`
  unfoldable pub peek : Cursor → Parsed Token
  peek (at (t ∷ ts)) = ok t
  peek (at []) = ok beyond
  peek past = err read_past

  -- `switch (cursor->token_type)` behind the bracket
  unfoldable pub tag_class_at : Cursor → Option (Class × Bool) → Parsed (Class × Cursor)
  tag_class_at c none = err tag_class
  tag_class_at c (some (class, true)) = ok (class, advance c)
  tag_class_at c (some (class, false)) = ok (class, c)

  -- `if (cursor->token_type != type)` with its message, and `cursor++`
  unfoldable pub expect : TokenType → Error → Cursor → Parsed Cursor
  unfolding peek
  expect type e c = peek c >>= λ t. if is (Token.token_type t) type then ok (advance c) else err e

  -- `element->tag |= strtoul(…)` on a tag of 0, a byte, with the check of what was read.
  unfoldable pub tag_number : Token → Parsed ℕ
  tag_number t =
      let (number, read) = lib.strtoul (Token.value t) in
      if read == Token.size t then ok (number % 256) else err aborted

  -- `[ class number ]`, from the bracket on.
  unfoldable pub read_label : Cursor → Parsed ((Class × ℕ) × Cursor)
  unfolding peek tag_class_at class_of expect tag_number
  read_label c = step c >>= λ c1. peek c1 >>= λ t.
      tag_class_at c1 (class_of (Token.token_type t)) >>= λ (class, c2). before_end eof c2 >>= λ c3.
      peek c3 >>= λ n. expect token_number missing_number c3 >>= λ c4. tag_number n >>= λ number.
      before_end eof c4 >>= λ c5. expect token_close_square missing_square c5 >>= λ c6.
      before_end eof c6 >>= λ c7. ok ((class, number), c7)

  -- The tag value, if one is given.
  unfoldable pub parse_label : Cursor → Parsed (Option (Class × ℕ) × Cursor)
  unfolding peek read_label
  parse_label c = peek c >>= λ t.
      if is (Token.token_type t) token_open_square
      then (read_label c >>= λ (label, c1). ok (some label, c1))
      else ok (none, c)

  unfoldable pub parse_marker : Cursor → Parsed (Marker × Cursor)
  unfolding peek
  parse_marker c = peek c >>= λ t.
      if is (Token.token_type t) directive_implicit
      then (step c >>= λ c1. ok (implicit, c1))
      else if is (Token.token_type t) directive_explicit
      then (step c >>= λ c1. ok (explicit, c1))
      else ok (unmarked, c)

  unfoldable pub parse_action : Cursor → Tables → Parsed (Option (List ℕ) × Cursor × Tables)
  unfolding stands peek expect insert_action
  parse_action c s =
      if stands token_open_action c
      then (step c >>= λ c1. peek c1 >>= λ t. expect token_element_name not_action c1 >>= λ c2.
          before_end eof c2 >>= λ c3. expect token_close_action missing_close c3 >>= λ c4.
          let name = take (Token.size t) (Token.value t) in
          ok (some name, c4, record s { actions = insert_action lib.strcmp name s.actions }))
      else ok (none, c, s)

  -- The two ways on behind the first token of a type: a type, and a list of members.
  abbrev pub TypeParser : Type 0
  TypeParser = Option Token → Cursor → Tables → Parsed (Element × Cursor × Tables)

  abbrev pub MembersParser : Type 0
  MembersParser = Bool → Cursor → Tables → Parsed (Elements × Cursor × Tables)

  -- `parse_compound`
  unfoldable pub parse_compound : MembersParser → MembersParser
  unfolding peek expect first_unconditional
  parse_compound members alternates c s = expect token_open_curly no_brace c >>= λ c1.
      before_end eof c1 >>= λ c2. peek c2 >>= λ t.
      if is (Token.token_type t) token_open_curly
      then err empty_compound
      else members alternates c2 s >>= λ (es, c3, s3).
          expect token_close_curly no_closure c3 >>= λ c4. ok (first_unconditional es, c4, s3)

  -- Behind SEQUENCE and SET: `OF` and a type, or members. The first error is that of a missing type
  -- behind OF.
  unfoldable pub parse_many :
      Error
      → (TypeParser)
      → (MembersParser)
      → (alternates : Bool) → (one many : Compound) → Head
      → Cursor
      → Tables
      → Parsed (Element × Cursor × Tables)
  unfolding peek parse_compound
  parse_many e type members alternates one many h c s = step c >>= λ c1. peek c1 >>= λ t.
      if is (Token.token_type t) directive_of
      then (before_end e (advance c1) >>= λ c2. type none c2 s >>= λ (el, c3, s3). ok (
        element (record h { compound = many; constructed = true }) (child el no_elements),
        c3,
        s3,
      ))
      else parse_compound members alternates c1 s >>= λ (es, c3, s3).
          ok (element (record h { compound = one; constructed = true }) es, c3, s3)

  -- A type name that the index has, or not.
  unfoldable pub parse_name :
      Option (ℕ × Token) → Head → Cursor → Tables → Parsed (Element × Cursor × Tables)
  unfolding count_ref
  parse_name none h c s = err undefined_type
  parse_name (some (t, name)) h c s = ok (
    element (record h { compound = type_ref; ref = some t }) no_elements,
    advance c,
    count_ref t s,
  )

  -- The second word of BIT STRING, OCTET STRING and OBJECT IDENTIFIER.
  unfoldable pub parse_second :
      TokenType → Head → Cursor → Tables → Parsed (Element × Cursor × Tables)
  unfolding expect
  parse_second type h c s =
      step c >>= λ c1. expect type unexpected_token c1 >>= λ c2. ok (element h no_elements, c2, s)

  -- The switch, on the token `t` at the cursor.
  unfoldable pub parse_kind :
      TypeParser
      → MembersParser
      → Head
      → Token
      → Cursor
      → Tables
      → Category
      → Parsed (Element × Cursor × Tables)
  unfolding parse_many parse_name parse_second type_finder
  parse_kind type members h t c s any_case =
      ok (element (record h { compound = any }) no_elements, advance c, s)
  parse_kind type members h t c s plain = ok (element h no_elements, advance c, s)
  parse_kind type members h t c s external =
      ok (element (record h { constructed = true }) no_elements, advance c, s)
  parse_kind type members h t c s string_case = parse_second directive_string h c s
  parse_kind type members h t c s object_case = parse_second directive_identifier h c s
  parse_kind type members h t c s name_case =
      parse_name (lib.search_types (type_finder lib.clib t)) h c s
  parse_kind type members h t c s choice_case =
      parse_compound members true (advance c) s >>= λ (es, c1, s1).
      ok (element (record h { compound = choice }) es, c1, s1)
  parse_kind type members h t c s sequence_case =
      parse_many eof type members false sequence sequence_of h c s
  parse_kind type members h t c s set_case =
      parse_many unexpected_token type members true set set_of h c s
  parse_kind type members h t c s other_case = err no_type

  -- The body of `parse_type`, with the calls that it makes below it.
  unfoldable pub parse_one : TypeParser → MembersParser → TypeParser
  unfolding peek parse_label parse_marker parse_kind category parse_optional parse_action assemble
  parse_one type members name c s = peek c >>= λ first. parse_label c >>= λ (label, c1).
      parse_marker c1 >>= λ (m, c2). peek c2 >>= λ t.
      parse_kind type members (fresh name (tag_token label first t)) t c2 s
        (category (Token.token_type t))
      >>= λ (e, c3, s3).
          let (skippable, c4) = parse_optional c3 in
          parse_action c4 s3 >>= λ (action, c5, s5).
          ok (assemble label m name e skippable action, c5, s5)

  -- The name before a member's type.
  unfoldable pub parse_name_before : Cursor → Parsed (Option Token × Cursor)
  unfolding peek
  parse_name_before c = peek c >>= λ t.
      if is (Token.token_type t) token_element_name
      then (step c >>= λ c1. ok (some t, c1))
      else ok (none, c)

  -- Behind a member: a comma and further members, or the end of the list.
  unfoldable pub more_members :
      (Cursor → Tables → Parsed (Elements × Cursor × Tables))
      → Element
      → Cursor
      → Tables
      → Parsed (Elements × Cursor × Tables)
  unfolding peek
  more_members again e c s = before_end eof c >>= λ c1. peek c1 >>= λ t.
      if is (Token.token_type t) token_comma
      then (step c1 >>= λ c2. again c2 s >>= λ (es, c3, s3). ok (child e es, c3, s3))
      else ok (child e no_elements, c1, s)

  -- `parse_type`, and the loop of `parse_compound`.
  unfoldable mutual
    unfolding parse_one parse_name_before more_members as_alternative

    pub parse_type : ℕ → TypeParser
    parse_type zero name c s = out_of_fuel
    parse_type (suc fuel) name c s = parse_one (parse_type fuel) (parse_members fuel) name c s

    pub parse_members : ℕ → MembersParser
    parse_members zero alternates c s = out_of_fuel
    parse_members (suc fuel) alternates c s = parse_name_before c >>= λ (name, c1).
        parse_type fuel name c1 s >>= λ (e, c2, s2).
        more_members (parse_members fuel alternates) (if alternates then as_alternative e else e) c2
          s2
