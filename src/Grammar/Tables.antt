-- ===== src/Grammar/Tables.antt =====
-- The tables of listcerts/asn1_compiler.c: its tokens, and the universal tags that
-- listcerts/asn1.h numbers.
use uefi_utilities.Base.{ℕ}

-- `enum token_type`
pub data TokenType : Type 0 where
  directive_absent directive_all directive_any directive_application directive_automatic : TokenType
  directive_begin directive_bit directive_bmpstring directive_boolean directive_by : TokenType
  directive_character directive_choice directive_class directive_component directive_components :
      TokenType
  directive_constrained directive_containing directive_default directive_defined : TokenType
  directive_definitions directive_embedded directive_encoded directive_encoding_control : TokenType
  directive_end directive_enumerated directive_except directive_explicit directive_exports :
      TokenType
  directive_extensibility directive_external directive_false directive_from : TokenType
  directive_general_string directive_generalized_time directive_graphic_string : TokenType
  directive_ia5_string directive_identifier directive_implicit directive_implied directive_imports :
      TokenType
  directive_includes directive_instance directive_instructions directive_integer : TokenType
  directive_intersection directive_iso646_string directive_max directive_min : TokenType
  directive_minus_infinity directive_null directive_numeric_string directive_object : TokenType
  directive_octet directive_of directive_optional directive_object_descriptor directive_pattern :
      TokenType
  directive_pdv directive_plus_infinity directive_present directive_private : TokenType
  directive_printable_string directive_real directive_relative_oid directive_sequence : TokenType
  directive_set directive_size directive_string directive_syntax directive_t61_string : TokenType
  directive_tags directive_true directive_teletex_string directive_union directive_unique :
      TokenType
  directive_universal directive_utctime directive_utf8_string directive_universal_string : TokenType
  directive_videotex_string directive_visible_string directive_with token_assignment : TokenType
  token_open_curly token_close_curly token_open_square token_close_square token_open_action :
      TokenType
  token_close_action token_comma token_number token_type_name token_element_name : TokenType

-- `token_to_tag`
unfoldable pub token_to_tag : TokenType → ℕ
token_to_tag directive_boolean = 1
token_to_tag directive_integer = 2
token_to_tag directive_bit = 3
token_to_tag directive_octet = 4
token_to_tag directive_null = 5
token_to_tag directive_object = 6
token_to_tag directive_object_descriptor = 7
token_to_tag directive_external = 8
token_to_tag directive_real = 9
token_to_tag directive_enumerated = 10
token_to_tag directive_embedded = 0
token_to_tag directive_utf8_string = 12
token_to_tag directive_relative_oid = 13
token_to_tag directive_sequence = 16
token_to_tag directive_set = 17
token_to_tag directive_numeric_string = 18
token_to_tag directive_printable_string = 19
token_to_tag directive_t61_string = 20
token_to_tag directive_teletex_string = 20
token_to_tag directive_videotex_string = 21
token_to_tag directive_ia5_string = 22
token_to_tag directive_utctime = 23
token_to_tag directive_generalized_time = 24
token_to_tag directive_graphic_string = 25
token_to_tag directive_visible_string = 26
token_to_tag directive_general_string = 27
token_to_tag directive_universal_string = 23
token_to_tag directive_character = 29
token_to_tag directive_bmpstring = 30
token_to_tag _ = 0

-- The value of an enumerator.
unfoldable pub enum_value : TokenType → ℕ
enum_value directive_absent = 0
enum_value directive_all = 1
enum_value directive_any = 2
enum_value directive_application = 3
enum_value directive_automatic = 4
enum_value directive_begin = 5
enum_value directive_bit = 6
enum_value directive_bmpstring = 7
enum_value directive_boolean = 8
enum_value directive_by = 9
enum_value directive_character = 10
enum_value directive_choice = 11
enum_value directive_class = 12
enum_value directive_component = 13
enum_value directive_components = 14
enum_value directive_constrained = 15
enum_value directive_containing = 16
enum_value directive_default = 17
enum_value directive_defined = 18
enum_value directive_definitions = 19
enum_value directive_embedded = 20
enum_value directive_encoded = 21
enum_value directive_encoding_control = 22
enum_value directive_end = 23
enum_value directive_enumerated = 24
enum_value directive_except = 25
enum_value directive_explicit = 26
enum_value directive_exports = 27
enum_value directive_extensibility = 28
enum_value directive_external = 29
enum_value directive_false = 30
enum_value directive_from = 31
enum_value directive_general_string = 32
enum_value directive_generalized_time = 33
enum_value directive_graphic_string = 34
enum_value directive_ia5_string = 35
enum_value directive_identifier = 36
enum_value directive_implicit = 37
enum_value directive_implied = 38
enum_value directive_imports = 39
enum_value directive_includes = 40
enum_value directive_instance = 41
enum_value directive_instructions = 42
enum_value directive_integer = 43
enum_value directive_intersection = 44
enum_value directive_iso646_string = 45
enum_value directive_max = 46
enum_value directive_min = 47
enum_value directive_minus_infinity = 48
enum_value directive_null = 49
enum_value directive_numeric_string = 50
enum_value directive_object = 51
enum_value directive_octet = 52
enum_value directive_of = 53
enum_value directive_optional = 54
enum_value directive_object_descriptor = 55
enum_value directive_pattern = 56
enum_value directive_pdv = 57
enum_value directive_plus_infinity = 58
enum_value directive_present = 59
enum_value directive_private = 60
enum_value directive_printable_string = 61
enum_value directive_real = 62
enum_value directive_relative_oid = 63
enum_value directive_sequence = 64
enum_value directive_set = 65
enum_value directive_size = 66
enum_value directive_string = 67
enum_value directive_syntax = 68
enum_value directive_t61_string = 69
enum_value directive_tags = 70
enum_value directive_true = 71
enum_value directive_teletex_string = 72
enum_value directive_union = 73
enum_value directive_unique = 74
enum_value directive_universal = 75
enum_value directive_utctime = 76
enum_value directive_utf8_string = 77
enum_value directive_universal_string = 78
enum_value directive_videotex_string = 79
enum_value directive_visible_string = 80
enum_value directive_with = 81
enum_value token_assignment = 82
enum_value token_open_curly = 83
enum_value token_close_curly = 84
enum_value token_open_square = 85
enum_value token_close_square = 86
enum_value token_open_action = 87
enum_value token_close_action = 88
enum_value token_comma = 89
enum_value token_number = 90
enum_value token_type_name = 91
enum_value token_element_name = 92
