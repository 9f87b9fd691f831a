-- ===== src/Grammar/Lexer.antt =====
-- `tokenise` of listcerts/asn1_compiler.c on one line, behind the removal of comments.
use uefi_utilities.Base.{
  ℕ, zero, suc, ◌%◌, Bool, true, false, ◌||◌, Option, none, some, List, [], ◌∷◌, ◌==◌,
  if◌then◌else◌, length, take, drop, leb, ◌&&◌,
}
use uefi_utilities.Grammar.Tables.{
  TokenType, token_assignment, token_open_curly, token_close_curly, token_open_square,
  token_close_square, token_open_action, token_close_action, token_comma, token_number,
  token_type_name, token_element_name,
}
use uefi_utilities.Grammar.Directives.{Sign, equal, CLib, directive_compare, directives}

-- `struct token`, with the bytes from `value` that the tokeniser took; `size` is an unsigned char.
pub record Token : Type 0 where
  pub token_type : TokenType
  pub value : List ℕ
  pub size : ℕ

-- The bytes that pass the test, and the rest.
unfoldable pub span : (ℕ → Bool) → List ℕ → List ℕ × List ℕ
span test [] = ([], [])
span test (p ∷ line) =
    let (front, rest) = span test line in if test p then (p ∷ front, rest) else ([], p ∷ line)

-- `nl - p >= length` and `memcmp(p, symbol, length) == 0`, in the order of the source.
abbrev pub symbols : List (TokenType × List ℕ)
symbols =
    (token_assignment, b':' ∷ b':' ∷ b'=' ∷ [])
    ∷ (token_open_action, b'(' ∷ b'{' ∷ [])
    ∷ (token_close_action, b'}' ∷ b')' ∷ [])
    ∷ (token_open_curly, b'{' ∷ [])
    ∷ (token_close_curly, b'}' ∷ [])
    ∷ (token_open_square, b'[' ∷ [])
    ∷ (token_close_square, b']' ∷ [])
    ∷ (token_comma, b',' ∷ [])
    ∷ []

-- The tokens, or those before a byte that begins none.
pub data Lexed : Type 0 where
  tokens : List Token → Lexed
  unknown : List Token → ℕ → Lexed
  out_of_fuel : Lexed

unfoldable pub add_token : Token → Lexed → Lexed
add_token t (tokens ts) = tokens (t ∷ ts)
add_token t (unknown ts p) = unknown (t ∷ ts) p
add_token t out_of_fuel = out_of_fuel

-- The token with these bytes.
abbrev pub token_of : TokenType → List ℕ → Token
token_of type name = record { token_type = type; value = name; size = length name % 256 }

unfoldable pub is_equal : Sign → Bool
is_equal equal = true
is_equal _ = false

module _ (c : CLib) where
  -- `isalnum(*q) || *q == '-' || *q == '_'`
  unfoldable pub is_name_char : ℕ → Bool
  is_name_char q = CLib.isalnum c q || (q == b'-') || (q == b'_')

  -- `dir - directives`, or a type's name.
  unfoldable pub directive_type : Option (TokenType × List ℕ) → TokenType
  directive_type (some (type, dir)) = type
  directive_type none = token_type_name

  unfoldable pub name_type : ℕ → List ℕ → TokenType
  unfolding directive_type
  name_type p name =
      if CLib.islower c p
      then token_element_name
      else directive_type
          (CLib.bsearch c (λ d. directive_compare c (take (length name % 256) name) d.1) directives)

  unfoldable pub find_symbol : List (TokenType × List ℕ) → List ℕ → Option (Token × List ℕ)
  unfolding is_equal
  find_symbol [] line = none
  find_symbol ((type, symbol) ∷ more) line =
      let rest = find_symbol more line in
      if leb (length symbol) (length line)
        && is_equal (CLib.memcmp c (take (length symbol) line) symbol)
      then some (token_of type symbol, drop (length symbol) line)
      else rest

  -- The token at the byte `p`, and the line behind it.
  unfoldable pub next_token : ℕ → List ℕ → Option (Token × List ℕ)
  unfolding span is_name_char name_type find_symbol
  next_token p line =
      if CLib.isalpha c p
      then (let (name, rest) = span is_name_char line in
          some (token_of (name_type p (p ∷ name)) (p ∷ name), rest))
      else if CLib.isdigit c p
      then (let (digits, rest) = span (CLib.isdigit c) line in
          some (token_of token_number (p ∷ digits), rest))
      else find_symbol symbols (p ∷ line)

  unfoldable pub emit : (List ℕ → Lexed) → ℕ → Option (Token × List ℕ) → Lexed
  unfolding add_token
  emit again p (some (t, rest)) = add_token t (again rest)
  emit again p none = unknown [] p

  unfoldable pub scan : (List ℕ → Lexed) → List ℕ → Lexed
  unfolding next_token emit
  scan again [] = tokens []
  scan again (p ∷ line) = emit again p (next_token p line)

  -- The loop `while (p < nl)`; each pass takes a byte at least.
  unfoldable pub tokenise_line : ℕ → List ℕ → Lexed
  unfolding span scan
  tokenise_line zero line = out_of_fuel
  tokenise_line (suc fuel) line = scan (tokenise_line fuel) (span (CLib.isspace c) line).1
