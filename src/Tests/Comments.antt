-- ===== src/Tests/Comments.antt =====
-- The lines and comments of listcerts/asn1_compiler.c at concrete inputs.
use uefi_utilities.Base.{ℕ, ◌≡◌, refl, none, some, List, [], ◌∷◌, ◌++◌, arith}
use uefi_utilities.Grammar.Comments.{
  find_pair, put_front, after_start, after_body, excise, keep_front, remove_comments, tokenise,
  bounded, overflow, tokenise_lines, tokenise_rest, break_line, join,
}
use uefi_utilities.Grammar.Lexer.{
  tokenise_line, scan, span, next_token, emit, find_symbol, add_token, is_equal,
}
use uefi_utilities.Grammar.Comments.Removal.{IsCode, remove_comments-stuck}
use uefi_utilities.Grammar.Comments.Lines.{Line}
use uefi_utilities.Tests.Grammar.{ascii}

-- `A--c-- xyzuvw`: what stands behind the comment is moved over it, and its last bytes stay.
doubled :
    remove_comments 9 (
      b'A' ∷ b'-' ∷ b'-' ∷ b'c' ∷ b'-' ∷ b'-' ∷ b' ' ∷ b'x' ∷ b'y' ∷ b'z' ∷ b'u' ∷ b'v' ∷ b'w' ∷ [])
    ≡ some (
        b'A' ∷ b' ' ∷ b'x' ∷ b'y' ∷ b'z' ∷ b'u' ∷ b'v' ∷ b'w' ∷ b'y' ∷ b'z' ∷ b'u' ∷ b'v' ∷ b'w'
        ∷ [])
unfolding remove_comments find_pair put_front after_start after_body excise keep_front
doubled = refl

abbrev letter : List ℕ
letter = b'A' ∷ []

letter-IsCode : IsCode letter
unfolding IsCode
letter-IsCode = λ e. ground arith

-- `A--A--`
remove_comments-stuck_example :
    remove_comments 100 (letter ++ b'-' ∷ b'-' ∷ (letter ++ b'-' ∷ b'-' ∷ [])) ≡ none
remove_comments-stuck_example = remove_comments-stuck 100 letter letter letter-IsCode letter-IsCode

abbrev two_lines : List Line
two_lines =
    record { code = letter; comment = some letter } ∷ record { code = letter; comment = none } ∷ []

-- Three tokens in an array of one place.
crowded : tokenise ascii 9 (b'{' ∷ b',' ∷ b'}' ∷ []) ≡ overflow
unfolding tokenise tokenise_lines tokenise_rest tokenise_line bounded break_line join
    remove_comments find_pair put_front after_start scan span next_token emit find_symbol add_token
    is_equal
crowded = refl

-- The second token is written behind the array of one place before its byte is found to be unknown.
unknown_behind : tokenise ascii 9 (b'{' ∷ b'$' ∷ []) ≡ overflow
unfolding tokenise tokenise_lines tokenise_rest tokenise_line bounded break_line join
    remove_comments find_pair put_front after_start scan span next_token emit find_symbol add_token
    is_equal
unknown_behind = refl
