-- ===== src/Grammar/Comments.antt =====
-- `tokenise` of listcerts/asn1_compiler.c: the lines of the grammar and the removal of their comments.
-- A line is what stands from `line` to `nl`, at which there is a NUL.
use uefi_utilities.Base.{
  ltb, ◌/◌, ℕ, zero, suc, Bool, true, false, ◌&&◌, Option, none, some, List, [], ◌∷◌, ◌++◌, ◌==◌,
  drop, length, if◌then◌else◌,
}
use uefi_utilities.Grammar.Directives.{CLib}
use uefi_utilities.Grammar.Lexer.{Token, Lexed, tokens, unknown, out_of_fuel, tokenise_line}
pub mod Removal
pub mod Lines

-- A byte more in front.
unfoldable pub put_front : ℕ → Option (List ℕ × List ℕ) → Option (List ℕ × List ℕ)
put_front c none = none
put_front c (some (front, rest)) = some (c ∷ front, rest)

-- The loop over `memchr(p, '-', nl - p)` to two of them: what stands before and behind.
unfoldable pub find_pair : List ℕ → Option (List ℕ × List ℕ)
unfolding put_front
find_pair [] = none
find_pair (c ∷ []) = none
find_pair (c ∷ d ∷ line) =
    let more = put_front c (find_pair (d ∷ line)) in
    if (c == b'-') && (d == b'-') then some ([], line) else more

-- `memmove(p, q, nl - q)`: the line from `p` on, where `nl` stays as it was.
unfoldable pub excise : List ℕ → List ℕ → List ℕ
excise line tail = tail ++ drop (length tail) line

unfoldable pub keep_front : List ℕ → Option (List ℕ) → Option (List ℕ)
keep_front front none = none
keep_front front (some line) = some (front ++ line)

-- A comment with this body, with its end if it has one.
unfoldable pub after_body :
    (List ℕ → Option (List ℕ)) → List ℕ → List ℕ → Option (List ℕ × List ℕ) → Option (List ℕ)
unfolding excise keep_front
after_body again front body none = some front
after_body again front body (some (comment, tail)) =
    keep_front front (again (excise (b'-' ∷ b'-' ∷ body) tail))

unfoldable pub after_start :
    (List ℕ → Option (List ℕ)) → List ℕ → Option (List ℕ × List ℕ) → Option (List ℕ)
unfolding find_pair after_body
after_start again line none = some line
after_start again line (some (front, body)) = after_body again front body (find_pair body)

-- From the label next_comment on.
unfoldable pub remove_comments : ℕ → List ℕ → Option (List ℕ)
unfolding after_start find_pair
remove_comments zero line = none
remove_comments (suc fuel) line = after_start (remove_comments fuel) line (find_pair line)

-- The line up to `memchr(line, '\n', end - buffer)`, and the buffer behind it.
unfoldable pub break_line : List ℕ → List ℕ × List ℕ
break_line [] = ([], [])
break_line (c ∷ buffer) =
    let (line, rest) = break_line buffer in if c == 10 then ([], buffer) else (c ∷ line, rest)

unfoldable pub join : Lexed → Lexed → Lexed
join (tokens ts) (tokens us) = tokens (ts ++ us)
join (tokens ts) (unknown us p) = unknown (ts ++ us) p
join (tokens ts) out_of_fuel = out_of_fuel
join (unknown ts p) rest = unknown ts p
join out_of_fuel rest = out_of_fuel

-- What the tokeniser ends with: the tokens of the array, a byte that begins no token, where it exits, or
-- a token that is written behind the array.
pub data Scanned : Type 0 where
  scanned : List Token → Scanned
  bad_character : ℕ → Scanned
  overflow unended : Scanned

-- The line and the value of a token are written into its place before its first byte is looked at.
unfoldable pub bounded : ℕ → Lexed → Scanned
bounded places (tokens ts) = if ltb places (length ts) then overflow else scanned ts
bounded places (unknown ts p) = if ltb (length ts) places then bad_character p else overflow
bounded places out_of_fuel = unended

module _ (c : CLib) where
  unfoldable pub tokenise_rest : ℕ → Option (List ℕ) → Lexed
  unfolding tokenise_line
  tokenise_rest fuel none = out_of_fuel
  tokenise_rest fuel (some line) = tokenise_line c fuel line

  -- The loop `while (buffer < end)`, with the fuel of a line.
  unfoldable pub tokenise_lines : ℕ → ℕ → List ℕ → Lexed
  unfolding break_line join tokenise_rest remove_comments
  tokenise_lines size zero buffer = out_of_fuel
  tokenise_lines size (suc fuel) [] = tokens []
  tokenise_lines size (suc fuel) (b ∷ buffer) =
      let (line, rest) = break_line (b ∷ buffer) in
      join (tokenise_rest size (remove_comments size line)) (tokenise_lines size fuel rest)

  -- `tokenise`, whose array has half as many places as the buffer has bytes
  unfoldable pub tokenise : ℕ → List ℕ → Scanned
  unfolding tokenise_lines bounded
  tokenise fuel buffer = bounded (length buffer / 2) (tokenise_lines fuel fuel buffer)
