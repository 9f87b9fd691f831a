-- ===== src/Grammar/Comments/Lines.antt =====
-- `tokenise` of listcerts/asn1_compiler.c on a grammar of several lines.
use uefi_utilities.Base.{ℕ, ◌≢◌, Option, none, some, List, [], ◌∷◌, ◌++◌}
use uefi_utilities.Grammar.Directives.{CLib}
use uefi_utilities.Grammar.Lexer.{Lexed, tokens, tokenise_line}
use uefi_utilities.Grammar.Comments.{remove_comments, join, tokenise_rest, tokenise_lines}
use uefi_utilities.Grammar.Comments.Removal.{NoPair, IsCode}

-- The text of a line, and its comment.
pub record Line : Type 0 where
  pub code : List ℕ
  pub comment : Option (List ℕ)

abbrev pub spelled : List ℕ → Option (List ℕ) → List ℕ
spelled code none = code
spelled code (some comment) = code ++ b'-' ∷ b'-' ∷ comment

abbrev pub OneLine : List ℕ → Type 0
OneLine [] = Unit
OneLine (c ∷ line) = (c ≢ 10) × OneLine line

-- The text has no comment, and does not end with a dash where one follows; the comment has no end.
abbrev pub Ends : List ℕ → Option (List ℕ) → Type 0
Ends code none = NoPair code
Ends code (some comment) = IsCode code × NoPair comment

abbrev pub AreLines : List Line → Type 0
AreLines [] = Unit
AreLines (l ∷ ls) =
    (OneLine (spelled (Line.code l) (Line.comment l)) × Ends (Line.code l) (Line.comment l))
    × AreLines ls

abbrev pub buffer_of : List Line → List ℕ
buffer_of [] = []
buffer_of (l ∷ ls) = spelled (Line.code l) (Line.comment l) ++ 10 ∷ buffer_of ls

-- The tokens of the texts of all lines, or the first error.
abbrev pub tokens_of : CLib → ℕ → List Line → Lexed
tokens_of c fuel [] = tokens []
tokens_of c fuel (l ∷ ls) = join (tokenise_line c fuel (Line.code l)) (tokens_of c fuel ls)

module _ (c : CLib) where
  abbrev with_line : ℕ → ℕ → List ℕ × List ℕ → Lexed
  with_line size fuel (line, rest) =
      join (tokenise_rest c size (remove_comments size line)) (tokenise_lines c size fuel rest)
