-- ===== src/Grammar/Comments/Removal.antt =====
-- What the removal of comments in listcerts/asn1_compiler.c makes of a line.
use uefi_utilities.Base.{
  ℕ, zero, suc, ◌≡◌, ◌≢◌, refl, ap, ◌∙◌, false, ◌&&◌, none, some, List, [], ◌∷◌, ◌++◌, arith, ◌==◌,
}
use uefi_utilities.Grammar.Comments.{
  put_front, find_pair, excise, keep_front, after_body, after_start, remove_comments,
}

-- No two dashes beside each other.
abbrev pub NoPair : List ℕ → Type 0
NoPair line = find_pair line ≡ none

-- A text that a comment can stand behind: it has no comment, and does not end with a dash.
unfoldable pub IsCode : List ℕ → Type 0
IsCode [] = Unit
IsCode (c ∷ []) = c ≢ b'-'
IsCode (c ∷ d ∷ line) = (((c == b'-') && (d == b'-')) ≡ false) × IsCode (d ∷ line)

pub IsCode-NoPair : (code : List ℕ) → IsCode code → NoPair code
unfolding IsCode find_pair put_front
IsCode-NoPair [] is = refl
IsCode-NoPair (c ∷ []) is = refl
IsCode-NoPair (c ∷ d ∷ code) is = rw is.0 (ap (put_front c) (IsCode-NoPair (d ∷ code) is.1))

-- The first pair is that behind the code.
find_pair-code :
    (code rest : List ℕ) → IsCode code → find_pair (code ++ b'-' ∷ b'-' ∷ rest) ≡ some (code, rest)
unfolding IsCode find_pair put_front
find_pair-code [] rest is = refl
find_pair-code (c ∷ []) rest is = let other : (c == b'-') ≡ false = ground arith in rw other refl
find_pair-code (c ∷ d ∷ code) rest is =
    rw is.0 (ap (put_front c) (find_pair-code (d ∷ code) rest is.1))

-- A line without two dashes is left as it is.
pub remove_comments-none :
    (fuel : ℕ) (line : List ℕ) → NoPair line → remove_comments (suc fuel) line ≡ some line
unfolding remove_comments after_start
remove_comments-none fuel line e = ap (after_start (remove_comments fuel) line) e

-- A comment without an end reaches to the end of the line.
pub remove_comments-cut :
    (fuel : ℕ) (code comment : List ℕ)
    → IsCode code
    → NoPair comment
    → remove_comments (suc fuel) (code ++ b'-' ∷ b'-' ∷ comment) ≡ some code
unfolding remove_comments after_start after_body
remove_comments-cut fuel code comment is e =
    ap (after_start (remove_comments fuel) (code ++ b'-' ∷ b'-' ∷ comment))
      (find_pair-code code comment is)
    ∙ ap (after_body (remove_comments fuel) code comment) e

-- A comment with an end, and what stands behind it.
remove_comments-step :
    (fuel : ℕ) (code comment tail : List ℕ)
    → IsCode code
    → IsCode comment
    → remove_comments (suc fuel) (code ++ b'-' ∷ b'-' ∷ (comment ++ b'-' ∷ b'-' ∷ tail))
      ≡ keep_front code
          (remove_comments fuel (excise (b'-' ∷ b'-' ∷ (comment ++ b'-' ∷ b'-' ∷ tail)) tail))
unfolding remove_comments after_start after_body
remove_comments-step fuel code comment tail is ends =
    let body = comment ++ b'-' ∷ b'-' ∷ tail in
    ap (after_start (remove_comments fuel) (code ++ b'-' ∷ b'-' ∷ body))
      (find_pair-code code body is)
    ∙ ap (after_body (remove_comments fuel) code body) (find_pair-code comment tail ends)

excise-nil : (line : List ℕ) → excise line [] ≡ line
unfolding excise
excise-nil line = refl

stuck :
    (fuel : ℕ) (comment : List ℕ)
    → IsCode comment
    → remove_comments fuel (b'-' ∷ b'-' ∷ (comment ++ b'-' ∷ b'-' ∷ [])) ≡ none
unfolding remove_comments keep_front IsCode
stuck zero comment ends = refl
stuck (suc fuel) comment ends =
    remove_comments-step fuel [] comment [] tt ends
    ∙ ap (keep_front []) (
        ap (remove_comments fuel) (excise-nil (b'-' ∷ b'-' ∷ (comment ++ b'-' ∷ b'-' ∷ [])))
        ∙ stuck fuel comment ends)

-- On a line whose comment ends with two dashes at the end of the line the removal never ends: nothing
-- is moved over the comment, and the search starts again where it was.
pub remove_comments-stuck :
    (fuel : ℕ) (code comment : List ℕ)
    → IsCode code
    → IsCode comment
    → remove_comments fuel (code ++ b'-' ∷ b'-' ∷ (comment ++ b'-' ∷ b'-' ∷ [])) ≡ none
unfolding remove_comments keep_front IsCode
remove_comments-stuck zero code comment is ends = refl
remove_comments-stuck (suc fuel) code comment is ends =
    remove_comments-step fuel code comment [] is ends
    ∙ ap (keep_front code) (
        ap (remove_comments fuel) (excise-nil (b'-' ∷ b'-' ∷ (comment ++ b'-' ∷ b'-' ∷ [])))
        ∙ stuck fuel comment ends)
