-- ===== src/Grammar/Cover.antt =====
-- That the tokeniser of listcerts/asn1_compiler.c ends and loses no byte of a line.
use mathlib.Core.List.{append_assoc, append-nil}
use uefi_utilities.Base.{
  ℕ, zero, suc, ◌≤◌, ◌<◌, ◌≡◌, ◌≢◌, refl, sym, ap, subst, ◌∙◌, Bool, true, false, Option, none,
  some, List, [], ◌∷◌, ◌++◌, arith, leb, ◌&&◌, if◌then◌else◌, length, take, drop, length-append,
}
use uefi_utilities.Grammar.Tables.{TokenType, token_number}
use uefi_utilities.Grammar.Directives.{Sign, equal, CLib}
use uefi_utilities.Grammar.Lexer.{
  Token, Lexed, tokens, unknown, out_of_fuel, span, symbols, add_token, token_of, is_equal,
  is_name_char, name_type, find_symbol, next_token, emit, scan, tokenise_line,
}

abbrev pub All : (ℕ → Bool) → List ℕ → Type 0
All test [] = Unit
All test (p ∷ line) = (test p ≡ true) × All test line

-- The line is the tokens in their order, with white space before, between and behind them.
abbrev pub Covers : CLib → List ℕ → List Token → Type 0
Covers c line [] = All (CLib.isspace c) line
Covers c line (t ∷ ts) =
    (spaces : List ℕ) × (rest : List ℕ) × All (CLib.isspace c) spaces
    × (line ≡ spaces ++ (Token.value t ++ rest))
    × (Token.value t ≢ [])
    × Covers c rest ts

-- What the tokeniser answers for a line: tokens that cover it, or tokens that cover what stands before
-- a byte of it that is no space, letter or digit.
abbrev pub Lexes : CLib → List ℕ → Lexed → Type 0
Lexes c line (tokens ts) = Covers c line ts
Lexes c line (unknown ts p) =
    (before : List ℕ) × (after : List ℕ) × (line ≡ before ++ p ∷ after)
    × Covers c before ts
    × (CLib.isspace c p ≡ false)
    × (CLib.isalpha c p ≡ false)
    × (CLib.isdigit c p ≡ false)
Lexes c line out_of_fuel = ⊥

abbrev Stops : (ℕ → Bool) → List ℕ → Type 0
Stops test [] = Unit
Stops test (p ∷ line) = test p ≡ false

-- A line and its parts.
abbrev Parts : (ℕ → Bool) → List ℕ → List ℕ × List ℕ → Type 0
Parts test line (front, rest) = (line ≡ front ++ rest) × All test front × Stops test rest

span-Parts : (test : ℕ → Bool) (line : List ℕ) → Parts test line (span test line)
unfolding span
span-Parts test [] = (refl, tt, tt)
span-Parts test (p ∷ line) =
    let (same, front, rest) = span-Parts test line in
    elim (test p)
        as (λ v.
          test p ≡ v
          → Parts test (p ∷ line)
              (if v then (p ∷ (span test line).0, (span test line).1) else ([], p ∷ line))) [
                | true ↦ λ e. (ap (λ zs. p ∷ zs) same, (e, front), rest)
                | false ↦ λ e. (refl, tt, e)
              ]
      refl

-- The token that was taken from a line, or why there is none.
abbrev Taken : CLib → ℕ → List ℕ → Option (Token × List ℕ) → Type 0
Taken c p line (some (t, rest)) = (p ∷ line ≡ Token.value t ++ rest) × (Token.value t ≢ [])
Taken c p line none = (CLib.isalpha c p ≡ false) × (CLib.isdigit c p ≡ false)

cons_ne_nil : {p : ℕ} {line : List ℕ} → p ∷ line ≢ []
cons_ne_nil e = cc

take-drop : (n : ℕ) (line : List ℕ) → take n line ++ drop n line ≡ line
take-drop zero line = refl
take-drop (suc n) [] = refl
take-drop (suc n) (p ∷ line) = ap (λ zs. p ∷ zs) (take-drop n line)

length-take : (n : ℕ) (line : List ℕ) → n ≤ length line → length (take n line) ≡ n
length-take zero line h = refl
length-take (suc n) [] h = absurd (omega arith)
length-take (suc n) (p ∷ line) h = omega (arith, length-take n line (omega arith))

abbrev NonEmpty : List (TokenType × List ℕ) → Type 0
NonEmpty [] = Unit
NonEmpty ((type, symbol) ∷ more) = (symbol ≢ []) × NonEmpty more

is_equal-equal : (s : Sign) → is_equal s ≡ true → s ≡ equal
unfolding is_equal
is_equal-equal s h = ground arith

and_parts : (a b : Bool) → (a && b) ≡ true → (a ≡ true) × (b ≡ true)
and_parts a b h = ground arith

leb_le : (a b : ℕ) → leb a b ≡ true → a ≤ b
leb_le a b h = ground arith

find_symbol-Taken :
    (c : CLib) (table : List (TokenType × List ℕ)) (p : ℕ) (line : List ℕ)
    → NonEmpty table
    → CLib.isalpha c p ≡ false
    → CLib.isdigit c p ≡ false
    → Taken c p line (find_symbol c table (p ∷ line))
unfolding find_symbol
find_symbol-Taken c [] p line ok na nd = (na, nd)
find_symbol-Taken c ((type, symbol) ∷ more) p line ok na nd =
    elim test
        as (λ v.
          test ≡ v
          → Taken c p line (
              if v
              then some (token_of type symbol, drop (length symbol) (p ∷ line))
              else find_symbol c more (p ∷ line))) [
                | true ↦ λ e. (matched e, ok.0)
                | false ↦ λ e. find_symbol-Taken c more p line ok.1 na nd
              ]
      refl
  where
    test : Bool
    test =
        leb (length symbol) (length (p ∷ line))
        && is_equal (CLib.memcmp c (take (length symbol) (p ∷ line)) symbol)

    matched : test ≡ true → p ∷ line ≡ symbol ++ drop (length symbol) (p ∷ line)
    matched e =
        let (long, same) = and_parts _ _ e in
        sym (take-drop (length symbol) (p ∷ line))
        ∙ ap (λ zs. zs ++ drop (length symbol) (p ∷ line))
            ((CLib.memcmp_equal c _ symbol
                (length-take (length symbol) (p ∷ line) (leb_le _ _ long))).0
              (is_equal-equal _ same))

symbols-NonEmpty : NonEmpty symbols
symbols-NonEmpty = (
  cons_ne_nil,
  (
    cons_ne_nil,
    (cons_ne_nil, (cons_ne_nil, (cons_ne_nil, (cons_ne_nil, (cons_ne_nil, (cons_ne_nil, tt)))))),
  ),
)

-- The branches for a letter and for a digit, and the symbols.
next_token-Taken : (c : CLib) (p : ℕ) (line : List ℕ) → Taken c p line (next_token c p line)
unfolding next_token
next_token-Taken c p line =
    elim (CLib.isalpha c p)
        as (λ v.
          CLib.isalpha c p ≡ v
          → Taken c p line (
              if v
              then some (
                token_of (name_type c p (p ∷ (span (is_name_char c) line).0))
                    (p ∷ (span (is_name_char c) line).0),
                (span (is_name_char c) line).1,
              )
              else (if CLib.isdigit c p
                  then some (
                    token_of token_number (p ∷ (span (CLib.isdigit c) line).0),
                    (span (CLib.isdigit c) line).1,
                  )
                  else find_symbol c symbols (p ∷ line)))) [
                    | true ↦
                        λ e. (ap (λ zs. p ∷ zs) (span-Parts (is_name_char c) line).0, cons_ne_nil)
                    | false ↦ λ na. digits na
                  ]
      refl
  where
    digits :
        CLib.isalpha c p ≡ false
        → Taken c p line (
            if CLib.isdigit c p
            then some (
              token_of token_number (p ∷ (span (CLib.isdigit c) line).0),
              (span (CLib.isdigit c) line).1,
            )
            else find_symbol c symbols (p ∷ line))
    digits na =
        elim (CLib.isdigit c p)
            as (λ v.
              CLib.isdigit c p ≡ v
              → Taken c p line (
                  if v
                  then some (
                    token_of token_number (p ∷ (span (CLib.isdigit c) line).0),
                    (span (CLib.isdigit c) line).1,
                  )
                  else find_symbol c symbols (p ∷ line))) [
                    | true ↦
                        λ e. (ap (λ zs. p ∷ zs) (span-Parts (CLib.isdigit c) line).0, cons_ne_nil)
                    | false ↦ λ nd. find_symbol-Taken c symbols p line symbols-NonEmpty na nd
                  ]
          refl

-- What a further token does to the answer.
add_token-Lexes :
    (c : CLib) (t : Token) (spaces rest line : List ℕ) (r : Lexed)
    → All (CLib.isspace c) spaces
    → line ≡ spaces ++ (Token.value t ++ rest)
    → Token.value t ≢ []
    → Lexes c rest r
    → Lexes c line (add_token t r)
unfolding add_token
add_token-Lexes c t spaces rest line (tokens ts) all e ne h = (spaces, rest, all, e, ne, h)
add_token-Lexes c t spaces rest line (unknown ts p) all e ne
      (before, after, e', covers, ns, na, nd) =
    (
      spaces ++ (Token.value t ++ before),
      after,
      e ∙ moved,
      (spaces, before, all, refl, ne, covers),
      ns,
      na,
      nd,
    )
  where
    moved : spaces ++ (Token.value t ++ rest) ≡ (spaces ++ (Token.value t ++ before)) ++ p ∷ after
    moved =
        ap (λ zs. spaces ++ (Token.value t ++ zs)) e'
        ∙ ap (λ zs. spaces ++ zs) (sym (append_assoc (Token.value t) before (p ∷ after)))
        ∙ sym (append_assoc spaces (Token.value t ++ before) (p ∷ after))
add_token-Lexes c t spaces rest line out_of_fuel all e ne h = h

shorter_behind :
    (front rest line : List ℕ) → line ≡ front ++ rest → front ≢ [] → length rest < length line
shorter_behind [] rest line e ne = absurd (ne refl)
shorter_behind (p ∷ front) rest line e ne = omega (arith, ap length e, length-append front rest)

-- One pass, over a line that begins with no space, when the further passes are right.
scan-Lexes :
    (c : CLib) (again : List ℕ → Lexed) (whole spaces line : List ℕ)
    → whole ≡ spaces ++ line
    → All (CLib.isspace c) spaces
    → Stops (CLib.isspace c) line
    → ((rest : List ℕ) → length rest < length line → Lexes c rest (again rest))
    → Lexes c whole (scan c again line)
unfolding scan emit
scan-Lexes c again whole spaces [] e all stops ih =
    subst (All (CLib.isspace c)) (sym (e ∙ append-nil spaces)) all
scan-Lexes c again whole spaces (p ∷ line) e all stops ih =
    emitted (next_token c p line) (next_token-Taken c p line)
  where
    shorter :
        (t : Token) (rest : List ℕ)
        → p ∷ line ≡ Token.value t ++ rest
        → Token.value t ≢ []
        → length rest < length (p ∷ line)
    shorter t rest e' ne = shorter_behind (Token.value t) rest (p ∷ line) e' ne

    emitted : (o : Option (Token × List ℕ)) → Taken c p line o → Lexes c whole (emit c again p o)
    emitted (some (t, rest)) (e', ne) =
        add_token-Lexes c t spaces rest whole (again rest) all (e ∙ ap (λ zs. spaces ++ zs) e') ne
          (ih rest (shorter t rest e' ne))
    emitted none (na, nd) = (spaces, line, e, all, stops, na, nd)

-- With more fuel than the line has bytes, the tokeniser ends. Its tokens, in their order, with
-- white space before, between and behind them, are the line, or it stops at a byte of the line
-- that is no space, letter or digit.
pub tokenise_line-Lexes :
    (c : CLib) (fuel : ℕ) (line : List ℕ)
    → length line < fuel
    → Lexes c line (tokenise_line c fuel line)
unfolding tokenise_line
tokenise_line-Lexes c zero line h = absurd (omega arith)
tokenise_line-Lexes c (suc fuel) line h =
    let (e, all, stops) = span-Parts (CLib.isspace c) line in
    scan-Lexes c (tokenise_line c fuel) line _ _ e all stops λ rest less.
      tokenise_line-Lexes c fuel rest (
        omega (
          arith,
          ap length e,
          length-append (span (CLib.isspace c) line).0 (span (CLib.isspace c) line).1,
        ))
