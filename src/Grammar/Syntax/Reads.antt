-- ===== src/Grammar/Syntax/Reads.antt =====
-- `parse_type` of listcerts/asn1_compiler.c on the tokens of the parts of a type: the label, the
-- marker, the presence, the action and the first token.
use uefi_utilities.Base.{
  ℕ, ◌≡◌, refl, ap, true, false, none, some, List, [], ◌∷◌, arith, length, ◌==◌, take,
}
use uefi_utilities.Grammar.Tables.{
  TokenType, enum_value, directive_implicit, directive_explicit, directive_optional,
  directive_default, token_open_square, token_open_action,
}
use uefi_utilities.Grammar.Lexer.{Token}
use uefi_utilities.Grammar.Element.{universal, application, context, private, Tables}
use uefi_utilities.Grammar.Cursor.{
  ok, at, is, stands, Marker, unmarked, implicit, explicit, parse_optional,
}
use uefi_utilities.Grammar.Parser.{Library, parse_label, parse_marker, parse_action}
use uefi_utilities.Grammar.Syntax.{
  Label, Presence, required, optional, default, Action, print_label, print_marker, print_presence,
  print_action, label_of, KnownLabel, is_skippable, note_action,
}

-- These tokens do not go on with a type.
abbrev pub Follows : List Token → Type 0
Follows ts =
    (stands directive_optional (at ts) ≡ false)
    × (stands directive_default (at ts) ≡ false)
    × (stands token_open_action (at ts) ≡ false)

same_number : (m n : ℕ) → m ≡ n → (m == n) ≡ true
same_number m n e = ground arith

take-length : (xs : List ℕ) → take (length xs) xs ≡ xs
take-length [] = refl
take-length (x ∷ xs) = ap (λ ys. x ∷ ys) (take-length xs)

module _ (lib : Library) (beyond : Token) (text : TokenType → List ℕ) where
  pub label-reads :
      (l : Label) (u : Token) (us : List Token)
      → is (Token.token_type u) token_open_square ≡ false
      → KnownLabel text lib l
      → parse_label lib beyond (at (print_label text l (u ∷ us)))
        ≡ ok (label_of text lib l, at (u ∷ us))
  unfolding parse_label print_label enum_value
  label-reads none u us e known = rw e refl
  label-reads (some (universal, n)) u us e known =
      rw (same_number (Library.strtoul lib n).1 (length n) known) refl
  label-reads (some (application, n)) u us e known =
      rw (same_number (Library.strtoul lib n).1 (length n) known) refl
  label-reads (some (context, n)) u us e known =
      rw (same_number (Library.strtoul lib n).1 (length n) known) refl
  label-reads (some (private, n)) u us e known =
      rw (same_number (Library.strtoul lib n).1 (length n) known) refl

  pub marker-reads :
      (m : Marker) (u : Token) (us : List Token)
      → is (Token.token_type u) directive_implicit ≡ false
      → is (Token.token_type u) directive_explicit ≡ false
      → parse_marker lib beyond (at (print_marker text m (u ∷ us))) ≡ ok (m, at (u ∷ us))
  unfolding parse_marker print_marker enum_value
  marker-reads unmarked u us i e = rw (i, e) refl
  marker-reads implicit u us i e = refl
  marker-reads explicit u us i e = refl

  pub presence-reads :
      (p : Presence) (a : Action) (ts : List Token)
      → Follows ts
      → parse_optional (at (print_presence text p (print_action text a ts)))
        ≡ (is_skippable text lib p, at (print_action text a ts))
  unfolding parse_optional print_presence print_action enum_value
  presence-reads required none ts h = rw (h.0, h.1) refl
  presence-reads required (some a) ts h = refl
  presence-reads optional a ts h = refl
  presence-reads default a ts h = refl

  pub action-reads :
      (a : Action) (ts : List Token) (s : Tables)
      → Follows ts
      → parse_action lib beyond (at (print_action text a ts)) s
        ≡ ok (a, at ts, note_action text lib a s)
  unfolding parse_action print_action enum_value
  action-reads none ts s h = rw h.2 refl
  action-reads (some a) ts s h = rw (take-length a) refl
