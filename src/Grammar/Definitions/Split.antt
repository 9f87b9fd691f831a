-- ===== src/Grammar/Definitions/Split.antt =====
-- The tokens that spell a type of listcerts/asn1_compiler.c hold no definition.
use uefi_utilities.Base.{
  ℕ, ◌≡◌, refl, ap, ◌∙◌, Bool, true, false, ◌&&◌, Option, none, some, List, [], ◌∷◌,
}
use uefi_utilities.Grammar.Tables.{
  TokenType, enum_value, token_type_name, token_assignment, token_open_curly, token_close_curly,
  token_comma, directive_of,
}
use uefi_utilities.Grammar.Lexer.{Token}
use uefi_utilities.Grammar.Element.{universal, application, context, private}
use uefi_utilities.Grammar.Cursor.{is, Marker, unmarked, implicit, explicit}
use uefi_utilities.Grammar.Syntax.{
  Simple, null, boolean, enumerated, integer, bmpstring, general_string, graphic_string, ia5_string,
  iso646_string, numeric_string, printable_string, t61_string, teletex_string, universal_string,
  utf8_string, videotex_string, visible_string, object_descriptor, generalized_time, utctime,
  simple_token, Label, Presence, required, optional, default, Action, Ty, ty, of_ty, Kind, any_kind,
  external_kind, bit_string, octet_string, object_identifier, simple, named, choice_kind,
  sequence_kind, set_kind, Members, last, more, word, kind_token, of_token, print_label,
  print_marker, print_presence, print_action, print_name, print_ty, print_behind, print_members,
}
use uefi_utilities.Grammar.Definitions.{split_loop}

and_false : (a : Bool) → (a && false) ≡ false
and_false true = refl
and_false false = refl

-- These tokens do not begin with `::=`.
abbrev pub NoAssign : List Token → Type 0
NoAssign [] = Unit
NoAssign (t ∷ ts) = is (Token.token_type t) token_assignment ≡ false

-- What puts tokens in front puts them in front of the tokens before the first definition.
abbrev pub Passes : (List Token → List Token) → Type 0
Passes f =
    (ts : List Token)
    → NoAssign ts
    → (split_loop (f ts) ≡ (f (split_loop ts).0, (split_loop ts).1)) × NoAssign (f ts)

Passes-cons : (t : Token) → is (Token.token_type t) token_assignment ≡ false → Passes (λ ts. t ∷ ts)
unfolding split_loop
Passes-cons t e [] h = (refl, e)
Passes-cons t e (u ∷ ts) h = (rw (h, and_false (is (Token.token_type t) token_type_name)) refl, e)

Passes-compose : (f g : List Token → List Token) → Passes f → Passes g → Passes (λ ts. f (g ts))
Passes-compose f g hf hg ts h =
    let inner = hg ts h in
    let outer = hf (g ts) inner.1 in (outer.0 ∙ ap (λ r. (f r.0, r.1)) inner.0, outer.1)

Passes-none : Passes (λ ts. ts)
Passes-none ts h = (refl, h)

simple_token-assign : (s : Simple) → is (simple_token s) token_assignment ≡ false
unfolding simple_token enum_value
simple_token-assign null = refl
simple_token-assign boolean = refl
simple_token-assign enumerated = refl
simple_token-assign integer = refl
simple_token-assign bmpstring = refl
simple_token-assign general_string = refl
simple_token-assign graphic_string = refl
simple_token-assign ia5_string = refl
simple_token-assign iso646_string = refl
simple_token-assign numeric_string = refl
simple_token-assign printable_string = refl
simple_token-assign t61_string = refl
simple_token-assign teletex_string = refl
simple_token-assign universal_string = refl
simple_token-assign utf8_string = refl
simple_token-assign videotex_string = refl
simple_token-assign visible_string = refl
simple_token-assign object_descriptor = refl
simple_token-assign generalized_time = refl
simple_token-assign utctime = refl

module _ (text : TokenType → List ℕ) where
  label-Passes : (l : Label) → Passes (print_label text l)
  unfolding print_label enum_value
  label-Passes none = Passes-none
  label-Passes (some (universal, n)) = Passes-compose _ _ (Passes-cons _ refl) (
      Passes-compose _ _ (Passes-cons _ refl)
        (Passes-compose _ _ (Passes-cons _ refl) (Passes-cons _ refl)))
  label-Passes (some (application, n)) = Passes-compose _ _ (Passes-cons _ refl) (
      Passes-compose _ _ (Passes-cons _ refl)
        (Passes-compose _ _ (Passes-cons _ refl) (Passes-cons _ refl)))
  label-Passes (some (private, n)) = Passes-compose _ _ (Passes-cons _ refl) (
      Passes-compose _ _ (Passes-cons _ refl)
        (Passes-compose _ _ (Passes-cons _ refl) (Passes-cons _ refl)))
  label-Passes (some (context, n)) =
      Passes-compose _ _ (Passes-cons _ refl)
        (Passes-compose _ _ (Passes-cons _ refl) (Passes-cons _ refl))

  marker-Passes : (m : Marker) → Passes (print_marker text m)
  unfolding print_marker enum_value
  marker-Passes unmarked = Passes-none
  marker-Passes implicit = Passes-cons _ refl
  marker-Passes explicit = Passes-cons _ refl

  presence-Passes : (p : Presence) → Passes (print_presence text p)
  unfolding print_presence enum_value
  presence-Passes required = Passes-none
  presence-Passes optional = Passes-cons _ refl
  presence-Passes default = Passes-cons _ refl

  action-Passes : (a : Action) → Passes (print_action text a)
  unfolding print_action enum_value
  action-Passes none = Passes-none
  action-Passes (some a) =
      Passes-compose _ _ (Passes-cons _ refl)
        (Passes-compose _ _ (Passes-cons _ refl) (Passes-cons _ refl))

  name-Passes : (n : Option (List ℕ)) → Passes (print_name text n)
  unfolding print_name enum_value
  name-Passes none = Passes-none
  name-Passes (some n) = Passes-cons _ refl

  kind_token-assign :
      (k : Kind) → is (Token.token_type (kind_token text k)) token_assignment ≡ false
  unfolding kind_token enum_value
  kind_token-assign any_kind = refl
  kind_token-assign external_kind = refl
  kind_token-assign bit_string = refl
  kind_token-assign octet_string = refl
  kind_token-assign object_identifier = refl
  kind_token-assign (simple s) = simple_token-assign s
  kind_token-assign (named n t) = refl
  kind_token-assign (choice_kind ms) = refl
  kind_token-assign (sequence_kind ms) = refl
  kind_token-assign (set_kind ms) = refl

  of_token-assign :
      (is_set : Bool) → is (Token.token_type (of_token text is_set)) token_assignment ≡ false
  unfolding enum_value
  of_token-assign true = refl
  of_token-assign false = refl

  braces-Passes :
      (f : List Token → List Token)
      → Passes f
      → Passes (λ ts. word text token_open_curly ∷ f (word text token_close_curly ∷ ts))
  unfolding enum_value
  braces-Passes f h =
      Passes-compose (λ ts. word text token_open_curly ∷ ts)
        (λ ts. f (word text token_close_curly ∷ ts)) (Passes-cons (word text token_open_curly) refl)
        (Passes-compose f (λ ts. word text token_close_curly ∷ ts) h
          (Passes-cons (word text token_close_curly) refl))

  mutual
    unfolding print_ty enum_value

    ty-Passes : (t : Ty) → Passes (print_ty text t)
    ty-Passes (ty l m k p a) = Passes-compose (print_label text l) _ (label-Passes l) (
        Passes-compose (print_marker text m) _ (marker-Passes m) (
          Passes-compose (λ ts. kind_token text k ∷ ts) _
            (Passes-cons (kind_token text k) (kind_token-assign k))
            (Passes-compose (print_behind text k) _ (behind-Passes k) (
              Passes-compose (print_presence text p) (print_action text a) (presence-Passes p)
                (action-Passes a)))))
    ty-Passes (of_ty l m is_set t) = Passes-compose (print_label text l) _ (label-Passes l) (
        Passes-compose (print_marker text m) _ (marker-Passes m) (
          Passes-compose (λ ts. of_token text is_set ∷ ts) _
            (Passes-cons (of_token text is_set) (of_token-assign is_set))
            (Passes-compose (λ ts. word text directive_of ∷ ts) (print_ty text t)
              (Passes-cons (word text directive_of) refl) (ty-Passes t))))

    behind-Passes : (k : Kind) → Passes (print_behind text k)
    behind-Passes any_kind = Passes-none
    behind-Passes external_kind = Passes-none
    behind-Passes bit_string = Passes-cons _ refl
    behind-Passes octet_string = Passes-cons _ refl
    behind-Passes object_identifier = Passes-cons _ refl
    behind-Passes (simple s) = Passes-none
    behind-Passes (named n t) = Passes-none
    behind-Passes (choice_kind ms) = braces-Passes (print_members text ms) (members-Passes ms)
    behind-Passes (sequence_kind ms) = braces-Passes (print_members text ms) (members-Passes ms)
    behind-Passes (set_kind ms) = braces-Passes (print_members text ms) (members-Passes ms)

    members-Passes : (ms : Members) → Passes (print_members text ms)
    members-Passes (last n t) =
        Passes-compose (print_name text n) (print_ty text t) (name-Passes n) (ty-Passes t)
    members-Passes (more n t ms) = Passes-compose (print_name text n) _ (name-Passes n) (
        Passes-compose (print_ty text t) (λ ts. word text token_comma ∷ print_members text ms ts)
          (ty-Passes t)
          (Passes-compose (λ ts. word text token_comma ∷ ts) (print_members text ms)
            (Passes-cons (word text token_comma) refl) (members-Passes ms)))

  pub print_ty-Passes : (t : Ty) → Passes (print_ty text t)
  print_ty-Passes = ty-Passes
