-- ===== src/Grammar/Syntax/Parts.antt =====
-- The parts of `parse_type` of listcerts/asn1_compiler.c on the tokens that spell them.
use uefi_utilities.Base.{
  ℕ, ◌≡◌, refl, ap, sym, ◌∙◌, subst, Bool, true, Option, none, some, List, ◌∷◌,
}
use uefi_utilities.Grammar.Tables.{
  TokenType, enum_value, directive_of, token_open_curly, token_close_curly, token_comma,
}
use uefi_utilities.Grammar.Lexer.{Token}
use uefi_utilities.Grammar.Element.{
  Compound, Head, Element, element, Elements, child, no_elements, Tables, first_unconditional,
  universal, application, context, private,
}
use uefi_utilities.Grammar.Cursor.{
  Parsed, ok, ◌>>=◌, Error, at, stands, Marker, unmarked, implicit, explicit, fresh, tag_token,
  category, assemble,
}
use uefi_utilities.Grammar.Parser.{
  Library, TypeParser, MembersParser, peek, parse_label, parse_kind, parse_compound, parse_many,
  parse_one, parse_name_before,
}
use uefi_utilities.Grammar.Syntax.{
  Label, Presence, Action, word, print_label, print_marker, print_presence, print_action,
  print_name, first_of, label_of, is_skippable, note_action, name_of, KnownLabel,
}
use uefi_utilities.Grammar.Syntax.First.{Begins, Opens, Inside}
use uefi_utilities.Grammar.Syntax.Reads.{
  Follows, label-reads, marker-reads, presence-reads, action-reads,
}

pub bind : {A B : Type 0} {m : Parsed A} {a : A} (k : A → Parsed B) → m ≡ ok a → (m >>= k) ≡ k a
bind k e = ap (λ m. m >>= k) e

module _ (lib : Library) (beyond : Token) (text : TokenType → List ℕ) where
  pub compound-reads :
      (members : MembersParser lib beyond) (alternates : Bool) (ins rest : List Token)
      (es : Elements) (s s' : Tables)
      → Inside text ins
      → members alternates (at ins) s ≡ ok (es, at (word text token_close_curly ∷ rest), s')
      → parse_compound lib beyond members alternates (at (word text token_open_curly ∷ ins)) s
        ≡ ok (first_unconditional es, at rest, s')
  unfolding parse_compound enum_value
  compound-reads members alternates ins rest es s s' (u, us, e, curly) reads =
      let reads' =
        subst
          (λ ts.
            members alternates (at ts) s ≡ ok (es, at (word text token_close_curly ∷ rest), s'))
          e reads in
      subst
        (λ ts.
          parse_compound lib beyond members alternates (at (word text token_open_curly ∷ ts)) s
          ≡ ok (first_unconditional es, at rest, s'))
        (sym e) (rw (curly, reads') refl)

  pub many-reads :
      (e : Error) (type : TypeParser lib beyond) (members : MembersParser lib beyond)
      (alternates : Bool) (one all : Compound) (h : Head) (u : Token) (ins rest : List Token)
      (es : Elements) (s s' : Tables)
      → Inside text ins
      → members alternates (at ins) s ≡ ok (es, at (word text token_close_curly ∷ rest), s')
      → parse_many lib beyond e type members alternates one all h
          (at (u ∷ word text token_open_curly ∷ ins))
          s
        ≡ ok (
          element (record h { compound = one; constructed = true }) (first_unconditional es),
          at rest,
          s',
        )
  unfolding parse_many enum_value
  many-reads e type members alternates one all h u ins rest es s s' opens reads =
      bind _ (compound-reads members alternates ins rest es s s' opens reads)

  pub of-reads :
      (e : Error) (type : TypeParser lib beyond) (members : MembersParser lib beyond)
      (alternates : Bool) (one all : Compound) (h : Head) (u : Token) (ins rest : List Token)
      (el : Element) (s s' : Tables)
      → Opens text ins
      → type none (at ins) s ≡ ok (el, at rest, s')
      → parse_many lib beyond e type members alternates one all h
          (at (u ∷ word text directive_of ∷ ins))
          s
        ≡ ok (
          element (record h { compound = all; constructed = true }) (child el no_elements),
          at rest,
          s',
        )
  unfolding parse_many enum_value
  of-reads e type members alternates one all h u ins rest el s s' (v, vs, v_eq, no_name, no_curly)
        reads =
      let reads' = subst (λ ts. type none (at ts) s ≡ ok (el, at rest, s')) v_eq reads in
      subst
        (λ ts.
          parse_many lib beyond e type members alternates one all h
            (at (u ∷ word text directive_of ∷ ts)) s
          ≡ ok (
            element (record h { compound = all; constructed = true }) (child el no_elements),
            at rest,
            s',
          ))
        (sym v_eq) (rw reads' refl)

  pub first-reads :
      (l : Label) (m : Marker) (u : Token) (us : List Token)
      → (first : Token) × (peek lib beyond (at (print_label text l (print_marker text m (u ∷ us))))
          ≡ ok first)
        × (tag_token (label_of text lib l) first u
            ≡ tag_token (label_of text lib l) (first_of text m u) u)
  unfolding peek print_label print_marker
  first-reads none unmarked u us = (_, refl, refl)
  first-reads none implicit u us = (_, refl, refl)
  first-reads none explicit u us = (_, refl, refl)
  first-reads (some (universal, n)) m u us = (_, refl, refl)
  first-reads (some (application, n)) m u us = (_, refl, refl)
  first-reads (some (context, n)) m u us = (_, refl, refl)
  first-reads (some (private, n)) m u us = (_, refl, refl)

  pub behind_label-reads :
      (l : Label) (m : Marker) (u : Token) (us : List Token)
      → Begins (Token.token_type u)
      → KnownLabel text lib l
      → parse_label lib beyond (at (print_label text l (print_marker text m (u ∷ us))))
        ≡ ok (label_of text lib l, at (print_marker text m (u ∷ us)))
  unfolding print_marker enum_value
  behind_label-reads l unmarked u us b known = label-reads lib beyond text l u us b.0 known
  behind_label-reads l implicit u us b known = label-reads lib beyond text l _ (u ∷ us) refl known
  behind_label-reads l explicit u us b known = label-reads lib beyond text l _ (u ∷ us) refl known

  pub one-reads :
      (type : TypeParser lib beyond) (members : MembersParser lib beyond) (l : Label) (m : Marker)
      (u : Token) (us : List Token) (p : Presence) (a : Action) (rest : List Token)
      (name : Option Token) (e : Element) (s s' : Tables)
      → Begins (Token.token_type u)
      → KnownLabel text lib l
      → Follows rest
      → parse_kind lib beyond type members
          (fresh name (tag_token (label_of text lib l) (first_of text m u) u))
          u
          (at (u ∷ us))
          s
          (category (Token.token_type u))
        ≡ ok (e, at (print_presence text p (print_action text a rest)), s')
      → parse_one lib beyond type members name
          (at (print_label text l (print_marker text m (u ∷ us))))
          s
        ≡ ok (
          assemble (label_of text lib l) m name e (is_skippable text lib p) a,
          at rest,
          note_action text lib a s',
        )
  unfolding parse_one peek
  one-reads type members l m u us p a rest name e s s' b known follows reads =
      let first = first-reads l m u us in
      bind _ first.1
      ∙ bind _ (behind_label-reads l m u us b known)
      ∙ bind _ (marker-reads lib beyond text m u us b.1 b.2)
      ∙ bind _ (
          ap
            (λ t.
              parse_kind lib beyond type members (fresh name t) u (at (u ∷ us)) s
                (category (Token.token_type u)))
            first.2
          ∙ reads)
      ∙ rw
          (
            presence-reads lib beyond text p a rest follows,
            action-reads lib beyond text a rest s' follows,
          )
          refl

  pub name-reads :
      (n : Option (List ℕ)) (ts : List Token)
      → Opens text ts
      → parse_name_before lib beyond (at (print_name text n ts)) ≡ ok (name_of text lib n, at ts)
  unfolding parse_name_before print_name enum_value
  name-reads none ts (u, us, e, no_name, no_curly) =
      subst (λ vs. parse_name_before lib beyond (at vs) ≡ ok (none, at vs)) (sym e)
        (rw no_name refl)
  name-reads (some n) ts (u, us, e, no_name, no_curly) =
      subst
        (λ vs.
          parse_name_before lib beyond (at (print_name text (some n) vs))
          ≡ ok (name_of text lib (some n), at vs))
        (sym e) refl

  pub comma-Follows : (ts : List Token) → Follows (word text token_comma ∷ ts)
  unfolding enum_value stands
  comma-Follows ts = (refl, refl, refl)

  pub close-Follows : (ts : List Token) → Follows (word text token_close_curly ∷ ts)
  unfolding enum_value stands
  close-Follows ts = (refl, refl, refl)
