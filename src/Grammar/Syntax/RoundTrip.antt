-- ===== src/Grammar/Syntax/RoundTrip.antt =====
-- `parse_type` of listcerts/asn1_compiler.c on the tokens that spell a type.
use uefi_utilities.Base.{
  ℕ, zero, suc, ◌≤◌, ◌≡◌, refl, ap, sym, ◌∙◌, subst, Bool, true, false, Option, none, List, ◌∷◌,
  arith, if◌then◌else◌,
}
use uefi_utilities.Grammar.Tables.{
  TokenType, enum_value, directive_of, token_close_curly, token_comma,
}
use uefi_utilities.Grammar.Lexer.{Token}
use uefi_utilities.Grammar.Element.{
  Head, Element, element, Elements, child, no_elements, Tables, set, set_of, sequence, sequence_of,
}
use uefi_utilities.Grammar.Cursor.{
  Parsed, ok, eof, unexpected_token, Cursor, at, fresh, tag_token, category,
}
use uefi_utilities.Grammar.Parser.{Library, parse_kind, parse_type, parse_members, more_members}
use uefi_utilities.Grammar.Syntax.{
  Ty, ty, of_ty, Kind, any_kind, external_kind, bit_string, octet_string, object_identifier, simple,
  named, choice_kind, sequence_kind, set_kind, Members, last, more, required, word, kind_token,
  of_token, print_presence, print_action, print_ty, print_behind, print_members, first_of, label_of,
  name_of, mean_ty, mean_kind, mean_members, Known, KnownKind, KnownMembers, weight, weight_kind,
  weight_members,
}
use uefi_utilities.Grammar.Syntax.First.{
  kind_token-Begins, of_token-Begins, simple_token-plain, ty-Opens, Inside, members-Inside,
}
use uefi_utilities.Grammar.Syntax.Reads.{Follows}
use uefi_utilities.Grammar.Syntax.Parts.{
  bind, compound-reads, many-reads, of-reads, one-reads, name-reads, comma-Follows, close-Follows,
}

module _ (lib : Library) (beyond : Token) (text : TokenType → List ℕ) where
  of_kind-reads :
      (fuel : ℕ) (is_set : Bool) (h : Head) (t : Ty) (s : Tables) (rest : List Token)
      → parse_type lib beyond fuel none (at (print_ty text t rest)) s
        ≡ ok ((mean_ty text lib t none s).0, at rest, (mean_ty text lib t none s).1)
      → parse_kind lib beyond
          (parse_type lib beyond fuel)
          (parse_members lib beyond fuel)
          h
          (of_token text is_set)
          (at (of_token text is_set ∷ word text directive_of ∷ print_ty text t rest))
          s
          (category (Token.token_type (of_token text is_set)))
        ≡ ok (
          element
              (record h { compound = if is_set then set_of else sequence_of; constructed = true })
              (child (mean_ty text lib t none s).0 no_elements),
          at rest,
          (mean_ty text lib t none s).1,
        )
  unfolding parse_kind category
  of_kind-reads fuel true h t s rest reads =
      of-reads lib beyond text _ (parse_type lib beyond fuel) (parse_members lib beyond fuel) true _
        _ h (of_token text true) (print_ty text t rest) rest _ s _ (ty-Opens text t rest) reads
  of_kind-reads fuel false h t s rest reads =
      of-reads lib beyond text _ (parse_type lib beyond fuel) (parse_members lib beyond fuel) false
        _ _ h (of_token text false) (print_ty text t rest) rest _ s _ (ty-Opens text t rest) reads

  last-reads :
      (again : Cursor → Tables → Parsed (Elements × Cursor × Tables)) (e : Element)
      (ts : List Token) (s : Tables)
      → more_members lib beyond again e (at (word text token_close_curly ∷ ts)) s
        ≡ ok (child e no_elements, at (word text token_close_curly ∷ ts), s)
  unfolding more_members enum_value
  last-reads again e ts s = refl

  more-reads :
      (again : Cursor → Tables → Parsed (Elements × Cursor × Tables)) (e : Element)
      (ins ts : List Token) (es : Elements) (s s' : Tables)
      → Inside text ins
      → again (at ins) s ≡ ok (es, at ts, s')
      → more_members lib beyond again e (at (word text token_comma ∷ ins)) s
        ≡ ok (child e es, at ts, s')
  unfolding more_members enum_value
  more-reads again e ins ts es s s' (u, us, ins_eq, curly) reads =
      let reads' = subst (λ vs. again (at vs) s ≡ ok (es, at ts, s')) ins_eq reads in
      subst
        (λ vs.
          more_members lib beyond again e (at (word text token_comma ∷ vs)) s
          ≡ ok (child e es, at ts, s'))
        (sym ins_eq) (bind _ reads')

  mutual
    unfolding print_ty mean_ty weight weight_kind weight_members Known KnownKind KnownMembers
        parse_type parse_kind category kind_token enum_value

    type-reads :
        (fuel : ℕ) (t : Ty) (name : Option Token) (s : Tables) (rest : List Token)
        → Known text lib t
        → Follows rest
        → weight t ≤ fuel
        → parse_type lib beyond fuel name (at (print_ty text t rest)) s
          ≡ ok ((mean_ty text lib t name s).0, at rest, (mean_ty text lib t name s).1)
    type-reads zero (ty l m k p a) name s rest known follows enough = absurd (omega arith)
    type-reads zero (of_ty l m is_set t) name s rest known follows enough = absurd (omega arith)
    type-reads (suc fuel) (ty l m k p a) name s rest known follows enough =
        let h = fresh name (
          tag_token (label_of text lib l) (first_of text m (kind_token text k))
            (kind_token text k)) in
        one-reads lib beyond text (parse_type lib beyond fuel) (parse_members lib beyond fuel) l m
          (kind_token text k)
          (print_behind text k (print_presence text p (print_action text a rest))) p a rest name
          (mean_kind text lib k h s).0 s (mean_kind text lib k h s).1 (kind_token-Begins text k)
          known.0 follows
          (kind-reads fuel k h s (print_presence text p (print_action text a rest)) known.1
            (omega (arith, enough)))
    type-reads (suc fuel) (of_ty l m is_set t) name s rest known follows enough =
        let h = fresh name (
          tag_token (label_of text lib l) (first_of text m (of_token text is_set))
            (of_token text is_set)) in
        one-reads lib beyond text (parse_type lib beyond fuel) (parse_members lib beyond fuel) l m
          (of_token text is_set) (word text directive_of ∷ print_ty text t rest) required none rest
          name
          (element
            (record h { compound = if is_set then set_of else sequence_of; constructed = true })
            (child (mean_ty text lib t none s).0 no_elements))
          s (mean_ty text lib t none s).1 (of_token-Begins text is_set) known.0 follows
          (of_kind-reads fuel is_set h t s rest
            (type-reads fuel t none s rest known.1 follows (omega (arith, enough))))

    kind-reads :
        (fuel : ℕ) (k : Kind) (h : Head) (s : Tables) (ts : List Token)
        → KnownKind text lib k
        → weight_kind k ≤ fuel
        → parse_kind lib beyond
            (parse_type lib beyond fuel)
            (parse_members lib beyond fuel)
            h
            (kind_token text k)
            (at (kind_token text k ∷ print_behind text k ts))
            s
            (category (Token.token_type (kind_token text k)))
          ≡ ok ((mean_kind text lib k h s).0, at ts, (mean_kind text lib k h s).1)
    kind-reads fuel any_kind h s ts known enough = refl
    kind-reads fuel external_kind h s ts known enough = refl
    kind-reads fuel bit_string h s ts known enough = refl
    kind-reads fuel octet_string h s ts known enough = refl
    kind-reads fuel object_identifier h s ts known enough = refl
    kind-reads fuel (simple u) h s ts known enough =
        ap
          (λ c.
            parse_kind lib beyond (parse_type lib beyond fuel) (parse_members lib beyond fuel) h
              (kind_token text (simple u)) (at (kind_token text (simple u) ∷ ts)) s c)
          (simple_token-plain u)
    kind-reads fuel (named n t) h s ts known enough = rw known.1 refl
    kind-reads fuel (choice_kind ms) h s ts known enough = bind _ (
        compound-reads lib beyond text (parse_members lib beyond fuel) true
          (print_members text ms (word text token_close_curly ∷ ts)) ts _ s _
          (members-Inside text ms (word text token_close_curly ∷ ts))
          (members-reads fuel ms true s ts known enough))
    kind-reads fuel (sequence_kind ms) h s ts known enough =
        many-reads lib beyond text eof (parse_type lib beyond fuel) (parse_members lib beyond fuel)
          false sequence sequence_of h (kind_token text (sequence_kind ms))
          (print_members text ms (word text token_close_curly ∷ ts)) ts _ s _
          (members-Inside text ms (word text token_close_curly ∷ ts))
          (members-reads fuel ms false s ts known enough)
    kind-reads fuel (set_kind ms) h s ts known enough =
        many-reads lib beyond text unexpected_token (parse_type lib beyond fuel)
          (parse_members lib beyond fuel) true set set_of h (kind_token text (set_kind ms))
          (print_members text ms (word text token_close_curly ∷ ts)) ts _ s _
          (members-Inside text ms (word text token_close_curly ∷ ts))
          (members-reads fuel ms true s ts known enough)

    members-reads :
        (fuel : ℕ) (ms : Members) (alternates : Bool) (s : Tables) (ts : List Token)
        → KnownMembers text lib ms
        → weight_members ms ≤ fuel
        → parse_members lib beyond fuel alternates
            (at (print_members text ms (word text token_close_curly ∷ ts)))
            s
          ≡ ok (
            (mean_members text lib ms alternates s).0,
            at (word text token_close_curly ∷ ts),
            (mean_members text lib ms alternates s).1,
          )
    members-reads zero (last n t) alternates s ts known enough = absurd (omega arith)
    members-reads zero (more n t ms) alternates s ts known enough = absurd (omega arith)
    members-reads (suc fuel) (last n t) alternates s ts known enough =
        bind _ (
          name-reads lib beyond text n (print_ty text t (word text token_close_curly ∷ ts))
            (ty-Opens text t (word text token_close_curly ∷ ts)))
        ∙ bind _ (
            type-reads fuel t (name_of text lib n) s (word text token_close_curly ∷ ts) known
              (close-Follows lib beyond text ts) (omega (arith, enough)))
        ∙ last-reads (parse_members lib beyond fuel alternates) _ ts _
    members-reads (suc fuel) (more n t ms) alternates s ts known enough =
        bind _ (
          name-reads lib beyond text n
            (print_ty text t
              (word text token_comma ∷ print_members text ms (word text token_close_curly ∷ ts)))
            (ty-Opens text t
              (word text token_comma ∷ print_members text ms (word text token_close_curly ∷ ts))))
        ∙ bind _ (
            type-reads fuel t (name_of text lib n) s
              (word text token_comma ∷ print_members text ms (word text token_close_curly ∷ ts))
              known.0
              (comma-Follows lib beyond text
                (print_members text ms (word text token_close_curly ∷ ts)))
              (omega (arith, enough)))
        ∙ more-reads (parse_members lib beyond fuel alternates) _
            (print_members text ms (word text token_close_curly ∷ ts))
            (word text token_close_curly ∷ ts) _ _ _
            (members-Inside text ms (word text token_close_curly ∷ ts))
            (members-reads fuel ms alternates _ ts known.1 (omega (arith, enough)))

  -- Given the tokens that spell a type, behind them tokens that begin with neither OPTIONAL nor
  -- DEFAULT nor `({`, and fuel for the type, where the index has each type name under its number and
  -- `strtoul` reads the numbers of labels whole, `parse_type` gives the element and the tables that the type means, and stops behind its tokens.
  pub parse_type-print_ty :
      (fuel : ℕ) (t : Ty) (name : Option Token) (s : Tables) (rest : List Token)
      → Known text lib t
      → Follows rest
      → weight t ≤ fuel
      → parse_type lib beyond fuel name (at (print_ty text t rest)) s
        ≡ ok ((mean_ty text lib t name s).0, at rest, (mean_ty text lib t name s).1)
  parse_type-print_ty = type-reads
