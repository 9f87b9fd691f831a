-- ===== src/Grammar/Parser/Consumes.antt =====
-- The parser of listcerts/asn1_compiler.c ends, and each type and member takes a token.
use uefi_utilities.Base.{
  ℕ, suc, ◌≤◌, ◌<◌, Bool, true, false, Option, none, some, [], ◌∷◌, arith, if◌then◌else◌, length,
  ◌==◌,
}
use uefi_utilities.Grammar.Tables.{
  TokenType, token_open_curly, token_close_curly, token_open_square, token_number,
  token_close_square, directive_implicit, directive_explicit, token_open_action, token_close_action,
  token_element_name, directive_of,
}
use uefi_utilities.Grammar.Lexer.{Token}
use uefi_utilities.Grammar.Element.{Class, Head, Compound, Tables}
use uefi_utilities.Grammar.Cursor.{
  Parsed, ok, err, out_of_fuel, ◌>>=◌, Error, Cursor, at, past, advance, before_end, step, is,
  stands, class_of, parse_optional, Category, any_case, plain, external, string_case, object_case,
  name_case, choice_case, sequence_case, set_case, other_case, category, eof,
}
use uefi_utilities.Grammar.Parser.{
  peek, Library, expect, tag_number, tag_class_at, read_label, parse_label, parse_marker,
  parse_action, TypeParser, MembersParser, parse_compound, parse_many, parse_name, parse_second,
  parse_kind, parse_one,
}

-- What holds of the result, which is not the end of the fuel.
abbrev pub Ends : {A : Type 0} → (A → Type 0) → Parsed A → Type 0
Ends P (ok a) = P a
Ends P (err e) = Unit
Ends P out_of_fuel = ⊥

-- The tokens left, with one for a cursor that is not behind the end.
abbrev pub size : Cursor → ℕ
size (at ts) = suc (length ts)
size past = 0

module _ {A B : Type 0} where
  pub Ends-bind :
      (P : A → Type 0) (Q : B → Type 0) (m : Parsed A) (k : A → Parsed B)
      → Ends P m
      → ((a : A) → P a → Ends Q (k a))
      → Ends Q (m >>= k)
  Ends-bind P Q (ok a) k h hk = hk a h
  Ends-bind P Q (err e) k h hk = tt
  Ends-bind P Q out_of_fuel k h hk = h

module _ {A : Type 0} where
  pub Ends-mono : (P Q : A → Type 0) (m : Parsed A) → Ends P m → ((a : A) → P a → Q a) → Ends Q m
  Ends-mono P Q (ok a) h k = k a h
  Ends-mono P Q (err e) h k = tt
  Ends-mono P Q out_of_fuel h k = h

  pub Ends-if :
      (P : A → Type 0) (b : Bool) (x y : Parsed A)
      → Ends P x
      → Ends P y
      → Ends P (if b then x else y)
  Ends-if P true x y hx hy = hx
  Ends-if P false x y hx hy = hy

advance_lt : (c : Cursor) → 0 < size c → size (advance c) < size c
advance_lt (at []) h = omega arith
advance_lt (at (t ∷ ts)) h = omega arith
advance_lt past h = absurd (omega arith)

-- A cursor with fewer tokens left, or with no more.
abbrev pub Below : Cursor → Cursor → Type 0
Below c c' = size c' < size c

abbrev pub Within : Cursor → Cursor → Type 0
Within c c' = size c' ≤ size c

pub before_end-Ends :
    (e : Error) (c : Cursor) → Ends (λ c'. (size c' ≤ size c) × (0 < size c')) (before_end e c)
before_end-Ends e (at []) = tt
before_end-Ends e (at (t ∷ ts)) = (omega arith, omega arith)
before_end-Ends e past = tt

pub step-Ends : (c : Cursor) → Ends (λ c'. (size c' < size c) × (0 < size c')) (step c)
step-Ends (at []) = tt
step-Ends (at (t ∷ [])) = tt
step-Ends (at (t ∷ u ∷ ts)) = (omega arith, omega arith)
step-Ends past = tt

module _ (lib : Library) (beyond : Token) where
  pub peek-Ends : (c : Cursor) → Ends (λ t. 0 < size c) (peek lib beyond c)
  unfolding peek
  peek-Ends (at []) = omega arith
  peek-Ends (at (t ∷ ts)) = omega arith
  peek-Ends past = tt

  expect-Ends :
      (type : TokenType) (e : Error) (c : Cursor) → Ends (Below c) (expect lib beyond type e c)
  unfolding expect
  expect-Ends type e c =
      Ends-bind (λ t. 0 < size c) _ (peek lib beyond c) _ (peek-Ends c)
        λ t pos. Ends-if _ (is (Token.token_type t) type) _ _ (advance_lt c pos) tt

  tag_class_at-Ends :
      (c : Cursor) (o : Option (Class × Bool))
      → 0 < size c
      → Ends (λ r. Within c r.1) (tag_class_at lib beyond c o)
  unfolding tag_class_at
  tag_class_at-Ends c none pos = tt
  tag_class_at-Ends c (some (class, true)) pos = omega (arith, advance_lt c pos)
  tag_class_at-Ends c (some (class, false)) pos = omega arith

  tag_number-Ends : (t : Token) → Ends (λ n. Unit {0}) (tag_number lib beyond t)
  unfolding tag_number
  tag_number-Ends t = Ends-if _ ((Library.strtoul lib (Token.value t)).1 == Token.size t) _ _ tt tt

  read_label-Ends : (c : Cursor) → Ends (λ r. Below c r.1) (read_label lib beyond c)
  unfolding read_label
  read_label-Ends c =
      Ends-bind (λ c'. (size c' < size c) × (0 < size c')) _ (step c) _ (step-Ends c)
        λ c1 h1.
          Ends-bind (λ t. 0 < size c1) _ (peek lib beyond c1) _ (peek-Ends c1)
            λ t h.
              Ends-bind (λ r. Within c1 r.1) _
                (tag_class_at lib beyond c1 (class_of (Token.token_type t))) _
                (tag_class_at-Ends c1 (class_of (Token.token_type t)) h)
                λ r h2.
                  Ends-bind (λ c'. (size c' ≤ size r.1) × (0 < size c')) _ (before_end eof r.1) _
                    (before_end-Ends eof r.1)
                    λ c3 h3.
                      Ends-bind (λ t. 0 < size c3) _ (peek lib beyond c3) _ (peek-Ends c3)
                        λ n h'.
                          Ends-bind (Below c3) _ (expect lib beyond token_number _ c3) _
                            (expect-Ends token_number _ c3)
                            λ c4 h4.
                              Ends-bind (λ n. Unit {0}) _ (tag_number lib beyond n) _
                                (tag_number-Ends n)
                                λ number _.
                                  Ends-bind (λ c'. (size c' ≤ size c4) × (0 < size c')) _
                                    (before_end eof c4) _ (before_end-Ends eof c4)
                                    λ c5 h5.
                                      Ends-bind (Below c5) _
                                        (expect lib beyond token_close_square _ c5) _
                                        (expect-Ends token_close_square _ c5)
                                        λ c6 h6.
                                          Ends-bind (λ c'. (size c' ≤ size c6) × (0 < size c')) _
                                            (before_end eof c6) _ (before_end-Ends eof c6)
                                            λ c7 h7. omega arith

  parse_label-Ends : (c : Cursor) → Ends (λ r. Within c r.1) (parse_label lib beyond c)
  unfolding parse_label
  parse_label-Ends c =
      Ends-bind (λ t. 0 < size c) _ (peek lib beyond c) _ (peek-Ends c)
        λ t pos.
          Ends-if _ (is (Token.token_type t) token_open_square) _ _
            (Ends-bind (λ r. Below c r.1) _ (read_label lib beyond c) _ (read_label-Ends c)
              λ r h. omega arith)
            (omega arith)

  parse_marker-Ends : (c : Cursor) → Ends (λ r. Within c r.1) (parse_marker lib beyond c)
  unfolding parse_marker
  parse_marker-Ends c =
      Ends-bind (λ t. 0 < size c) _ (peek lib beyond c) _ (peek-Ends c)
        λ t pos.
          Ends-if _ (is (Token.token_type t) directive_implicit) _ _
            (Ends-bind (λ c'. (size c' < size c) × (0 < size c')) _ (step c) _ (step-Ends c)
              λ c1 h. omega arith)
            (Ends-if _ (is (Token.token_type t) directive_explicit) _ _
              (Ends-bind (λ c'. (size c' < size c) × (0 < size c')) _ (step c) _ (step-Ends c)
                λ c1 h. omega arith)
              (omega arith))

  advance_le : (c : Cursor) → size (advance c) ≤ size c
  advance_le (at []) = omega arith
  advance_le (at (t ∷ ts)) = omega arith
  advance_le past = omega arith

  parse_optional_le : (c : Cursor) → Within c (parse_optional c).1
  unfolding parse_optional
  parse_optional_le c = ground (arith, advance_le c)

  parse_action-Ends :
      (c : Cursor) (s : Tables) → Ends (λ r. Within c r.1) (parse_action lib beyond c s)
  unfolding parse_action
  parse_action-Ends c s =
      Ends-if _ (stands token_open_action c) _ _
        (Ends-bind (λ c'. (size c' < size c) × (0 < size c')) _ (step c) _ (step-Ends c)
          λ c1 h1.
            Ends-bind (λ t. 0 < size c1) _ (peek lib beyond c1) _ (peek-Ends c1)
              λ t h.
                Ends-bind (Below c1) _ (expect lib beyond token_element_name _ c1) _
                  (expect-Ends token_element_name _ c1)
                  λ c2 h2.
                    Ends-bind (λ c'. (size c' ≤ size c2) × (0 < size c')) _ (before_end eof c2) _
                      (before_end-Ends eof c2)
                      λ c3 h3.
                        Ends-bind (Below c3) _ (expect lib beyond token_close_action _ c3) _
                          (expect-Ends token_close_action _ c3) λ c4 h4. omega arith)
        (omega arith)

  -- A parser that ends on every cursor with fewer than `n` tokens left, and takes a token.
  abbrev pub TypeEnds : ℕ → TypeParser lib beyond → Type 0
  TypeEnds n type =
      (name : Option Token) (c : Cursor) (s : Tables)
      → size c < n
      → Ends (λ r. Below c r.1) (type name c s)

  abbrev pub MembersEnds : ℕ → MembersParser lib beyond → Type 0
  MembersEnds n members =
      (alternates : Bool) (c : Cursor) (s : Tables)
      → size c < n
      → Ends (λ r. Below c r.1) (members alternates c s)

  module _ (n : ℕ) (type : TypeParser lib beyond) (members : MembersParser lib beyond)
      (type_ends : TypeEnds n type) (members_ends : MembersEnds n members) where
    parse_compound-Ends : MembersEnds n (parse_compound lib beyond members)
    unfolding parse_compound
    parse_compound-Ends alternates c s h =
        Ends-bind (Below c) _ (expect lib beyond token_open_curly _ c) _
          (expect-Ends token_open_curly _ c)
          λ c1 h1.
            Ends-bind (λ c'. (size c' ≤ size c1) × (0 < size c')) _ (before_end eof c1) _
              (before_end-Ends eof c1)
              λ c2 h2.
                Ends-bind (λ t. 0 < size c2) _ (peek lib beyond c2) _ (peek-Ends c2)
                  λ t h'. Ends-if _ (is (Token.token_type t) token_open_curly) _ _ tt (
                    Ends-bind (λ r. Below c2 r.1) _ (members alternates c2 s) _
                      (members_ends alternates c2 s (omega arith))
                      λ r h3.
                        Ends-bind (Below r.1) _ (expect lib beyond token_close_curly _ r.1) _
                          (expect-Ends token_close_curly _ r.1) λ c4 h4. omega arith)

    parse_many-Ends :
        (e : Error) (alternates : Bool) (one all : Compound) (h : Head) (c : Cursor) (s : Tables)
        → size c ≤ n
        → Ends (λ r. Below c r.1) (parse_many lib beyond e type members alternates one all h c s)
    unfolding parse_many
    parse_many-Ends e alternates one all h c s fits =
        Ends-bind (λ c'. (size c' < size c) × (0 < size c')) _ (step c) _ (step-Ends c)
          λ c1 h1.
            Ends-bind (λ t. 0 < size c1) _ (peek lib beyond c1) _ (peek-Ends c1)
              λ t h'.
                Ends-if _ (is (Token.token_type t) directive_of) _ _
                  (Ends-bind (λ c'. (size c' ≤ size (advance c1)) × (0 < size c')) _
                    (before_end e (advance c1)) _ (before_end-Ends e (advance c1))
                    λ c2 h2.
                      let less = advance_le c1 in
                      Ends-bind (λ r. Below c2 r.1) _ (type none c2 s) _
                        (type_ends none c2 s (omega arith)) λ r h3. omega arith)
                  (Ends-bind (λ r. Below c1 r.1) _
                    (parse_compound lib beyond members alternates c1 s) _
                    (parse_compound-Ends alternates c1 s (omega arith)) λ r h3. omega arith)

    parse_name-Ends :
        (o : Option (ℕ × Token)) (h : Head) (c : Cursor) (s : Tables)
        → 0 < size c
        → Ends (λ r. Below c r.1) (parse_name lib beyond o h c s)
    unfolding parse_name
    parse_name-Ends none h c s pos = tt
    parse_name-Ends (some (t, name)) h c s pos = advance_lt c pos

    parse_second-Ends :
        (t : TokenType) (h : Head) (c : Cursor) (s : Tables)
        → Ends (λ r. Below c r.1) (parse_second lib beyond t h c s)
    unfolding parse_second
    parse_second-Ends t h c s =
        Ends-bind (λ c'. (size c' < size c) × (0 < size c')) _ (step c) _ (step-Ends c)
          λ c1 h1.
            Ends-bind (Below c1) _ (expect lib beyond t _ c1) _ (expect-Ends t _ c1)
              λ c2 h2. omega arith

    parse_kind-Ends :
        (h : Head) (t : Token) (c : Cursor) (s : Tables) (k : Category)
        → 0 < size c
        → size c ≤ n
        → Ends (λ r. Below c r.1) (parse_kind lib beyond type members h t c s k)
    unfolding parse_kind
    parse_kind-Ends h t c s any_case pos fits = advance_lt c pos
    parse_kind-Ends h t c s plain pos fits = advance_lt c pos
    parse_kind-Ends h t c s external pos fits = advance_lt c pos
    parse_kind-Ends h t c s string_case pos fits = parse_second-Ends _ h c s
    parse_kind-Ends h t c s object_case pos fits = parse_second-Ends _ h c s
    parse_kind-Ends h t c s name_case pos fits = parse_name-Ends _ h c s pos
    parse_kind-Ends h t c s choice_case pos fits =
        let less = advance_lt c pos in
        Ends-bind (λ r. Below (advance c) r.1) _
          (parse_compound lib beyond members true (advance c) s) _
          (parse_compound-Ends true (advance c) s (omega arith)) λ r h'. omega arith
    parse_kind-Ends h t c s sequence_case pos fits = parse_many-Ends _ _ _ _ h c s fits
    parse_kind-Ends h t c s set_case pos fits = parse_many-Ends _ _ _ _ h c s fits
    parse_kind-Ends h t c s other_case pos fits = tt

    pub parse_one-Ends :
        (name : Option Token) (c : Cursor) (s : Tables)
        → size c ≤ n
        → Ends (λ r. Below c r.1) (parse_one lib beyond type members name c s)
    unfolding parse_one
    parse_one-Ends name c s fits =
        Ends-bind (λ t. 0 < size c) _ (peek lib beyond c) _ (peek-Ends c)
          λ first h.
            Ends-bind (λ r. Within c r.1) _ (parse_label lib beyond c) _ (parse_label-Ends c)
              λ l h1.
                Ends-bind (λ r. Within l.1 r.1) _ (parse_marker lib beyond l.1) _
                  (parse_marker-Ends l.1)
                  λ m h2.
                    Ends-bind (λ t. 0 < size m.1) _ (peek lib beyond m.1) _ (peek-Ends m.1)
                      λ t pos.
                        Ends-bind (λ r. Below m.1 r.1) _
                          (parse_kind lib beyond type members _ t m.1 s
                            (category (Token.token_type t)))
                          _
                          (parse_kind-Ends _ t m.1 s (category (Token.token_type t)) pos
                            (omega arith))
                          λ e h3.
                            let less = parse_optional_le e.1 in
                            Ends-bind (λ r. Within (parse_optional e.1).1 r.1) _
                              (parse_action lib beyond (parse_optional e.1).1 e.2) _
                              (parse_action-Ends (parse_optional e.1).1 e.2) λ a h4. omega arith
