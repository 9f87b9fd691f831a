-- ===== src/Grammar/Parser/Ends.antt =====
-- Fuel that is enough for `parse_type` and `parse_compound` of listcerts/asn1_compiler.c.
use uefi_utilities.Base.{ℕ, zero, suc, ◌+◌, ◌*◌, ◌≤◌, ◌<◌, Bool, Option, arith, if◌then◌else◌}
use uefi_utilities.Grammar.Tables.{token_element_name, token_comma}
use uefi_utilities.Grammar.Lexer.{Token}
use uefi_utilities.Grammar.Element.{Element, Elements, Tables, as_alternative}
use uefi_utilities.Grammar.Cursor.{Parsed, Cursor, before_end, step, is, eof}
use uefi_utilities.Grammar.Parser.{
  Library, peek, parse_type, parse_members, parse_name_before, more_members,
}
use uefi_utilities.Grammar.Parser.Consumes.{
  Ends, Ends-bind, Ends-mono, Ends-if, size, Below, Within, step-Ends, before_end-Ends, peek-Ends,
  parse_one-Ends,
}

module _ (lib : Library) (beyond : Token) where
  parse_name_before-Ends : (c : Cursor) → Ends (λ r. Within c r.1) (parse_name_before lib beyond c)
  unfolding parse_name_before
  parse_name_before-Ends c =
      Ends-bind (λ t. 0 < size c) _ (peek lib beyond c) _ (peek-Ends lib beyond c)
        λ t pos.
          Ends-if _ (is (Token.token_type t) token_element_name) _ _
            (Ends-bind (λ c'. (size c' < size c) × (0 < size c')) _ (step c) _ (step-Ends c)
              λ c1 h. omega arith)
            (omega arith)

  more_members-Ends :
      (again : Cursor → Tables → Parsed (Elements × Cursor × Tables)) (e : Element) (c : Cursor)
      (s : Tables)
      → ((c' : Cursor) (s' : Tables) → size c' < size c → Ends (λ r. Below c' r.1) (again c' s'))
      → Ends (λ r. Within c r.1) (more_members lib beyond again e c s)
  unfolding more_members
  more_members-Ends again e c s ends =
      Ends-bind (λ c'. (size c' ≤ size c) × (0 < size c')) _ (before_end eof c) _
        (before_end-Ends eof c)
        λ c1 h1.
          Ends-bind (λ t. 0 < size c1) _ (peek lib beyond c1) _ (peek-Ends lib beyond c1)
            λ t h.
              Ends-if _ (is (Token.token_type t) token_comma) _ _
                (Ends-bind (λ c'. (size c' < size c1) × (0 < size c')) _ (step c1) _ (step-Ends c1)
                  λ c2 h2.
                    Ends-bind (λ r. Below c2 r.1) _ (again c2 s) _ (ends c2 s (omega arith))
                      λ r h3. omega arith)
                (omega arith)

  mutual
    unfolding parse_type

    type-Ends :
        (fuel : ℕ) (name : Option Token) (c : Cursor) (s : Tables)
        → 2 * size c < fuel
        → Ends (λ r. size r.1 < size c) (parse_type lib beyond fuel name c s)
    type-Ends zero name c s h = absurd (omega arith)
    type-Ends (suc fuel) name c s h =
        parse_one-Ends lib beyond (size c) (parse_type lib beyond fuel)
          (parse_members lib beyond fuel)
          (λ name' c' s' less. type-Ends fuel name' c' s' (omega arith))
          (λ alternates c' s' less. members-Ends fuel alternates c' s' (omega arith)) name c s
          (omega arith)

    members-Ends :
        (fuel : ℕ) (alternates : Bool) (c : Cursor) (s : Tables)
        → 2 * size c + 1 < fuel
        → Ends (λ r. size r.1 < size c) (parse_members lib beyond fuel alternates c s)
    members-Ends zero alternates c s h = absurd (omega arith)
    members-Ends (suc fuel) alternates c s h =
        Ends-bind (λ r. Within c r.1) _ (parse_name_before lib beyond c) _
          (parse_name_before-Ends c)
          λ n h1.
            Ends-bind (λ r. Below n.1 r.1) _ (parse_type lib beyond fuel n.0 n.1 s) _
              (type-Ends fuel n.0 n.1 s (omega arith))
              λ e h2.
                Ends-mono (λ r. Within e.1 r.1) _
                  (more_members lib beyond (parse_members lib beyond fuel alternates)
                    (if alternates then as_alternative e.0 else e.0) e.1 e.2)
                  (more_members-Ends (parse_members lib beyond fuel alternates)
                    (if alternates then as_alternative e.0 else e.0) e.1 e.2
                    λ c' s' less. members-Ends fuel alternates c' s' (omega arith))
                  λ r h3. omega arith

  -- With fuel for twice the tokens left (and one), `parse_type` ends with an error or behind at least one token.
  pub parse_type-Ends :
      (fuel : ℕ) (name : Option Token) (c : Cursor) (s : Tables)
      → 2 * size c < fuel
      → Ends (λ r. size r.1 < size c) (parse_type lib beyond fuel name c s)
  parse_type-Ends = type-Ends
