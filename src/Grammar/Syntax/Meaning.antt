-- ===== src/Grammar/Syntax/Meaning.antt =====
-- The elements that the types of a grammar of listcerts/asn1_compiler.c mean, written without the
-- operations of its parser, and that these are the elements the parser builds.
use uefi_utilities.Base.{
  ℕ, ◌+◌, ◌≡◌, refl, ap, ◌∙◌, Bool, true, false, Option, none, some, List, [], ◌∷◌, ◌==◌,
  if◌then◌else◌,
}
use uefi_utilities.Grammar.Tables.{TokenType}
use uefi_utilities.Grammar.Directives.{Sign, less, equal, greater}
use uefi_utilities.Grammar.Lexer.{Token}
use uefi_utilities.Grammar.Element.{
  set, set_of, sequence, sequence_of, choice, any, type_ref, tag_override, Class, Head, Element,
  element, Elements, no_elements, child, as_alternative, unconditional, first_unconditional, Tables,
  count_ref,
}
use uefi_utilities.Grammar.Cursor.{
  Marker, unmarked, implicit, explicit, fresh, insert_action, tag_token, assemble,
}
use uefi_utilities.Grammar.Parser.{Library}
use uefi_utilities.Grammar.Syntax.{
  Action, Label, Ty, ty, of_ty, Kind, any_kind, external_kind, bit_string, octet_string,
  object_identifier, simple, named, choice_kind, sequence_kind, set_kind, Members, last, more,
  Presence, required, optional, default, kind_token, of_token, first_of, label_of, is_skippable,
  note_action, name_of, mean_ty, mean_kind, mean_members,
}

abbrev pub may_lack : Presence → Bool
may_lack required = false
may_lack optional = true
may_lack default = true

-- The marks that stand on an element.
abbrev pub marked : Marker → Bool → Option (List ℕ) → Head → Head
marked unmarked lacks action h = record h {
  implicit = false;
  explicit = false;
  skippable = lacks;
  action = action;
}
marked implicit lacks action h = record h {
  implicit = true;
  explicit = false;
  skippable = lacks;
  action = action;
}
marked explicit lacks action h = record h {
  implicit = false;
  explicit = true;
  skippable = lacks;
  action = action;
}

-- The element that a label puts around one: one that overrides its tag, or a constructed sequence.
abbrev pub outer : Marker → Option Token → Class → ℕ → Head
outer implicit name class number = record {
  name = name;
  action = none;
  compound = tag_override;
  class = class;
  constructed = false;
  tag = number;
  ref = none;
  implicit = false;
  explicit = false;
  skippable = false;
  conditional = false;
}
outer _ name class number = record {
  name = name;
  action = none;
  compound = sequence;
  class = class;
  constructed = true;
  tag = number;
  ref = none;
  implicit = false;
  explicit = false;
  skippable = false;
  conditional = false;
}

-- Behind a label the action stays with the inner element, and the marks stand on the outer one.
abbrev pub labelled :
    Option (Class × ℕ) → Marker → Option Token → Bool → Option (List ℕ) → Element → Element
labelled none m name lacks action (element h es) = element (marked m lacks action h) es
labelled (some (class, number)) m name lacks action (element h es) =
    element (marked m lacks none (outer m name class number))
      (child (element (record h { action = action }) es) no_elements)

-- A member of a CHOICE or a SET may lack and goes on with the next one.
abbrev pub as_member : Bool → Element → Element
as_member true (element h es) = element (record h { skippable = true; conditional = true }) es
as_member false e = e

-- The first member goes on with none before it.
abbrev pub opened : Elements → Elements
opened no_elements = no_elements
opened (child (element h es) rest) = child (element (record h { conditional = false }) es) rest

-- The names of actions in the order of `strcmp`, each once.
unfoldable pub inserted : (List ℕ → List ℕ → Sign) → List ℕ → List (List ℕ) → List (List ℕ)
inserted strcmp name [] = name ∷ []
inserted strcmp name (a ∷ rest) = elim (strcmp name a) [
  | less ↦ name ∷ a ∷ rest
  | equal ↦ a ∷ rest
  | greater ↦ a ∷ inserted strcmp name rest
]

abbrev pub with_action : Library → Action → Tables → Tables
with_action lib none s = s
with_action lib (some a) s = record {
  actions = inserted (Library.strcmp lib) a (Tables.actions s);
  ref_count = Tables.ref_count s;
}

abbrev pub with_ref : ℕ → Tables → Tables
with_ref t s = record {
  actions = Tables.actions s;
  ref_count = λ u. if u == t then Tables.ref_count s u + 1 else Tables.ref_count s u;
}

module _ (text : TokenType → List ℕ) (lib : Library) where
  abbrev pub head_of : Label → Marker → Option Token → Token → Head
  head_of l m name k = fresh name (tag_token (label_of text lib l) (first_of text m k) k)

  -- The element of a type with this name, and the tables with its actions and references.
  unfoldable mutual
    unfolding kind_token

    pub means_ty : Ty → Option Token → Tables → Element × Tables
    means_ty (ty l m k p a) name s =
        let (e, s1) = means_kind k (head_of l m name (kind_token text k)) s in
        (labelled (label_of text lib l) m name (may_lack p) a e, with_action lib a s1)
    means_ty (of_ty l m is_set t) name s =
        let (e, s1) = means_ty t none s in
        let h = head_of l m name (of_token text is_set) in
        let many = if is_set then set_of else sequence_of in
        (
          labelled (label_of text lib l) m name false none
              (element (record h { compound = many; constructed = true }) (child e no_elements)),
          s1,
        )

    pub means_kind : Kind → Head → Tables → Element × Tables
    means_kind any_kind h s = (element (record h { compound = any }) no_elements, s)
    means_kind external_kind h s = (element (record h { constructed = true }) no_elements, s)
    means_kind bit_string h s = (element h no_elements, s)
    means_kind octet_string h s = (element h no_elements, s)
    means_kind object_identifier h s = (element h no_elements, s)
    means_kind (simple u) h s = (element h no_elements, s)
    means_kind (named n t) h s =
        (element (record h { compound = type_ref; ref = some t }) no_elements, with_ref t s)
    means_kind (choice_kind ms) h s =
        let (es, s1) = means_members ms true s in
        (element (record h { compound = choice }) (opened es), s1)
    means_kind (sequence_kind ms) h s =
        let (es, s1) = means_members ms false s in
        (element (record h { compound = sequence; constructed = true }) (opened es), s1)
    means_kind (set_kind ms) h s =
        let (es, s1) = means_members ms true s in
        (element (record h { compound = set; constructed = true }) (opened es), s1)

    pub means_members : Members → Bool → Tables → Elements × Tables
    means_members (last n t) alternates s =
        let (e, s1) = means_ty t (name_of text lib n) s in
        (child (as_member alternates e) no_elements, s1)
    means_members (more n t ms) alternates s =
        let (e, s1) = means_ty t (name_of text lib n) s in
        let (es, s2) = means_members ms alternates s1 in (child (as_member alternates e) es, s2)

  assemble-labelled :
      (l : Option (Class × ℕ)) (m : Marker) (name : Option Token) (e : Element) (lacks : Bool)
      (a : Action)
      → assemble l m name e lacks a ≡ labelled l m name lacks a e
  unfolding assemble
  assemble-labelled none unmarked name (element h es) lacks a = refl
  assemble-labelled none implicit name (element h es) lacks a = refl
  assemble-labelled none explicit name (element h es) lacks a = refl
  assemble-labelled (some (class, n)) unmarked name (element h es) lacks a = refl
  assemble-labelled (some (class, n)) implicit name (element h es) lacks a = refl
  assemble-labelled (some (class, n)) explicit name (element h es) lacks a = refl

  is_skippable-may_lack : (p : Presence) → is_skippable text lib p ≡ may_lack p
  is_skippable-may_lack required = refl
  is_skippable-may_lack optional = refl
  is_skippable-may_lack default = refl

  member-as_member :
      (alternates : Bool) (e : Element)
      → (if alternates then as_alternative e else e) ≡ as_member alternates e
  unfolding as_alternative
  member-as_member true (element h es) = refl
  member-as_member false e = refl

  first_unconditional-opened : (es : Elements) → first_unconditional es ≡ opened es
  unfolding first_unconditional unconditional
  first_unconditional-opened no_elements = refl
  first_unconditional-opened (child (element h es) rest) = refl

  insert_action-inserted :
      (strcmp : List ℕ → List ℕ → Sign) (name : List ℕ) (names : List (List ℕ))
      → insert_action strcmp name names ≡ inserted strcmp name names
  unfolding insert_action inserted
  insert_action-inserted strcmp name [] = refl
  insert_action-inserted strcmp name (a ∷ rest) =
      ap
        (λ r. elim (strcmp name a) as (λ _. List (List ℕ)) [
          | equal ↦ a ∷ rest
          | less ↦ name ∷ (a ∷ rest)
          | greater ↦ a ∷ r
        ])
        (insert_action-inserted strcmp name rest)

  note_action-with_action :
      (a : Action) (s : Tables) → note_action text lib a s ≡ with_action lib a s
  note_action-with_action none s = refl
  note_action-with_action (some a) s =
      ap (λ names. record s { actions = names })
        (insert_action-inserted (Library.strcmp lib) a (Tables.actions s))

  count_ref-with_ref : (t : ℕ) (s : Tables) → count_ref t s ≡ with_ref t s
  unfolding count_ref
  count_ref-with_ref t s = refl

  dressed :
      (l : Label) (m : Marker) (name : Option Token) (p : Presence) (a : Action)
      (r : Element × Tables)
      → ◌≡◌ {A = Element × Tables}
          (
            assemble (label_of text lib l) m name r.0 (is_skippable text lib p) a,
            note_action text lib a r.1,
          )
          (labelled (label_of text lib l) m name (may_lack p) a r.0, with_action lib a r.1)
  dressed l m name p a (e, s) =
      ap (λ b. (assemble (label_of text lib l) m name e b a, note_action text lib a s))
        (is_skippable-may_lack p)
      ∙ ap (λ e'. (e', note_action text lib a s))
          (assemble-labelled (label_of text lib l) m name e (may_lack p) a)
      ∙ ap (λ s'. (labelled (label_of text lib l) m name (may_lack p) a e, s'))
          (note_action-with_action a s)

  behind_member :
      (alternates : Bool) (ms : Members) (r : Element × Tables)
      → mean_members text lib ms alternates r.1 ≡ means_members ms alternates r.1
      → ◌≡◌ {A = Elements × Tables}
          (
            child
                (if alternates then as_alternative r.0 else r.0)
                (mean_members text lib ms alternates r.1).0,
            (mean_members text lib ms alternates r.1).1,
          )
          (
            child (as_member alternates r.0) (means_members ms alternates r.1).0,
            (means_members ms alternates r.1).1,
          )
  behind_member alternates ms (e, s) same =
      ap
        (λ e'. (
          child e' (mean_members text lib ms alternates s).0,
          (mean_members text lib ms alternates s).1,
        ))
        (member-as_member alternates e)
      ∙ ap (λ r. (child (as_member alternates e) r.0, r.1)) same

  mutual
    unfolding mean_ty mean_kind mean_members means_ty means_kind means_members

    pub mean_ty-means_ty :
        (t : Ty) (name : Option Token) (s : Tables) → mean_ty text lib t name s ≡ means_ty t name s
    mean_ty-means_ty (ty l m k p a) name s =
        ap
          (λ r. (
            assemble (label_of text lib l) m name r.0 (is_skippable text lib p) a,
            note_action text lib a r.1,
          ))
          (mean_kind-means_kind k (head_of l m name (kind_token text k)) s)
        ∙ dressed l m name p a (means_kind k (head_of l m name (kind_token text k)) s)
    mean_ty-means_ty (of_ty l m is_set t) name s =
        let h = head_of l m name (of_token text is_set) in
        ap
          (λ r. (
            assemble (label_of text lib l) m name
                (element
                  (record h {
                    compound = if is_set then set_of else sequence_of;
                    constructed = true;
                  })
                  (child r.0 no_elements))
                false none,
            r.1,
          ))
          (mean_ty-means_ty t none s)
        ∙ ap (λ e. (e, (means_ty t none s).1))
            (assemble-labelled (label_of text lib l) m name _ false none)

    mean_kind-means_kind :
        (k : Kind) (h : Head) (s : Tables) → mean_kind text lib k h s ≡ means_kind k h s
    mean_kind-means_kind any_kind h s = refl
    mean_kind-means_kind external_kind h s = refl
    mean_kind-means_kind bit_string h s = refl
    mean_kind-means_kind octet_string h s = refl
    mean_kind-means_kind object_identifier h s = refl
    mean_kind-means_kind (simple u) h s = refl
    mean_kind-means_kind (named n t) h s =
        ap (λ s'. (element (record h { compound = type_ref; ref = some t }) no_elements, s'))
          (count_ref-with_ref t s)
    mean_kind-means_kind (choice_kind ms) h s =
        ap (λ r. (element (record h { compound = choice }) (first_unconditional r.0), r.1))
          (mean_members-means_members ms true s)
        ∙ ap (λ es. (element (record h { compound = choice }) es, (means_members ms true s).1))
            (first_unconditional-opened (means_members ms true s).0)
    mean_kind-means_kind (sequence_kind ms) h s =
        ap
          (λ r. (
            element (record h { compound = sequence; constructed = true })
                (first_unconditional r.0),
            r.1,
          ))
          (mean_members-means_members ms false s)
        ∙ ap
            (λ es. (
              element (record h { compound = sequence; constructed = true }) es,
              (means_members ms false s).1,
            ))
            (first_unconditional-opened (means_members ms false s).0)
    mean_kind-means_kind (set_kind ms) h s =
        ap
          (λ r. (
            element (record h { compound = set; constructed = true }) (first_unconditional r.0),
            r.1,
          ))
          (mean_members-means_members ms true s)
        ∙ ap
            (λ es. (
              element (record h { compound = set; constructed = true }) es,
              (means_members ms true s).1,
            ))
            (first_unconditional-opened (means_members ms true s).0)

    mean_members-means_members :
        (ms : Members) (alternates : Bool) (s : Tables)
        → mean_members text lib ms alternates s ≡ means_members ms alternates s
    mean_members-means_members (last n t) alternates s =
        ap (λ r. (child (if alternates then as_alternative r.0 else r.0) no_elements, r.1))
          (mean_ty-means_ty t (name_of text lib n) s)
        ∙ ap (λ e. (child e no_elements, (means_ty t (name_of text lib n) s).1))
            (member-as_member alternates (means_ty t (name_of text lib n) s).0)
    mean_members-means_members (more n t ms) alternates s =
        ap
          (λ r.
            let rest = mean_members text lib ms alternates r.1 in
            (child (if alternates then as_alternative r.0 else r.0) rest.0, rest.1))
          (mean_ty-means_ty t (name_of text lib n) s)
        ∙ behind_member alternates ms (means_ty t (name_of text lib n) s)
            (mean_members-means_members ms alternates (means_ty t (name_of text lib n) s).1)
