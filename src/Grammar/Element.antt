-- ===== src/Grammar/Element.antt =====
-- The parse tree of listcerts/asn1_compiler.c: `struct element` with the elements below it. The links
-- `list_next` and `render_next` and the fields that only the renderer sets are not part of it.
use uefi_utilities.Base.{ℕ, Bool, true, false, Option, List, ◌==◌, if◌then◌else◌, ◌+◌}
use uefi_utilities.Grammar.Lexer.{Token}

-- `enum compound`
pub data Compound : Type 0 where
  not_compound set set_of sequence sequence_of choice any type_ref tag_override : Compound

-- `enum asn1_class`
pub data Class : Type 0 where
  universal application context private : Class

-- The members of an element. `constructed` is the method ASN1_CONS, the last four are bits of
-- `flags`, and `ref` is the number of the type that the `type` token was resolved to.
pub record Head : Type 0 where
  pub name : Option Token
  pub action : Option (List ℕ)
  pub compound : Compound
  pub class : Class
  pub constructed : Bool
  pub tag : ℕ
  pub ref : Option ℕ
  pub implicit : Bool
  pub explicit : Bool
  pub skippable : Bool
  pub conditional : Bool

mutual
  pub data Element : Type 0 where
    element : Head → Elements → Element

  -- A list by `next`.
  pub data Elements : Type 0 where
    no_elements : Elements
    child : Element → Elements → Elements

-- `element->flags |= ELEMENT_SKIPPABLE | ELEMENT_CONDITIONAL`
unfoldable pub as_alternative : Element → Element
as_alternative (element h es) = element (record h { skippable = true; conditional = true }) es

unfoldable pub unconditional : Element → Element
unconditional (element h es) = element (record h { conditional = false }) es

-- `children->flags &= ~ELEMENT_CONDITIONAL`
unfoldable pub first_unconditional : Elements → Elements
unfolding unconditional
first_unconditional no_elements = no_elements
first_unconditional (child e es) = child (unconditional e) es

-- What parsing changes beside the cursor: `action_list` by the names, and `ref_count` of the types.
pub record Tables : Type 0 where
  pub actions : List (List ℕ)
  pub ref_count : ℕ → ℕ

unfoldable pub count_ref : ℕ → Tables → Tables
count_ref t s = record s { ref_count = λ u. if u == t then s.ref_count u + 1 else s.ref_count u }
