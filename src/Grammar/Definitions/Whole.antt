-- ===== src/Grammar/Definitions/Whole.antt =====
-- `build_type_list` and `parse` of listcerts/asn1_compiler.c on the tokens that spell a grammar.
use uefi_utilities.Base.{ℕ, ◌≤◌, none, List, [], ◌∷◌}
use uefi_utilities.Grammar.Tables.{TokenType, token_type_name, token_assignment}
use uefi_utilities.Grammar.Lexer.{Token}
use uefi_utilities.Grammar.Element.{Element, Tables}
use uefi_utilities.Grammar.Parser.{Library}
use uefi_utilities.Grammar.Syntax.{Ty, spelt, word, print_ty, mean_ty, Known, weight}
use uefi_utilities.Grammar.Syntax.Meaning.{means_ty}
use uefi_utilities.Grammar.Definitions.{Definition}

-- The types of a grammar with their names.
abbrev pub Grammar : Type 0
Grammar = List (List ℕ × Ty)

module _ (text : TokenType → List ℕ) where
  unfoldable pub print_grammar : Grammar → List Token
  unfolding print_ty
  print_grammar [] = []
  print_grammar ((n, t) ∷ g) =
      spelt token_type_name n ∷ word text token_assignment ∷ print_ty text t (print_grammar g)

  definitions_of : Grammar → List Definition
  definitions_of [] = []
  definitions_of ((n, t) ∷ g) = (spelt token_type_name n, print_ty text t []) ∷ definitions_of g

  module _ (lib : Library) where
    unfoldable pub mean_grammar : Grammar → Tables → List Element × Tables
    unfolding mean_ty
    mean_grammar [] s = ([], s)
    mean_grammar ((n, t) ∷ g) s =
        let (e, s1) = mean_ty text lib t none s in let (es, s2) = mean_grammar g s1 in (e ∷ es, s2)

    -- The elements that the types mean, one behind the other.
    unfoldable pub means_grammar : Grammar → Tables → List Element × Tables
    means_grammar [] s = ([], s)
    means_grammar ((n, t) ∷ g) s =
        let (e, s1) = means_ty text lib t none s in
        let (es, s2) = means_grammar g s1 in (e ∷ es, s2)

    -- The names are in the index, the numbers of labels are numbers, and the fuel is for each type.
    unfoldable pub AllKnown : ℕ → Grammar → Type 0
    AllKnown fuel [] = Unit
    AllKnown fuel ((n, t) ∷ g) = Known text lib t × (weight t ≤ fuel) × AllKnown fuel g
