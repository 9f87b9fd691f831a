-- ===== src/Tests/Grammar.antt =====
-- The tokeniser of listcerts/asn1_compiler.c at concrete inputs, with concrete library functions.
use uefi_utilities.Base.{
  ℕ, suc, ◌≡◌, ◌↔◌, refl, sym, ap, ◌∙◌, Bool, ◌&&◌, ◌||◌, Option, none, some, List, [], ◌∷◌, arith,
  ltb, leb, ◌==◌, if◌then◌else◌, get_elem?,
}
use uefi_utilities.Grammar.Tables.{TokenType}
use uefi_utilities.Grammar.Directives.{Sign, less, equal, greater, CLib, directive_compare}
use uefi_utilities.Grammar.Compare.{directive_compare-prefix}

abbrev pub compare_texts : List ℕ → List ℕ → Sign
compare_texts [] [] = equal
compare_texts [] (y ∷ ys) = less
compare_texts (x ∷ xs) [] = greater
compare_texts (x ∷ xs) (y ∷ ys) =
    let rest = compare_texts xs ys in if x == y then rest else if ltb x y then less else greater

pub compare_texts-equal : (a b : List ℕ) → (compare_texts a b ≡ equal) ↔ (a ≡ b)
compare_texts-equal [] [] = ground arith
compare_texts-equal [] (y ∷ ys) = ground arith
compare_texts-equal (x ∷ xs) [] = ground arith
compare_texts-equal (x ∷ xs) (y ∷ ys) = ground (arith, compare_texts-equal xs ys)

abbrev pub Entry : Type 0
Entry = TokenType × List ℕ

abbrev pub choose : Sign → Entry → Option Entry → Option Entry
choose equal x rest = some x
choose less x rest = rest
choose greater x rest = rest

abbrev pub search_table : (Entry → Sign) → List Entry → Option Entry
search_table cmp [] = none
search_table cmp (x ∷ xs) = choose (cmp x) x (search_table cmp xs)

abbrev pub Found : (Entry → Sign) → List Entry → Entry → Type 0
Found cmp table x = (cmp x ≡ equal) × ((i : ℕ) × (get_elem? table i ≡ some x))

choose-Found :
    (cmp : Entry → Sign) (y : Entry) (ys : List Entry) (x : Entry) (s : Sign)
    → cmp y ≡ s
    → (search_table cmp ys ≡ some x → Found cmp ys x)
    → choose s y (search_table cmp ys) ≡ some x
    → Found cmp (y ∷ ys) x
choose-Found cmp y ys x equal e ih h = let same : y ≡ x = cc in (sym (ap cmp same) ∙ e, (0, h))
choose-Found cmp y ys x less e ih h = let r = ih h in (r.0, (suc r.1.0, r.1.1))
choose-Found cmp y ys x greater e ih h = let r = ih h in (r.0, (suc r.1.0, r.1.1))

pub search_table-Found :
    (cmp : Entry → Sign) (table : List Entry) (x : Entry)
    → search_table cmp table ≡ some x
    → Found cmp table x
search_table-Found cmp [] x h = absurd (ground arith)
search_table-Found cmp (y ∷ ys) x h =
    choose-Found cmp y ys x (cmp y) refl (search_table-Found cmp ys x) h

abbrev pub between : ℕ → ℕ → ℕ → Bool
between low high p = leb low p && leb p high

abbrev pub is_letter : ℕ → Bool
is_letter p = between b'A' b'Z' p || between b'a' b'z' p

abbrev pub ascii : CLib
ascii = record {
  memcmp = compare_texts;
  memcmp_equal = λ a b e. compare_texts-equal a b;
  bsearch = search_table;
  bsearch_found = search_table-Found;
  isspace = λ p. p == 32;
  isalpha = is_letter;
  isalnum = λ p. is_letter p || between b'0' b'9' p;
  islower = between b'a' b'z';
  isdigit = between b'0' b'9';
}

abbrev text_of : List ℕ
text_of = b'O' ∷ b'F' ∷ []

directive_compare-prefix_example :
    (directive_compare ascii (b'B' ∷ []) (b'B' ∷ b'Y' ∷ []) ≡ greater)
    × (directive_compare ascii (b'B' ∷ b'Y' ∷ []) (b'B' ∷ []) ≡ less)
directive_compare-prefix_example = directive_compare-prefix ascii (b'B' ∷ []) b'Y' []
