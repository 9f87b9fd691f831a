-- ===== src/Grammar/Compare.antt =====
-- When `directive_compare` of listcerts/asn1_compiler.c finds a directive, and how it orders a name
-- that begins with another.
use uefi_utilities.Base.{
  ℕ, zero, suc, ◌≡◌, ◌↔◌, refl, sym, ap, ◌∙◌, List, [], ◌∷◌, ◌++◌, arith, ltb, if◌then◌else◌,
  length-append, subst, length, take,
}
use uefi_utilities.Grammar.Directives.{
  Sign, less, equal, greater, CLib, directive_compare, compare_lengths, compare_bytes_first,
}

take_all : (xs : List ℕ) (n : ℕ) → n ≡ length xs → take n xs ≡ xs
take_all [] zero e = refl
take_all [] (suc n) e = refl
take_all (x ∷ xs) zero e = absurd (omega arith)
take_all (x ∷ xs) (suc n) e = ap (λ zs. x ∷ zs) (take_all xs n (omega arith))

take_front : (xs ys : List ℕ) → take (length xs) (xs ++ ys) ≡ xs
take_front [] ys = refl
take_front (x ∷ xs) ys = ap (λ zs. x ∷ zs) (take_front xs ys)

compare_lengths-equal : (c : CLib) (m n : ℕ) → (compare_lengths c m n ≡ equal) ↔ (m ≡ n)
unfolding compare_lengths
compare_lengths-equal c m n = ground arith

compare_bytes_first-equal :
    (c : CLib) (sign : Sign) (m n : ℕ)
    → (compare_bytes_first c sign m n ≡ equal) ↔ ((sign ≡ equal) × (m ≡ n))
unfolding compare_bytes_first
compare_bytes_first-equal c less m n = ground arith
compare_bytes_first-equal c equal m n = ground (arith, compare_lengths-equal c m n)
compare_bytes_first-equal c greater m n = ground arith

abbrev clen_of : List ℕ → List ℕ → ℕ
clen_of token dir = if ltb (length dir) (length token) then length dir else length token

clen_same :
    (token dir : List ℕ)
    → length dir ≡ length token
    → (clen_of token dir ≡ length token) × (clen_of token dir ≡ length dir)
clen_same token dir e = ground arith

-- The comparison is equal exactly when the token is the directive.
pub directive_compare-equal :
    (c : CLib) (token dir : List ℕ) → (directive_compare c token dir ≡ equal) ↔ (token ≡ dir)
unfolding directive_compare
directive_compare-equal c token dir = (found, is_found)
  where
    n : ℕ
    n = clen_of token dir

    found : directive_compare c token dir ≡ equal → token ≡ dir
    found h =
        let (same, size) = (compare_bytes_first-equal c _ _ _).0 h in
        let (n_token, n_dir) = clen_same token dir size in
        sym (take_all token _ n_token)
        ∙ (CLib.memcmp_equal c (take (clen_of token dir) token) (take (clen_of token dir) dir) (
              ap length (take_all token _ n_token)
              ∙ sym size
              ∙ sym (ap length (take_all dir _ n_dir)))).0
            same
        ∙ take_all dir _ n_dir

    is_found : token ≡ dir → directive_compare c token dir ≡ equal
    is_found e =
        let bytes = ap (take (clen_of token dir)) e in
        (compare_bytes_first-equal c _ _ _).1
          ((CLib.memcmp_equal c _ _ (ap length bytes)).1 bytes, sym (ap length e))

compare_common :
    (c : CLib) (token dir : List ℕ)
    → take (clen_of token dir) token ≡ take (clen_of token dir) dir
    → directive_compare c token dir ≡ compare_lengths c (length dir) (length token)
unfolding directive_compare compare_bytes_first
compare_common c token dir e = rw ((CLib.memcmp_equal c _ _ (ap length e)).1 e) refl

prefix_same : (name rest : List ℕ) (k : ℕ) → k ≡ length name → take k name ≡ take k (name ++ rest)
prefix_same name rest k e =
    subst (λ n. take n name ≡ take n (name ++ rest)) (sym e)
      (take_all name _ refl ∙ sym (take_front name rest))

clen_of_prefix :
    (name : List ℕ) (x : ℕ) (more : List ℕ)
    → (clen_of name (name ++ x ∷ more) ≡ length name)
      × (clen_of (name ++ x ∷ more) name ≡ length name)
clen_of_prefix name x more = ground (arith, length-append name (x ∷ more))

-- When a name begins with another, the comparison is the wrong way round: it is greater when
-- the token is the shorter one, and less when the token is the longer one.
pub directive_compare-prefix :
    (c : CLib) (name : List ℕ) (x : ℕ) (more : List ℕ)
    → (directive_compare c name (name ++ x ∷ more) ≡ greater)
      × (directive_compare c (name ++ x ∷ more) name ≡ less)
unfolding compare_lengths
directive_compare-prefix c name x more =
    let (shorter, longer) = clen_of_prefix name x more in
    ground (
      arith,
      length-append name (x ∷ more),
      compare_common c name (name ++ x ∷ more) (prefix_same name _ _ shorter),
      compare_common c (name ++ x ∷ more) name (sym (prefix_same name _ _ longer)),
    )
