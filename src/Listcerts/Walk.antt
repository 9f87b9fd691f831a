-- ===== src/Listcerts/Walk.antt =====
-- The walk of listcerts/listcerts.c over signature lists as they are laid out in a variable.
use uefi_utilities.Base.{
  ℕ, zero, suc, ◌+◌, ◌-◌, ◌*◌, ◌/◌, ◌%◌, ◌^◌, ◌<◌, ◌≡◌, refl, ap, sym, ◌∙◌, subst, arith, true,
  false, ◌&&◌, List, [], ◌∷◌, ◌++◌, ltb, leb, ◌==◌, length,
}
use native.Mathlib.Nat.{div-eq_of_lt, add-mul-div_right}
use uefi_utilities.Listcerts.{
  SignatureType, Visit, Printed, printed, division_by_zero, out_of_fuel, before, print_loop,
  print_list, print_certs, cert_count, type_of, first_cert, signature_list_size,
  signature_header_size, signature_size,
}

-- A signature list: the size of its header, and of each of its certificates with the owner's GUID,
-- and how many they are.
pub record Group : Type 0 where
  pub header : ℕ
  pub size : ℕ
  pub count : ℕ

-- The bytes that it takes, with the 28 of the EFI_SIGNATURE_LIST.
abbrev pub bytes : Group → ℕ
bytes g = 28 + Group.header g + Group.count g * Group.size g

unfoldable pub total : List Group → ℕ
total [] = 0
total (g ∷ gs) = bytes g + total gs

div-lem : (r c s : ℕ) → r < s → (r + c * s) / s ≡ c
div-lem r c s less =
    let whole : (r + c * s) / s ≡ r / s + c = add-mul-div_right r c (omega arith) in
    let none_left : r / s ≡ 0 = div-eq_of_lt less in omega (arith, whole, none_left)

module _ (byte : ℕ → ℕ) (compare_guid : ℕ → SignatureType → ℕ) (decoder : ℕ → ℕ → ℕ) where
  -- At this address stand these lists, each with its sizes in the fields, sizes of certificates that
  -- are shown, and a size in all that a UINT32 holds.
  unfoldable pub LaidOut : ℕ → List Group → Type 0
  LaidOut at [] = Unit
  LaidOut at (g ∷ gs) =
      (signature_list_size byte compare_guid decoder at ≡ bytes g)
      × (signature_header_size byte compare_guid decoder at ≡ Group.header g)
      × (signature_size byte compare_guid decoder at ≡ Group.size g)
      × (100 < Group.size g)
      × (bytes g < 2 ^ 32)
      × LaidOut (at + bytes g) gs

  -- The certificates of a list, one behind the other.
  unfoldable pub certs_of : SignatureType → (size count cert : ℕ) → List Visit
  certs_of ext size zero cert = []
  certs_of ext size (suc count) cert =
      record { ext = ext; cert = cert; buflen = size - 16 } ∷ certs_of ext size count (cert + size)

  -- The certificates of all lists in their order.
  unfoldable pub all_certs : ℕ → List Group → List Visit
  unfolding certs_of
  all_certs at [] = []
  all_certs at (g ∷ gs) =
      certs_of (type_of byte compare_guid decoder at) (Group.size g) (Group.count g)
        (at + 28 + Group.header g)
      ++ all_certs (at + bytes g) gs

  list-certs :
      (count : ℕ) (ext : SignatureType) (size cert status : ℕ)
      → 100 < size
      → (print_list byte compare_guid decoder count ext size cert status).0
        ≡ certs_of ext size count cert
  unfolding print_list certs_of
  list-certs zero ext size cert status big = refl
  list-certs (suc count) ext size cert status big =
      let shown : ltb 100 size ≡ true = ground arith in
      rw shown (
        ap (λ vs. record { ext = ext; cert = cert; buflen = size - 16 } ∷ vs)
          (list-certs count ext size (cert + size) _ big))

  count-laid :
      (list : ℕ) (g : Group)
      → signature_list_size byte compare_guid decoder list ≡ bytes g
      → signature_header_size byte compare_guid decoder list ≡ Group.header g
      → signature_size byte compare_guid decoder list ≡ Group.size g
      → 100 < Group.size g
      → bytes g < 2 ^ 32
      → cert_count byte compare_guid decoder list ≡ Group.count g
  unfolding cert_count
  count-laid list g ls hs ss big fits =
      let sum : (signature_list_size byte compare_guid decoder list
              + (2 ^ 32 - signature_header_size byte compare_guid decoder list))
            % 2 ^ 32
          ≡ 28 + Group.count g * Group.size g =
        omega (arith, ls, hs, fits) in
      ap (λ n. n / signature_size byte compare_guid decoder list) sum
      ∙ ap (λ m. (28 + Group.count g * Group.size g) / m) ss
      ∙ div-lem 28 (Group.count g) (Group.size g) (omega arith)

  -- The certificates that the loop shows, when it comes to its end.
  abbrev pub Shows : Printed → List Visit → Type 0
  Shows (printed vs status) ws = vs ≡ ws
  Shows division_by_zero ws = ⊥
  Shows out_of_fuel ws = ⊥

  Shows-before :
      (vs : List Visit) (r : Printed) (ws : List Visit)
      → Shows r ws
      → Shows (before vs r) (vs ++ ws)
  Shows-before vs (printed us status) ws e = ap (λ xs. vs ++ xs) e
  Shows-before vs division_by_zero ws e = e
  Shows-before vs out_of_fuel ws e = e

  loop-certs :
      (fuel list status : ℕ) (gs : List Group)
      → LaidOut list gs
      → length gs < fuel
      → Shows (print_loop byte compare_guid decoder fuel list (total gs) status) (all_certs list gs)
  unfolding print_loop LaidOut all_certs total
  loop-certs zero list status gs laid less = absurd (omega arith)
  loop-certs (suc fuel) list status [] laid less = refl
  loop-certs (suc fuel) list status (g ∷ gs) laid less =
      let status' =
        (print_list byte compare_guid decoder (cert_count byte compare_guid decoder list)
          (type_of byte compare_guid decoder list) (signature_size byte compare_guid decoder list)
          (first_cert byte compare_guid decoder list) status).1 in
      let rest = loop-certs fuel (list + bytes g) status' gs laid.5 (omega arith) in
      let count = count-laid list g laid.0 laid.1 laid.2 laid.3 laid.4 in
      let left : (bytes g + total gs) - bytes g ≡ total gs = omega arith in
      let on : (ltb 0 (total (g ∷ gs))
            && leb (signature_list_size byte compare_guid decoder list) (total (g ∷ gs)))
          ≡ true =
        ground (arith, laid.0) in
      let divides : (signature_size byte compare_guid decoder list == 0) ≡ false =
        ground (arith, laid.2, laid.3) in
      let ext = type_of byte compare_guid decoder list in
      let visits : (print_list byte compare_guid decoder (cert_count byte compare_guid decoder list)
            ext (signature_size byte compare_guid decoder list)
            (first_cert byte compare_guid decoder list) status).0
          ≡ certs_of ext (Group.size g) (Group.count g) (list + 28 + Group.header g) =
        ap
          (λ n.
            (print_list byte compare_guid decoder n ext
              (signature_size byte compare_guid decoder list)
              (first_cert byte compare_guid decoder list) status).0)
          count
        ∙ ap
            (λ n.
              (print_list byte compare_guid decoder (Group.count g) ext n
                (first_cert byte compare_guid decoder list) status).0)
            laid.2
        ∙ ap
            (λ n.
              (print_list byte compare_guid decoder (Group.count g) ext (Group.size g)
                (list + 28 + n) status).0)
            laid.1
        ∙ list-certs (Group.count g) ext (Group.size g) (list + 28 + Group.header g) status
            laid.3 in
      let there = λ (n : ℕ).
        print_loop byte compare_guid decoder fuel (list + n) ((bytes g + total gs) - n) status' in
      let after =
        subst (λ n. Shows (there n) (all_certs (list + bytes g) gs)) (sym laid.0)
          (subst
            (λ m.
              Shows (print_loop byte compare_guid decoder fuel (list + bytes g) m status')
                (all_certs (list + bytes g) gs))
            (sym left) rest) in
      rw (on, divides)
        (subst
          (λ vs.
            Shows (before vs (there (signature_list_size byte compare_guid decoder list)))
              (all_certs list (g ∷ gs)))
          (sym visits)
          (Shows-before (certs_of ext (Group.size g) (Group.count g) (list + 28 + Group.header g))
            (there (signature_list_size byte compare_guid decoder list))
            (all_certs (list + bytes g) gs) after))

  -- Where signature lists are laid out one behind the other, each with certificates of more than 100
  -- bytes, a size in all below 2^32 and its sizes in its fields, and the variable is as long as they
  -- are, `PrintCerts` comes to its end with fuel for more lists than they are, and hands to the decoder
  -- each certificate of each list once, in their order, with the length of its data.
  pub print_certs-all_certs :
      (fuel certs : ℕ) (gs : List Group)
      → LaidOut certs gs
      → length gs < fuel
      → Shows (print_certs byte compare_guid decoder fuel certs (total gs)) (all_certs certs gs)
  unfolding print_certs
  print_certs-all_certs fuel certs gs laid less = loop-certs fuel certs 0 gs laid less
