-- ===== src/Tests/Ber.antt =====
-- The decoder of listcerts/asn1_ber_decoder.c at concrete inputs.
use uefi_utilities.Base.{ℕ, zero, suc, ◌+◌, ◌≡◌, ◌≢◌, refl, inl, none, List, [], ◌∷◌, arith}
use uefi_utilities.Ber.Run.{ok, data_fault}
use uefi_utilities.Ber.Ends.{Ends}
use uefi_utilities.Ber.Calls.{Actions}
use uefi_utilities.Ber.Indefinite.{find_indefinite_length}
use uefi_utilities.Ber.Indefinite.Element.{Elements, definite, nil, cons, IsLength}
use uefi_utilities.Ber.Indefinite.Bounds.{Closes, find_indefinite_length-Ends}
use uefi_utilities.Ber.Indefinite.Scan.{find_indefinite_length-Elements}
use uefi_utilities.Ber.Decoder.Exec.{asn1_ber_decoder}
use uefi_utilities.Ber.Decoder.Safety.{asn1_ber_decoder-ne-data_fault}

-- INTEGER 5 and the end of contents.
abbrev integer_eoc : List ℕ
integer_eoc = 2 ∷ 1 ∷ 5 ∷ 0 ∷ 0 ∷ []

find_indefinite_length-Ends_example :
    Ends
      (λ r. (r.0 ≡ 0 + r.1) × Closes integer_eoc 5 (omega arith) 0 r.0)
      (find_indefinite_length integer_eoc 5 0)
find_indefinite_length-Ends_example = find_indefinite_length-Ends integer_eoc 5 (omega arith) 0

integer_Elements : Elements (2 ∷ 1 ∷ 5 ∷ [])
integer_Elements =
    cons (2 ∷ 1 ∷ 5 ∷ []) []
      (definite 2 [] (1 ∷ []) (5 ∷ []) (ground arith, inl (ground arith, refl))
        (IsLength.short (omega arith)))
      nil

find_indefinite_length-Elements_example : find_indefinite_length integer_eoc 5 0 ≡ ok (5, 5)
find_indefinite_length-Elements_example =
    find_indefinite_length-Elements integer_eoc 5 0 (2 ∷ 1 ∷ 5 ∷ []) (omega arith) integer_Elements
      (refl, (refl, (refl, (refl, (refl, tt))))) (omega arith)

abbrev zeros : ℕ → List ℕ
zeros zero = []
zeros (suc n) = 0 ∷ zeros n

-- A machine that takes one INTEGER and calls action 0, on INTEGER 5 with spare bytes behind it.
abbrev integer_machine : List ℕ
integer_machine = 0x02 ∷ 2 ∷ 0 ∷ 0x1c ∷ []

abbrev accept : Actions
accept h c = none

asn1_ber_decoder-ne-data_fault_example :
    (asn1_ber_decoder 3 accept integer_machine (2 ∷ 1 ∷ 5 ∷ zeros 1270) 3 []).1 ≢ data_fault
asn1_ber_decoder-ne-data_fault_example =
    asn1_ber_decoder-ne-data_fault (2 ∷ 1 ∷ 5 ∷ zeros 1270) 3 (omega arith) (omega arith) 3 accept
      integer_machine
