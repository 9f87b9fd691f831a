-- ===== src/Listcerts.antt =====
-- listcerts/listcerts.c: the walk over the signature lists of a variable.
use uefi_utilities.Base.{
  ℕ, zero, suc, ◌+◌, ◌-◌, ◌*◌, ◌/◌, ◌%◌, ◌^◌, Bool, true, false, ◌&&◌, List, [], ◌∷◌, ◌++◌, ltb,
  leb, ◌==◌, if◌then◌else◌,
}
pub mod Walk
pub mod Stuck
pub mod Labels
pub mod Actions
pub mod Main

-- `ext`, by the signature types that have a name.
pub data SignatureType : Type 0 where
  x509 pkcs7 rsa2048 unknown : SignatureType

-- A certificate that is printed: the name of its type, the address of its EFI_SIGNATURE_DATA, and the
-- length that the decoder is called with; the data stand behind the owner's GUID of 16 bytes.
pub record Visit : Type 0 where
  pub ext : SignatureType
  pub cert : ℕ
  pub buflen : ℕ

-- How the loop ends: with the certificates and the status, or in a division that C does not define.
pub data Printed : Type 0 where
  printed : List Visit → ℕ → Printed
  division_by_zero out_of_fuel : Printed

abbrev pub before : List Visit → Printed → Printed
before vs (printed ws status) = printed (vs ++ ws) status
before vs division_by_zero = division_by_zero
before vs out_of_fuel = out_of_fuel

-- The memory by its bytes, `CompareGuid` of the GUID at an address and a known one, and
-- `asn1_ber_decoder` on the bytes at an address, which prints the certificate.
module _ (byte : ℕ → ℕ) (compare_guid : ℕ → SignatureType → ℕ) (decoder : ℕ → ℕ → ℕ) where
  -- A little endian UINT32.
  unfoldable pub uint32 : ℕ → ℕ
  uint32 at =
      byte at % 256
      + byte (at + 1) % 256 * 2 ^ 8
      + byte (at + 2) % 256 * 2 ^ 16
      + byte (at + 3) % 256 * 2 ^ 24

  -- The fields of the EFI_SIGNATURE_LIST at an address.
  unfoldable pub signature_list_size : ℕ → ℕ
  unfolding uint32
  signature_list_size list = uint32 (list + 16)

  unfoldable pub signature_header_size : ℕ → ℕ
  unfolding uint32
  signature_header_size list = uint32 (list + 20)

  unfoldable pub signature_size : ℕ → ℕ
  unfolding uint32
  signature_size list = uint32 (list + 24)

  unfoldable pub type_of : ℕ → SignatureType
  type_of list =
      if compare_guid list x509 == 0
      then x509
      else if compare_guid list pkcs7 == 0
      then pkcs7
      else if compare_guid list rsa2048 == 0
      then rsa2048
      else unknown

  -- `CertCount`; the difference is one of UINT32.
  unfoldable pub cert_count : ℕ → ℕ
  unfolding signature_list_size signature_header_size signature_size
  cert_count list =
      (signature_list_size list + (2 ^ 32 - signature_header_size list))
      % 2 ^ 32
      / signature_size list

  unfoldable pub first_cert : ℕ → ℕ
  unfolding signature_header_size
  first_cert list = list + 28 + signature_header_size list

  -- The loop over the certificates of a list, from the address of one on.
  unfoldable pub print_list : (count : ℕ) → SignatureType → (size cert status : ℕ) → List Visit × ℕ
  print_list zero ext size cert status = ([], status)
  print_list (suc count) ext size cert status =
      let shown = print_list count ext size (cert + size) (decoder (cert + 16) (size - 16)) in
      let passed = print_list count ext size (cert + size) status in
      if ltb 100 size
      then (record { ext = ext; cert = cert; buflen = size - 16 } ∷ shown.0, shown.1)
      else passed

  -- The loop of `PrintCerts`, with `DataSize`.
  unfoldable pub print_loop : ℕ → (list data_size status : ℕ) → Printed
  unfolding cert_count type_of first_cert print_list signature_list_size signature_size
  print_loop zero list data_size status = out_of_fuel
  print_loop (suc fuel) list data_size status =
      let (visits, status') =
        print_list (cert_count list) (type_of list) (signature_size list) (first_cert list)
          status in
      let rest =
        print_loop fuel (list + signature_list_size list) (data_size - signature_list_size list)
          status' in
      if ltb 0 data_size && leb (signature_list_size list) data_size
      then (if signature_size list == 0 then division_by_zero else before visits rest)
      else printed [] status

  -- `PrintCerts`
  unfoldable pub print_certs : ℕ → (certs len : ℕ) → Printed
  unfolding print_loop
  print_certs fuel certs len = print_loop fuel certs len 0
