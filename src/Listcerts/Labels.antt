-- ===== src/Listcerts/Labels.antt =====
-- The names that listcerts/listcerts.c prints for the object identifiers that it knows.
use uefi_utilities.Base.{Option, none, some, [], ◌∷◌}
use uefi_utilities.Uefi.{Text}
use uefi_utilities.Oid.Registry.{Oid}

-- Algorithms, attribute types and extensions, by the comparisons with `oid` in `do_algorithm`,
-- `do_attribute_type` and `do_extension_id`.
unfoldable pub algorithm_label : Oid → Option Text
algorithm_label Oid.id_dsa_with_sha1 = some (
    b'i' ∷ b'd' ∷ b'_' ∷ b'd' ∷ b's' ∷ b'a' ∷ b'_' ∷ b'w' ∷ b'i' ∷ b't' ∷ b'h' ∷ b'_' ∷ b's' ∷ b'h'
    ∷ b'a' ∷ b'1' ∷ [])
algorithm_label Oid.id_dsa = some (b'i' ∷ b'd' ∷ b'_' ∷ b'd' ∷ b's' ∷ b'a' ∷ [])
algorithm_label Oid.id_ecdsa_with_sha1 = some (
    b'i' ∷ b'd' ∷ b'_' ∷ b'e' ∷ b'c' ∷ b'd' ∷ b's' ∷ b'a' ∷ b'_' ∷ b'w' ∷ b'i' ∷ b't' ∷ b'h' ∷ b'_'
    ∷ b's' ∷ b'h' ∷ b'a' ∷ b'1' ∷ [])
algorithm_label Oid.id_ec_public_key = some (
    b'i' ∷ b'd' ∷ b'_' ∷ b'e' ∷ b'c' ∷ b'P' ∷ b'u' ∷ b'b' ∷ b'l' ∷ b'i' ∷ b'c' ∷ b'K' ∷ b'e' ∷ b'y'
    ∷ [])
algorithm_label Oid.rsa_encryption =
    some (
      b'r' ∷ b's' ∷ b'a' ∷ b'E' ∷ b'n' ∷ b'c' ∷ b'r' ∷ b'y' ∷ b'p' ∷ b't' ∷ b'i' ∷ b'o' ∷ b'n' ∷ [])
algorithm_label Oid.md2_with_rsa_encryption = some (
    b'm' ∷ b'd' ∷ b'2' ∷ b'W' ∷ b'i' ∷ b't' ∷ b'h' ∷ b'R' ∷ b'S' ∷ b'A' ∷ b'E' ∷ b'n' ∷ b'c' ∷ b'r'
    ∷ b'y' ∷ b'p' ∷ b't' ∷ b'i' ∷ b'o' ∷ b'n' ∷ [])
algorithm_label Oid.md3_with_rsa_encryption = some (
    b'm' ∷ b'd' ∷ b'3' ∷ b'W' ∷ b'i' ∷ b't' ∷ b'h' ∷ b'R' ∷ b'S' ∷ b'A' ∷ b'E' ∷ b'n' ∷ b'c' ∷ b'r'
    ∷ b'y' ∷ b'p' ∷ b't' ∷ b'i' ∷ b'o' ∷ b'n' ∷ [])
algorithm_label Oid.md4_with_rsa_encryption = some (
    b'm' ∷ b'd' ∷ b'4' ∷ b'W' ∷ b'i' ∷ b't' ∷ b'h' ∷ b'R' ∷ b'S' ∷ b'A' ∷ b'E' ∷ b'n' ∷ b'c' ∷ b'r'
    ∷ b'y' ∷ b'p' ∷ b't' ∷ b'i' ∷ b'o' ∷ b'n' ∷ [])
algorithm_label Oid.sha1_with_rsa_encryption = some (
    b's' ∷ b'h' ∷ b'a' ∷ b'1' ∷ b'W' ∷ b'i' ∷ b't' ∷ b'h' ∷ b'R' ∷ b'S' ∷ b'A' ∷ b'E' ∷ b'n' ∷ b'c'
    ∷ b'r' ∷ b'y' ∷ b'p' ∷ b't' ∷ b'i' ∷ b'o' ∷ b'n' ∷ [])
algorithm_label Oid.sha256_with_rsa_encryption = some (
    b's' ∷ b'h' ∷ b'a' ∷ b'2' ∷ b'5' ∷ b'6' ∷ b'W' ∷ b'i' ∷ b't' ∷ b'h' ∷ b'R' ∷ b'S' ∷ b'A' ∷ b'E'
    ∷ b'n' ∷ b'c' ∷ b'r' ∷ b'y' ∷ b'p' ∷ b't' ∷ b'i' ∷ b'o' ∷ b'n' ∷ [])
algorithm_label Oid.sha384_with_rsa_encryption = some (
    b's' ∷ b'h' ∷ b'a' ∷ b'3' ∷ b'8' ∷ b'4' ∷ b'W' ∷ b'i' ∷ b't' ∷ b'h' ∷ b'R' ∷ b'S' ∷ b'A' ∷ b'E'
    ∷ b'n' ∷ b'c' ∷ b'r' ∷ b'y' ∷ b'p' ∷ b't' ∷ b'i' ∷ b'o' ∷ b'n' ∷ [])
algorithm_label Oid.sha512_with_rsa_encryption = some (
    b's' ∷ b'h' ∷ b'a' ∷ b'5' ∷ b'1' ∷ b'2' ∷ b'W' ∷ b'i' ∷ b't' ∷ b'h' ∷ b'R' ∷ b'S' ∷ b'A' ∷ b'E'
    ∷ b'n' ∷ b'c' ∷ b'r' ∷ b'y' ∷ b'p' ∷ b't' ∷ b'i' ∷ b'o' ∷ b'n' ∷ [])
algorithm_label Oid.sha224_with_rsa_encryption = some (
    b's' ∷ b'h' ∷ b'a' ∷ b'2' ∷ b'2' ∷ b'4' ∷ b'W' ∷ b'i' ∷ b't' ∷ b'h' ∷ b'R' ∷ b'S' ∷ b'A' ∷ b'E'
    ∷ b'n' ∷ b'c' ∷ b'r' ∷ b'y' ∷ b'p' ∷ b't' ∷ b'i' ∷ b'o' ∷ b'n' ∷ [])
algorithm_label _ = none

unfoldable pub attribute_label : Oid → Option Text
attribute_label Oid.country_name = some (32 ∷ b'C' ∷ b'=' ∷ [])
attribute_label Oid.state_or_province_name = some (32 ∷ b'S' ∷ b'T' ∷ b'=' ∷ [])
attribute_label Oid.locality = some (32 ∷ b'L' ∷ b'=' ∷ [])
attribute_label Oid.organization_name = some (32 ∷ b'O' ∷ b'=' ∷ [])
attribute_label Oid.common_name = some (32 ∷ b'C' ∷ b'N' ∷ b'=' ∷ [])
attribute_label _ = none

unfoldable pub extension_label : Oid → Option Text
extension_label Oid.subject_key_identifier = some (
    32 ∷ b'S' ∷ b'u' ∷ b'b' ∷ b'j' ∷ b'e' ∷ b'c' ∷ b't' ∷ b'K' ∷ b'e' ∷ b'y' ∷ b'I' ∷ b'd' ∷ b'e'
    ∷ b'n' ∷ b't' ∷ b'i' ∷ b'f' ∷ b'i' ∷ b'e' ∷ b'r' ∷ [])
extension_label Oid.key_usage =
    some (32 ∷ b'K' ∷ b'e' ∷ b'y' ∷ b'U' ∷ b's' ∷ b'a' ∷ b'g' ∷ b'e' ∷ [])
extension_label Oid.subject_alt_name = some (
    32 ∷ b'S' ∷ b'u' ∷ b'b' ∷ b'j' ∷ b'e' ∷ b'c' ∷ b't' ∷ b'A' ∷ b'l' ∷ b't' ∷ b'N' ∷ b'a' ∷ b'm'
    ∷ b'e' ∷ [])
extension_label Oid.issuer_alt_name = some (
    32 ∷ b'I' ∷ b's' ∷ b's' ∷ b'u' ∷ b'e' ∷ b'r' ∷ b'A' ∷ b'l' ∷ b't' ∷ b'N' ∷ b'a' ∷ b'm' ∷ b'e'
    ∷ [])
extension_label Oid.basic_constraints = some (
    32 ∷ b'B' ∷ b'a' ∷ b's' ∷ b'i' ∷ b'c' ∷ b'C' ∷ b'o' ∷ b'n' ∷ b's' ∷ b't' ∷ b'r' ∷ b'a' ∷ b'i'
    ∷ b'n' ∷ b't' ∷ b's' ∷ [])
extension_label Oid.crl_distribution_points = some (
    32 ∷ b'C' ∷ b'r' ∷ b'l' ∷ b'D' ∷ b'i' ∷ b's' ∷ b't' ∷ b'r' ∷ b'i' ∷ b'b' ∷ b'u' ∷ b't' ∷ b'i'
    ∷ b'o' ∷ b'n' ∷ b'P' ∷ b'o' ∷ b'i' ∷ b'n' ∷ b't' ∷ b's' ∷ [])
extension_label Oid.cert_auth_info_access = some (
    32 ∷ b'C' ∷ b'e' ∷ b'r' ∷ b't' ∷ b'A' ∷ b'u' ∷ b't' ∷ b'h' ∷ b'I' ∷ b'n' ∷ b'f' ∷ b'o' ∷ b'A'
    ∷ b'c' ∷ b'c' ∷ b'e' ∷ b's' ∷ b's' ∷ [])
extension_label Oid.cert_policies =
    some
      (32 ∷ b'C' ∷ b'e' ∷ b'r' ∷ b't' ∷ b'P' ∷ b'o' ∷ b'l' ∷ b'i' ∷ b'c' ∷ b'i' ∷ b'e' ∷ b's' ∷ [])
extension_label Oid.authority_key_identifier = some (
    32 ∷ b'A' ∷ b'u' ∷ b't' ∷ b'h' ∷ b'o' ∷ b'r' ∷ b'i' ∷ b't' ∷ b'y' ∷ b'K' ∷ b'e' ∷ b'y' ∷ b'I'
    ∷ b'd' ∷ b'e' ∷ b'n' ∷ b't' ∷ b'i' ∷ b'f' ∷ b'i' ∷ b'e' ∷ b'r' ∷ [])
extension_label Oid.ext_key_usage =
    some (32 ∷ b'E' ∷ b'x' ∷ b't' ∷ b'K' ∷ b'e' ∷ b'y' ∷ b'U' ∷ b's' ∷ b'a' ∷ b'g' ∷ b'e' ∷ [])
extension_label Oid.ms_enroll_certtype_extension = some (
    32 ∷ b'm' ∷ b's' ∷ b'E' ∷ b'n' ∷ b'r' ∷ b'o' ∷ b'l' ∷ b'l' ∷ b'C' ∷ b'e' ∷ b'r' ∷ b't' ∷ b'T'
    ∷ b'y' ∷ b'p' ∷ b'e' ∷ b'E' ∷ b'x' ∷ b't' ∷ b'e' ∷ b'n' ∷ b's' ∷ b'i' ∷ b'o' ∷ b'n' ∷ [])
extension_label Oid.ms_certsrv_ca_version = some (
    32 ∷ b'm' ∷ b's' ∷ b'C' ∷ b'e' ∷ b'r' ∷ b't' ∷ b's' ∷ b'r' ∷ b'v' ∷ b'C' ∷ b'A' ∷ b'V' ∷ b'e'
    ∷ b'r' ∷ b's' ∷ b'i' ∷ b'o' ∷ b'n' ∷ [])
extension_label Oid.ms_certsrv_previous_cert_hash = some (
    32 ∷ b'm' ∷ b's' ∷ b'C' ∷ b'e' ∷ b'r' ∷ b't' ∷ b's' ∷ b'r' ∷ b'v' ∷ b'P' ∷ b'r' ∷ b'e' ∷ b'v'
    ∷ b'i' ∷ b'o' ∷ b'u' ∷ b's' ∷ b'C' ∷ b'e' ∷ b'r' ∷ b't' ∷ b'H' ∷ b'a' ∷ b's' ∷ b'h' ∷ [])
extension_label _ = none
