-- ===== src/Oid/Registry.antt =====
-- The object identifiers of listcerts: `enum OID` and the dotted form that its comments give
-- (listcerts/oid_registry.h), and the tables of listcerts/oid_registry_data.h.
use uefi_utilities.Base.{ℕ}

-- `enum OID` without its end mark OID__NR.
pub data Oid : Type 0 where
  id_dsa_with_sha1 id_dsa id_ecdsa_with_sha1 id_ec_public_key rsa_encryption : Oid
  md2_with_rsa_encryption md3_with_rsa_encryption md4_with_rsa_encryption : Oid
  sha1_with_rsa_encryption sha256_with_rsa_encryption sha384_with_rsa_encryption : Oid
  sha512_with_rsa_encryption sha224_with_rsa_encryption pkcs7_data signed_data email_address : Oid
  content_type message_digest signing_time smime_capabilites smime_authenticated_attrs : Oid
  md2 md4 md5 ms_outlook_express ms_enroll_certtype_extension ms_certsrv_ca_version : Oid
  ms_certsrv_previous_cert_hash cert_auth_info_access sha1 common_name surname : Oid
  country_name locality state_or_province_name organization_name organization_unit_name : Oid
  title description name given_name initials generational_qualifier : Oid
  subject_key_identifier key_usage subject_alt_name issuer_alt_name basic_constraints : Oid
  crl_distribution_points cert_policies authority_key_identifier ext_key_usage : Oid

-- The value of an enumerator.
unfoldable pub index : Oid → ℕ
index id_dsa_with_sha1 = 0
index id_dsa = 1
index id_ecdsa_with_sha1 = 2
index id_ec_public_key = 3
index rsa_encryption = 4
index md2_with_rsa_encryption = 5
index md3_with_rsa_encryption = 6
index md4_with_rsa_encryption = 7
index sha1_with_rsa_encryption = 8
index sha256_with_rsa_encryption = 9
index sha384_with_rsa_encryption = 10
index sha512_with_rsa_encryption = 11
index sha224_with_rsa_encryption = 12
index pkcs7_data = 13
index signed_data = 14
index email_address = 15
index content_type = 16
index message_digest = 17
index signing_time = 18
index smime_capabilites = 19
index smime_authenticated_attrs = 20
index md2 = 21
index md4 = 22
index md5 = 23
index ms_outlook_express = 24
index ms_enroll_certtype_extension = 25
index ms_certsrv_ca_version = 26
index ms_certsrv_previous_cert_hash = 27
index cert_auth_info_access = 28
index sha1 = 29
index common_name = 30
index surname = 31
index country_name = 32
index locality = 33
index state_or_province_name = 34
index organization_name = 35
index organization_unit_name = 36
index title = 37
index description = 38
index name = 39
index given_name = 40
index initials = 41
index generational_qualifier = 42
index subject_key_identifier = 43
index key_usage = 44
index subject_alt_name = 45
index issuer_alt_name = 46
index basic_constraints = 47
index crl_distribution_points = 48
index cert_policies = 49
index authority_key_identifier = 50
index ext_key_usage = 51

-- OID__NR
abbrev pub nr : ℕ
nr = 52
