-- ===== src/Oid/Contents.antt =====
-- The tables hold the identifiers of the comments, one by one.
use uefi_utilities.Base.{ℕ, ◌-◌, ◌+◌, ◌≡◌, refl, List, get_or, take, drop}
use uefi_utilities.Oid.Registry.{Oid, index}
use uefi_utilities.Oid.Tables.{oid_index, oid_data}
use uefi_utilities.Oid.Dotted.{arcs, encode}
use uefi_utilities.Oid.Lookup.{lookup_oid, hit}

-- `oid_data[oid_index[oid]]` up to the next identifier.
unfoldable pub bytes_of : Oid → List ℕ
bytes_of oid =
    let base = get_or oid_index (index oid) 0 in
    take (get_or oid_index (index oid + 1) 0 - base) (drop base oid_data)

pub take-drop-bytes_of :
    (oid : Oid) (base len : ℕ)
    → base ≡ get_or oid_index (index oid) 0
    → len ≡ get_or oid_index (index oid + 1) 0 - base
    → take len (drop base oid_data) ≡ bytes_of oid
unfolding bytes_of
take-drop-bytes_of oid base len e e' = rw (e', e)

-- The bytes that the tables hold for an identifier are the encoding of its dotted form.
pub bytes_of-encode : (oid : Oid) → bytes_of oid ≡ encode (arcs oid)
unfolding bytes_of index oid_index oid_data encode arcs
bytes_of-encode Oid.id_dsa_with_sha1 = refl
bytes_of-encode Oid.id_dsa = refl
bytes_of-encode Oid.id_ecdsa_with_sha1 = refl
bytes_of-encode Oid.id_ec_public_key = refl
bytes_of-encode Oid.rsa_encryption = refl
bytes_of-encode Oid.md2_with_rsa_encryption = refl
bytes_of-encode Oid.md3_with_rsa_encryption = refl
bytes_of-encode Oid.md4_with_rsa_encryption = refl
bytes_of-encode Oid.sha1_with_rsa_encryption = refl
bytes_of-encode Oid.sha256_with_rsa_encryption = refl
bytes_of-encode Oid.sha384_with_rsa_encryption = refl
bytes_of-encode Oid.sha512_with_rsa_encryption = refl
bytes_of-encode Oid.sha224_with_rsa_encryption = refl
bytes_of-encode Oid.pkcs7_data = refl
bytes_of-encode Oid.signed_data = refl
bytes_of-encode Oid.email_address = refl
bytes_of-encode Oid.content_type = refl
bytes_of-encode Oid.message_digest = refl
bytes_of-encode Oid.signing_time = refl
bytes_of-encode Oid.smime_capabilites = refl
bytes_of-encode Oid.smime_authenticated_attrs = refl
bytes_of-encode Oid.md2 = refl
bytes_of-encode Oid.md4 = refl
bytes_of-encode Oid.md5 = refl
bytes_of-encode Oid.ms_outlook_express = refl
bytes_of-encode Oid.ms_enroll_certtype_extension = refl
bytes_of-encode Oid.ms_certsrv_ca_version = refl
bytes_of-encode Oid.ms_certsrv_previous_cert_hash = refl
bytes_of-encode Oid.cert_auth_info_access = refl
bytes_of-encode Oid.sha1 = refl
bytes_of-encode Oid.common_name = refl
bytes_of-encode Oid.surname = refl
bytes_of-encode Oid.country_name = refl
bytes_of-encode Oid.locality = refl
bytes_of-encode Oid.state_or_province_name = refl
bytes_of-encode Oid.organization_name = refl
bytes_of-encode Oid.organization_unit_name = refl
bytes_of-encode Oid.title = refl
bytes_of-encode Oid.description = refl
bytes_of-encode Oid.name = refl
bytes_of-encode Oid.given_name = refl
bytes_of-encode Oid.initials = refl
bytes_of-encode Oid.generational_qualifier = refl
bytes_of-encode Oid.subject_key_identifier = refl
bytes_of-encode Oid.key_usage = refl
bytes_of-encode Oid.subject_alt_name = refl
bytes_of-encode Oid.issuer_alt_name = refl
bytes_of-encode Oid.basic_constraints = refl
bytes_of-encode Oid.crl_distribution_points = refl
bytes_of-encode Oid.cert_policies = refl
bytes_of-encode Oid.authority_key_identifier = refl
bytes_of-encode Oid.ext_key_usage = refl

-- The search finds every identifier of the registry.
pub lookup_oid-encode : (oid : Oid) → lookup_oid (encode (arcs oid)) ≡ hit oid
unfolding lookup_oid encode arcs
lookup_oid-encode Oid.id_dsa_with_sha1 = refl
lookup_oid-encode Oid.id_dsa = refl
lookup_oid-encode Oid.id_ecdsa_with_sha1 = refl
lookup_oid-encode Oid.id_ec_public_key = refl
lookup_oid-encode Oid.rsa_encryption = refl
lookup_oid-encode Oid.md2_with_rsa_encryption = refl
lookup_oid-encode Oid.md3_with_rsa_encryption = refl
lookup_oid-encode Oid.md4_with_rsa_encryption = refl
lookup_oid-encode Oid.sha1_with_rsa_encryption = refl
lookup_oid-encode Oid.sha256_with_rsa_encryption = refl
lookup_oid-encode Oid.sha384_with_rsa_encryption = refl
lookup_oid-encode Oid.sha512_with_rsa_encryption = refl
lookup_oid-encode Oid.sha224_with_rsa_encryption = refl
lookup_oid-encode Oid.pkcs7_data = refl
lookup_oid-encode Oid.signed_data = refl
lookup_oid-encode Oid.email_address = refl
lookup_oid-encode Oid.content_type = refl
lookup_oid-encode Oid.message_digest = refl
lookup_oid-encode Oid.signing_time = refl
lookup_oid-encode Oid.smime_capabilites = refl
lookup_oid-encode Oid.smime_authenticated_attrs = refl
lookup_oid-encode Oid.md2 = refl
lookup_oid-encode Oid.md4 = refl
lookup_oid-encode Oid.md5 = refl
lookup_oid-encode Oid.ms_outlook_express = refl
lookup_oid-encode Oid.ms_enroll_certtype_extension = refl
lookup_oid-encode Oid.ms_certsrv_ca_version = refl
lookup_oid-encode Oid.ms_certsrv_previous_cert_hash = refl
lookup_oid-encode Oid.cert_auth_info_access = refl
lookup_oid-encode Oid.sha1 = refl
lookup_oid-encode Oid.common_name = refl
lookup_oid-encode Oid.surname = refl
lookup_oid-encode Oid.country_name = refl
lookup_oid-encode Oid.locality = refl
lookup_oid-encode Oid.state_or_province_name = refl
lookup_oid-encode Oid.organization_name = refl
lookup_oid-encode Oid.organization_unit_name = refl
lookup_oid-encode Oid.title = refl
lookup_oid-encode Oid.description = refl
lookup_oid-encode Oid.name = refl
lookup_oid-encode Oid.given_name = refl
lookup_oid-encode Oid.initials = refl
lookup_oid-encode Oid.generational_qualifier = refl
lookup_oid-encode Oid.subject_key_identifier = refl
lookup_oid-encode Oid.key_usage = refl
lookup_oid-encode Oid.subject_alt_name = refl
lookup_oid-encode Oid.issuer_alt_name = refl
lookup_oid-encode Oid.basic_constraints = refl
lookup_oid-encode Oid.crl_distribution_points = refl
lookup_oid-encode Oid.cert_policies = refl
lookup_oid-encode Oid.authority_key_identifier = refl
lookup_oid-encode Oid.ext_key_usage = refl
