-- ===== src/Oid/Tables.antt =====
-- The tables of listcerts/oid_registry_data.h.
use uefi_utilities.Base.{ℕ, List, [], ◌∷◌}
use uefi_utilities.Oid.Registry.{Oid}

-- `oid_index`: where the bytes of an identifier begin.
unfoldable pub oid_index : List ℕ
oid_index =
    0 ∷ 7 ∷ 14 ∷ 21 ∷ 28 ∷ 37 ∷ 46 ∷ 55 ∷ 64 ∷ 73 ∷ 82 ∷ 91 ∷ 100 ∷ 109 ∷ 118 ∷ 127 ∷ 136 ∷ 145
    ∷ 154 ∷ 163 ∷ 172 ∷ 183 ∷ 191 ∷ 199 ∷ 207 ∷ 216 ∷ 225 ∷ 234 ∷ 243 ∷ 251 ∷ 256 ∷ 259 ∷ 262 ∷ 265
    ∷ 268 ∷ 271 ∷ 274 ∷ 277 ∷ 280 ∷ 283 ∷ 286 ∷ 289 ∷ 292 ∷ 295 ∷ 298 ∷ 301 ∷ 304 ∷ 307 ∷ 310 ∷ 313
    ∷ 316 ∷ 319 ∷ 322 ∷ []

-- `oid_data`
unfoldable pub oid_data : List ℕ
oid_data =
    42 ∷ 134 ∷ 72 ∷ 206 ∷ 46 ∷ 4 ∷ 3 ∷ 42 ∷ 134 ∷ 72 ∷ 206 ∷ 56 ∷ 4 ∷ 1 ∷ 42 ∷ 134 ∷ 72 ∷ 206 ∷ 61
    ∷ 4 ∷ 1 ∷ 42 ∷ 134 ∷ 72 ∷ 206 ∷ 61 ∷ 2 ∷ 1 ∷ 42 ∷ 134 ∷ 72 ∷ 134 ∷ 247 ∷ 13 ∷ 1 ∷ 1 ∷ 1 ∷ 42
    ∷ 134 ∷ 72 ∷ 134 ∷ 247 ∷ 13 ∷ 1 ∷ 1 ∷ 2 ∷ 42 ∷ 134 ∷ 72 ∷ 134 ∷ 247 ∷ 13 ∷ 1 ∷ 1 ∷ 3 ∷ 42 ∷ 134
    ∷ 72 ∷ 134 ∷ 247 ∷ 13 ∷ 1 ∷ 1 ∷ 4 ∷ 42 ∷ 134 ∷ 72 ∷ 134 ∷ 247 ∷ 13 ∷ 1 ∷ 1 ∷ 5 ∷ 42 ∷ 134 ∷ 72
    ∷ 134 ∷ 247 ∷ 13 ∷ 1 ∷ 1 ∷ 11 ∷ 42 ∷ 134 ∷ 72 ∷ 134 ∷ 247 ∷ 13 ∷ 1 ∷ 1 ∷ 12 ∷ 42 ∷ 134 ∷ 72
    ∷ 134 ∷ 247 ∷ 13 ∷ 1 ∷ 1 ∷ 13 ∷ 42 ∷ 134 ∷ 72 ∷ 134 ∷ 247 ∷ 13 ∷ 1 ∷ 1 ∷ 14 ∷ 42 ∷ 134 ∷ 72
    ∷ 134 ∷ 247 ∷ 13 ∷ 1 ∷ 7 ∷ 1 ∷ 42 ∷ 134 ∷ 72 ∷ 134 ∷ 247 ∷ 13 ∷ 1 ∷ 7 ∷ 2 ∷ 42 ∷ 134 ∷ 72 ∷ 134
    ∷ 247 ∷ 13 ∷ 1 ∷ 9 ∷ 1 ∷ 42 ∷ 134 ∷ 72 ∷ 134 ∷ 247 ∷ 13 ∷ 1 ∷ 9 ∷ 3 ∷ 42 ∷ 134 ∷ 72 ∷ 134 ∷ 247
    ∷ 13 ∷ 1 ∷ 9 ∷ 4 ∷ 42 ∷ 134 ∷ 72 ∷ 134 ∷ 247 ∷ 13 ∷ 1 ∷ 9 ∷ 5 ∷ 42 ∷ 134 ∷ 72 ∷ 134 ∷ 247 ∷ 13
    ∷ 1 ∷ 9 ∷ 15 ∷ 42 ∷ 134 ∷ 72 ∷ 134 ∷ 247 ∷ 13 ∷ 1 ∷ 9 ∷ 16 ∷ 2 ∷ 11 ∷ 42 ∷ 134 ∷ 72 ∷ 134 ∷ 247
    ∷ 13 ∷ 2 ∷ 2 ∷ 42 ∷ 134 ∷ 72 ∷ 134 ∷ 247 ∷ 13 ∷ 2 ∷ 4 ∷ 42 ∷ 134 ∷ 72 ∷ 134 ∷ 247 ∷ 13 ∷ 2 ∷ 5
    ∷ 43 ∷ 6 ∷ 1 ∷ 4 ∷ 1 ∷ 130 ∷ 55 ∷ 16 ∷ 4 ∷ 43 ∷ 6 ∷ 1 ∷ 4 ∷ 1 ∷ 130 ∷ 55 ∷ 20 ∷ 2 ∷ 43 ∷ 6 ∷ 1
    ∷ 4 ∷ 1 ∷ 130 ∷ 55 ∷ 21 ∷ 1 ∷ 43 ∷ 6 ∷ 1 ∷ 4 ∷ 1 ∷ 130 ∷ 55 ∷ 21 ∷ 2 ∷ 43 ∷ 6 ∷ 1 ∷ 5 ∷ 5 ∷ 7
    ∷ 1 ∷ 1 ∷ 43 ∷ 14 ∷ 3 ∷ 2 ∷ 26 ∷ 85 ∷ 4 ∷ 3 ∷ 85 ∷ 4 ∷ 4 ∷ 85 ∷ 4 ∷ 6 ∷ 85 ∷ 4 ∷ 7 ∷ 85 ∷ 4 ∷ 8
    ∷ 85 ∷ 4 ∷ 10 ∷ 85 ∷ 4 ∷ 11 ∷ 85 ∷ 4 ∷ 12 ∷ 85 ∷ 4 ∷ 13 ∷ 85 ∷ 4 ∷ 41 ∷ 85 ∷ 4 ∷ 42 ∷ 85 ∷ 4
    ∷ 43 ∷ 85 ∷ 4 ∷ 44 ∷ 85 ∷ 29 ∷ 14 ∷ 85 ∷ 29 ∷ 15 ∷ 85 ∷ 29 ∷ 17 ∷ 85 ∷ 29 ∷ 18 ∷ 85 ∷ 29 ∷ 19
    ∷ 85 ∷ 29 ∷ 31 ∷ 85 ∷ 29 ∷ 32 ∷ 85 ∷ 29 ∷ 35 ∷ 85 ∷ 29 ∷ 37 ∷ []

-- `oid_search_table`: hash and identifier.
unfoldable pub oid_search_table : List (ℕ × Oid)
oid_search_table =
    (10, Oid.title)
    ∷ (23, Oid.issuer_alt_name)
    ∷ (23, Oid.initials)
    ∷ (29, Oid.md2_with_rsa_encryption)
    ∷ (30, Oid.md2)
    ∷ (32, Oid.id_dsa_with_sha1)
    ∷ (35, Oid.content_type)
    ∷ (35, Oid.sha256_with_rsa_encryption)
    ∷ (36, Oid.authority_key_identifier)
    ∷ (37, Oid.description)
    ∷ (43, Oid.id_dsa)
    ∷ (54, Oid.basic_constraints)
    ∷ (54, Oid.generational_qualifier)
    ∷ (60, Oid.md3_with_rsa_encryption)
    ∷ (64, Oid.signed_data)
    ∷ (77, Oid.country_name)
    ∷ (77, Oid.id_ecdsa_with_sha1)
    ∷ (85, Oid.smime_capabilites)
    ∷ (87, Oid.sha1)
    ∷ (97, Oid.email_address)
    ∷ (106, Oid.ext_key_usage)
    ∷ (110, Oid.locality)
    ∷ (126, Oid.rsa_encryption)
    ∷ (132, Oid.smime_authenticated_attrs)
    ∷ (142, Oid.id_ec_public_key)
    ∷ (142, Oid.sha224_with_rsa_encryption)
    ∷ (143, Oid.state_or_province_name)
    ∷ (146, Oid.subject_key_identifier)
    ∷ (160, Oid.pkcs7_data)
    ∷ (161, Oid.crl_distribution_points)
    ∷ (173, Oid.ms_outlook_express)
    ∷ (179, Oid.key_usage)
    ∷ (195, Oid.md4_with_rsa_encryption)
    ∷ (198, Oid.cert_policies)
    ∷ (201, Oid.organization_name)
    ∷ (204, Oid.message_digest)
    ∷ (204, Oid.sha384_with_rsa_encryption)
    ∷ (206, Oid.ms_certsrv_previous_cert_hash)
    ∷ (212, Oid.name)
    ∷ (213, Oid.common_name)
    ∷ (220, Oid.md4)
    ∷ (226, Oid.sha1_with_rsa_encryption)
    ∷ (227, Oid.md5)
    ∷ (228, Oid.cert_auth_info_access)
    ∷ (234, Oid.organization_unit_name)
    ∷ (237, Oid.signing_time)
    ∷ (237, Oid.sha512_with_rsa_encryption)
    ∷ (239, Oid.ms_certsrv_ca_version)
    ∷ (239, Oid.ms_enroll_certtype_extension)
    ∷ (244, Oid.surname)
    ∷ (245, Oid.subject_alt_name)
    ∷ (245, Oid.given_name)
    ∷ []
