-- ===== src/Oid/Dotted.antt =====
-- The dotted forms in the comments of listcerts/oid_registry.h, and the encoding of X.690: the first
-- two numbers in one byte, each later number in base 128, bit 7 set in all its bytes but the last.
use uefi_utilities.Base.{ℕ, zero, suc, ◌+◌, ◌*◌, ◌/◌, ◌%◌, List, [], ◌∷◌, ◌++◌, ltb, if◌then◌else◌}
use uefi_utilities.Oid.Registry.{Oid}

unfoldable pub arcs : Oid → List ℕ
arcs Oid.id_dsa_with_sha1 = 1 ∷ 2 ∷ 840 ∷ 10030 ∷ 4 ∷ 3 ∷ []
arcs Oid.id_dsa = 1 ∷ 2 ∷ 840 ∷ 10040 ∷ 4 ∷ 1 ∷ []
arcs Oid.id_ecdsa_with_sha1 = 1 ∷ 2 ∷ 840 ∷ 10045 ∷ 4 ∷ 1 ∷ []
arcs Oid.id_ec_public_key = 1 ∷ 2 ∷ 840 ∷ 10045 ∷ 2 ∷ 1 ∷ []
arcs Oid.rsa_encryption = 1 ∷ 2 ∷ 840 ∷ 113549 ∷ 1 ∷ 1 ∷ 1 ∷ []
arcs Oid.md2_with_rsa_encryption = 1 ∷ 2 ∷ 840 ∷ 113549 ∷ 1 ∷ 1 ∷ 2 ∷ []
arcs Oid.md3_with_rsa_encryption = 1 ∷ 2 ∷ 840 ∷ 113549 ∷ 1 ∷ 1 ∷ 3 ∷ []
arcs Oid.md4_with_rsa_encryption = 1 ∷ 2 ∷ 840 ∷ 113549 ∷ 1 ∷ 1 ∷ 4 ∷ []
arcs Oid.sha1_with_rsa_encryption = 1 ∷ 2 ∷ 840 ∷ 113549 ∷ 1 ∷ 1 ∷ 5 ∷ []
arcs Oid.sha256_with_rsa_encryption = 1 ∷ 2 ∷ 840 ∷ 113549 ∷ 1 ∷ 1 ∷ 11 ∷ []
arcs Oid.sha384_with_rsa_encryption = 1 ∷ 2 ∷ 840 ∷ 113549 ∷ 1 ∷ 1 ∷ 12 ∷ []
arcs Oid.sha512_with_rsa_encryption = 1 ∷ 2 ∷ 840 ∷ 113549 ∷ 1 ∷ 1 ∷ 13 ∷ []
arcs Oid.sha224_with_rsa_encryption = 1 ∷ 2 ∷ 840 ∷ 113549 ∷ 1 ∷ 1 ∷ 14 ∷ []
arcs Oid.pkcs7_data = 1 ∷ 2 ∷ 840 ∷ 113549 ∷ 1 ∷ 7 ∷ 1 ∷ []
arcs Oid.signed_data = 1 ∷ 2 ∷ 840 ∷ 113549 ∷ 1 ∷ 7 ∷ 2 ∷ []
arcs Oid.email_address = 1 ∷ 2 ∷ 840 ∷ 113549 ∷ 1 ∷ 9 ∷ 1 ∷ []
arcs Oid.content_type = 1 ∷ 2 ∷ 840 ∷ 113549 ∷ 1 ∷ 9 ∷ 3 ∷ []
arcs Oid.message_digest = 1 ∷ 2 ∷ 840 ∷ 113549 ∷ 1 ∷ 9 ∷ 4 ∷ []
arcs Oid.signing_time = 1 ∷ 2 ∷ 840 ∷ 113549 ∷ 1 ∷ 9 ∷ 5 ∷ []
arcs Oid.smime_capabilites = 1 ∷ 2 ∷ 840 ∷ 113549 ∷ 1 ∷ 9 ∷ 15 ∷ []
arcs Oid.smime_authenticated_attrs = 1 ∷ 2 ∷ 840 ∷ 113549 ∷ 1 ∷ 9 ∷ 16 ∷ 2 ∷ 11 ∷ []
arcs Oid.md2 = 1 ∷ 2 ∷ 840 ∷ 113549 ∷ 2 ∷ 2 ∷ []
arcs Oid.md4 = 1 ∷ 2 ∷ 840 ∷ 113549 ∷ 2 ∷ 4 ∷ []
arcs Oid.md5 = 1 ∷ 2 ∷ 840 ∷ 113549 ∷ 2 ∷ 5 ∷ []
arcs Oid.ms_outlook_express = 1 ∷ 3 ∷ 6 ∷ 1 ∷ 4 ∷ 1 ∷ 311 ∷ 16 ∷ 4 ∷ []
arcs Oid.ms_enroll_certtype_extension = 1 ∷ 3 ∷ 6 ∷ 1 ∷ 4 ∷ 1 ∷ 311 ∷ 20 ∷ 2 ∷ []
arcs Oid.ms_certsrv_ca_version = 1 ∷ 3 ∷ 6 ∷ 1 ∷ 4 ∷ 1 ∷ 311 ∷ 21 ∷ 1 ∷ []
arcs Oid.ms_certsrv_previous_cert_hash = 1 ∷ 3 ∷ 6 ∷ 1 ∷ 4 ∷ 1 ∷ 311 ∷ 21 ∷ 2 ∷ []
arcs Oid.cert_auth_info_access = 1 ∷ 3 ∷ 6 ∷ 1 ∷ 5 ∷ 5 ∷ 7 ∷ 1 ∷ 1 ∷ []
arcs Oid.sha1 = 1 ∷ 3 ∷ 14 ∷ 3 ∷ 2 ∷ 26 ∷ []
arcs Oid.common_name = 2 ∷ 5 ∷ 4 ∷ 3 ∷ []
arcs Oid.surname = 2 ∷ 5 ∷ 4 ∷ 4 ∷ []
arcs Oid.country_name = 2 ∷ 5 ∷ 4 ∷ 6 ∷ []
arcs Oid.locality = 2 ∷ 5 ∷ 4 ∷ 7 ∷ []
arcs Oid.state_or_province_name = 2 ∷ 5 ∷ 4 ∷ 8 ∷ []
arcs Oid.organization_name = 2 ∷ 5 ∷ 4 ∷ 10 ∷ []
arcs Oid.organization_unit_name = 2 ∷ 5 ∷ 4 ∷ 11 ∷ []
arcs Oid.title = 2 ∷ 5 ∷ 4 ∷ 12 ∷ []
arcs Oid.description = 2 ∷ 5 ∷ 4 ∷ 13 ∷ []
arcs Oid.name = 2 ∷ 5 ∷ 4 ∷ 41 ∷ []
arcs Oid.given_name = 2 ∷ 5 ∷ 4 ∷ 42 ∷ []
arcs Oid.initials = 2 ∷ 5 ∷ 4 ∷ 43 ∷ []
arcs Oid.generational_qualifier = 2 ∷ 5 ∷ 4 ∷ 44 ∷ []
arcs Oid.subject_key_identifier = 2 ∷ 5 ∷ 29 ∷ 14 ∷ []
arcs Oid.key_usage = 2 ∷ 5 ∷ 29 ∷ 15 ∷ []
arcs Oid.subject_alt_name = 2 ∷ 5 ∷ 29 ∷ 17 ∷ []
arcs Oid.issuer_alt_name = 2 ∷ 5 ∷ 29 ∷ 18 ∷ []
arcs Oid.basic_constraints = 2 ∷ 5 ∷ 29 ∷ 19 ∷ []
arcs Oid.crl_distribution_points = 2 ∷ 5 ∷ 29 ∷ 31 ∷ []
arcs Oid.cert_policies = 2 ∷ 5 ∷ 29 ∷ 32 ∷ []
arcs Oid.authority_key_identifier = 2 ∷ 5 ∷ 29 ∷ 35 ∷ []
arcs Oid.ext_key_usage = 2 ∷ 5 ∷ 29 ∷ 37 ∷ []

-- The bytes above the last one, at most five, so for numbers below 2 ^ 42.
unfoldable pub high_bytes : ℕ → ℕ → List ℕ
high_bytes zero n = []
high_bytes (suc k) n =
    let rest = high_bytes k (n / 128) in if ltb 0 n then rest ++ (128 + n % 128) ∷ [] else []

unfoldable pub base128 : ℕ → List ℕ
unfolding high_bytes
base128 n = high_bytes 5 (n / 128) ++ n % 128 ∷ []

unfoldable pub base128s : List ℕ → List ℕ
unfolding base128
base128s [] = []
base128s (n ∷ ns) = base128 n ++ base128s ns

unfoldable pub encode : List ℕ → List ℕ
unfolding base128s
encode (a ∷ b ∷ ns) = (40 * a + b) ∷ base128s ns
encode _ = []
