-- ===== src/P11Objects/Attributes.antt =====
-- SoftHSMv2/src/lib/P11Objects.cpp: the attributes that the init of each class of objects makes, in the order in
-- which it initialises them.
use archive_aaf_sshsm.Common.{List, [], ◌∷◌}
use archive_aaf_sshsm.P11Attributes.{P11Attribute, ck1, ck3, ck4, ck5, ck6, ck7, ck8, ck14}
use archive_aaf_sshsm.P11Attributes.Table.{
  p11_attr_allowed_mechanisms, p11_attr_always_authenticate, p11_attr_always_sensitive,
  p11_attr_application, p11_attr_base, p11_attr_certificate_category, p11_attr_certificate_type,
  p11_attr_check_value, p11_attr_class, p11_attr_coefficient, p11_attr_copyable, p11_attr_decrypt,
  p11_attr_derive, p11_attr_destroyable, p11_attr_ec_params, p11_attr_ec_point, p11_attr_encrypt,
  p11_attr_end_date, p11_attr_exponent1, p11_attr_exponent2, p11_attr_extractable,
  p11_attr_gost28147_params, p11_attr_gost_r3410_params, p11_attr_gost_r3411_params,
  p11_attr_hash_of_issuer_public_key, p11_attr_hash_of_subject_public_key, p11_attr_id,
  p11_attr_issuer, p11_attr_java_midp_security_domain, p11_attr_key_gen_mechanism,
  p11_attr_key_type, p11_attr_label, p11_attr_local, p11_attr_modifiable, p11_attr_modulus,
  p11_attr_modulus_bits, p11_attr_name_hash_algorithm, p11_attr_never_extractable,
  p11_attr_object_id, p11_attr_prime, p11_attr_prime1, p11_attr_prime2, p11_attr_prime_bits,
  p11_attr_private, p11_attr_private_exponent, p11_attr_private_handle, p11_attr_public_exponent,
  p11_attr_public_key_info, p11_attr_sensitive, p11_attr_serial_number, p11_attr_sign,
  p11_attr_sign_recover, p11_attr_start_date, p11_attr_sub_prime, p11_attr_subject, p11_attr_token,
  p11_attr_trusted, p11_attr_unwrap, p11_attr_unwrap_template, p11_attr_url, p11_attr_value,
  p11_attr_value_bits, p11_attr_value_len, p11_attr_verify, p11_attr_verify_recover, p11_attr_wrap,
  p11_attr_wrap_template, p11_attr_wrap_with_trusted,
}

abbrev pub p11_object_attributes : List P11Attribute
p11_object_attributes =
    p11_attr_class ∷ p11_attr_token ∷ p11_attr_private ∷ p11_attr_modifiable ∷ p11_attr_label
    ∷ p11_attr_copyable ∷ p11_attr_destroyable ∷ []

abbrev pub p11_data_obj_attributes : List P11Attribute
p11_data_obj_attributes = p11_attr_application ∷ p11_attr_object_id ∷ p11_attr_value [] ∷ []

abbrev pub p11_certificate_obj_attributes : List P11Attribute
p11_certificate_obj_attributes =
    p11_attr_certificate_type
    ∷ p11_attr_trusted
    ∷ p11_attr_certificate_category
    ∷ p11_attr_check_value []
    ∷ p11_attr_start_date []
    ∷ p11_attr_end_date []
    ∷ p11_attr_public_key_info []
    ∷ []

abbrev pub p11_x509_certificate_obj_attributes : List P11Attribute
p11_x509_certificate_obj_attributes =
    p11_attr_subject (ck1 ∷ [])
    ∷ p11_attr_id
    ∷ p11_attr_issuer
    ∷ p11_attr_serial_number
    ∷ p11_attr_value (ck1 ∷ ck14 ∷ [])
    ∷ p11_attr_url
    ∷ p11_attr_hash_of_subject_public_key
    ∷ p11_attr_hash_of_issuer_public_key
    ∷ p11_attr_java_midp_security_domain
    ∷ p11_attr_name_hash_algorithm
    ∷ []

abbrev pub p11_open_pgp_public_key_obj_attributes : List P11Attribute
p11_open_pgp_public_key_obj_attributes =
    p11_attr_subject (ck1 ∷ [])
    ∷ p11_attr_id
    ∷ p11_attr_issuer
    ∷ p11_attr_serial_number
    ∷ p11_attr_value (ck1 ∷ ck14 ∷ [])
    ∷ p11_attr_url
    ∷ []

abbrev pub p11_key_obj_attributes : List P11Attribute
p11_key_obj_attributes =
    p11_attr_key_type (ck5 ∷ [])
    ∷ p11_attr_id
    ∷ p11_attr_start_date (ck8 ∷ [])
    ∷ p11_attr_end_date (ck8 ∷ [])
    ∷ p11_attr_derive
    ∷ p11_attr_local (ck6 ∷ [])
    ∷ p11_attr_key_gen_mechanism
    ∷ p11_attr_allowed_mechanisms
    ∷ []

abbrev pub p11_public_key_obj_attributes : List P11Attribute
p11_public_key_obj_attributes =
    p11_attr_subject (ck8 ∷ [])
    ∷ p11_attr_encrypt
    ∷ p11_attr_verify
    ∷ p11_attr_verify_recover
    ∷ p11_attr_wrap
    ∷ p11_attr_trusted
    ∷ p11_attr_wrap_template
    ∷ p11_attr_public_key_info []
    ∷ []

abbrev pub p11_rsa_public_key_obj_attributes : List P11Attribute
p11_rsa_public_key_obj_attributes =
    p11_attr_modulus [] ∷ p11_attr_modulus_bits ∷ p11_attr_public_exponent (ck1 ∷ []) ∷ []

abbrev pub p11_dsa_public_key_obj_attributes : List P11Attribute
p11_dsa_public_key_obj_attributes =
    p11_attr_prime (ck3 ∷ [])
    ∷ p11_attr_sub_prime (ck3 ∷ [])
    ∷ p11_attr_base (ck3 ∷ [])
    ∷ p11_attr_value (ck1 ∷ ck4 ∷ [])
    ∷ []

abbrev pub p11_ec_public_key_obj_attributes : List P11Attribute
p11_ec_public_key_obj_attributes = p11_attr_ec_params (ck3 ∷ []) ∷ p11_attr_ec_point ∷ []

abbrev pub p11_dh_public_key_obj_attributes : List P11Attribute
p11_dh_public_key_obj_attributes =
    p11_attr_prime (ck3 ∷ []) ∷ p11_attr_base (ck3 ∷ []) ∷ p11_attr_value (ck1 ∷ ck4 ∷ []) ∷ []

abbrev pub p11_gost_public_key_obj_attributes : List P11Attribute
p11_gost_public_key_obj_attributes =
    p11_attr_value (ck1 ∷ ck4 ∷ [])
    ∷ p11_attr_gost_r3410_params (ck3 ∷ [])
    ∷ p11_attr_gost_r3411_params (ck3 ∷ [])
    ∷ p11_attr_gost28147_params (ck8 ∷ [])
    ∷ []

abbrev pub p11_private_key_obj_attributes : List P11Attribute
p11_private_key_obj_attributes =
    p11_attr_subject (ck8 ∷ [])
    ∷ p11_attr_sensitive
    ∷ p11_attr_decrypt
    ∷ p11_attr_sign
    ∷ p11_attr_sign_recover
    ∷ p11_attr_unwrap
    ∷ p11_attr_extractable
    ∷ p11_attr_always_sensitive
    ∷ p11_attr_never_extractable
    ∷ p11_attr_wrap_with_trusted
    ∷ p11_attr_unwrap_template
    ∷ p11_attr_always_authenticate
    ∷ p11_attr_public_key_info (ck8 ∷ [])
    ∷ []

abbrev pub p11_rsa_private_key_obj_attributes : List P11Attribute
p11_rsa_private_key_obj_attributes =
    p11_attr_modulus (ck6 ∷ [])
    ∷ p11_attr_public_exponent (ck4 ∷ ck6 ∷ [])
    ∷ p11_attr_private_exponent
    ∷ p11_attr_prime1
    ∷ p11_attr_prime2
    ∷ p11_attr_exponent1
    ∷ p11_attr_exponent2
    ∷ p11_attr_private_handle
    ∷ p11_attr_coefficient
    ∷ []

abbrev pub p11_dsa_private_key_obj_attributes : List P11Attribute
p11_dsa_private_key_obj_attributes =
    p11_attr_prime (ck4 ∷ ck6 ∷ [])
    ∷ p11_attr_sub_prime (ck4 ∷ ck6 ∷ [])
    ∷ p11_attr_base (ck4 ∷ ck6 ∷ [])
    ∷ p11_attr_value (ck1 ∷ ck4 ∷ ck6 ∷ ck7 ∷ [])
    ∷ []

abbrev pub p11_ec_private_key_obj_attributes : List P11Attribute
p11_ec_private_key_obj_attributes =
    p11_attr_ec_params (ck4 ∷ ck6 ∷ [])
    ∷ p11_attr_private_handle
    ∷ p11_attr_value (ck1 ∷ ck4 ∷ ck6 ∷ ck7 ∷ [])
    ∷ []

abbrev pub p11_dh_private_key_obj_attributes : List P11Attribute
p11_dh_private_key_obj_attributes =
    p11_attr_prime (ck4 ∷ ck6 ∷ [])
    ∷ p11_attr_base (ck4 ∷ ck6 ∷ [])
    ∷ p11_attr_value (ck1 ∷ ck4 ∷ ck6 ∷ ck7 ∷ [])
    ∷ p11_attr_value_bits
    ∷ []

abbrev pub p11_gost_private_key_obj_attributes : List P11Attribute
p11_gost_private_key_obj_attributes =
    p11_attr_value (ck1 ∷ ck4 ∷ ck6 ∷ ck7 ∷ [])
    ∷ p11_attr_gost_r3410_params (ck4 ∷ ck6 ∷ [])
    ∷ p11_attr_gost_r3411_params (ck4 ∷ ck6 ∷ [])
    ∷ p11_attr_gost28147_params (ck4 ∷ ck6 ∷ ck8 ∷ [])
    ∷ []

abbrev pub p11_secret_key_obj_attributes : List P11Attribute
p11_secret_key_obj_attributes =
    p11_attr_sensitive
    ∷ p11_attr_encrypt
    ∷ p11_attr_decrypt
    ∷ p11_attr_sign
    ∷ p11_attr_verify
    ∷ p11_attr_wrap
    ∷ p11_attr_unwrap
    ∷ p11_attr_extractable
    ∷ p11_attr_always_sensitive
    ∷ p11_attr_never_extractable
    ∷ p11_attr_check_value (ck8 ∷ [])
    ∷ p11_attr_wrap_with_trusted
    ∷ p11_attr_trusted
    ∷ p11_attr_wrap_template
    ∷ p11_attr_unwrap_template
    ∷ []

abbrev pub p11_generic_secret_key_obj_attributes : List P11Attribute
p11_generic_secret_key_obj_attributes =
    p11_attr_value (ck1 ∷ ck4 ∷ ck6 ∷ ck7 ∷ []) ∷ p11_attr_value_len [] ∷ []

abbrev pub p11_aes_secret_key_obj_attributes : List P11Attribute
p11_aes_secret_key_obj_attributes =
    p11_attr_value (ck1 ∷ ck4 ∷ ck6 ∷ ck7 ∷ []) ∷ p11_attr_value_len (ck6 ∷ []) ∷ []

abbrev pub p11_des_secret_key_obj_attributes : List P11Attribute
p11_des_secret_key_obj_attributes = p11_attr_value (ck1 ∷ ck4 ∷ ck6 ∷ ck7 ∷ []) ∷ []

abbrev pub p11_gost_secret_key_obj_attributes : List P11Attribute
p11_gost_secret_key_obj_attributes =
    p11_attr_value (ck1 ∷ ck4 ∷ ck6 ∷ ck7 ∷ [])
    ∷ p11_attr_gost28147_params (ck1 ∷ ck3 ∷ ck5 ∷ [])
    ∷ []

abbrev pub p11_domain_obj_attributes : List P11Attribute
p11_domain_obj_attributes = p11_attr_key_type [] ∷ p11_attr_local [] ∷ []

abbrev pub p11_dsa_domain_obj_attributes : List P11Attribute
p11_dsa_domain_obj_attributes =
    p11_attr_prime (ck4 ∷ [])
    ∷ p11_attr_sub_prime (ck4 ∷ [])
    ∷ p11_attr_base (ck4 ∷ [])
    ∷ p11_attr_prime_bits
    ∷ []

abbrev pub p11_dh_domain_obj_attributes : List P11Attribute
p11_dh_domain_obj_attributes =
    p11_attr_prime (ck4 ∷ []) ∷ p11_attr_base (ck4 ∷ []) ∷ p11_attr_prime_bits ∷ []
