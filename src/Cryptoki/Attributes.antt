-- ===== src/Cryptoki/Attributes.antt =====
-- SoftHSMv2/src/lib/pkcs11/pkcs11t.h and object_store/OSAttributes.h: the numbers of attribute types,
-- object classes, key types and certificate types.
use archive_aaf_sshsm.Common.{ℕ}

abbrev pub cka_class : ℕ
cka_class = 0

abbrev pub cka_token : ℕ
cka_token = 1

abbrev pub cka_private : ℕ
cka_private = 2

abbrev pub cka_label : ℕ
cka_label = 3

abbrev pub cka_application : ℕ
cka_application = 16

abbrev pub cka_value : ℕ
cka_value = 17

abbrev pub cka_object_id : ℕ
cka_object_id = 18

abbrev pub cka_certificate_type : ℕ
cka_certificate_type = 128

abbrev pub cka_issuer : ℕ
cka_issuer = 129

abbrev pub cka_serial_number : ℕ
cka_serial_number = 130

abbrev pub cka_trusted : ℕ
cka_trusted = 134

abbrev pub cka_certificate_category : ℕ
cka_certificate_category = 135

abbrev pub cka_java_midp_security_domain : ℕ
cka_java_midp_security_domain = 136

abbrev pub cka_url : ℕ
cka_url = 137

abbrev pub cka_hash_of_subject_public_key : ℕ
cka_hash_of_subject_public_key = 138

abbrev pub cka_hash_of_issuer_public_key : ℕ
cka_hash_of_issuer_public_key = 139

abbrev pub cka_name_hash_algorithm : ℕ
cka_name_hash_algorithm = 140

abbrev pub cka_check_value : ℕ
cka_check_value = 144

abbrev pub cka_key_type : ℕ
cka_key_type = 256

abbrev pub cka_subject : ℕ
cka_subject = 257

abbrev pub cka_id : ℕ
cka_id = 258

abbrev pub cka_sensitive : ℕ
cka_sensitive = 259

abbrev pub cka_encrypt : ℕ
cka_encrypt = 260

abbrev pub cka_decrypt : ℕ
cka_decrypt = 261

abbrev pub cka_wrap : ℕ
cka_wrap = 262

abbrev pub cka_unwrap : ℕ
cka_unwrap = 263

abbrev pub cka_sign : ℕ
cka_sign = 264

abbrev pub cka_sign_recover : ℕ
cka_sign_recover = 265

abbrev pub cka_verify : ℕ
cka_verify = 266

abbrev pub cka_verify_recover : ℕ
cka_verify_recover = 267

abbrev pub cka_derive : ℕ
cka_derive = 268

abbrev pub cka_start_date : ℕ
cka_start_date = 272

abbrev pub cka_end_date : ℕ
cka_end_date = 273

abbrev pub cka_modulus : ℕ
cka_modulus = 288

abbrev pub cka_modulus_bits : ℕ
cka_modulus_bits = 289

abbrev pub cka_public_exponent : ℕ
cka_public_exponent = 290

abbrev pub cka_private_exponent : ℕ
cka_private_exponent = 291

abbrev pub cka_prime_1 : ℕ
cka_prime_1 = 292

abbrev pub cka_prime_2 : ℕ
cka_prime_2 = 293

abbrev pub cka_exponent_1 : ℕ
cka_exponent_1 = 294

abbrev pub cka_exponent_2 : ℕ
cka_exponent_2 = 295

abbrev pub cka_coefficient : ℕ
cka_coefficient = 296

abbrev pub cka_prime : ℕ
cka_prime = 304

abbrev pub cka_subprime : ℕ
cka_subprime = 305

abbrev pub cka_base : ℕ
cka_base = 306

abbrev pub cka_prime_bits : ℕ
cka_prime_bits = 307

abbrev pub cka_subprime_bits : ℕ
cka_subprime_bits = 308

abbrev pub cka_value_bits : ℕ
cka_value_bits = 352

abbrev pub cka_value_len : ℕ
cka_value_len = 353

abbrev pub cka_extractable : ℕ
cka_extractable = 354

abbrev pub cka_local : ℕ
cka_local = 355

abbrev pub cka_never_extractable : ℕ
cka_never_extractable = 356

abbrev pub cka_always_sensitive : ℕ
cka_always_sensitive = 357

abbrev pub cka_key_gen_mechanism : ℕ
cka_key_gen_mechanism = 358

abbrev pub cka_modifiable : ℕ
cka_modifiable = 368

abbrev pub cka_copyable : ℕ
cka_copyable = 369

abbrev pub cka_destroyable : ℕ
cka_destroyable = 370

abbrev pub cka_ec_params : ℕ
cka_ec_params = 384

abbrev pub cka_ec_point : ℕ
cka_ec_point = 385

abbrev pub cka_secondary_auth : ℕ
cka_secondary_auth = 512

abbrev pub cka_auth_pin_flags : ℕ
cka_auth_pin_flags = 513

abbrev pub cka_always_authenticate : ℕ
cka_always_authenticate = 514

abbrev pub cka_wrap_with_trusted : ℕ
cka_wrap_with_trusted = 528

abbrev pub cka_gostr3410_params : ℕ
cka_gostr3410_params = 592

abbrev pub cka_gostr3411_params : ℕ
cka_gostr3411_params = 593

abbrev pub cka_gost28147_params : ℕ
cka_gost28147_params = 594

abbrev pub cka_wrap_template : ℕ
cka_wrap_template = 1073742353

abbrev pub cka_unwrap_template : ℕ
cka_unwrap_template = 1073742354

abbrev pub cka_allowed_mechanisms : ℕ
cka_allowed_mechanisms = 1073743360

abbrev pub ckc_x_509 : ℕ
ckc_x_509 = 0

abbrev pub ckc_vendor_defined : ℕ
ckc_vendor_defined = 2147483648

abbrev pub ckc_openpgp : ℕ
ckc_openpgp = 2152744784

abbrev pub ckk_rsa : ℕ
ckk_rsa = 0

abbrev pub ckk_dsa : ℕ
ckk_dsa = 1

abbrev pub ckk_dh : ℕ
ckk_dh = 2

abbrev pub ckk_ec : ℕ
ckk_ec = 3

abbrev pub ckk_generic_secret : ℕ
ckk_generic_secret = 16

abbrev pub ckk_des : ℕ
ckk_des = 19

abbrev pub ckk_des2 : ℕ
ckk_des2 = 20

abbrev pub ckk_des3 : ℕ
ckk_des3 = 21

abbrev pub ckk_aes : ℕ
ckk_aes = 31

abbrev pub ckk_md5_hmac : ℕ
ckk_md5_hmac = 39

abbrev pub ckk_sha_1_hmac : ℕ
ckk_sha_1_hmac = 40

abbrev pub ckk_sha256_hmac : ℕ
ckk_sha256_hmac = 43

abbrev pub ckk_sha384_hmac : ℕ
ckk_sha384_hmac = 44

abbrev pub ckk_sha512_hmac : ℕ
ckk_sha512_hmac = 45

abbrev pub ckk_sha224_hmac : ℕ
ckk_sha224_hmac = 46

abbrev pub ckk_gostr3410 : ℕ
ckk_gostr3410 = 48

abbrev pub ckk_gost28147 : ℕ
ckk_gost28147 = 50

abbrev pub ckk_vendor_defined : ℕ
ckk_vendor_defined = 2147483648

abbrev pub ckm_sha_1 : ℕ
ckm_sha_1 = 544

abbrev pub cko_data : ℕ
cko_data = 0

abbrev pub cko_certificate : ℕ
cko_certificate = 1

abbrev pub cko_public_key : ℕ
cko_public_key = 2

abbrev pub cko_private_key : ℕ
cko_private_key = 3

abbrev pub cko_secret_key : ℕ
cko_secret_key = 4

abbrev pub cko_domain_parameters : ℕ
cko_domain_parameters = 6

abbrev pub cko_vendor_defined : ℕ
cko_vendor_defined = 2147483648

abbrev pub cka_os_private_handle : ℕ
cka_os_private_handle = 2147504974
