-- ===== src/P11Objects/Init.antt =====
-- SoftHSMv2/src/lib/P11Objects.cpp: the init of each class of objects, on an object that it was not called on.
use archive_aaf_sshsm.Common.{ℕ, true, []}
use archive_aaf_sshsm.Cryptoki.Attributes.{
  cka_class, cka_certificate_type, cka_key_type, ckc_x_509, ckc_vendor_defined, ckc_openpgp,
  ckk_rsa, ckk_dsa, ckk_dh, ckk_ec, ckk_aes, ckk_gostr3410, ckk_gost28147, ckk_vendor_defined,
  cko_data, cko_certificate, cko_public_key, cko_private_key, cko_secret_key, cko_domain_parameters,
  cko_vendor_defined,
}
use archive_aaf_sshsm.OsObject.{OsObject}
use archive_aaf_sshsm.P11Objects.{InitResult, require, default_private, extend}
use archive_aaf_sshsm.P11Objects.Attributes.{
  p11_object_attributes, p11_data_obj_attributes, p11_certificate_obj_attributes,
  p11_x509_certificate_obj_attributes, p11_open_pgp_public_key_obj_attributes,
  p11_key_obj_attributes, p11_public_key_obj_attributes, p11_rsa_public_key_obj_attributes,
  p11_dsa_public_key_obj_attributes, p11_ec_public_key_obj_attributes,
  p11_dh_public_key_obj_attributes, p11_gost_public_key_obj_attributes,
  p11_private_key_obj_attributes, p11_rsa_private_key_obj_attributes,
  p11_dsa_private_key_obj_attributes, p11_ec_private_key_obj_attributes,
  p11_dh_private_key_obj_attributes, p11_gost_private_key_obj_attributes,
  p11_secret_key_obj_attributes, p11_generic_secret_key_obj_attributes,
  p11_aes_secret_key_obj_attributes, p11_des_secret_key_obj_attributes,
  p11_gost_secret_key_obj_attributes, p11_domain_obj_attributes, p11_dsa_domain_obj_attributes,
  p11_dh_domain_obj_attributes,
}

module _ {O : Type 0} (I : OsObject O) where
  unfoldable pub p11_object_init : O → InitResult O
  p11_object_init o =
      extend I p11_object_attributes (record { initialized = true; object = o; attributes = [] })

  unfoldable pub p11_data_obj_init : O → InitResult O
  p11_data_obj_init o =
      extend I p11_data_obj_attributes
        (p11_object_init (require I cka_class cko_vendor_defined cko_data o))

  unfoldable pub p11_certificate_obj_init : O → InitResult O
  p11_certificate_obj_init o = extend I p11_certificate_obj_attributes (
      p11_object_init
        (default_private I (require I cka_class cko_vendor_defined cko_certificate o)))

  unfoldable pub p11_x509_certificate_obj_init : O → InitResult O
  p11_x509_certificate_obj_init o =
      extend I p11_x509_certificate_obj_attributes
        (p11_certificate_obj_init (require I cka_certificate_type ckc_vendor_defined ckc_x_509 o))

  unfoldable pub p11_open_pgp_public_key_obj_init : O → InitResult O
  p11_open_pgp_public_key_obj_init o =
      extend I p11_open_pgp_public_key_obj_attributes
        (p11_certificate_obj_init (require I cka_certificate_type ckc_vendor_defined ckc_openpgp o))

  unfoldable pub p11_key_obj_init : O → InitResult O
  p11_key_obj_init o = extend I p11_key_obj_attributes (p11_object_init o)

  unfoldable pub p11_public_key_obj_init : O → InitResult O
  p11_public_key_obj_init o = extend I p11_public_key_obj_attributes (
      p11_key_obj_init
        (default_private I (require I cka_class cko_vendor_defined cko_public_key o)))

  unfoldable pub p11_rsa_public_key_obj_init : O → InitResult O
  p11_rsa_public_key_obj_init o =
      extend I p11_rsa_public_key_obj_attributes
        (p11_public_key_obj_init (require I cka_key_type ckk_vendor_defined ckk_rsa o))

  unfoldable pub p11_dsa_public_key_obj_init : O → InitResult O
  p11_dsa_public_key_obj_init o =
      extend I p11_dsa_public_key_obj_attributes
        (p11_public_key_obj_init (require I cka_key_type ckk_vendor_defined ckk_dsa o))

  unfoldable pub p11_ec_public_key_obj_init : O → InitResult O
  p11_ec_public_key_obj_init o =
      extend I p11_ec_public_key_obj_attributes
        (p11_public_key_obj_init (require I cka_key_type ckk_vendor_defined ckk_ec o))

  unfoldable pub p11_dh_public_key_obj_init : O → InitResult O
  p11_dh_public_key_obj_init o =
      extend I p11_dh_public_key_obj_attributes
        (p11_public_key_obj_init (require I cka_key_type ckk_vendor_defined ckk_dh o))

  unfoldable pub p11_gost_public_key_obj_init : O → InitResult O
  p11_gost_public_key_obj_init o =
      extend I p11_gost_public_key_obj_attributes
        (p11_public_key_obj_init (require I cka_key_type ckk_vendor_defined ckk_gostr3410 o))

  unfoldable pub p11_private_key_obj_init : O → InitResult O
  p11_private_key_obj_init o =
      extend I p11_private_key_obj_attributes
        (p11_key_obj_init (require I cka_class cko_vendor_defined cko_private_key o))

  unfoldable pub p11_rsa_private_key_obj_init : O → InitResult O
  p11_rsa_private_key_obj_init o =
      extend I p11_rsa_private_key_obj_attributes
        (p11_private_key_obj_init (require I cka_key_type ckk_vendor_defined ckk_rsa o))

  unfoldable pub p11_dsa_private_key_obj_init : O → InitResult O
  p11_dsa_private_key_obj_init o =
      extend I p11_dsa_private_key_obj_attributes
        (p11_private_key_obj_init (require I cka_key_type ckk_vendor_defined ckk_dsa o))

  unfoldable pub p11_ec_private_key_obj_init : O → InitResult O
  p11_ec_private_key_obj_init o =
      extend I p11_ec_private_key_obj_attributes
        (p11_private_key_obj_init (require I cka_key_type ckk_vendor_defined ckk_ec o))

  unfoldable pub p11_dh_private_key_obj_init : O → InitResult O
  p11_dh_private_key_obj_init o =
      extend I p11_dh_private_key_obj_attributes
        (p11_private_key_obj_init (require I cka_key_type ckk_vendor_defined ckk_dh o))

  unfoldable pub p11_gost_private_key_obj_init : O → InitResult O
  p11_gost_private_key_obj_init o =
      extend I p11_gost_private_key_obj_attributes
        (p11_private_key_obj_init (require I cka_key_type ckk_vendor_defined ckk_gostr3410 o))

  unfoldable pub p11_secret_key_obj_init : O → InitResult O
  p11_secret_key_obj_init o =
      extend I p11_secret_key_obj_attributes
        (p11_key_obj_init (require I cka_class cko_vendor_defined cko_secret_key o))

  unfoldable pub p11_generic_secret_key_obj_init : ℕ → O → InitResult O
  p11_generic_secret_key_obj_init key_type o =
      extend I p11_generic_secret_key_obj_attributes
        (p11_secret_key_obj_init (require I cka_key_type ckk_vendor_defined key_type o))

  unfoldable pub p11_aes_secret_key_obj_init : O → InitResult O
  p11_aes_secret_key_obj_init o =
      extend I p11_aes_secret_key_obj_attributes
        (p11_secret_key_obj_init (require I cka_key_type ckk_vendor_defined ckk_aes o))

  unfoldable pub p11_des_secret_key_obj_init : ℕ → O → InitResult O
  p11_des_secret_key_obj_init key_type o =
      extend I p11_des_secret_key_obj_attributes
        (p11_secret_key_obj_init (require I cka_key_type ckk_vendor_defined key_type o))

  unfoldable pub p11_gost_secret_key_obj_init : O → InitResult O
  p11_gost_secret_key_obj_init o =
      extend I p11_gost_secret_key_obj_attributes
        (p11_secret_key_obj_init (require I cka_key_type ckk_vendor_defined ckk_gost28147 o))

  unfoldable pub p11_domain_obj_init : O → InitResult O
  p11_domain_obj_init o =
      extend I p11_domain_obj_attributes
        (p11_object_init (require I cka_class cko_vendor_defined cko_domain_parameters o))

  unfoldable pub p11_dsa_domain_obj_init : O → InitResult O
  p11_dsa_domain_obj_init o =
      extend I p11_dsa_domain_obj_attributes
        (p11_domain_obj_init (require I cka_key_type ckk_vendor_defined ckk_dsa o))

  unfoldable pub p11_dh_domain_obj_init : O → InitResult O
  p11_dh_domain_obj_init o =
      extend I p11_dh_domain_obj_attributes
        (p11_domain_obj_init (require I cka_key_type ckk_vendor_defined ckk_dh o))
