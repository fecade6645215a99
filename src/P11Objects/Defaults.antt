-- ===== src/P11Objects/Defaults.antt =====
-- SoftHSMv2/src/lib/P11Objects.cpp: an init gives an object the attributes that it lacks and leaves those that
-- it has, but for its class, its key type and its certificate type.
use archive_aaf_sshsm.Common.{
  ℕ, ◌≡◌, ap, subst, inl, inr, Bool, true, false, ◌||◌, some, List, [], ◌∷◌, arith, ◌==◌,
  Bool-cases, Option-cases,
}
use archive_aaf_sshsm.Cryptoki.Attributes.{
  cka_class, cka_private, cka_certificate_type, cka_key_type, ckc_x_509, ckc_vendor_defined,
  ckc_openpgp, ckk_rsa, ckk_dsa, ckk_dh, ckk_ec, ckk_aes, ckk_gostr3410, ckk_gost28147,
  ckk_vendor_defined, cko_data, cko_certificate, cko_public_key, cko_private_key, cko_secret_key,
  cko_domain_parameters, cko_vendor_defined,
}
use archive_aaf_sshsm.OsObject.{OsAttribute, ulong, boolean, OsObject, OsObjectLaws, present}
use archive_aaf_sshsm.P11Attributes
use archive_aaf_sshsm.P11Attributes.{P11Attribute, set_default}
use archive_aaf_sshsm.P11Objects.{InitResult, init_all, require, default_private, extend}
use archive_aaf_sshsm.P11Objects.Attributes.{
  p11_object_attributes, p11_data_obj_attributes, p11_certificate_obj_attributes,
  p11_x509_certificate_obj_attributes, p11_open_pgp_public_key_obj_attributes,
  p11_key_obj_attributes, p11_public_key_obj_attributes, p11_rsa_public_key_obj_attributes,
  p11_dsa_public_key_obj_attributes, p11_ec_public_key_obj_attributes,
  p11_dh_public_key_obj_attributes, p11_gost_public_key_obj_attributes,
  p11_private_key_obj_attributes, p11_rsa_private_key_obj_attributes,
  p11_dsa_private_key_obj_attributes, p11_ec_private_key_obj_attributes,
  p11_dh_private_key_obj_attributes, p11_gost_private_key_obj_attributes,
  p11_secret_key_obj_attributes, p11_generic_secret_key_obj_attributes,
  p11_aes_secret_key_obj_attributes, p11_des_secret_key_obj_attributes,
  p11_gost_secret_key_obj_attributes, p11_domain_obj_attributes, p11_dsa_domain_obj_attributes,
  p11_dh_domain_obj_attributes,
}
use archive_aaf_sshsm.P11Objects.Init.{
  p11_object_init, p11_data_obj_init, p11_certificate_obj_init, p11_x509_certificate_obj_init,
  p11_open_pgp_public_key_obj_init, p11_key_obj_init, p11_public_key_obj_init,
  p11_rsa_public_key_obj_init, p11_dsa_public_key_obj_init, p11_ec_public_key_obj_init,
  p11_dh_public_key_obj_init, p11_gost_public_key_obj_init, p11_private_key_obj_init,
  p11_rsa_private_key_obj_init, p11_dsa_private_key_obj_init, p11_ec_private_key_obj_init,
  p11_dh_private_key_obj_init, p11_gost_private_key_obj_init, p11_secret_key_obj_init,
  p11_generic_secret_key_obj_init, p11_aes_secret_key_obj_init, p11_des_secret_key_obj_init,
  p11_gost_secret_key_obj_init, p11_domain_obj_init, p11_dsa_domain_obj_init,
  p11_dh_domain_obj_init,
}
use archive_aaf_sshsm.P11Objects.Factory.{
  ObjectClass, data_object, x509_certificate_object, open_pgp_public_key_object,
  rsa_public_key_object, dsa_public_key_object, ec_public_key_object, dh_public_key_object,
  gost_public_key_object, rsa_private_key_object, dsa_private_key_object, ec_private_key_object,
  dh_private_key_object, gost_private_key_object, generic_secret_key_object, aes_secret_key_object,
  des_secret_key_object, gost_secret_key_object, dsa_domain_object, dh_domain_object, init_class,
  object_class, new_p11_object,
}

-- The attributes that say of which class an object is.
abbrev pub is_kind : ℕ → Bool
is_kind u = (u == cka_class) || ((u == cka_key_type) || (u == cka_certificate_type))

module _ {O : Type 0} {I : OsObject O} (L : OsObjectLaws I) (u : ℕ) (v : OsAttribute)
    (kept : is_kind u ≡ false) where
  abbrev Has : O → Type 0
  Has o = L.view u o ≡ some v

  require-Has : (t val value : ℕ) (o : O) → (u == t) ≡ false → Has o → Has (require I t val value o)
  unfolding require
  require-Has t val value o h has = ground (arith, h, has, L.set_view t u (ulong value) o)

  -- An attribute that was missing is not the one that is there.
  set_missing-Has :
      (t : ℕ) (a : OsAttribute) (o : O)
      → I.attribute_exists t o ≡ false
      → Has o
      → Has (I.set_attribute t a o).1
  set_missing-Has t a o missing has = elim (Bool-cases (u == t)) [
    | inl here ↦
        let typed : u ≡ t = ground (arith, here) in
        absurd (
          ground (
            arith,
            missing,
            L.exists_view t o,
            ap present has,
            ap (λ n. present (L.view n o)) typed,
          ))
    | inr away ↦ ground (arith, away, has, L.set_view t u a o)
  ]

  default_private-Has : (o : O) → Has o → Has (default_private I o)
  unfolding default_private
  default_private-Has o has = elim (Bool-cases (I.attribute_exists cka_private o)) [
    | inl there ↦ ground (arith, there, has)
    | inr missing ↦
        ground (arith, missing, set_missing-Has cka_private (boolean false) o missing has)
  ]

  init-Has : (a : P11Attribute) (o : O) → Has o → Has (P11Attributes.init I a o).1
  unfolding P11Attributes.init set_default
  init-Has a o has = elim (Bool-cases (I.attribute_exists a.type o)) [
    | inl there ↦ ground (arith, there, has)
    | inr missing ↦ ground (arith, missing, set_missing-Has a.type a.default o missing has)
  ]

  init_all-Has : (own : List P11Attribute) (o : O) → Has o → Has (init_all I own o).1
  unfolding init_all
  init_all-Has [] o has = has
  init_all-Has (a ∷ rest) o has =
      let first = init-Has a o has in
      ground (arith, first, init_all-Has rest (P11Attributes.init I a o).1 first)

  extend-Has :
      (own : List P11Attribute) (r : InitResult O) → Has r.object → Has (extend I own r).object
  unfolding extend
  extend-Has own r has = ground (arith, has, init_all-Has own r.object has)

  p11_object_init-Has : (o : O) → Has o → Has (p11_object_init I o).object
  unfolding p11_object_init
  p11_object_init-Has o has =
      extend-Has p11_object_attributes (record { initialized = true; object = o; attributes = [] })
        has

  p11_data_obj_init-Has : (o : O) → Has o → Has (p11_data_obj_init I o).object
  unfolding p11_data_obj_init
  p11_data_obj_init-Has o has =
      extend-Has p11_data_obj_attributes
        (p11_object_init I (require I cka_class cko_vendor_defined cko_data o))
        (p11_object_init-Has (require I cka_class cko_vendor_defined cko_data o)
          (require-Has cka_class cko_vendor_defined cko_data o (ground (arith, kept)) has))

  p11_certificate_obj_init-Has : (o : O) → Has o → Has (p11_certificate_obj_init I o).object
  unfolding p11_certificate_obj_init
  p11_certificate_obj_init-Has o has =
      extend-Has p11_certificate_obj_attributes
        (p11_object_init I
          (default_private I (require I cka_class cko_vendor_defined cko_certificate o)))
        (p11_object_init-Has
          (default_private I (require I cka_class cko_vendor_defined cko_certificate o))
          (default_private-Has (require I cka_class cko_vendor_defined cko_certificate o) (
            require-Has cka_class cko_vendor_defined cko_certificate o (ground (arith, kept)) has)))

  p11_x509_certificate_obj_init-Has :
      (o : O) → Has o → Has (p11_x509_certificate_obj_init I o).object
  unfolding p11_x509_certificate_obj_init
  p11_x509_certificate_obj_init-Has o has =
      extend-Has p11_x509_certificate_obj_attributes
        (p11_certificate_obj_init I (require I cka_certificate_type ckc_vendor_defined ckc_x_509 o))
        (p11_certificate_obj_init-Has
          (require I cka_certificate_type ckc_vendor_defined ckc_x_509 o)
          (require-Has cka_certificate_type ckc_vendor_defined ckc_x_509 o (ground (arith, kept))
            has))

  p11_open_pgp_public_key_obj_init-Has :
      (o : O) → Has o → Has (p11_open_pgp_public_key_obj_init I o).object
  unfolding p11_open_pgp_public_key_obj_init
  p11_open_pgp_public_key_obj_init-Has o has =
      extend-Has p11_open_pgp_public_key_obj_attributes
        (p11_certificate_obj_init I
          (require I cka_certificate_type ckc_vendor_defined ckc_openpgp o))
        (p11_certificate_obj_init-Has
          (require I cka_certificate_type ckc_vendor_defined ckc_openpgp o)
          (require-Has cka_certificate_type ckc_vendor_defined ckc_openpgp o (ground (arith, kept))
            has))

  p11_key_obj_init-Has : (o : O) → Has o → Has (p11_key_obj_init I o).object
  unfolding p11_key_obj_init
  p11_key_obj_init-Has o has =
      extend-Has p11_key_obj_attributes (p11_object_init I o) (p11_object_init-Has o has)

  p11_public_key_obj_init-Has : (o : O) → Has o → Has (p11_public_key_obj_init I o).object
  unfolding p11_public_key_obj_init
  p11_public_key_obj_init-Has o has =
      extend-Has p11_public_key_obj_attributes
        (p11_key_obj_init I
          (default_private I (require I cka_class cko_vendor_defined cko_public_key o)))
        (p11_key_obj_init-Has
          (default_private I (require I cka_class cko_vendor_defined cko_public_key o))
          (default_private-Has (require I cka_class cko_vendor_defined cko_public_key o)
            (require-Has cka_class cko_vendor_defined cko_public_key o (ground (arith, kept)) has)))

  p11_rsa_public_key_obj_init-Has : (o : O) → Has o → Has (p11_rsa_public_key_obj_init I o).object
  unfolding p11_rsa_public_key_obj_init
  p11_rsa_public_key_obj_init-Has o has =
      extend-Has p11_rsa_public_key_obj_attributes
        (p11_public_key_obj_init I (require I cka_key_type ckk_vendor_defined ckk_rsa o))
        (p11_public_key_obj_init-Has (require I cka_key_type ckk_vendor_defined ckk_rsa o)
          (require-Has cka_key_type ckk_vendor_defined ckk_rsa o (ground (arith, kept)) has))

  p11_dsa_public_key_obj_init-Has : (o : O) → Has o → Has (p11_dsa_public_key_obj_init I o).object
  unfolding p11_dsa_public_key_obj_init
  p11_dsa_public_key_obj_init-Has o has =
      extend-Has p11_dsa_public_key_obj_attributes
        (p11_public_key_obj_init I (require I cka_key_type ckk_vendor_defined ckk_dsa o))
        (p11_public_key_obj_init-Has (require I cka_key_type ckk_vendor_defined ckk_dsa o)
          (require-Has cka_key_type ckk_vendor_defined ckk_dsa o (ground (arith, kept)) has))

  p11_ec_public_key_obj_init-Has : (o : O) → Has o → Has (p11_ec_public_key_obj_init I o).object
  unfolding p11_ec_public_key_obj_init
  p11_ec_public_key_obj_init-Has o has =
      extend-Has p11_ec_public_key_obj_attributes
        (p11_public_key_obj_init I (require I cka_key_type ckk_vendor_defined ckk_ec o))
        (p11_public_key_obj_init-Has (require I cka_key_type ckk_vendor_defined ckk_ec o)
          (require-Has cka_key_type ckk_vendor_defined ckk_ec o (ground (arith, kept)) has))

  p11_dh_public_key_obj_init-Has : (o : O) → Has o → Has (p11_dh_public_key_obj_init I o).object
  unfolding p11_dh_public_key_obj_init
  p11_dh_public_key_obj_init-Has o has =
      extend-Has p11_dh_public_key_obj_attributes
        (p11_public_key_obj_init I (require I cka_key_type ckk_vendor_defined ckk_dh o))
        (p11_public_key_obj_init-Has (require I cka_key_type ckk_vendor_defined ckk_dh o)
          (require-Has cka_key_type ckk_vendor_defined ckk_dh o (ground (arith, kept)) has))

  p11_gost_public_key_obj_init-Has : (o : O) → Has o → Has (p11_gost_public_key_obj_init I o).object
  unfolding p11_gost_public_key_obj_init
  p11_gost_public_key_obj_init-Has o has =
      extend-Has p11_gost_public_key_obj_attributes
        (p11_public_key_obj_init I (require I cka_key_type ckk_vendor_defined ckk_gostr3410 o))
        (p11_public_key_obj_init-Has (require I cka_key_type ckk_vendor_defined ckk_gostr3410 o)
          (require-Has cka_key_type ckk_vendor_defined ckk_gostr3410 o (ground (arith, kept)) has))

  p11_private_key_obj_init-Has : (o : O) → Has o → Has (p11_private_key_obj_init I o).object
  unfolding p11_private_key_obj_init
  p11_private_key_obj_init-Has o has =
      extend-Has p11_private_key_obj_attributes
        (p11_key_obj_init I (require I cka_class cko_vendor_defined cko_private_key o))
        (p11_key_obj_init-Has (require I cka_class cko_vendor_defined cko_private_key o)
          (require-Has cka_class cko_vendor_defined cko_private_key o (ground (arith, kept)) has))

  p11_rsa_private_key_obj_init-Has : (o : O) → Has o → Has (p11_rsa_private_key_obj_init I o).object
  unfolding p11_rsa_private_key_obj_init
  p11_rsa_private_key_obj_init-Has o has =
      extend-Has p11_rsa_private_key_obj_attributes
        (p11_private_key_obj_init I (require I cka_key_type ckk_vendor_defined ckk_rsa o))
        (p11_private_key_obj_init-Has (require I cka_key_type ckk_vendor_defined ckk_rsa o)
          (require-Has cka_key_type ckk_vendor_defined ckk_rsa o (ground (arith, kept)) has))

  p11_dsa_private_key_obj_init-Has : (o : O) → Has o → Has (p11_dsa_private_key_obj_init I o).object
  unfolding p11_dsa_private_key_obj_init
  p11_dsa_private_key_obj_init-Has o has =
      extend-Has p11_dsa_private_key_obj_attributes
        (p11_private_key_obj_init I (require I cka_key_type ckk_vendor_defined ckk_dsa o))
        (p11_private_key_obj_init-Has (require I cka_key_type ckk_vendor_defined ckk_dsa o)
          (require-Has cka_key_type ckk_vendor_defined ckk_dsa o (ground (arith, kept)) has))

  p11_ec_private_key_obj_init-Has : (o : O) → Has o → Has (p11_ec_private_key_obj_init I o).object
  unfolding p11_ec_private_key_obj_init
  p11_ec_private_key_obj_init-Has o has =
      extend-Has p11_ec_private_key_obj_attributes
        (p11_private_key_obj_init I (require I cka_key_type ckk_vendor_defined ckk_ec o))
        (p11_private_key_obj_init-Has (require I cka_key_type ckk_vendor_defined ckk_ec o)
          (require-Has cka_key_type ckk_vendor_defined ckk_ec o (ground (arith, kept)) has))

  p11_dh_private_key_obj_init-Has : (o : O) → Has o → Has (p11_dh_private_key_obj_init I o).object
  unfolding p11_dh_private_key_obj_init
  p11_dh_private_key_obj_init-Has o has =
      extend-Has p11_dh_private_key_obj_attributes
        (p11_private_key_obj_init I (require I cka_key_type ckk_vendor_defined ckk_dh o))
        (p11_private_key_obj_init-Has (require I cka_key_type ckk_vendor_defined ckk_dh o)
          (require-Has cka_key_type ckk_vendor_defined ckk_dh o (ground (arith, kept)) has))

  p11_gost_private_key_obj_init-Has :
      (o : O) → Has o → Has (p11_gost_private_key_obj_init I o).object
  unfolding p11_gost_private_key_obj_init
  p11_gost_private_key_obj_init-Has o has =
      extend-Has p11_gost_private_key_obj_attributes
        (p11_private_key_obj_init I (require I cka_key_type ckk_vendor_defined ckk_gostr3410 o))
        (p11_private_key_obj_init-Has (require I cka_key_type ckk_vendor_defined ckk_gostr3410 o)
          (require-Has cka_key_type ckk_vendor_defined ckk_gostr3410 o (ground (arith, kept)) has))

  p11_secret_key_obj_init-Has : (o : O) → Has o → Has (p11_secret_key_obj_init I o).object
  unfolding p11_secret_key_obj_init
  p11_secret_key_obj_init-Has o has =
      extend-Has p11_secret_key_obj_attributes
        (p11_key_obj_init I (require I cka_class cko_vendor_defined cko_secret_key o))
        (p11_key_obj_init-Has (require I cka_class cko_vendor_defined cko_secret_key o)
          (require-Has cka_class cko_vendor_defined cko_secret_key o (ground (arith, kept)) has))

  p11_generic_secret_key_obj_init-Has :
      (key_type : ℕ) (o : O) → Has o → Has (p11_generic_secret_key_obj_init I key_type o).object
  unfolding p11_generic_secret_key_obj_init
  p11_generic_secret_key_obj_init-Has key_type o has =
      extend-Has p11_generic_secret_key_obj_attributes
        (p11_secret_key_obj_init I (require I cka_key_type ckk_vendor_defined key_type o))
        (p11_secret_key_obj_init-Has (require I cka_key_type ckk_vendor_defined key_type o)
          (require-Has cka_key_type ckk_vendor_defined key_type o (ground (arith, kept)) has))

  p11_aes_secret_key_obj_init-Has : (o : O) → Has o → Has (p11_aes_secret_key_obj_init I o).object
  unfolding p11_aes_secret_key_obj_init
  p11_aes_secret_key_obj_init-Has o has =
      extend-Has p11_aes_secret_key_obj_attributes
        (p11_secret_key_obj_init I (require I cka_key_type ckk_vendor_defined ckk_aes o))
        (p11_secret_key_obj_init-Has (require I cka_key_type ckk_vendor_defined ckk_aes o)
          (require-Has cka_key_type ckk_vendor_defined ckk_aes o (ground (arith, kept)) has))

  p11_des_secret_key_obj_init-Has :
      (key_type : ℕ) (o : O) → Has o → Has (p11_des_secret_key_obj_init I key_type o).object
  unfolding p11_des_secret_key_obj_init
  p11_des_secret_key_obj_init-Has key_type o has =
      extend-Has p11_des_secret_key_obj_attributes
        (p11_secret_key_obj_init I (require I cka_key_type ckk_vendor_defined key_type o))
        (p11_secret_key_obj_init-Has (require I cka_key_type ckk_vendor_defined key_type o)
          (require-Has cka_key_type ckk_vendor_defined key_type o (ground (arith, kept)) has))

  p11_gost_secret_key_obj_init-Has : (o : O) → Has o → Has (p11_gost_secret_key_obj_init I o).object
  unfolding p11_gost_secret_key_obj_init
  p11_gost_secret_key_obj_init-Has o has =
      extend-Has p11_gost_secret_key_obj_attributes
        (p11_secret_key_obj_init I (require I cka_key_type ckk_vendor_defined ckk_gost28147 o))
        (p11_secret_key_obj_init-Has (require I cka_key_type ckk_vendor_defined ckk_gost28147 o)
          (require-Has cka_key_type ckk_vendor_defined ckk_gost28147 o (ground (arith, kept)) has))

  p11_domain_obj_init-Has : (o : O) → Has o → Has (p11_domain_obj_init I o).object
  unfolding p11_domain_obj_init
  p11_domain_obj_init-Has o has =
      extend-Has p11_domain_obj_attributes
        (p11_object_init I (require I cka_class cko_vendor_defined cko_domain_parameters o))
        (p11_object_init-Has (require I cka_class cko_vendor_defined cko_domain_parameters o) (
          require-Has cka_class cko_vendor_defined cko_domain_parameters o (ground (arith, kept))
            has))

  p11_dsa_domain_obj_init-Has : (o : O) → Has o → Has (p11_dsa_domain_obj_init I o).object
  unfolding p11_dsa_domain_obj_init
  p11_dsa_domain_obj_init-Has o has =
      extend-Has p11_dsa_domain_obj_attributes
        (p11_domain_obj_init I (require I cka_key_type ckk_vendor_defined ckk_dsa o))
        (p11_domain_obj_init-Has (require I cka_key_type ckk_vendor_defined ckk_dsa o)
          (require-Has cka_key_type ckk_vendor_defined ckk_dsa o (ground (arith, kept)) has))

  p11_dh_domain_obj_init-Has : (o : O) → Has o → Has (p11_dh_domain_obj_init I o).object
  unfolding p11_dh_domain_obj_init
  p11_dh_domain_obj_init-Has o has =
      extend-Has p11_dh_domain_obj_attributes
        (p11_domain_obj_init I (require I cka_key_type ckk_vendor_defined ckk_dh o))
        (p11_domain_obj_init-Has (require I cka_key_type ckk_vendor_defined ckk_dh o)
          (require-Has cka_key_type ckk_vendor_defined ckk_dh o (ground (arith, kept)) has))

  init_class-Has : (c : ObjectClass) (o : O) → Has o → Has (init_class I c o).object
  unfolding init_class
  init_class-Has data_object o has = p11_data_obj_init-Has o has
  init_class-Has x509_certificate_object o has = p11_x509_certificate_obj_init-Has o has
  init_class-Has open_pgp_public_key_object o has = p11_open_pgp_public_key_obj_init-Has o has
  init_class-Has rsa_public_key_object o has = p11_rsa_public_key_obj_init-Has o has
  init_class-Has dsa_public_key_object o has = p11_dsa_public_key_obj_init-Has o has
  init_class-Has ec_public_key_object o has = p11_ec_public_key_obj_init-Has o has
  init_class-Has dh_public_key_object o has = p11_dh_public_key_obj_init-Has o has
  init_class-Has gost_public_key_object o has = p11_gost_public_key_obj_init-Has o has
  init_class-Has rsa_private_key_object o has = p11_rsa_private_key_obj_init-Has o has
  init_class-Has dsa_private_key_object o has = p11_dsa_private_key_obj_init-Has o has
  init_class-Has ec_private_key_object o has = p11_ec_private_key_obj_init-Has o has
  init_class-Has dh_private_key_object o has = p11_dh_private_key_obj_init-Has o has
  init_class-Has gost_private_key_object o has = p11_gost_private_key_obj_init-Has o has
  init_class-Has (generic_secret_key_object key_type) o has =
      p11_generic_secret_key_obj_init-Has key_type o has
  init_class-Has aes_secret_key_object o has = p11_aes_secret_key_obj_init-Has o has
  init_class-Has (des_secret_key_object key_type) o has =
      p11_des_secret_key_obj_init-Has key_type o has
  init_class-Has gost_secret_key_object o has = p11_gost_secret_key_obj_init-Has o has
  init_class-Has dsa_domain_object o has = p11_dsa_domain_obj_init-Has o has
  init_class-Has dh_domain_object o has = p11_dh_domain_obj_init-Has o has

  pub new_p11_object-Has :
      (o : O) (r : InitResult O) → (new_p11_object I o).1 ≡ some r → Has o → Has r.object
  unfolding new_p11_object
  new_p11_object-Has o r made has = elim (Option-cases (object_class I o)) [
    | inl unknown ↦ absurd (ground (arith, unknown))
    | inr (c, known) ↦
        let same : init_class I c o ≡ r = ground (arith, known) in
        subst (λ x. Has x.object) same (init_class-Has c o has)
  ]
