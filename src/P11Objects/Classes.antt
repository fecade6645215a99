-- ===== src/P11Objects/Classes.antt =====
-- SoftHSMv2/src/lib/P11Objects.cpp: the attributes of every class of objects are proper, whatever its init found.
use archive_aaf_sshsm.Common.{
  ℕ, ◌≡◌, refl, subst, inl, inr, Bool, true, ◌&&◌, some, List, [], ◌∷◌, arith, ◌==◌, Bool-cases,
  Option-cases,
}
use archive_aaf_sshsm.Common.Map.{Map, insert, lookup-insert}
use archive_aaf_sshsm.Cryptoki.Attributes.{
  cka_class, cka_certificate_type, cka_key_type, ckc_x_509, ckc_vendor_defined, ckc_openpgp,
  ckk_rsa, ckk_dsa, ckk_dh, ckk_ec, ckk_aes, ckk_gostr3410, ckk_gost28147, ckk_vendor_defined,
  cko_data, cko_certificate, cko_public_key, cko_private_key, cko_secret_key, cko_domain_parameters,
  cko_vendor_defined,
}
use archive_aaf_sshsm.OsObject.{OsObject}
use archive_aaf_sshsm.P11Attributes.{P11Attribute, has}
use archive_aaf_sshsm.P11Objects.{InitResult, add_all, init_all, require, default_private, extend}
use archive_aaf_sshsm.P11Objects.Attributes.{
  p11_object_attributes, p11_data_obj_attributes, p11_certificate_obj_attributes,
  p11_x509_certificate_obj_attributes, p11_open_pgp_public_key_obj_attributes,
  p11_key_obj_attributes, p11_public_key_obj_attributes, p11_rsa_public_key_obj_attributes,
  p11_dsa_public_key_obj_attributes, p11_ec_public_key_obj_attributes,
  p11_dh_public_key_obj_attributes, p11_gost_public_key_obj_attributes,
  p11_private_key_obj_attributes, p11_rsa_private_key_obj_attributes,
  p11_dsa_private_key_obj_attributes, p11_ec_private_key_obj_attributes,
  p11_dh_private_key_obj_attributes, p11_gost_private_key_obj_attributes,
  p11_secret_key_obj_attributes, p11_generic_secret_key_obj_attributes,
  p11_aes_secret_key_obj_attributes, p11_des_secret_key_obj_attributes,
  p11_gost_secret_key_obj_attributes, p11_domain_obj_attributes, p11_dsa_domain_obj_attributes,
  p11_dh_domain_obj_attributes,
}
use archive_aaf_sshsm.P11Objects.Init.{
  p11_object_init, p11_data_obj_init, p11_certificate_obj_init, p11_x509_certificate_obj_init,
  p11_open_pgp_public_key_obj_init, p11_key_obj_init, p11_public_key_obj_init,
  p11_rsa_public_key_obj_init, p11_dsa_public_key_obj_init, p11_ec_public_key_obj_init,
  p11_dh_public_key_obj_init, p11_gost_public_key_obj_init, p11_private_key_obj_init,
  p11_rsa_private_key_obj_init, p11_dsa_private_key_obj_init, p11_ec_private_key_obj_init,
  p11_dh_private_key_obj_init, p11_gost_private_key_obj_init, p11_secret_key_obj_init,
  p11_generic_secret_key_obj_init, p11_aes_secret_key_obj_init, p11_des_secret_key_obj_init,
  p11_gost_secret_key_obj_init, p11_domain_obj_init, p11_dsa_domain_obj_init,
  p11_dh_domain_obj_init,
}
use archive_aaf_sshsm.P11Objects.Factory.{
  ObjectClass, data_object, x509_certificate_object, open_pgp_public_key_object,
  rsa_public_key_object, dsa_public_key_object, ec_public_key_object, dh_public_key_object,
  gost_public_key_object, rsa_private_key_object, dsa_private_key_object, ec_private_key_object,
  dh_private_key_object, gost_private_key_object, generic_secret_key_object, aes_secret_key_object,
  des_secret_key_object, gost_secret_key_object, dsa_domain_object, dh_domain_object, init_class,
  object_class, new_p11_object,
}
use archive_aaf_sshsm.P11Objects.Ratchet.{is_proper, IsProper}

abbrev all_proper : List P11Attribute → Bool
all_proper [] = true
all_proper (a ∷ rest) = is_proper a.type a && all_proper rest

insert-IsProper :
    (m : Map P11Attribute) (b : P11Attribute)
    → is_proper b.type b ≡ true
    → IsProper m
    → IsProper (insert b.type b m)
insert-IsProper m b h proper t a found = elim (Bool-cases (b.type == t)) [
  | inl here ↦ ground (arith, lookup-insert b.type t b m)
  | inr away ↦ proper t a (ground (arith, lookup-insert b.type t b m))
]

add_all-IsProper :
    (own : List P11Attribute) (m : Map P11Attribute)
    → all_proper own ≡ true
    → IsProper m
    → IsProper (add_all own m)
unfolding add_all
add_all-IsProper [] m h proper = proper
add_all-IsProper (a ∷ rest) m h proper =
    add_all-IsProper rest (insert a.type a m) (ground arith)
      (insert-IsProper m a (ground arith) proper)

module _ {O : Type 0} (I : OsObject O) where
  extend-IsProper :
      (own : List P11Attribute) (r : InitResult O)
      → all_proper own ≡ true
      → IsProper r.attributes
      → IsProper (extend I own r).attributes
  unfolding extend
  extend-IsProper own r h proper = elim (Bool-cases r.initialized) [
    | inl fresh ↦ elim (Bool-cases (init_all I own r.object).0) [
      | inl done ↦ rw (fresh, done, extend) (add_all-IsProper own r.attributes h proper)
      | inr failed ↦ rw (fresh, failed, extend) proper
    ]
    | inr failed ↦ rw (failed, extend) proper
  ]

  p11_object_init-IsProper : (o : O) → IsProper (p11_object_init I o).attributes
  unfolding p11_object_init has
  p11_object_init-IsProper o =
      extend-IsProper p11_object_attributes
        (record { initialized = true; object = o; attributes = [] }) refl
        (λ t a found. absurd (ground arith))

  p11_data_obj_init-IsProper : (o : O) → IsProper (p11_data_obj_init I o).attributes
  unfolding p11_data_obj_init has
  p11_data_obj_init-IsProper o =
      extend-IsProper p11_data_obj_attributes
        (p11_object_init I (require I cka_class cko_vendor_defined cko_data o)) refl
        (p11_object_init-IsProper (require I cka_class cko_vendor_defined cko_data o))

  p11_certificate_obj_init-IsProper : (o : O) → IsProper (p11_certificate_obj_init I o).attributes
  unfolding p11_certificate_obj_init has
  p11_certificate_obj_init-IsProper o =
      extend-IsProper p11_certificate_obj_attributes
        (p11_object_init I
          (default_private I (require I cka_class cko_vendor_defined cko_certificate o)))
        refl
        (p11_object_init-IsProper
          (default_private I (require I cka_class cko_vendor_defined cko_certificate o)))

  p11_x509_certificate_obj_init-IsProper :
      (o : O) → IsProper (p11_x509_certificate_obj_init I o).attributes
  unfolding p11_x509_certificate_obj_init has
  p11_x509_certificate_obj_init-IsProper o =
      extend-IsProper p11_x509_certificate_obj_attributes
        (p11_certificate_obj_init I (require I cka_certificate_type ckc_vendor_defined ckc_x_509 o))
        refl
        (p11_certificate_obj_init-IsProper
          (require I cka_certificate_type ckc_vendor_defined ckc_x_509 o))

  p11_open_pgp_public_key_obj_init-IsProper :
      (o : O) → IsProper (p11_open_pgp_public_key_obj_init I o).attributes
  unfolding p11_open_pgp_public_key_obj_init has
  p11_open_pgp_public_key_obj_init-IsProper o =
      extend-IsProper p11_open_pgp_public_key_obj_attributes
        (p11_certificate_obj_init I
          (require I cka_certificate_type ckc_vendor_defined ckc_openpgp o))
        refl
        (p11_certificate_obj_init-IsProper
          (require I cka_certificate_type ckc_vendor_defined ckc_openpgp o))

  p11_key_obj_init-IsProper : (o : O) → IsProper (p11_key_obj_init I o).attributes
  unfolding p11_key_obj_init has
  p11_key_obj_init-IsProper o =
      extend-IsProper p11_key_obj_attributes (p11_object_init I o) refl (p11_object_init-IsProper o)

  p11_public_key_obj_init-IsProper : (o : O) → IsProper (p11_public_key_obj_init I o).attributes
  unfolding p11_public_key_obj_init has
  p11_public_key_obj_init-IsProper o =
      extend-IsProper p11_public_key_obj_attributes
        (p11_key_obj_init I
          (default_private I (require I cka_class cko_vendor_defined cko_public_key o)))
        refl
        (p11_key_obj_init-IsProper
          (default_private I (require I cka_class cko_vendor_defined cko_public_key o)))

  p11_rsa_public_key_obj_init-IsProper :
      (o : O) → IsProper (p11_rsa_public_key_obj_init I o).attributes
  unfolding p11_rsa_public_key_obj_init has
  p11_rsa_public_key_obj_init-IsProper o =
      extend-IsProper p11_rsa_public_key_obj_attributes
        (p11_public_key_obj_init I (require I cka_key_type ckk_vendor_defined ckk_rsa o)) refl
        (p11_public_key_obj_init-IsProper (require I cka_key_type ckk_vendor_defined ckk_rsa o))

  p11_dsa_public_key_obj_init-IsProper :
      (o : O) → IsProper (p11_dsa_public_key_obj_init I o).attributes
  unfolding p11_dsa_public_key_obj_init has
  p11_dsa_public_key_obj_init-IsProper o =
      extend-IsProper p11_dsa_public_key_obj_attributes
        (p11_public_key_obj_init I (require I cka_key_type ckk_vendor_defined ckk_dsa o)) refl
        (p11_public_key_obj_init-IsProper (require I cka_key_type ckk_vendor_defined ckk_dsa o))

  p11_ec_public_key_obj_init-IsProper :
      (o : O) → IsProper (p11_ec_public_key_obj_init I o).attributes
  unfolding p11_ec_public_key_obj_init has
  p11_ec_public_key_obj_init-IsProper o =
      extend-IsProper p11_ec_public_key_obj_attributes
        (p11_public_key_obj_init I (require I cka_key_type ckk_vendor_defined ckk_ec o)) refl
        (p11_public_key_obj_init-IsProper (require I cka_key_type ckk_vendor_defined ckk_ec o))

  p11_dh_public_key_obj_init-IsProper :
      (o : O) → IsProper (p11_dh_public_key_obj_init I o).attributes
  unfolding p11_dh_public_key_obj_init has
  p11_dh_public_key_obj_init-IsProper o =
      extend-IsProper p11_dh_public_key_obj_attributes
        (p11_public_key_obj_init I (require I cka_key_type ckk_vendor_defined ckk_dh o)) refl
        (p11_public_key_obj_init-IsProper (require I cka_key_type ckk_vendor_defined ckk_dh o))

  p11_gost_public_key_obj_init-IsProper :
      (o : O) → IsProper (p11_gost_public_key_obj_init I o).attributes
  unfolding p11_gost_public_key_obj_init has
  p11_gost_public_key_obj_init-IsProper o =
      extend-IsProper p11_gost_public_key_obj_attributes
        (p11_public_key_obj_init I (require I cka_key_type ckk_vendor_defined ckk_gostr3410 o)) refl
        (p11_public_key_obj_init-IsProper
          (require I cka_key_type ckk_vendor_defined ckk_gostr3410 o))

  p11_private_key_obj_init-IsProper : (o : O) → IsProper (p11_private_key_obj_init I o).attributes
  unfolding p11_private_key_obj_init has
  p11_private_key_obj_init-IsProper o =
      extend-IsProper p11_private_key_obj_attributes
        (p11_key_obj_init I (require I cka_class cko_vendor_defined cko_private_key o)) refl
        (p11_key_obj_init-IsProper (require I cka_class cko_vendor_defined cko_private_key o))

  p11_rsa_private_key_obj_init-IsProper :
      (o : O) → IsProper (p11_rsa_private_key_obj_init I o).attributes
  unfolding p11_rsa_private_key_obj_init has
  p11_rsa_private_key_obj_init-IsProper o =
      extend-IsProper p11_rsa_private_key_obj_attributes
        (p11_private_key_obj_init I (require I cka_key_type ckk_vendor_defined ckk_rsa o)) refl
        (p11_private_key_obj_init-IsProper (require I cka_key_type ckk_vendor_defined ckk_rsa o))

  p11_dsa_private_key_obj_init-IsProper :
      (o : O) → IsProper (p11_dsa_private_key_obj_init I o).attributes
  unfolding p11_dsa_private_key_obj_init has
  p11_dsa_private_key_obj_init-IsProper o =
      extend-IsProper p11_dsa_private_key_obj_attributes
        (p11_private_key_obj_init I (require I cka_key_type ckk_vendor_defined ckk_dsa o)) refl
        (p11_private_key_obj_init-IsProper (require I cka_key_type ckk_vendor_defined ckk_dsa o))

  p11_ec_private_key_obj_init-IsProper :
      (o : O) → IsProper (p11_ec_private_key_obj_init I o).attributes
  unfolding p11_ec_private_key_obj_init has
  p11_ec_private_key_obj_init-IsProper o =
      extend-IsProper p11_ec_private_key_obj_attributes
        (p11_private_key_obj_init I (require I cka_key_type ckk_vendor_defined ckk_ec o)) refl
        (p11_private_key_obj_init-IsProper (require I cka_key_type ckk_vendor_defined ckk_ec o))

  p11_dh_private_key_obj_init-IsProper :
      (o : O) → IsProper (p11_dh_private_key_obj_init I o).attributes
  unfolding p11_dh_private_key_obj_init has
  p11_dh_private_key_obj_init-IsProper o =
      extend-IsProper p11_dh_private_key_obj_attributes
        (p11_private_key_obj_init I (require I cka_key_type ckk_vendor_defined ckk_dh o)) refl
        (p11_private_key_obj_init-IsProper (require I cka_key_type ckk_vendor_defined ckk_dh o))

  p11_gost_private_key_obj_init-IsProper :
      (o : O) → IsProper (p11_gost_private_key_obj_init I o).attributes
  unfolding p11_gost_private_key_obj_init has
  p11_gost_private_key_obj_init-IsProper o =
      extend-IsProper p11_gost_private_key_obj_attributes
        (p11_private_key_obj_init I (require I cka_key_type ckk_vendor_defined ckk_gostr3410 o))
        refl
        (p11_private_key_obj_init-IsProper
          (require I cka_key_type ckk_vendor_defined ckk_gostr3410 o))

  p11_secret_key_obj_init-IsProper : (o : O) → IsProper (p11_secret_key_obj_init I o).attributes
  unfolding p11_secret_key_obj_init has
  p11_secret_key_obj_init-IsProper o =
      extend-IsProper p11_secret_key_obj_attributes
        (p11_key_obj_init I (require I cka_class cko_vendor_defined cko_secret_key o)) refl
        (p11_key_obj_init-IsProper (require I cka_class cko_vendor_defined cko_secret_key o))

  p11_generic_secret_key_obj_init-IsProper :
      (key_type : ℕ) (o : O) → IsProper (p11_generic_secret_key_obj_init I key_type o).attributes
  unfolding p11_generic_secret_key_obj_init has
  p11_generic_secret_key_obj_init-IsProper key_type o =
      extend-IsProper p11_generic_secret_key_obj_attributes
        (p11_secret_key_obj_init I (require I cka_key_type ckk_vendor_defined key_type o)) refl
        (p11_secret_key_obj_init-IsProper (require I cka_key_type ckk_vendor_defined key_type o))

  p11_aes_secret_key_obj_init-IsProper :
      (o : O) → IsProper (p11_aes_secret_key_obj_init I o).attributes
  unfolding p11_aes_secret_key_obj_init has
  p11_aes_secret_key_obj_init-IsProper o =
      extend-IsProper p11_aes_secret_key_obj_attributes
        (p11_secret_key_obj_init I (require I cka_key_type ckk_vendor_defined ckk_aes o)) refl
        (p11_secret_key_obj_init-IsProper (require I cka_key_type ckk_vendor_defined ckk_aes o))

  p11_des_secret_key_obj_init-IsProper :
      (key_type : ℕ) (o : O) → IsProper (p11_des_secret_key_obj_init I key_type o).attributes
  unfolding p11_des_secret_key_obj_init has
  p11_des_secret_key_obj_init-IsProper key_type o =
      extend-IsProper p11_des_secret_key_obj_attributes
        (p11_secret_key_obj_init I (require I cka_key_type ckk_vendor_defined key_type o)) refl
        (p11_secret_key_obj_init-IsProper (require I cka_key_type ckk_vendor_defined key_type o))

  p11_gost_secret_key_obj_init-IsProper :
      (o : O) → IsProper (p11_gost_secret_key_obj_init I o).attributes
  unfolding p11_gost_secret_key_obj_init has
  p11_gost_secret_key_obj_init-IsProper o =
      extend-IsProper p11_gost_secret_key_obj_attributes
        (p11_secret_key_obj_init I (require I cka_key_type ckk_vendor_defined ckk_gost28147 o)) refl
        (p11_secret_key_obj_init-IsProper
          (require I cka_key_type ckk_vendor_defined ckk_gost28147 o))

  p11_domain_obj_init-IsProper : (o : O) → IsProper (p11_domain_obj_init I o).attributes
  unfolding p11_domain_obj_init has
  p11_domain_obj_init-IsProper o =
      extend-IsProper p11_domain_obj_attributes
        (p11_object_init I (require I cka_class cko_vendor_defined cko_domain_parameters o)) refl
        (p11_object_init-IsProper (require I cka_class cko_vendor_defined cko_domain_parameters o))

  p11_dsa_domain_obj_init-IsProper : (o : O) → IsProper (p11_dsa_domain_obj_init I o).attributes
  unfolding p11_dsa_domain_obj_init has
  p11_dsa_domain_obj_init-IsProper o =
      extend-IsProper p11_dsa_domain_obj_attributes
        (p11_domain_obj_init I (require I cka_key_type ckk_vendor_defined ckk_dsa o)) refl
        (p11_domain_obj_init-IsProper (require I cka_key_type ckk_vendor_defined ckk_dsa o))

  p11_dh_domain_obj_init-IsProper : (o : O) → IsProper (p11_dh_domain_obj_init I o).attributes
  unfolding p11_dh_domain_obj_init has
  p11_dh_domain_obj_init-IsProper o =
      extend-IsProper p11_dh_domain_obj_attributes
        (p11_domain_obj_init I (require I cka_key_type ckk_vendor_defined ckk_dh o)) refl
        (p11_domain_obj_init-IsProper (require I cka_key_type ckk_vendor_defined ckk_dh o))

-- Every object that newP11Object makes has proper attributes.
module _ {O : Type 0} (I : OsObject O) where
  init_class-IsProper : (c : ObjectClass) (o : O) → IsProper (init_class I c o).attributes
  unfolding init_class
  init_class-IsProper data_object o = p11_data_obj_init-IsProper I o
  init_class-IsProper x509_certificate_object o = p11_x509_certificate_obj_init-IsProper I o
  init_class-IsProper open_pgp_public_key_object o = p11_open_pgp_public_key_obj_init-IsProper I o
  init_class-IsProper rsa_public_key_object o = p11_rsa_public_key_obj_init-IsProper I o
  init_class-IsProper dsa_public_key_object o = p11_dsa_public_key_obj_init-IsProper I o
  init_class-IsProper ec_public_key_object o = p11_ec_public_key_obj_init-IsProper I o
  init_class-IsProper dh_public_key_object o = p11_dh_public_key_obj_init-IsProper I o
  init_class-IsProper gost_public_key_object o = p11_gost_public_key_obj_init-IsProper I o
  init_class-IsProper rsa_private_key_object o = p11_rsa_private_key_obj_init-IsProper I o
  init_class-IsProper dsa_private_key_object o = p11_dsa_private_key_obj_init-IsProper I o
  init_class-IsProper ec_private_key_object o = p11_ec_private_key_obj_init-IsProper I o
  init_class-IsProper dh_private_key_object o = p11_dh_private_key_obj_init-IsProper I o
  init_class-IsProper gost_private_key_object o = p11_gost_private_key_obj_init-IsProper I o
  init_class-IsProper (generic_secret_key_object key_type) o =
      p11_generic_secret_key_obj_init-IsProper I key_type o
  init_class-IsProper aes_secret_key_object o = p11_aes_secret_key_obj_init-IsProper I o
  init_class-IsProper (des_secret_key_object key_type) o =
      p11_des_secret_key_obj_init-IsProper I key_type o
  init_class-IsProper gost_secret_key_object o = p11_gost_secret_key_obj_init-IsProper I o
  init_class-IsProper dsa_domain_object o = p11_dsa_domain_obj_init-IsProper I o
  init_class-IsProper dh_domain_object o = p11_dh_domain_obj_init-IsProper I o

  pub new_p11_object-IsProper :
      (o : O) (r : InitResult O) → (new_p11_object I o).1 ≡ some r → IsProper r.attributes
  unfolding new_p11_object
  new_p11_object-IsProper o r made = elim (Option-cases (object_class I o)) [
    | inl unknown ↦ absurd (ground (arith, unknown))
    | inr (c, known) ↦
        let same : init_class I c o ≡ r = ground (arith, known) in
        subst (λ x. IsProper x.attributes) same (init_class-IsProper c o)
  ]
