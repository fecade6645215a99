-- ===== src/P11Objects/Factory.antt =====
-- SoftHSMv2/src/lib/SoftHSM.cpp: newP11Object, which finds the class of an object and initialises it, and
-- extractObjectInformation, which reads the class and the place of a new object from its template.
use archive_aaf_sshsm.Common.{
  ℕ, Bool, true, false, not, ◌&&◌, ◌||◌, Option, none, some, List, [], ◌∷◌, ◌==◌, if◌then◌else◌,
}
use archive_aaf_sshsm.Cryptoki.{
  CkRv, ok, general_error, attribute_value_invalid, template_incomplete,
}
use archive_aaf_sshsm.Cryptoki.Attributes.{
  cka_class, cka_token, cka_private, cka_certificate_type, cka_key_type, ckc_x_509, ckc_openpgp,
  ckk_rsa, ckk_dsa, ckk_dh, ckk_ec, ckk_aes, ckk_gostr3410, ckk_gost28147, cko_data,
  cko_certificate, cko_public_key, cko_private_key, cko_secret_key, cko_domain_parameters,
  cko_vendor_defined,
}
use archive_aaf_sshsm.OsObject.{OsObject}
use archive_aaf_sshsm.P11Attributes.{TemplateEntry, bool_at, ulong_at}
use archive_aaf_sshsm.P11Attributes.Steps.{symmetric_types, des_types, given}
use archive_aaf_sshsm.P11Attributes.Templates.{one_of}
use archive_aaf_sshsm.P11Objects.{InitResult}
use archive_aaf_sshsm.P11Objects.Init.{
  p11_data_obj_init, p11_x509_certificate_obj_init, p11_open_pgp_public_key_obj_init,
  p11_rsa_public_key_obj_init, p11_dsa_public_key_obj_init, p11_ec_public_key_obj_init,
  p11_dh_public_key_obj_init, p11_gost_public_key_obj_init, p11_rsa_private_key_obj_init,
  p11_dsa_private_key_obj_init, p11_ec_private_key_obj_init, p11_dh_private_key_obj_init,
  p11_gost_private_key_obj_init, p11_generic_secret_key_obj_init, p11_aes_secret_key_obj_init,
  p11_des_secret_key_obj_init, p11_gost_secret_key_obj_init, p11_dsa_domain_obj_init,
  p11_dh_domain_obj_init,
}

-- The classes of which newP11Object makes objects.
pub data ObjectClass : Type 0 where
  data_object x509_certificate_object open_pgp_public_key_object rsa_public_key_object
        dsa_public_key_object ec_public_key_object dh_public_key_object gost_public_key_object
        rsa_private_key_object dsa_private_key_object ec_private_key_object dh_private_key_object
        gost_private_key_object aes_secret_key_object gost_secret_key_object dsa_domain_object
        dh_domain_object :
      ObjectClass
  generic_secret_key_object des_secret_key_object : ℕ → ObjectClass

-- newP11Object(objClass, keyType, certType, ..): `none` is CKR_ATTRIBUTE_VALUE_INVALID.
unfoldable pub class_of : ℕ → ℕ → ℕ → Option ObjectClass
class_of obj_class key_type cert_type =
    if obj_class == cko_data
    then some data_object
    else if obj_class == cko_certificate
    then if cert_type == ckc_x_509
      then some x509_certificate_object
      else if cert_type == ckc_openpgp
      then some open_pgp_public_key_object
      else none
    else if obj_class == cko_public_key
    then if key_type == ckk_rsa
      then some rsa_public_key_object
      else if key_type == ckk_dsa
      then some dsa_public_key_object
      else if key_type == ckk_ec
      then some ec_public_key_object
      else if key_type == ckk_dh
      then some dh_public_key_object
      else if key_type == ckk_gostr3410
      then some gost_public_key_object
      else none
    else if obj_class == cko_private_key
    then if key_type == ckk_rsa
      then some rsa_private_key_object
      else if key_type == ckk_dsa
      then some dsa_private_key_object
      else if key_type == ckk_ec
      then some ec_private_key_object
      else if key_type == ckk_dh
      then some dh_private_key_object
      else if key_type == ckk_gostr3410
      then some gost_private_key_object
      else none
    else if obj_class == cko_secret_key
    then if one_of key_type symmetric_types
      then some (generic_secret_key_object key_type)
      else if key_type == ckk_aes
      then some aes_secret_key_object
      else if one_of key_type des_types
      then some (des_secret_key_object key_type)
      else if key_type == ckk_gost28147
      then some gost_secret_key_object
      else none
    else if obj_class == cko_domain_parameters
    then if key_type == ckk_dsa
      then some dsa_domain_object
      else if key_type == ckk_dh
      then some dh_domain_object
      else none
    else none

module _ {O : Type 0} (I : OsObject O) where
  -- The virtual init.
  unfoldable pub init_class : ObjectClass → O → InitResult O
  init_class data_object o = p11_data_obj_init I o
  init_class x509_certificate_object o = p11_x509_certificate_obj_init I o
  init_class open_pgp_public_key_object o = p11_open_pgp_public_key_obj_init I o
  init_class rsa_public_key_object o = p11_rsa_public_key_obj_init I o
  init_class dsa_public_key_object o = p11_dsa_public_key_obj_init I o
  init_class ec_public_key_object o = p11_ec_public_key_obj_init I o
  init_class dh_public_key_object o = p11_dh_public_key_obj_init I o
  init_class gost_public_key_object o = p11_gost_public_key_obj_init I o
  init_class rsa_private_key_object o = p11_rsa_private_key_obj_init I o
  init_class dsa_private_key_object o = p11_dsa_private_key_obj_init I o
  init_class ec_private_key_object o = p11_ec_private_key_obj_init I o
  init_class dh_private_key_object o = p11_dh_private_key_obj_init I o
  init_class gost_private_key_object o = p11_gost_private_key_obj_init I o
  init_class (generic_secret_key_object key_type) o = p11_generic_secret_key_obj_init I key_type o
  init_class aes_secret_key_object o = p11_aes_secret_key_obj_init I o
  init_class (des_secret_key_object key_type) o = p11_des_secret_key_obj_init I key_type o
  init_class gost_secret_key_object o = p11_gost_secret_key_obj_init I o
  init_class dsa_domain_object o = p11_dsa_domain_obj_init I o
  init_class dh_domain_object o = p11_dh_domain_obj_init I o

  -- The class that an object is of: an RSA key and an X.509 certificate where it does not say.
  unfoldable pub object_class : O → Option ObjectClass
  object_class o =
      class_of (I.get_unsigned_long_value cka_class cko_vendor_defined o)
        (if I.attribute_exists cka_key_type o
          then I.get_unsigned_long_value cka_key_type ckk_rsa o
          else ckk_rsa)
        (if I.attribute_exists cka_certificate_type o
          then I.get_unsigned_long_value cka_certificate_type ckc_x_509 o
          else ckc_x_509)

  -- newP11Object(object, ..)
  unfoldable pub new_p11_object : O → CkRv × Option (InitResult O)
  new_p11_object o =
      given (object_class o) (attribute_value_invalid, none)
        (λ c. let r = init_class c o in (if r.initialized then ok else general_error, some r))

-- What extractObjectInformation finds out; `has_` flags are its local variables.
pub record ObjectInformation : Type 0 where
  pub obj_class : ℕ
  pub key_type : ℕ
  pub cert_type : ℕ
  pub is_on_token : Bool
  pub is_private : Bool
  pub has_class : Bool
  pub has_key_type : Bool
  pub has_cert_type : Bool
  pub has_private : Bool

-- One round of its loop: entries of another length are passed over.
unfoldable pub extract_entry : TemplateEntry → ObjectInformation → ObjectInformation
extract_entry e i =
    if e.type == cka_class
    then if e.ul_value_len == 8
      then record i { obj_class = ulong_at e.p_value; has_class = true }
      else i
    else if e.type == cka_key_type
    then if e.ul_value_len == 8
      then record i { key_type = ulong_at e.p_value; has_key_type = true }
      else i
    else if e.type == cka_certificate_type
    then if e.ul_value_len == 8
      then record i { cert_type = ulong_at e.p_value; has_cert_type = true }
      else i
    else if e.type == cka_token
    then if e.ul_value_len == 1 then record i { is_on_token = bool_at e.p_value } else i
    else if e.type == cka_private
    then if e.ul_value_len == 1
      then record i { is_private = bool_at e.p_value; has_private = true }
      else i
    else i

unfoldable pub extract_all : List TemplateEntry → ObjectInformation → ObjectInformation
extract_all [] i = i
extract_all (e ∷ es) i = extract_all es (extract_entry e i)

unfoldable pub needs_key_type : ℕ → Bool
needs_key_type obj_class =
    (obj_class == cko_public_key)
    || ((obj_class == cko_private_key) || (obj_class == cko_secret_key))

-- extractObjectInformation, from what its caller had set.
unfoldable pub extract_object_information :
    List TemplateEntry → Bool → ObjectInformation → CkRv × ObjectInformation
extract_object_information template implicit start =
    let i = extract_all template start in
    if implicit
    then (ok, i)
    else if not i.has_class
    then (template_incomplete, i)
    else if needs_key_type i.obj_class && not i.has_key_type
    then (template_incomplete, i)
    else if (i.obj_class == cko_certificate) && not i.has_cert_type
    then (template_incomplete, i)
    else if ((i.obj_class == cko_certificate) || (i.obj_class == cko_public_key))
        && not i.has_private
    then (ok, record i { is_private = false })
    else (ok, i)
