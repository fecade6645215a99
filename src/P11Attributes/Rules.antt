-- ===== src/P11Attributes/Rules.antt =====
-- SoftHSMv2/src/lib/P11Attributes.cpp: the implementations of updateAttr. As in the code, the result of a
-- setAttribute inside them is not looked at.
use archive_aaf_sshsm.Common.{
  ℕ, ◌/◌, ◌%◌, Bool, true, false, not, ◌&&◌, ◌||◌, Option, some, [], ◌==◌, if◌then◌else◌, length,
}
use archive_aaf_sshsm.Cryptoki.{
  CkRv, ok, general_error, attribute_read_only, attribute_value_invalid, template_inconsistent,
}
use archive_aaf_sshsm.Cryptoki.Attributes.{
  cka_class, cka_value, cka_check_value, cka_key_type, cka_sensitive, cka_value_bits, cka_value_len,
  cka_extractable, cka_never_extractable, cka_always_sensitive, cka_copyable, cka_wrap_with_trusted,
  ckk_vendor_defined, cko_certificate, cko_secret_key, cko_vendor_defined,
}
use archive_aaf_sshsm.ByteString.{Bytes, resize, bits, bytes_eq}
use archive_aaf_sshsm.OsObject.{
  boolean, ulong, byte_string, mechanism_set, attribute_map, no_entry, OsObject,
}
use archive_aaf_sshsm.P11Attributes.{
  ObjectOp, op_create, op_derive, op_generate, op_unwrap, Context, P11Attribute, UpdateRule,
  plain_rule, class_rule, flag_rule, copyable_rule, trusted_rule, number_rule, date_rule,
  read_only_rule, sensitive_rule, extractable_rule, wrap_with_trusted_rule,
  always_authenticate_rule, value_rule, check_value_rule, generated_rule, value_len_rule,
  private_handle_rule, template_rule, mechanisms_rule, with_bits_rule, bytes_at, bool_at, ulong_at,
}
use archive_aaf_sshsm.P11Attributes.Templates.{collect, collect_mechanisms}
use archive_aaf_sshsm.P11Attributes.Steps.{
  is_op, changes_object, stored, key_check_value, given, and_then, put, put_if,
}

module _ {O : Type 0} (I : OsObject O) (ctx : Context) (is_private : Bool) (p_value : Option Bytes)
    (len : ℕ) where
  -- P11Attribute::updateAttr
  unfoldable pub update_plain : ℕ → O → CkRv × O
  update_plain t o =
      given (stored ctx is_private p_value len) (general_error, o)
        (λ value. (ok, put I t (byte_string value) o))

  -- A digest or check value goes into CKA_CHECK_VALUE.
  unfoldable pub put_check_value : Bytes → O → CkRv × O
  put_check_value check o =
      given (if is_private then ctx.encrypt check else some check) (general_error, o)
        (λ value. (ok, put I cka_check_value (byte_string value) o))

  -- P11AttrValue: CKA_VALUE_LEN, then CKA_VALUE_BITS.
  unfoldable pub put_value_len : O → O
  put_value_len o =
      put_if I (I.attribute_exists cka_value_len o) cka_value_len
        (ulong (length (bytes_at p_value len))) o

  unfoldable pub put_value_bits : O → O
  put_value_bits o =
      put_if I (I.attribute_exists cka_value_bits o) cka_value_bits
        (ulong (bits (bytes_at p_value len))) o

  unfoldable pub value_sizes : ObjectOp → O → CkRv × O
  value_sizes op o =
      if is_op op op_create || is_op op op_unwrap
      then (ok, put_value_bits (put_value_len o))
      else (ok, o)

  -- P11AttrValue: the check value of a certificate.
  unfoldable pub certificate_check : O → CkRv × O
  certificate_check o =
      if I.get_unsigned_long_value cka_class cko_vendor_defined o == cko_certificate
      then given (ctx.sha1 (bytes_at p_value len)) (general_error, o)
          (λ digest. put_check_value (resize 3 digest) o)
      else (ok, o)

  -- P11AttrValue: the check value of a secret key.
  unfoldable pub secret_key_check : ObjectOp → O → CkRv × O
  secret_key_check op o =
      if is_op op op_create
        && (I.get_unsigned_long_value cka_class cko_vendor_defined o == cko_secret_key)
      then given
          (key_check_value ctx [] (bytes_at p_value len)
            (I.get_unsigned_long_value cka_key_type ckk_vendor_defined o))
          (general_error, o) (λ check. put_check_value check o)
      else (ok, o)

  -- P11AttrValue::updateAttr
  unfoldable pub update_value : ObjectOp → ℕ → O → CkRv × O
  update_value op t o =
      and_then (secret_key_check op)
        (and_then certificate_check (and_then (value_sizes op) (update_plain t o)))

  -- P11AttrCheckValue: the comparison with the check value of the key, then the store.
  unfoldable pub compare_and_put : ℕ → Bytes → Bytes → O → CkRv × O
  compare_and_put t value keybits o =
      given
        (key_check_value ctx (bytes_at p_value len) keybits
          (I.get_unsigned_long_value cka_key_type ckk_vendor_defined o))
        (general_error, o)
        (λ check.
          if not (bytes_eq (bytes_at p_value len) check)
          then (attribute_value_invalid, o)
          else (ok, put I t (byte_string value) o))

  -- P11AttrCheckValue: the bits of the key first.
  unfoldable pub check_and_put : ℕ → Bytes → O → CkRv × O
  check_and_put t value o =
      given
        (if is_private
          then ctx.decrypt (I.get_byte_string_value cka_value o)
          else some (I.get_byte_string_value cka_value o))
        (general_error, o) (λ keybits. compare_and_put t value keybits o)

  -- P11AttrCheckValue::updateAttr
  unfoldable pub update_check_value : ℕ → O → CkRv × O
  update_check_value t o =
      given (stored ctx is_private p_value len) (general_error, o)
        (λ value. if len == 0 then (ok, put I t (byte_string value) o) else check_and_put t value o)

  -- P11AttrModulus, P11AttrPrime: the number of bits of what was given.
  unfoldable pub bits_step : ObjectOp → ℕ → O → CkRv × O
  bits_step op bits_type o = (
    ok,
    put_if I (is_op op op_create && I.attribute_exists bits_type o) bits_type
        (ulong (bits (bytes_at p_value len))) o,
  )

  -- P11AttrModulus::updateAttr, P11AttrPrime::updateAttr
  unfoldable pub update_with_bits : ObjectOp → ℕ → ℕ → O → CkRv × O
  update_with_bits op bits_type t o = and_then (bits_step op bits_type) (update_plain t o)

  -- The value has to be the one that the object has: P11AttrClass, P11AttrKeyType, P11AttrCertificateType.
  unfoldable pub update_class : ℕ → O → CkRv × O
  update_class t o =
      if not (len == 8)
      then (attribute_value_invalid, o)
      else if not (I.get_unsigned_long_value t cko_vendor_defined o == ulong_at p_value)
      then (template_inconsistent, o)
      else (ok, o)

  -- P11AttrToken::updateAttr and the other flags without a condition.
  unfoldable pub update_flag : ℕ → O → CkRv × O
  update_flag t o =
      if not (len == 1)
      then (attribute_value_invalid, o)
      else if not (bool_at p_value)
      then (ok, put I t (boolean false) o)
      else (ok, put I t (boolean true) o)

  unfoldable pub update_copyable : ℕ → O → CkRv × O
  update_copyable t o =
      if not (len == 1)
      then (attribute_value_invalid, o)
      else if not (bool_at p_value)
      then (ok, put I t (boolean false) o)
      else if not (I.get_boolean_value cka_copyable true o)
      then (attribute_read_only, o)
      else (ok, o)

  unfoldable pub update_trusted : ℕ → O → CkRv × O
  update_trusted t o =
      if not (len == 1)
      then (attribute_value_invalid, o)
      else if not (bool_at p_value)
      then (ok, put I t (boolean false) o)
      else if not ctx.is_so_logged_in
      then (attribute_read_only, o)
      else (ok, put I t (boolean true) o)

  unfoldable pub update_sensitive : ObjectOp → ℕ → O → CkRv × O
  update_sensitive op t o =
      if changes_object op && I.get_boolean_value cka_sensitive false o
      then (attribute_read_only, o)
      else if not (len == 1)
      then (attribute_value_invalid, o)
      else if not (bool_at p_value)
      then (ok, put I cka_always_sensitive (boolean false) (put I t (boolean false) o))
      else (
        ok,
        put_if I (is_op op op_generate || is_op op op_derive) cka_always_sensitive (boolean true)
            (put I t (boolean true) o),
      )

  unfoldable pub update_extractable : ObjectOp → ℕ → O → CkRv × O
  update_extractable op t o =
      if changes_object op && not (I.get_boolean_value cka_extractable false o)
      then (attribute_read_only, o)
      else if not (len == 1)
      then (attribute_value_invalid, o)
      else if not (bool_at p_value)
      then (ok, put I t (boolean false) o)
      else (ok, put I cka_never_extractable (boolean false) (put I t (boolean true) o))

  unfoldable pub update_wrap_with_trusted : ObjectOp → ℕ → O → CkRv × O
  update_wrap_with_trusted op t o =
      if changes_object op && I.get_boolean_value cka_wrap_with_trusted false o
      then (attribute_read_only, o)
      else if not (len == 1)
      then (attribute_value_invalid, o)
      else if not (bool_at p_value)
      then (ok, put I t (boolean false) o)
      else (ok, put I t (boolean true) o)

  unfoldable pub update_always_authenticate : ℕ → O → CkRv × O
  update_always_authenticate t o =
      if not (len == 1)
      then (attribute_value_invalid, o)
      else if not (bool_at p_value)
      then (ok, put I t (boolean false) o)
      else if not is_private
      then (template_inconsistent, o)
      else (ok, put I t (boolean true) o)

  -- An unsigned long: P11AttrCertificateCategory, P11AttrJavaMidpSecurityDomain, P11AttrNameHashAlgorithm.
  unfoldable pub update_number : ℕ → O → CkRv × O
  update_number t o =
      if not (len == 8)
      then (attribute_value_invalid, o)
      else (ok, put I t (ulong (ulong_at p_value)) o)

  -- An unsigned long that only the operations `allowed` may give.
  unfoldable pub update_restricted : Bool → ℕ → O → CkRv × O
  update_restricted allowed t o =
      if not allowed
      then (attribute_read_only, o)
      else if not (len == 8)
      then (attribute_value_invalid, o)
      else (ok, put I t (ulong (ulong_at p_value)) o)

  -- P11AttrStartDate, P11AttrEndDate: a CK_DATE has eight bytes.
  unfoldable pub update_date : ℕ → O → CkRv × O
  update_date t o =
      if not (len == 8) && not (len == 0)
      then (attribute_value_invalid, o)
      else (ok, put I t (byte_string (bytes_at p_value len)) o)

  -- A CK_ATTRIBUTE has 24 bytes.
  unfoldable pub update_template : ℕ → O → CkRv × O
  update_template t o =
      if not (len % 24 == 0)
      then (attribute_value_invalid, o)
      else given (collect no_entry (ctx.elements (len / 24) (bytes_at p_value len)))
          (attribute_value_invalid, o) (λ m. (ok, put I t (attribute_map m) o))

  unfoldable pub update_mechanisms : ℕ → O → CkRv × O
  update_mechanisms t o =
      if (len == 0) || not (len % 8 == 0)
      then (attribute_value_invalid, o)
      else (ok, put I t (mechanism_set (collect_mechanisms (len / 8) [] (bytes_at p_value len))) o)

  -- The call of the virtual method.
  unfoldable pub update_by_rule : UpdateRule → ObjectOp → ℕ → O → CkRv × O
  update_by_rule plain_rule op t o = update_plain t o
  update_by_rule class_rule op t o = update_class t o
  update_by_rule flag_rule op t o = update_flag t o
  update_by_rule copyable_rule op t o = update_copyable t o
  update_by_rule trusted_rule op t o = update_trusted t o
  update_by_rule number_rule op t o = update_number t o
  update_by_rule date_rule op t o = update_date t o
  update_by_rule read_only_rule op t o = (attribute_read_only, o)
  update_by_rule sensitive_rule op t o = update_sensitive op t o
  update_by_rule extractable_rule op t o = update_extractable op t o
  update_by_rule wrap_with_trusted_rule op t o = update_wrap_with_trusted op t o
  update_by_rule always_authenticate_rule op t o = update_always_authenticate t o
  update_by_rule value_rule op t o = update_value op t o
  update_by_rule check_value_rule op t o = update_check_value t o
  update_by_rule generated_rule op t o = update_restricted (is_op op op_generate) t o
  update_by_rule value_len_rule op t o =
      update_restricted (is_op op op_generate || is_op op op_derive) t o
  update_by_rule private_handle_rule op t o = update_restricted (is_op op op_create) t o
  update_by_rule template_rule op t o = update_template t o
  update_by_rule mechanisms_rule op t o = update_mechanisms t o
  update_by_rule (with_bits_rule bits_type) op t o = update_with_bits op bits_type t o

  abbrev pub update_attr : P11Attribute → ObjectOp → O → CkRv × O
  update_attr a op o = update_by_rule a.rule op a.type o
