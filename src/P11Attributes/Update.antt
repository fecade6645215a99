-- ===== src/P11Attributes/Update.antt =====
-- SoftHSMv2/src/lib/P11Attributes.cpp: P11Attribute::update, the guards in front of updateAttr.
-- The object is there.
use archive_aaf_sshsm.Common.{
  ℕ, Bool, true, false, not, ◌&&◌, ◌||◌, Option, none, some, ◌==◌, if◌then◌else◌,
}
use archive_aaf_sshsm.Cryptoki.{CkRv, attribute_read_only, attribute_value_invalid}
use archive_aaf_sshsm.Cryptoki.Attributes.{cka_class, cko_certificate, cko_vendor_defined}
use archive_aaf_sshsm.ByteString.{Bytes}
use archive_aaf_sshsm.OsObject.{OsObject}
use archive_aaf_sshsm.P11Attributes.{
  ObjectOp, op_create, op_generate, op_unwrap, op_derive, op_copy, Context, ck2, ck4, ck6, ck8,
  ck17, has, P11Attribute, is_modifiable, is_trusted,
}
use archive_aaf_sshsm.P11Attributes.Steps.{is_op, changes_object}
use archive_aaf_sshsm.P11Attributes.Rules.{update_attr}

abbrev pub differs_from_size : Option ℕ → ℕ → Bool
differs_from_size none len = false
differs_from_size (some size) len = not (size == len)

abbrev pub is_null : Option Bytes → Bool
is_null none = true
is_null (some memory) = false

abbrev pub makes_object : ObjectOp → Bool
makes_object op = is_op op op_create || is_op op op_generate

module _ {O : Type 0} (I : OsObject O) (ctx : Context) (is_private : Bool) where
  -- A certificate that CKA_TRUSTED marks.
  unfoldable pub is_trusted_certificate : O → Bool
  is_trusted_certificate o =
      is_trusted I o
      && (I.get_unsigned_long_value cka_class cko_vendor_defined o == cko_certificate)

  -- P11Attribute::update
  unfoldable pub update : P11Attribute → Option Bytes → ℕ → ObjectOp → O → CkRv × O
  update a p_value len op o =
      if is_null p_value && not (len == 0)
      then (attribute_value_invalid, o)
      else if differs_from_size a.size len
      then (attribute_value_invalid, o)
      else if not (is_modifiable I o) && not (makes_object op)
      then (attribute_read_only, o)
      else if is_trusted_certificate o && not (makes_object op)
      then (attribute_read_only, o)
      else if has ck2 a.checks && is_op op op_create
      then (attribute_read_only, o)
      else if has ck4 a.checks && is_op op op_generate
      then (attribute_read_only, o)
      else if has ck6 a.checks && is_op op op_unwrap
      then (attribute_read_only, o)
      else if has ck8 a.checks && changes_object op
      then update_attr I ctx is_private p_value len a op o
      else if has ck17 a.checks && is_op op op_copy
      then update_attr I ctx is_private p_value len a op o
      else if makes_object op || (is_op op op_derive || is_op op op_unwrap)
      then update_attr I ctx is_private p_value len a op o
      else (attribute_read_only, o)
