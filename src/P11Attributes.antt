-- ===== src/P11Attributes.antt =====
-- SoftHSMv2/src/lib/P11Attributes.h and P11Attributes.cpp: the attributes of PKCS#11 objects, each with the
-- checks that guard its reading and its writing. The platform has 64-bit little-endian unsigned longs.
pub mod Steps
pub mod Rules
pub mod Templates
pub mod Update
pub mod Retrieve
pub mod Table
pub mod Frame
pub mod Ratchet
pub mod RoundTrip
use archive_aaf_sshsm.Common.{
  ℕ, zero, suc, ◌+◌, ◌*◌, ◌/◌, ◌%◌, Bool, true, false, not, Option, none, some, List, [], ◌∷◌, ◌==◌,
  if◌then◌else◌, take,
}
use archive_aaf_sshsm.Cryptoki.Attributes.{
  cka_trusted, cka_sensitive, cka_extractable, cka_modifiable,
}
use archive_aaf_sshsm.ByteString.{Bytes}
use archive_aaf_sshsm.OsObject.{OsAttribute, OsObject}

-- OBJECT_OP_NONE .. OBJECT_OP_UNWRAP
pub data ObjectOp : Type 0 where
  op_none op_copy op_create op_derive op_generate op_set op_unwrap : ObjectOp

-- A CK_ATTRIBUTE: `p_value` is the memory from pValue on, `none` for NULL_PTR.
pub record TemplateEntry : Type 0 where
  pub type : ℕ
  pub p_value : Option Bytes
  pub ul_value_len : ℕ

-- The token's cipher in the token's present state, the login of the SO, the cryptography that the check
-- values need (the length of the key in bits comes first), and how an array of CK_ATTRIBUTE lies in memory.
pub record Context : Type 0 where
  pub encrypt : Bytes → Option Bytes
  pub decrypt : Bytes → Option Bytes
  pub is_so_logged_in : Bool
  pub sha1 : Bytes → Option Bytes
  pub symmetric_check_value : ℕ → Bytes → Bytes
  pub aes_check_value : ℕ → Bytes → Bytes
  pub des_check_value : ℕ → Bytes → Bytes
  pub elements : ℕ → Bytes → List TemplateEntry
  pub with_elements : List TemplateEntry → Bytes → Bytes

-- The checks ck1 .. ck17, each one bit of `checks`.
pub data Check : Type 0 where
  ck1 ck2 ck3 ck4 ck5 ck6 ck7 ck8 ck9 ck10 ck11 ck12 ck14 ck15 ck16 ck17 : Check

-- The position of the check's bit.
abbrev pub bit_of : Check → ℕ
bit_of ck1 = 0
bit_of ck2 = 1
bit_of ck3 = 2
bit_of ck4 = 3
bit_of ck5 = 4
bit_of ck6 = 5
bit_of ck7 = 6
bit_of ck8 = 7
bit_of ck9 = 8
bit_of ck10 = 9
bit_of ck11 = 10
bit_of ck12 = 11
bit_of ck14 = 13
bit_of ck15 = 14
bit_of ck16 = 15
bit_of ck17 = 16

-- (checks & ck) == ck
unfoldable pub has : Check → List Check → Bool
has ck [] = false
has ck (c ∷ cs) = let later = has ck cs in if bit_of c == bit_of ck then true else later

-- The implementations of updateAttr.
pub data UpdateRule : Type 0 where
  plain_rule class_rule flag_rule copyable_rule trusted_rule number_rule date_rule : UpdateRule
  read_only_rule sensitive_rule extractable_rule wrap_with_trusted_rule : UpdateRule
  always_authenticate_rule value_rule check_value_rule generated_rule value_len_rule : UpdateRule
  private_handle_rule template_rule mechanisms_rule : UpdateRule
  with_bits_rule : ℕ → UpdateRule

-- `size` is none for (CK_ULONG)-1; `default` is what setDefault stores.
pub record P11Attribute : Type 0 where
  pub type : ℕ
  pub size : Option ℕ
  pub checks : List Check
  pub default : OsAttribute
  pub rule : UpdateRule

-- ByteString(pValue, ulValueLen)
unfoldable pub bytes_at : Option Bytes → ℕ → Bytes
bytes_at none len = []
bytes_at (some memory) len = take len memory

-- *(CK_BBOOL*)pValue != CK_FALSE
unfoldable pub bool_at : Option Bytes → Bool
bool_at none = false
bool_at (some []) = false
bool_at (some (b ∷ bs)) = not (b == 0)

unfoldable pub le_val : Bytes → ℕ
le_val [] = 0
le_val (b ∷ bs) = b + 256 * le_val bs

unfoldable pub le_bytes : ℕ → ℕ → Bytes
le_bytes zero n = []
le_bytes (suc width) n = n % 256 ∷ le_bytes width (n / 256)

-- *(CK_ULONG*)pValue
unfoldable pub ulong_at : Option Bytes → ℕ
unfolding bytes_at le_val
ulong_at p_value = le_val (bytes_at p_value 8)

module _ {O : Type 0} (I : OsObject O) where
  unfoldable pub is_modifiable : O → Bool
  is_modifiable o =
      if not (I.attribute_exists cka_modifiable o)
      then true
      else I.get_boolean_value cka_modifiable true o

  unfoldable pub is_sensitive : O → Bool
  is_sensitive o =
      if not (I.attribute_exists cka_sensitive o)
      then false
      else I.get_boolean_value cka_sensitive false o

  unfoldable pub is_extractable : O → Bool
  is_extractable o =
      if not (I.attribute_exists cka_extractable o)
      then true
      else I.get_boolean_value cka_extractable true o

  unfoldable pub is_trusted : O → Bool
  is_trusted o =
      if not (I.attribute_exists cka_trusted o)
      then false
      else I.get_boolean_value cka_trusted false o

  unfoldable pub set_default : P11Attribute → O → Bool × O
  set_default a o = I.set_attribute a.type a.default o

  -- P11Attribute::init
  unfoldable pub init : P11Attribute → O → Bool × O
  init a o = if not (I.attribute_exists a.type o) then set_default a o else (true, o)
