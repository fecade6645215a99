-- ===== src/P11Attributes/Steps.antt =====
-- SoftHSMv2/src/lib/P11Attributes.cpp: the steps that the implementations of updateAttr share. As in the code,
-- the result of a setAttribute inside them is not looked at.
use archive_aaf_sshsm.Common.{
  ℕ, ◌*◌, Bool, true, false, ◌||◌, Option, none, some, List, [], ◌∷◌, ◌==◌, ltb, if◌then◌else◌,
  length,
}
use archive_aaf_sshsm.Cryptoki.{CkRv, ok}
use archive_aaf_sshsm.Cryptoki.Attributes.{
  ckk_generic_secret, ckk_des, ckk_des2, ckk_des3, ckk_aes, ckk_md5_hmac, ckk_sha_1_hmac,
  ckk_sha256_hmac, ckk_sha384_hmac, ckk_sha512_hmac, ckk_sha224_hmac, ckk_gost28147,
}
use archive_aaf_sshsm.ByteString.{Bytes}
use archive_aaf_sshsm.OsObject.{OsAttribute, OsObject}
use archive_aaf_sshsm.P11Attributes.{
  ObjectOp, op_none, op_copy, op_create, op_derive, op_generate, op_set, op_unwrap, Context,
  bytes_at,
}
use archive_aaf_sshsm.P11Attributes.Templates.{one_of}

abbrev pub is_op : ObjectOp → ObjectOp → Bool
is_op op_none op_none = true
is_op op_copy op_copy = true
is_op op_create op_create = true
is_op op_derive op_derive = true
is_op op_generate op_generate = true
is_op op_set op_set = true
is_op op_unwrap op_unwrap = true
is_op _ _ = false

abbrev pub changes_object : ObjectOp → Bool
changes_object op = is_op op op_set || is_op op op_copy

-- The key types of the first case of the switch on CKA_KEY_TYPE.
abbrev pub symmetric_types : List ℕ
symmetric_types =
    ckk_generic_secret ∷ ckk_md5_hmac ∷ ckk_sha_1_hmac ∷ ckk_sha224_hmac ∷ ckk_sha256_hmac
    ∷ ckk_sha384_hmac ∷ ckk_sha512_hmac ∷ []

abbrev pub des_types : List ℕ
des_types = ckk_des ∷ ckk_des2 ∷ ckk_des3 ∷ []

-- The bytes to store: encrypted for a private object, `none` when that fails or gives too few.
unfoldable pub stored : Context → Bool → Option Bytes → ℕ → Option Bytes
stored ctx is_private p_value len =
    let plaintext = bytes_at p_value len in
    elim (if is_private then ctx.encrypt plaintext else some plaintext) [
      | none ↦ none
      | some value ↦ if ltb (length value) len then none else some value
    ]

-- The switch on the key type, with what the case of CKK_GOST28147 gives.
unfoldable pub key_check_value : Context → Bytes → Bytes → ℕ → Option Bytes
key_check_value ctx gost keybits key_type =
    if one_of key_type symmetric_types
    then some (ctx.symmetric_check_value (length keybits * 8) keybits)
    else if key_type == ckk_aes
    then some (ctx.aes_check_value (length keybits * 8) keybits)
    else if one_of key_type des_types
    then some (ctx.des_check_value (length keybits * 7) keybits)
    else if key_type == ckk_gost28147
    then some gost
    else none

-- What follows a call that may fail, with what is returned when it does.
abbrev pub given : {A R : Type 0} → Option A → R → (A → R) → R
given none failure next = failure
given (some a) failure next = next a

-- The next statement, unless a return code other than CKR_OK was returned.
abbrev pub and_then : {O : Type 0} → (O → CkRv × O) → CkRv × O → CkRv × O
and_then next (ok, o) = next o
and_then next (rv, o) = (rv, o)

module _ {O : Type 0} (I : OsObject O) where
  unfoldable pub put : ℕ → OsAttribute → O → O
  put t a o = (I.set_attribute t a o).1

  -- if (condition) osobject->setAttribute(t, a)
  unfoldable pub put_if : Bool → ℕ → OsAttribute → O → O
  put_if condition t a o = if condition then put t a o else o
