-- ===== src/SessionObjects/Attributes.antt =====
-- SoftHSMv2/src/lib/object_store/SessionObject.cpp: the attributes of session objects, which implement the
-- interface of OSObject.h. A slot of the map that holds NULL counts as missing.
use archive_aaf_sshsm.Common.{
  ℕ, ◌≡◌, refl, inl, inr, Bool, true, false, not, ◌&&◌, Option, none, some, [], ◌∷◌, arith, ltb,
  if◌then◌else◌, Bool-cases,
}
use archive_aaf_sshsm.Common.Map.{Map, lookup, insert, erase}
use archive_aaf_sshsm.Cryptoki.Attributes.{cka_class}
use archive_aaf_sshsm.ByteString.{Bytes}
use archive_aaf_sshsm.OsObject.{
  OsAttribute, ulong, OsObject, present, as_boolean, as_unsigned_long, as_byte_string,
}
use archive_aaf_sshsm.SessionObjects.{SessionObject, new_session_object, invalidate}

unfoldable pub attribute_exists : ℕ → SessionObject OsAttribute → Bool
attribute_exists t o = o.valid && present (lookup t o.attributes)

unfoldable pub get_attribute : ℕ → SessionObject OsAttribute → OsAttribute
get_attribute t o = elim (lookup t o.attributes) [ none ↦ ulong 0 | some a ↦ a ]

unfoldable pub get_boolean_value : ℕ → Bool → SessionObject OsAttribute → Bool
get_boolean_value t val o = as_boolean val (lookup t o.attributes)

unfoldable pub get_unsigned_long_value : ℕ → ℕ → SessionObject OsAttribute → ℕ
get_unsigned_long_value t val o = as_unsigned_long val (lookup t o.attributes)

unfoldable pub get_byte_string_value : ℕ → SessionObject OsAttribute → Bytes
get_byte_string_value t o = as_byte_string (lookup t o.attributes)

-- upper_bound: the least type above `t`.
unfoldable pub next_above : ℕ → Map OsAttribute → Option ℕ
next_above t [] = none
next_above t ((u, a) ∷ m) =
    let others = next_above t m in
    if not (ltb t u)
    then others
    else elim others [ none ↦ some u | some n ↦ if ltb u n then some u else some n ]

-- CKA_CLASS when there is none.
unfoldable pub next_attribute_type : ℕ → SessionObject OsAttribute → ℕ
next_attribute_type t o = elim (next_above t o.attributes) [ none ↦ cka_class | some u ↦ u ]

unfoldable pub set_attribute :
    ℕ → OsAttribute → SessionObject OsAttribute → Bool × SessionObject OsAttribute
set_attribute t a o =
    if not o.valid then (false, o) else (true, record o { attributes = insert t a o.attributes })

unfoldable pub delete_attribute : ℕ → SessionObject OsAttribute → Bool × SessionObject OsAttribute
delete_attribute t o =
    if not o.valid
    then (false, o)
    else if not (present (lookup t o.attributes))
    then (false, o)
    else (true, record o { attributes = erase t o.attributes })

-- An object that is no longer valid has no attributes.
abbrev pub IsKept : SessionObject OsAttribute → Type 0
IsKept o = o.valid ≡ false → o.attributes ≡ []

-- The objects that the store makes.
abbrev pub KeptObject : Type 0
KeptObject = (o : SessionObject OsAttribute) × IsKept o

pub new_session_object-IsKept :
    (slot_id h : ℕ) (is_private : Bool) → IsKept (new_session_object slot_id h is_private)
new_session_object-IsKept slot_id h is_private e = refl

pub invalidate-IsKept : (o : SessionObject OsAttribute) → IsKept (invalidate o)
unfolding invalidate
invalidate-IsKept o e = refl

pub set_attribute-IsKept :
    (t : ℕ) (a : OsAttribute) (o : SessionObject OsAttribute)
    → IsKept o
    → IsKept (set_attribute t a o).1
unfolding set_attribute
set_attribute-IsKept t a o kept e = elim (Bool-cases o.valid) [
  | inl valid ↦ absurd (ground (arith, valid))
  | inr invalid ↦ ground (arith, invalid, kept invalid)
]

pub delete_attribute-IsKept :
    (t : ℕ) (o : SessionObject OsAttribute) → IsKept o → IsKept (delete_attribute t o).1
unfolding delete_attribute
delete_attribute-IsKept t o kept e = elim (Bool-cases o.valid) [
  | inl valid ↦ absurd (ground (arith, valid, e))
  | inr invalid ↦ ground (arith, invalid, kept invalid)
]

-- The class SessionObject as an OSObject; its transactions are stubs.
abbrev pub session_object : OsObject KeptObject
session_object = record {
  attribute_exists = λ t o. attribute_exists t o.0;
  get_attribute = λ t o. get_attribute t o.0;
  get_boolean_value = λ t val o. get_boolean_value t val o.0;
  get_unsigned_long_value = λ t val o. get_unsigned_long_value t val o.0;
  get_byte_string_value = λ t o. get_byte_string_value t o.0;
  set_attribute = λ t a o.
      ((set_attribute t a o.0).0, ((set_attribute t a o.0).1, set_attribute-IsKept t a o.0 o.1));
  delete_attribute = λ t o.
      ((delete_attribute t o.0).0, ((delete_attribute t o.0).1, delete_attribute-IsKept t o.0 o.1));
  is_valid = λ o. o.0.valid;
  start_transaction = λ o. (true, o);
  commit_transaction = λ o. (true, o);
  abort_transaction = λ o. (true, o);
}
