-- ===== src/SessionObjects/Laws.antt =====
-- SoftHSMv2/src/lib/object_store/SessionObject.cpp: session objects keep the contract of OSObject.h, and a
-- series of writes shows in the getters as it would in a function from types to attributes.
use archive_aaf_sshsm.Common.{
  ℕ, ◌≡◌, refl, ap, ◌∙◌, inl, inr, Bool, true, false, Option, none, some, List, [], ◌∷◌, arith,
  ◌==◌, if◌then◌else◌, Bool-cases, Option-cases,
}
use archive_aaf_sshsm.Common.Map.{lookup, lookup-insert, lookup-erase}
use archive_aaf_sshsm.OsObject.{
  OsAttribute, OsObjectLaws, TransactionLaws, present, as_boolean, as_unsigned_long, as_byte_string,
}
use archive_aaf_sshsm.SessionObjects.{SessionObject}
use archive_aaf_sshsm.SessionObjects.Attributes.{
  attribute_exists, get_attribute, get_boolean_value, get_unsigned_long_value,
  get_byte_string_value, set_attribute, delete_attribute, KeptObject, session_object,
}

pub attribute_exists-lookup :
    (t : ℕ) (o : KeptObject) → attribute_exists t o.0 ≡ present (lookup t o.0.attributes)
unfolding attribute_exists
attribute_exists-lookup t (o, kept) = elim (Bool-cases o.valid) [
  | inl valid ↦ ground (arith, valid)
  | inr invalid ↦ ground (arith, invalid, kept invalid, ap (lookup t) (kept invalid))
]

pub get_attribute-lookup :
    (t : ℕ) (o : SessionObject OsAttribute) (a : OsAttribute)
    → lookup t o.attributes ≡ some a
    → get_attribute t o ≡ a
unfolding get_attribute
get_attribute-lookup t o a h = rw (h, get_attribute) refl

pub get_boolean_value-lookup :
    (t : ℕ) (val : Bool) (o : SessionObject OsAttribute)
    → get_boolean_value t val o ≡ as_boolean val (lookup t o.attributes)
unfolding get_boolean_value
get_boolean_value-lookup t val o = refl

pub get_unsigned_long_value-lookup :
    (t val : ℕ) (o : SessionObject OsAttribute)
    → get_unsigned_long_value t val o ≡ as_unsigned_long val (lookup t o.attributes)
unfolding get_unsigned_long_value
get_unsigned_long_value-lookup t val o = refl

pub get_byte_string_value-lookup :
    (t : ℕ) (o : SessionObject OsAttribute)
    → get_byte_string_value t o ≡ as_byte_string (lookup t o.attributes)
unfolding get_byte_string_value
get_byte_string_value-lookup t o = refl

pub set_attribute-lookup :
    (t u : ℕ) (a : OsAttribute) (o : SessionObject OsAttribute)
    → lookup u (set_attribute t a o).1.attributes ≡ (
        if (set_attribute t a o).0
        then if u == t then some a else lookup u o.attributes
        else lookup u o.attributes)
unfolding set_attribute
set_attribute-lookup t u a o = ground (arith, lookup-insert t u a o.attributes)

pub set_attribute-lookup_ne :
    (t u : ℕ) (a : OsAttribute) (o : SessionObject OsAttribute)
    → (u == t) ≡ false
    → lookup u (set_attribute t a o).1.attributes ≡ lookup u o.attributes
set_attribute-lookup_ne t u a o h = ground (arith, set_attribute-lookup t u a o)

-- Session objects keep the contract of the getters and of setAttribute.
abbrev pub session_laws : OsObjectLaws session_object
session_laws = record {
  view = λ t o. lookup t o.0.attributes;
  exists_view = attribute_exists-lookup;
  attribute_view = λ t o a h. get_attribute-lookup t o.0 a h;
  boolean_view = λ t b o. get_boolean_value-lookup t b o.0;
  ulong_view = λ t n o. get_unsigned_long_value-lookup t n o.0;
  bytes_view = λ t o. get_byte_string_value-lookup t o.0;
  set_view = λ t u a o. set_attribute-lookup t u a o.0;
}

-- Their stubs of transactions: an abort leaves what there is.
abbrev pub session_transactions : TransactionLaws session_laws
session_transactions = record {
  saved = session_laws.view;
  start_view = λ t o. refl;
  start_saved = λ t o h. refl;
  set_saved = λ t u a o h. set_attribute-lookup_ne t u a o.0 h;
  commit_view = λ t o. refl;
  abort_view = λ t o. refl;
}

-- The calls that write, and what an object is after some of them.
pub data Operation : Type 0 where
  sets : ℕ → OsAttribute → Operation
  deletes : ℕ → Operation

unfoldable pub perform : List Operation → SessionObject OsAttribute → SessionObject OsAttribute
perform [] o = o
perform (sets t a ∷ ops) o = perform ops (set_attribute t a o).1
perform (deletes t ∷ ops) o = perform ops (delete_attribute t o).1

-- The same calls on a function from types to attributes.
unfoldable pub intended : List Operation → (ℕ → Option OsAttribute) → ℕ → Option OsAttribute
intended [] f t = f t
intended (sets u a ∷ ops) f t = intended ops (λ v. if v == u then some a else f v) t
intended (deletes u ∷ ops) f t = intended ops (λ v. if v == u then none else f v) t

-- The getters of an object answer for an attribute what the function says.
abbrev pub Shows : SessionObject OsAttribute → Option OsAttribute → ℕ → Type 0
Shows o a t =
    (attribute_exists t o ≡ present a)
    × ((val : Bool) → get_boolean_value t val o ≡ as_boolean val a)
    × ((val : ℕ) → get_unsigned_long_value t val o ≡ as_unsigned_long val a)
    × (get_byte_string_value t o ≡ as_byte_string a)

delete_attribute-lookup :
    (t u : ℕ) (o : SessionObject OsAttribute)
    → o.valid ≡ true
    → lookup u (delete_attribute t o).1.attributes
      ≡ (if u == t then none else lookup u o.attributes)
unfolding delete_attribute
delete_attribute-lookup t u o valid = elim (Option-cases (lookup t o.attributes)) [
  | inl absent ↦ elim (Bool-cases (u == t)) [
    | inl here ↦
        let typed : u ≡ t = ground arith in
        ground (arith, valid, absent, here, ap (λ n. lookup n o.attributes) typed)
    | inr away ↦ ground (arith, valid, absent, away)
  ]
  | inr (a, found) ↦ ground (arith, valid, found, lookup-erase t u o.attributes)
]

delete_attribute-valid :
    (t : ℕ) (o : SessionObject OsAttribute) → (delete_attribute t o).1.valid ≡ o.valid
unfolding delete_attribute
delete_attribute-valid t o = ground arith

set_attribute-valid :
    (t : ℕ) (a : OsAttribute) (o : SessionObject OsAttribute)
    → (set_attribute t a o).1.valid ≡ o.valid
unfolding set_attribute
set_attribute-valid t a o = ground arith

set_attribute-done :
    (t : ℕ) (a : OsAttribute) (o : SessionObject OsAttribute)
    → o.valid ≡ true
    → (set_attribute t a o).0 ≡ true
unfolding set_attribute
set_attribute-done t a o valid = ground (arith, valid)

-- The functions need only agree at each type.
perform-lookup :
    (ops : List Operation) (o : SessionObject OsAttribute) (f : ℕ → Option OsAttribute) (t : ℕ)
    → o.valid ≡ true
    → ((u : ℕ) → lookup u o.attributes ≡ f u)
    → (lookup t (perform ops o).attributes ≡ intended ops f t) × ((perform ops o).valid ≡ true)
unfolding perform intended
perform-lookup [] o f t valid same = (same t, valid)
perform-lookup (sets u a ∷ ops) o f t valid same =
    perform-lookup ops (set_attribute u a o).1 (λ v. if v == u then some a else f v) t
      (set_attribute-valid u a o ∙ valid)
      (λ v. ground (arith, set_attribute-lookup u v a o, set_attribute-done u a o valid, same v))
perform-lookup (deletes u ∷ ops) o f t valid same =
    perform-lookup ops (delete_attribute u o).1 (λ v. if v == u then none else f v) t
      (delete_attribute-valid u o ∙ valid)
      (λ v. ground (arith, delete_attribute-lookup u v o valid, same v))

-- After any series of setAttribute and deleteAttribute on a valid session object, attributeExists and the typed
-- getters answer for each type what the same series, made on a function from types to attributes, leaves.
pub perform-Shows :
    (ops : List Operation) (o : SessionObject OsAttribute) (t : ℕ)
    → o.valid ≡ true
    → Shows (perform ops o) (intended ops (λ u. lookup u o.attributes) t) t
unfolding attribute_exists get_boolean_value get_unsigned_long_value get_byte_string_value
perform-Shows ops o t valid =
    let (same, still) = perform-lookup ops o (λ u. lookup u o.attributes) t valid (λ u. refl) in
    (
      ground (arith, still, ap present same),
      λ val. ap (as_boolean val) same,
      λ val. ap (as_unsigned_long val) same,
      ap as_byte_string same,
    )
