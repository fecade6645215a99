-- ===== src/Tests/Reading.antt =====
-- The theorems on the handlers of objects, with a private key of a session, the SO logged in and no user.
use archive_aaf_sshsm.Common.{
  ℕ, ◌≡◌, refl, ap, true, false, Option, none, some, [], ◌∷◌, arith, ◌==◌, if◌then◌else◌,
}
use archive_aaf_sshsm.Common.Map.{Map, lookup, insert, erase, lookup-insert}
use archive_aaf_sshsm.Cryptoki.{ok, general_error}
use archive_aaf_sshsm.Cryptoki.Attributes.{
  cka_class, cka_private, cka_key_type, ckk_aes, cko_secret_key,
}
use archive_aaf_sshsm.HandleMgr
use archive_aaf_sshsm.HandleMgr.{session, object}
use archive_aaf_sshsm.Session.{Session, new_session, set_handle}
use archive_aaf_sshsm.SessionObjects.{SessionObject, new_session_object}
use archive_aaf_sshsm.OsObject.{
  OsAttribute, boolean, ulong, OsObject, OsObjectLaws, TransactionLaws, present, as_boolean,
  as_unsigned_long, as_byte_string,
}
use archive_aaf_sshsm.Token.{Token, is_user_logged_in}
use archive_aaf_sshsm.Api.{SoftHsm}
use archive_aaf_sshsm.Api.Tokens.{token_ops}
use archive_aaf_sshsm.Api.Objects.{
  ObjectOps, find_object, find_all_three, c_get_attribute_value, c_set_attribute_value,
  c_destroy_object,
}
use archive_aaf_sshsm.Api.Reading.{IsForeign, Refused, handlers_refuse_private}
use archive_aaf_sshsm.Api.Secrets.{ObjectOpsLaws, IsSecret, Used, unused, gets, sets, Used-IsSecret}
use archive_aaf_sshsm.Tests.Fixtures.{Disk, toy, disk, logged_in}
use archive_aaf_sshsm.Tests.Attributes.{context, secret_values, lowering, plain_key}

abbrev or_zero : Option OsAttribute → OsAttribute
or_zero none = ulong 0
or_zero (some a) = a

-- An object that is its map of attributes.
abbrev table : OsObject (Map OsAttribute)
table = record {
  attribute_exists = λ t m. present (lookup t m);
  get_attribute = λ t m. or_zero (lookup t m);
  get_boolean_value = λ t val m. as_boolean val (lookup t m);
  get_unsigned_long_value = λ t val m. as_unsigned_long val (lookup t m);
  get_byte_string_value = λ t m. as_byte_string (lookup t m);
  set_attribute = λ t a m. (true, insert t a m);
  delete_attribute = λ t m. (true, erase t m);
  is_valid = λ m. true;
  start_transaction = λ m. (true, m);
  commit_transaction = λ m. (true, m);
  abort_transaction = λ m. (true, m);
}

set_table :
    (t u : ℕ) (a : OsAttribute) (m : Map OsAttribute)
    → lookup u (insert t a m) ≡ (if u == t then some a else lookup u m)
set_table t u a m = ground (arith, lookup-insert t u a m)

set_table_ne :
    (t u : ℕ) (a : OsAttribute) (m : Map OsAttribute)
    → (u == t) ≡ false
    → lookup u (insert t a m) ≡ lookup u m
set_table_ne t u a m h = ground (arith, set_table t u a m)

abbrev table_laws : OsObjectLaws table
table_laws = record {
  view = λ t m. lookup t m;
  exists_view = λ t m. refl;
  attribute_view = λ t m a h. ap or_zero h;
  boolean_view = λ t b m. refl;
  ulong_view = λ t n m. refl;
  bytes_view = λ t m. refl;
  set_view = λ t u a m. set_table t u a m;
}

abbrev table_transactions : TransactionLaws table_laws
table_transactions = record {
  saved = λ t m. lookup t m;
  start_view = λ t m. refl;
  start_saved = λ t m h. refl;
  set_saved = λ t u a m h. set_table_ne t u a m h;
  commit_view = λ t m. refl;
  abort_view = λ t m. refl;
}

abbrev attributes_of : Option (SessionObject OsAttribute) → Option (Map OsAttribute)
attributes_of none = none
attributes_of (some o) = some o.attributes

abbrev Hsm : Type 0
Hsm = SoftHsm (Token Disk) OsAttribute

abbrev put_table : ℕ → Map OsAttribute → Hsm → Hsm
put_table p m s = record s {
  objects = record (s.objects) {
    all_objects =
        insert p (record (new_session_object 7 1 true) { attributes = m }) s.objects.all_objects;
  };
}

abbrev session_tables : ObjectOps (Token Disk) OsAttribute (Map OsAttribute)
session_tables = record {
  os = table;
  object_at = λ p s. attributes_of (lookup p s.objects.all_objects);
  put_object = put_table;
  destroy_object = λ p s. (true, put_table p [] s);
  context = λ k. context;
}

put_table-at :
    (p q : ℕ) (m : Map OsAttribute) (s : Hsm)
    → session_tables.object_at p (session_tables.put_object q m s)
      ≡ (if q == p then some m else session_tables.object_at p s)
put_table-at p q m s = ground (
  arith,
  ap attributes_of (
      lookup-insert q p (record (new_session_object 7 1 true) { attributes = m })
        s.objects.all_objects),
)

abbrev session_tables_laws : ObjectOpsLaws session_tables
session_tables_laws = record {
  laws = table_laws;
  transactions = table_transactions;
  put_at = put_table-at;
}

abbrev writer : Session
writer = set_handle 1 (new_session 100 7 true 0 0)

abbrev hsm : Hsm
hsm = record {
  is_initialised = true;
  tokens = (7, logged_in) ∷ [];
  sessions = record { sessions = some writer ∷ [] };
  handles = record {
    handles =
        (1, record { kind = session; slot_id = 7; h_session = 0; ptr = 100; is_private = false })
        ∷ (2, record { kind = object; slot_id = 7; h_session = 1; ptr = 300; is_private = true })
        ∷ [];
    objects = (300, 2) ∷ [];
    handle_counter = 2;
  };
  objects = record { objects = 300 ∷ []; all_objects = (300, plain_key (1 ∷ 2 ∷ [])) ∷ [] };
}

key_found :
    find_all_three (token_ops toy disk) session_tables 1 2 hsm
    ≡ (ok, some (writer, logged_in, secret_values (1 ∷ 2 ∷ [])))
unfolding find_all_three find_object HandleMgr.get_session HandleMgr.get_object set_handle
    new_session
key_found = refl

key-IsForeign :
    IsForeign
      (token_ops toy disk)
      session_tables
      hsm
      (writer, logged_in, secret_values (1 ∷ 2 ∷ []))
unfolding is_user_logged_in as_boolean
key-IsForeign = (refl, refl, refl)

handlers_refuse_private_example :
    (c_get_attribute_value (token_ops toy disk) session_tables 1 2 (some lowering) hsm
      ≡ (general_error, lowering, hsm))
    × Refused
        (token_ops toy disk)
        session_tables
        hsm
        (c_set_attribute_value (token_ops toy disk) session_tables 1 2 (some lowering) hsm)
    × Refused
        (token_ops toy disk)
        session_tables
        hsm
        (c_destroy_object (token_ops toy disk) session_tables 1 2 hsm)
handlers_refuse_private_example =
    handlers_refuse_private (token_ops toy disk) session_tables 1 2 lowering hsm
      (writer, logged_in, secret_values (1 ∷ 2 ∷ [])) key_found key-IsForeign

-- The same slot with a public AES key, which the SO may change.
abbrev public_key_values : Map OsAttribute
public_key_values =
    (cka_class, ulong cko_secret_key)
    ∷ (cka_key_type, ulong ckk_aes)
    ∷ (cka_private, boolean false)
    ∷ secret_values (1 ∷ 2 ∷ [])

abbrev public_hsm : Hsm
public_hsm = put_table 300 public_key_values hsm

abbrev used : Hsm
used =
    (c_set_attribute_value (token_ops toy disk) session_tables 1 2 (some lowering)
      (c_get_attribute_value (token_ops toy disk) session_tables 1 2 (some lowering)
        public_hsm).2).1

uses : Used (token_ops toy disk) session_tables public_hsm used
uses =
    sets
      (c_get_attribute_value (token_ops toy disk) session_tables 1 2 (some lowering) public_hsm).2 1
      2 (some lowering) (gets public_hsm 1 2 (some lowering) unused)

Used-IsSecret_example : IsSecret (token_ops toy disk) session_tables session_tables_laws 300 used
Used-IsSecret_example =
    Used-IsSecret (token_ops toy disk) session_tables session_tables_laws public_hsm 300 used uses
      (public_key_values, refl, refl)
