-- ===== src/ObjectFile/Laws.antt =====
-- SoftHSMv2/src/lib/object_store/ObjectFile.cpp: on a file that can be written and read back, the objects of
-- a token keep the contract of OSObject.h, and an abort loads back the version from before the transaction.
use archive_aaf_sshsm.Common.{
  ℕ, ◌≡◌, refl, ap, inl, inr, Bool, true, false, Option, some, [], arith, ◌==◌, if◌then◌else◌,
  Bool-cases,
}
use archive_aaf_sshsm.Common.Map.{Map, lookup, insert, lookup-insert}
use archive_aaf_sshsm.OsObject.{
  OsAttribute, OsObjectLaws, TransactionLaws, RollbackLaws, present, as_boolean, as_unsigned_long,
  as_byte_string,
}
use archive_aaf_sshsm.ObjectFile.{
  ReadResult, unreadable, corrupt, contents, ObjectDisk, ObjectFile, attribute_exists,
  get_attribute, get_boolean_value, get_unsigned_long_value, get_byte_string_value, store,
  set_attribute, reload, start_transaction, commit_transaction, abort_transaction,
}
use archive_aaf_sshsm.ObjectFile.Stored.{ObjectDiskLaws, IsStored, object_file}

abbrev pub contents_or_empty : ReadResult → Map OsAttribute
contents_or_empty unreadable = []
contents_or_empty (corrupt m) = []
contents_or_empty (contents m) = m

module _ {F : Type 0} (d : ObjectDisk F) (laws : ObjectDiskLaws d) where
  -- What an abort leaves: during a transaction what the file holds.
  abbrev pub saved_at : ℕ → ObjectFile F → Option OsAttribute
  saved_at t o =
      lookup t
        (if o.in_transaction then contents_or_empty (d.read_attributes o.file) else o.attributes)

  pub exists_stored :
      (t : ℕ) (o : ObjectFile F)
      → IsStored d o
      → attribute_exists t o ≡ present (lookup t o.attributes)
  unfolding attribute_exists
  exists_stored t o h = ground (arith, h.is_valid)

  pub attribute_stored :
      (t : ℕ) (o : ObjectFile F) (a : OsAttribute)
      → lookup t o.attributes ≡ some a
      → get_attribute t o ≡ a
  unfolding get_attribute
  attribute_stored t o a h = ground (arith, h)

  pub set_stored :
      (t u : ℕ) (a : OsAttribute) (o : ObjectFile F)
      → IsStored d o
      → ((set_attribute d t a o).0 ≡ true)
        × (lookup u (set_attribute d t a o).1.attributes
            ≡ (if u == t then some a else lookup u o.attributes))
        × ((set_attribute d t a o).1.in_transaction ≡ o.in_transaction)
  unfolding set_attribute store
  set_stored t u a o h = (
    ground (arith, h.is_valid, laws.writes (insert t a o.attributes) o.file),
    ground (arith, h.is_valid, lookup-insert t u a o.attributes),
    ground (arith, h.is_valid),
  )

  pub saved_stored :
      (t u : ℕ) (a : OsAttribute) (o : ObjectFile F)
      → IsStored d o
      → o.in_transaction ≡ true
      → saved_at u (set_attribute d t a o).1 ≡ saved_at u o
  unfolding set_attribute store
  saved_stored t u a o h open_one = ground (arith, h.is_valid, open_one)

  pub saved_ne :
      (t u : ℕ) (a : OsAttribute) (o : ObjectFile F)
      → IsStored d o
      → (u == t) ≡ false
      → saved_at u (set_attribute d t a o).1 ≡ saved_at u o
  saved_ne t u a o h ne = elim (Bool-cases o.in_transaction) [
    | inl open_one ↦ saved_stored t u a o h open_one
    | inr none_open ↦ let s = set_stored t u a o h in ground (arith, none_open, s.1, s.2, ne)
  ]

  pub start_stored :
      (t : ℕ) (o : ObjectFile F)
      → IsStored d o
      → (start_transaction d o).0 ≡ true
      → (saved_at t (start_transaction d o).1 ≡ lookup t o.attributes)
        × ((start_transaction d o).1.in_transaction ≡ true)
  unfolding start_transaction
  start_stored t o h started = elim (Bool-cases o.in_transaction) [
    | inl open_one ↦ absurd (ground (arith, open_one, started))
    | inr none_open ↦
        let same = ap (lookup t) (h.in_step none_open) in
        (
          ground (arith, none_open, started, ap contents_or_empty h.reads, same),
          ground (arith, none_open, started),
        )
  ]

  pub start_left : (o : ObjectFile F) → (start_transaction d o).1.attributes ≡ o.attributes
  unfolding start_transaction
  start_left o = ground arith

  pub commit_left : (o : ObjectFile F) → (commit_transaction d o).1.attributes ≡ o.attributes
  unfolding commit_transaction store
  commit_left o = ground arith

  pub abort_stored :
      (t : ℕ) (o : ObjectFile F)
      → IsStored d o
      → lookup t (abort_transaction d o).1.attributes ≡ saved_at t o
  unfolding abort_transaction reload
  abort_stored t o h = elim (Bool-cases o.in_transaction) [
    | inl open_one ↦ ground (arith, open_one, h.reads)
    | inr none_open ↦ ground (arith, none_open)
  ]

  pub boolean_stored :
      (t : ℕ) (val : Bool) (o : ObjectFile F)
      → get_boolean_value t val o ≡ as_boolean val (lookup t o.attributes)
  unfolding get_boolean_value
  boolean_stored t val o = refl

  pub ulong_stored :
      (t val : ℕ) (o : ObjectFile F)
      → get_unsigned_long_value t val o ≡ as_unsigned_long val (lookup t o.attributes)
  unfolding get_unsigned_long_value
  ulong_stored t val o = refl

  pub bytes_stored :
      (t : ℕ) (o : ObjectFile F)
      → get_byte_string_value t o ≡ as_byte_string (lookup t o.attributes)
  unfolding get_byte_string_value
  bytes_stored t o = refl

  pub set_shows :
      (t u : ℕ) (a : OsAttribute) (o : ObjectFile F)
      → IsStored d o
      → lookup u (set_attribute d t a o).1.attributes ≡ (
          if (set_attribute d t a o).0
          then if u == t then some a else lookup u o.attributes
          else lookup u o.attributes)
  set_shows t u a o h = let s = set_stored t u a o h in ground (arith, s.0, s.1)

  abbrev pub object_file_laws : OsObjectLaws (object_file d laws)
  object_file_laws = record {
    view = λ t o. lookup t o.0.attributes;
    exists_view = λ t o. exists_stored t o.0 o.1;
    attribute_view = λ t o a h. attribute_stored t o.0 a h;
    boolean_view = λ t b o. boolean_stored t b o.0;
    ulong_view = λ t n o. ulong_stored t n o.0;
    bytes_view = λ t o. bytes_stored t o.0;
    set_view = λ t u a o. set_shows t u a o.0 o.1;
  }

  abbrev pub object_file_transactions : TransactionLaws object_file_laws
  object_file_transactions = record {
    saved = λ t o. saved_at t o.0;
    start_view = λ t o. ap (lookup t) (start_left o.0);
    start_saved = λ t o h. (start_stored t o.0 o.1 h).0;
    set_saved = λ t u a o h. saved_ne t u a o.0 o.1 h;
    commit_view = λ t o. ap (lookup t) (commit_left o.0);
    abort_view = λ t o. abort_stored t o.0 o.1;
  }

  abbrev pub object_file_rollback : RollbackLaws object_file_transactions
  object_file_rollback = record {
    in_transaction = λ o. o.0.in_transaction;
    start_in = λ o h. (start_stored 0 o.0 o.1 h).1;
    set_in = λ t a o. (set_stored t t a o.0 o.1).2;
    set_saved_same = λ t u a o h. saved_stored t u a o.0 o.1 h;
  }
