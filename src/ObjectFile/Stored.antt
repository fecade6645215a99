-- ===== src/ObjectFile/Stored.antt =====
-- SoftHSMv2/src/lib/object_store/ObjectFile.cpp: on a file that can be written and read back, every operation
-- keeps an object valid and, outside of a transaction, its file in step with its attributes.
use archive_aaf_sshsm.Common.{ℕ, ◌≡◌, inl, inr, true, false, arith, Bool-cases}
use archive_aaf_sshsm.Common.Map.{Map, lookup, insert, erase}
use archive_aaf_sshsm.OsObject.{OsAttribute, OsObject, present}
use archive_aaf_sshsm.ObjectFile.{
  contents, ObjectDisk, ObjectFile, attribute_exists, get_attribute, get_boolean_value,
  get_unsigned_long_value, get_byte_string_value, store, set_attribute, delete_attribute, reload,
  start_transaction, commit_transaction, abort_transaction,
}

-- A disk with room, that nobody else writes to.
pub record ObjectDiskLaws {F : Type 0} (d : ObjectDisk F) : Type 0 where
  pub writes : (m : Map OsAttribute) (f : F) → (d.write_attributes m f).0 ≡ true
  pub read_write :
      (m : Map OsAttribute) (f : F) → d.read_attributes (d.write_attributes m f).1 ≡ contents m

module _ {F : Type 0} (d : ObjectDisk F) where
  -- The object is valid, its file can be read, and outside of a transaction holds its attributes.
  pub record IsStored (o : ObjectFile F) : Type 0 where
    pub is_valid : o.valid ≡ true
    pub on_disk : Map OsAttribute
    pub reads : d.read_attributes o.file ≡ contents on_disk
    pub in_step : o.in_transaction ≡ false → on_disk ≡ o.attributes

  module _ (laws : ObjectDiskLaws d) where
    put_attributes-IsStored :
        (m : Map OsAttribute) (o : ObjectFile F)
        → IsStored o
        → IsStored (store d false (record o { attributes = m }))
    unfolding store
    put_attributes-IsStored m o h = elim (Bool-cases o.in_transaction) [
      | inl open_one ↦ record {
        is_valid = ground (arith, open_one, h.is_valid);
        on_disk = h.on_disk;
        reads = ground (arith, open_one, h.reads);
        in_step = λ closed. ground (arith, open_one, closed);
      }
      | inr none_open ↦ record {
        is_valid = ground (arith, none_open, h.is_valid, laws.writes m o.file);
        on_disk = m;
        reads = ground (arith, none_open, h.is_valid, laws.read_write m o.file);
        in_step = λ closed. ground (arith, none_open, h.is_valid);
      }
    ]

    pub set_attribute-IsStored :
        (t : ℕ) (a : OsAttribute) (o : ObjectFile F)
        → IsStored o
        → IsStored (set_attribute d t a o).1
    unfolding set_attribute
    set_attribute-IsStored t a o h =
        let put : (set_attribute d t a o).1
            ≡ store d false (record o { attributes = insert t a o.attributes }) =
          ground (arith, h.is_valid) in
        rw put (put_attributes-IsStored (insert t a o.attributes) o h)

    pub delete_attribute-IsStored :
        (t : ℕ) (o : ObjectFile F) → IsStored o → IsStored (delete_attribute d t o).1
    unfolding delete_attribute
    delete_attribute-IsStored t o h = elim (Bool-cases (present (lookup t o.attributes))) [
      | inl there ↦
          let put : (delete_attribute d t o).1
              ≡ store d false (record o { attributes = erase t o.attributes }) =
            ground (arith, h.is_valid, there) in
          rw put (put_attributes-IsStored (erase t o.attributes) o h)
      | inr absent ↦
          let left : (delete_attribute d t o).1 ≡ o = ground (arith, h.is_valid, absent) in
          rw left h
    ]

    pub start_transaction-IsStored :
        (o : ObjectFile F) → IsStored o → IsStored (start_transaction d o).1
    unfolding start_transaction
    start_transaction-IsStored o h = record {
      is_valid = ground (arith, h.is_valid);
      on_disk = h.on_disk;
      reads = ground (arith, h.reads);
      in_step = λ closed. ground (arith, closed, h.in_step);
    }

    pub commit_transaction-IsStored :
        (o : ObjectFile F) → IsStored o → IsStored (commit_transaction d o).1
    unfolding commit_transaction store
    commit_transaction-IsStored o h = elim (Bool-cases o.in_transaction) [
      | inl open_one ↦ record {
        is_valid = ground (arith, open_one, h.is_valid, laws.writes o.attributes o.file);
        on_disk = o.attributes;
        reads = ground (
          arith,
          open_one,
          h.is_valid,
          laws.writes o.attributes o.file,
          laws.read_write o.attributes o.file,
        );
        in_step = λ closed. ground (arith, open_one, h.is_valid, laws.writes o.attributes o.file);
      }
      | inr none_open ↦
          let left : (commit_transaction d o).1 ≡ o = ground (arith, none_open) in rw left h
    ]

    pub abort_transaction-IsStored :
        (o : ObjectFile F) → IsStored o → IsStored (abort_transaction d o).1
    unfolding abort_transaction reload
    abort_transaction-IsStored o h = elim (Bool-cases o.in_transaction) [
      | inl open_one ↦ record {
        is_valid = ground (arith, open_one, h.reads);
        on_disk = h.on_disk;
        reads = ground (arith, open_one, h.reads);
        in_step = λ closed. ground (arith, open_one, h.reads);
      }
      | inr none_open ↦
          let left : (abort_transaction d o).1 ≡ o = ground (arith, none_open) in rw left h
    ]

    -- The objects of a token, on such a disk.
    abbrev pub StoredObject : Type 0
    StoredObject = (o : ObjectFile F) × IsStored o

    -- The class ObjectFile as an OSObject.
    abbrev pub object_file : OsObject StoredObject
    object_file = record {
      attribute_exists = λ t o. attribute_exists t o.0;
      get_attribute = λ t o. get_attribute t o.0;
      get_boolean_value = λ t val o. get_boolean_value t val o.0;
      get_unsigned_long_value = λ t val o. get_unsigned_long_value t val o.0;
      get_byte_string_value = λ t o. get_byte_string_value t o.0;
      set_attribute = λ t a o. (
        (set_attribute d t a o.0).0,
        ((set_attribute d t a o.0).1, set_attribute-IsStored t a o.0 o.1),
      );
      delete_attribute = λ t o. (
        (delete_attribute d t o.0).0,
        ((delete_attribute d t o.0).1, delete_attribute-IsStored t o.0 o.1),
      );
      is_valid = λ o. o.0.valid;
      start_transaction = λ o. (
        (start_transaction d o.0).0,
        ((start_transaction d o.0).1, start_transaction-IsStored o.0 o.1),
      );
      commit_transaction = λ o. (
        (commit_transaction d o.0).0,
        ((commit_transaction d o.0).1, commit_transaction-IsStored o.0 o.1),
      );
      abort_transaction = λ o. (
        (abort_transaction d o.0).0,
        ((abort_transaction d o.0).1, abort_transaction-IsStored o.0 o.1),
      );
    }
