-- ===== src/ObjectFile.antt =====
-- SoftHSMv2/src/lib/object_store/ObjectFile.cpp: the objects of a token, which live in a file each. The file
-- of an object is a parameter; no other process writes it, so that the refresh in isValid finds no change.
-- transactionLockFile is not NULL exactly during a transaction.
pub mod Stored
pub mod Laws
use archive_aaf_sshsm.Common.{ℕ, Bool, true, false, not, ◌&&◌, none, some, if◌then◌else◌}
use archive_aaf_sshsm.Common.Map.{Map, lookup, insert, erase}
use archive_aaf_sshsm.ByteString.{Bytes}
use archive_aaf_sshsm.OsObject.{
  OsAttribute, ulong, present, as_boolean, as_unsigned_long, as_byte_string,
}

-- What a refresh finds: no file or an empty one, attributes up to a corrupt place, or all of them.
pub data ReadResult : Type 0 where
  unreadable : ReadResult
  corrupt contents : Map OsAttribute → ReadResult

-- What ObjectFile.cpp uses of File.cpp and Generation.cpp: locking the lock file, opening the object's file
-- and writing the attributes to it, and reading it.
pub record ObjectDisk (F : Type 0) : Type 0 where
  pub lock : F → Bool
  pub write_attributes : Map OsAttribute → F → Bool × F
  pub read_attributes : F → ReadResult

pub record ObjectFile (F : Type 0) : Type 0 where
  pub attributes : Map OsAttribute
  pub valid : Bool
  pub in_transaction : Bool
  pub file : F

module _ {F : Type 0} where
  unfoldable pub attribute_exists : ℕ → ObjectFile F → Bool
  attribute_exists t o = o.valid && present (lookup t o.attributes)

  unfoldable pub get_attribute : ℕ → ObjectFile F → OsAttribute
  get_attribute t o = elim (lookup t o.attributes) [ none ↦ ulong 0 | some a ↦ a ]

  unfoldable pub get_boolean_value : ℕ → Bool → ObjectFile F → Bool
  get_boolean_value t val o = as_boolean val (lookup t o.attributes)

  unfoldable pub get_unsigned_long_value : ℕ → ℕ → ObjectFile F → ℕ
  get_unsigned_long_value t val o = as_unsigned_long val (lookup t o.attributes)

  unfoldable pub get_byte_string_value : ℕ → ObjectFile F → Bytes
  get_byte_string_value t o = as_byte_string (lookup t o.attributes)

module _ {F : Type 0} (d : ObjectDisk F) where
  -- store(isCommit)
  unfoldable pub store : Bool → ObjectFile F → ObjectFile F
  store is_commit o =
      if not is_commit && o.in_transaction
      then o
      else if not o.valid
      then o
      else let (done, file) = d.write_attributes o.attributes o.file in
        record o { file = file; valid = done }

  unfoldable pub set_attribute : ℕ → OsAttribute → ObjectFile F → Bool × ObjectFile F
  set_attribute t a o =
      if not o.valid
      then (false, o)
      else let o' = store false (record o { attributes = insert t a o.attributes }) in
        (o'.valid, o')

  unfoldable pub delete_attribute : ℕ → ObjectFile F → Bool × ObjectFile F
  delete_attribute t o =
      if not o.valid
      then (false, o)
      else if not (present (lookup t o.attributes))
      then (false, o)
      else let o' = store false (record o { attributes = erase t o.attributes }) in (o'.valid, o')

  -- refresh(true) outside of a transaction.
  unfoldable pub reload : ObjectFile F → ObjectFile F
  reload o = elim (d.read_attributes o.file) [
    | unreadable ↦ record o { valid = false }
    | corrupt m ↦ record o { attributes = m; valid = false }
    | contents m ↦ record o { attributes = m; valid = true }
  ]

  unfoldable pub start_transaction : ObjectFile F → Bool × ObjectFile F
  start_transaction o =
      if o.in_transaction
      then (false, o)
      else if not (d.lock o.file)
      then (false, o)
      else (true, record o { in_transaction = true })

  unfoldable pub commit_transaction : ObjectFile F → Bool × ObjectFile F
  commit_transaction o =
      if not o.in_transaction
      then (false, o)
      else let o' = store true o in
        if not o'.valid then (false, o') else (true, record o' { in_transaction = false })

  unfoldable pub abort_transaction : ObjectFile F → Bool × ObjectFile F
  abort_transaction o =
      if not o.in_transaction
      then (false, o)
      else (true, reload (record o { in_transaction = false }))
