-- ===== src/OsObject.antt =====
-- SoftHSMv2/src/lib/object_store/OSAttribute.h and OSObject.h: the values that attributes have, and the
-- interface of an object that the PKCS#11 layer reads and writes.
use archive_aaf_sshsm.Common.{
  ℕ, ◌≡◌, Bool, true, false, Option, none, some, List, [], ◌==◌, if◌then◌else◌,
}
use archive_aaf_sshsm.ByteString.{Bytes}

-- A std::set is the sorted list of its elements, the std::map of an attribute map the entries in order
-- of their types.
mutual
  pub data OsAttribute : Type 0 where
    boolean : Bool → OsAttribute
    ulong : ℕ → OsAttribute
    byte_string : Bytes → OsAttribute
    mechanism_set : List ℕ → OsAttribute
    attribute_map : AttributeMap → OsAttribute

  pub data AttributeMap : Type 0 where
    no_entry : AttributeMap
    entry : ℕ → OsAttribute → AttributeMap → AttributeMap

-- The virtual methods of an object `O`; those that write return their result and the object afterwards.
pub record OsObject (O : Type 0) : Type 0 where
  pub attribute_exists : ℕ → O → Bool
  pub get_attribute : ℕ → O → OsAttribute
  pub get_boolean_value : ℕ → Bool → O → Bool
  pub get_unsigned_long_value : ℕ → ℕ → O → ℕ
  pub get_byte_string_value : ℕ → O → Bytes
  pub set_attribute : ℕ → OsAttribute → O → Bool × O
  pub delete_attribute : ℕ → O → Bool × O
  pub is_valid : O → Bool
  pub start_transaction : O → Bool × O
  pub commit_transaction : O → Bool × O
  pub abort_transaction : O → Bool × O

-- What a getter returns for the attribute that is there, if any.
unfoldable pub as_boolean : Bool → Option OsAttribute → Bool
as_boolean val none = val
as_boolean val (some (boolean b)) = b
as_boolean val (some (ulong n)) = val
as_boolean val (some (byte_string bs)) = val
as_boolean val (some (mechanism_set ms)) = val
as_boolean val (some (attribute_map m)) = val

unfoldable pub as_unsigned_long : ℕ → Option OsAttribute → ℕ
as_unsigned_long val none = val
as_unsigned_long val (some (boolean b)) = val
as_unsigned_long val (some (ulong n)) = n
as_unsigned_long val (some (byte_string bs)) = val
as_unsigned_long val (some (mechanism_set ms)) = val
as_unsigned_long val (some (attribute_map m)) = val

unfoldable pub as_byte_string : Option OsAttribute → Bytes
as_byte_string none = []
as_byte_string (some (boolean b)) = []
as_byte_string (some (ulong n)) = []
as_byte_string (some (byte_string bs)) = bs
as_byte_string (some (mechanism_set ms)) = []
as_byte_string (some (attribute_map m)) = []

abbrev pub present : Option OsAttribute → Bool
present none = false
present (some a) = true

-- The contract of the getters and of setAttribute, which `view` states: the attributes as a function of
-- their type.
pub record OsObjectLaws {O : Type 0} (I : OsObject O) : Type 0 where
  pub view : ℕ → O → Option OsAttribute
  pub exists_view : (t : ℕ) (o : O) → I.attribute_exists t o ≡ present (view t o)
  pub attribute_view :
      (t : ℕ) (o : O) (a : OsAttribute) → view t o ≡ some a → I.get_attribute t o ≡ a
  pub boolean_view :
      (t : ℕ) (b : Bool) (o : O) → I.get_boolean_value t b o ≡ as_boolean b (view t o)
  pub ulong_view :
      (t n : ℕ) (o : O) → I.get_unsigned_long_value t n o ≡ as_unsigned_long n (view t o)
  pub bytes_view : (t : ℕ) (o : O) → I.get_byte_string_value t o ≡ as_byte_string (view t o)
  pub set_view :
      (t u : ℕ) (a : OsAttribute) (o : O)
      → view u (I.set_attribute t a o).1
        ≡ (if (I.set_attribute t a o).0 then if u == t then some a else view u o else view u o)

-- The contract of the transactions: `saved` is what an abort leaves, which is what there was when the
-- transaction started, or, in an object that keeps no copy, what there is.
pub record TransactionLaws {O : Type 0} {I : OsObject O} (L : OsObjectLaws I) : Type 0 where
  pub saved : ℕ → O → Option OsAttribute
  pub start_view : (t : ℕ) (o : O) → L.view t (I.start_transaction o).1 ≡ L.view t o
  pub start_saved :
      (t : ℕ) (o : O)
      → (I.start_transaction o).0 ≡ true
      → saved t (I.start_transaction o).1 ≡ L.view t o
  pub set_saved :
      (t u : ℕ) (a : OsAttribute) (o : O)
      → (u == t) ≡ false
      → saved u (I.set_attribute t a o).1 ≡ saved u o
  pub commit_view : (t : ℕ) (o : O) → L.view t (I.commit_transaction o).1 ≡ L.view t o
  pub abort_view : (t : ℕ) (o : O) → L.view t (I.abort_transaction o).1 ≡ saved t o

-- What OSObject.h promises besides: between the start of a transaction and its end, what is written does not
-- change the version that an abort loads back.
pub record RollbackLaws {O : Type 0} {I : OsObject O} {L : OsObjectLaws I} (T : TransactionLaws L)
    : Type 0 where
  pub in_transaction : O → Bool
  pub start_in :
      (o : O) → (I.start_transaction o).0 ≡ true → in_transaction (I.start_transaction o).1 ≡ true
  pub set_in :
      (t : ℕ) (a : OsAttribute) (o : O)
      → in_transaction (I.set_attribute t a o).1 ≡ in_transaction o
  pub set_saved_same :
      (t u : ℕ) (a : OsAttribute) (o : O)
      → in_transaction o ≡ true
      → T.saved u (I.set_attribute t a o).1 ≡ T.saved u o
