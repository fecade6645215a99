-- ===== src/SessionObjects.antt =====
-- SoftHSMv2/src/lib/object_store/SessionObjectStore.cpp and SessionObject.cpp: the objects of sessions. A
-- pointer is the number of an object; `all_objects` is allObjects with what it points to. `A` is an attribute.
pub mod Attributes
pub mod Laws
pub mod Removal
pub mod Run
use archive_aaf_sshsm.Common.{
  ℕ, Bool, true, false, not, ◌&&◌, none, some, List, [], ◌∷◌, ◌==◌, if◌then◌else◌,
}
use archive_aaf_sshsm.Common.Map.{Map, lookup, insert}

-- A set of pointers is a list without repetition.
unfoldable pub member : ℕ → List ℕ → Bool
member a [] = false
member a (b ∷ bs) = let later = member a bs in if b == a then true else later

unfoldable pub remove : ℕ → List ℕ → List ℕ
remove a [] = []
remove a (b ∷ bs) = let rest = remove a bs in if b == a then rest else b ∷ rest

pub record SessionObject (A : Type 0) : Type 0 where
  pub slot_id : ℕ
  pub h_session : ℕ
  pub is_private : Bool
  pub valid : Bool
  pub attributes : Map A

pub record SessionObjectStore (A : Type 0) : Type 0 where
  pub objects : List ℕ
  pub all_objects : Map (SessionObject A)

module _ {A : Type 0} where
  -- The constructor; a mutex is taken to be there.
  abbrev pub new_session_object : ℕ → ℕ → Bool → SessionObject A
  new_session_object slot_id h_session is_private = record {
    slot_id = slot_id;
    h_session = h_session;
    is_private = is_private;
    valid = true;
    attributes = [];
  }

  -- discardAttributes, with valid = false.
  unfoldable pub invalidate : SessionObject A → SessionObject A
  invalidate o = record o { valid = false; attributes = [] }

  unfoldable pub has_slot_id : ℕ → SessionObject A → Bool
  has_slot_id slot_id o = o.slot_id == slot_id

  -- Whether the object is removed, and the object afterwards.
  unfoldable pub remove_on_session_close : ℕ → SessionObject A → Bool × SessionObject A
  remove_on_session_close h o = if o.h_session == h then (true, invalidate o) else (false, o)

  unfoldable pub remove_on_all_sessions_close : ℕ → SessionObject A → Bool × SessionObject A
  remove_on_all_sessions_close slot_id o =
      if o.slot_id == slot_id then (true, invalidate o) else (false, o)

  unfoldable pub remove_on_token_logout : ℕ → SessionObject A → Bool × SessionObject A
  remove_on_token_logout slot_id o =
      if (o.slot_id == slot_id) && o.is_private then (true, invalidate o) else (false, o)

  -- The new object lies at an address that the allocator chose.
  unfoldable pub create_object : ℕ → ℕ → ℕ → Bool → SessionObjectStore A → SessionObjectStore A
  create_object address slot_id h_session is_private s = record {
    objects = if member address s.objects then s.objects else address ∷ s.objects;
    all_objects = insert address (new_session_object slot_id h_session is_private) s.all_objects;
  }

  unfoldable pub delete_object : ℕ → SessionObjectStore A → Bool × SessionObjectStore A
  delete_object address s =
      if not (member address s.objects) then (false, s) else elim (lookup address s.all_objects) [
        | none ↦ (false, s)
        | some o ↦ (
          true,
          record {
            objects = remove address s.objects;
            all_objects = insert address (invalidate o) s.all_objects;
          },
        )
      ]

  -- The loop over a copy of the objects that the three calls below share.
  unfoldable pub remove_each :
      (SessionObject A → Bool × SessionObject A)
      → List ℕ
      → SessionObjectStore A
      → SessionObjectStore A
  remove_each f [] s = s
  remove_each f (a ∷ rest) s = elim (lookup a s.all_objects) [
    | none ↦ remove_each f rest s
    | some o ↦ remove_each f rest (record {
      objects = if (f o).0 then remove a s.objects else s.objects;
      all_objects = insert a (f o).1 s.all_objects;
    })
  ]

  unfoldable pub session_closed : ℕ → SessionObjectStore A → SessionObjectStore A
  session_closed h s = remove_each (remove_on_session_close h) s.objects s

  unfoldable pub all_sessions_closed : ℕ → SessionObjectStore A → SessionObjectStore A
  all_sessions_closed slot_id s = remove_each (remove_on_all_sessions_close slot_id) s.objects s

  unfoldable pub token_logged_out : ℕ → SessionObjectStore A → SessionObjectStore A
  token_logged_out slot_id s = remove_each (remove_on_token_logout slot_id) s.objects s

  unfoldable pub clear_store : SessionObjectStore A → SessionObjectStore A
  clear_store s = record { objects = []; all_objects = [] }

  -- The pointers that the loop inserts in its result.
  unfoldable pub on_slot : ℕ → Map (SessionObject A) → List ℕ → List ℕ
  on_slot slot_id heap [] = []
  on_slot slot_id heap (a ∷ rest) =
      let others = on_slot slot_id heap rest in
      elim (lookup a heap) [
        | none ↦ others
        | some o ↦ if has_slot_id slot_id o then a ∷ others else others
      ]

  unfoldable pub get_objects : ℕ → SessionObjectStore A → List ℕ
  get_objects slot_id s = on_slot slot_id s.all_objects s.objects
