-- ===== src/HandleMgr/Register.antt =====
-- What registering and destroying an object do to the handles.
use archive_aaf_sshsm.Common.{
  ℕ, ◌+◌, ◌<◌, ◌≡◌, refl, ◌≢◌, ◌↔◌, inl, inr, Bool, true, false, Option, none, some, arith,
  Bool-cases, Option-cases,
}
use archive_aaf_sshsm.Common.Map.{lookup, lookup-insert, lookup-erase}
use archive_aaf_sshsm.HandleMgr.{
  object, Handle, HandleManager, is_object, next_handle, is_current, add_session_object, get_object,
  get_object_handle, destroy_object,
}
use archive_aaf_sshsm.Cryptoki.{ulong_mod}
use archive_aaf_sshsm.HandleMgr.Invariant.{Inv, next_handle-eq}

module _ (slot_id h_session : ℕ) (p : Bool) (o : ℕ) (m : HandleManager) (inv : Inv m)
    (room : m.handle_counter + 1 < ulong_mod) where
  -- The slot holds on to another slot's registration of the object.
  abbrev pub TakenElsewhere : Type 0
  TakenElsewhere =
      (j : ℕ) × (e : Handle) × (lookup o m.objects ≡ some j)
      × (lookup j m.handles ≡ some e)
      × (e.slot_id ≢ slot_id)

  add_object_found :
      (j : ℕ) (x : Option Handle)
      → lookup o m.objects ≡ some j
      → lookup j m.handles ≡ x
      → is_current slot_id x ≡ false
      → TakenElsewhere
  add_object_found j none at l c = ground (arith, inv.linked o j at)
  add_object_found j (some e) at l c = (j, e, at, l, ground (arith, inv.linked o j at))

  abbrev entry : Handle
  entry = record {
    kind = object;
    slot_id = slot_id;
    h_session = h_session;
    ptr = o;
    is_private = p;
  }

  -- Registering a session object either fails, exactly when another slot has the object
  -- registered, or gives a nonzero handle under which the object is found and which registering again
  -- gives again, changing nothing.
  pub add_session_object_lem :
      let (m', k) = add_session_object slot_id h_session p o m in
      ((k ≡ 0) ↔ TakenElsewhere)
      × (k ≢ 0
          → (get_object k m' ≡ o)
            × (get_object_handle o m' ≡ k)
            × (add_session_object slot_id h_session p o m' ≡ (m', k)))
  unfolding add_session_object get_object get_object_handle
  add_session_object_lem = elim (Option-cases (lookup o m.objects)) [
    | inl new ↦ (
      (λ z. ground (arith, next_handle-eq m inv room), λ t. ground (arith, t.2)),
      λ nz. (
        ground (arith, lookup-insert (next_handle m) (next_handle m) entry m.handles),
        ground (arith, lookup-insert o o (next_handle m) m.objects),
        ground (
          arith,
          lookup-insert (next_handle m) (next_handle m) entry m.handles,
          lookup-insert o o (next_handle m) m.objects,
        ),
      ),
    )
    | inr (j, old) ↦ elim (Bool-cases (is_current slot_id (lookup j m.handles))) [
      | inl same ↦ (
        (λ z. ground (arith, inv.zero_free), λ t. ground (arith, t.2, t.3, t.4)),
        λ nz. (ground (arith, inv.linked o j), ground arith, ground arith),
      )
      | inr stale ↦ (
        (λ z. add_object_found j (lookup j m.handles) old refl stale, λ t. ground arith),
        λ nz. (ground arith, ground arith, ground arith),
      )
    ]
  ]

abbrev pub object_entry : Option Handle → Bool
object_entry none = false
object_entry (some e) = is_object e.kind

-- Destroying invalidates an object handle and unregisters its object; every other handle keeps its
-- entry and every other object its registration, and the counter stays; a handle that stands for no object
-- changes nothing.
pub destroy_object_lem :
    (h k o : ℕ) (m : HandleManager)
    → let m' = destroy_object h m in
      (get_object h m' ≡ 0)
      × (k ≢ h → lookup k m'.handles ≡ lookup k m.handles)
      × (o ≢ get_object h m → lookup o m'.objects ≡ lookup o m.objects)
      × (m'.handle_counter ≡ m.handle_counter)
      × (object_entry (lookup h m.handles) ≡ true
          → (lookup h m'.handles ≡ none) × (get_object_handle (get_object h m) m' ≡ 0))
      × (object_entry (lookup h m.handles) ≡ false → m' ≡ m)
unfolding destroy_object get_object get_object_handle
destroy_object_lem h k o m = elim (Option-cases (lookup h m.handles)) [
  | inl gone ↦ (
    ground arith,
    λ ne. ground arith,
    λ other. ground arith,
    ground arith,
    λ obj. ground arith,
    λ none_there. ground arith,
  )
  | inr (e, found) ↦ (
    ground (arith, lookup-erase h h m.handles),
    λ ne. ground (arith, lookup-erase h k m.handles),
    λ other. ground (arith, found, lookup-erase e.ptr o m.objects),
    ground (arith, found),
    λ obj. (
      ground (arith, lookup-erase h h m.handles),
      ground (arith, lookup-erase e.ptr e.ptr m.objects),
    ),
    λ none_there. ground arith,
  )
]
