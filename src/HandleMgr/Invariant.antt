-- ===== src/HandleMgr/Invariant.antt =====
-- The invariant of the handle table, kept by every operation; handles are never issued twice.
use archive_aaf_sshsm.Common.{
  ℕ, ◌+◌, ◌<◌, ◌≡◌, refl, ap, ◌∙◌, inl, inr, Bool, false, Option, none, some, [], ◌∷◌, arith, ◌==◌,
  if◌then◌else◌, Bool-cases, Option-cases,
}
use archive_aaf_sshsm.Common.Map.{
  Map, lookup, insert, erase, Unique, lookup-insert, lookup-erase, insert-Unique, erase-Unique,
}
use archive_aaf_sshsm.HandleMgr.{
  object, Handle, HandleManager, is_session, is_object, next_handle, add_session, is_current,
  add_object, forget, destroy_object, sweep, count_sessions, of_session, of_slot,
  all_sessions_closed, close_found, session_closed,
}
use archive_aaf_sshsm.Cryptoki.{ulong_mod}
use archive_aaf_sshsm.HandleMgr.Sweep.{kept, lookup-sweep, sweep-Unique, counter-sweep}

-- A registered object stands behind an object handle.
abbrev pub IsEntryOf : ℕ → Option Handle → Type 0
IsEntryOf o none = ⊥
IsEntryOf o (some e) = (e.kind ≡ object) × (e.ptr ≡ o)

pub record Inv (m : HandleManager) : Type 0 where
  pub unique : Unique m.handles
  pub fresh : (k : ℕ) → m.handle_counter < k → lookup k m.handles ≡ none
  pub zero_free : lookup 0 m.handles ≡ none
  pub linked : (o k : ℕ) → lookup o m.objects ≡ some k → IsEntryOf o (lookup k m.handles)

abbrev Unselected : (Handle → Bool) → ℕ → Option Handle → Type 0
Unselected test o none = Unit
Unselected test o (some e) = e.kind ≡ object → e.ptr ≡ o → test e ≡ false

-- An object that is still registered after a sweep was registered before, and no entry of it was
-- selected.
objects-sweep :
    (test : Handle → Bool) (es : Map Handle) (m : HandleManager) (o k : ℕ)
    → lookup o (sweep test es m).objects ≡ some k
    → (lookup o m.objects ≡ some k) × ((j : ℕ) → Unselected test o (lookup j es))
unfolding sweep
objects-sweep test [] m o k h = (h, λ j. tt)
objects-sweep test ((i, e) ∷ rest) m o k h =
    let ih = objects-sweep test rest (if test e then forget i e m else m) o k h in
    (
      ground (arith, ih.0, lookup-erase e.ptr o m.objects),
      λ j. elim (Bool-cases (i == j)) [
        | inl t ↦ rw t (λ kd pt. ground (arith, ih.0, lookup-erase e.ptr o m.objects))
        | inr f ↦ rw f (ih.1 j)
      ],
    )

-- A sweep moves no registration.
pub registered-sweep :
    (test : Handle → Bool) (m : HandleManager) (o k : ℕ)
    → lookup o (sweep test m.handles m).objects ≡ some k
    → lookup o m.objects ≡ some k
registered-sweep test m o k h = (objects-sweep test m.handles m o k h).0

IsEntryOf-kept :
    (test : Handle → Bool) (o : ℕ) (e : Option Handle)
    → IsEntryOf o e
    → Unselected test o e
    → IsEntryOf o (kept test e)
IsEntryOf-kept test o none h u = h
IsEntryOf-kept test o (some e) h u = rw (u h.0 h.1) h

linked-kept :
    (test : Handle → Bool) (m : HandleManager) (o k : ℕ)
    → Inv m
    → lookup o (sweep test m.handles m).objects ≡ some k
    → IsEntryOf o (lookup k (sweep test m.handles m).handles)
linked-kept test m o k inv h =
    let (before, kept_out) = objects-sweep test m.handles m o k h in
    rw (lookup-sweep test m k inv.unique)
      (IsEntryOf-kept test o (lookup k m.handles) (inv.linked o k before) (kept_out k))

module _ (m : HandleManager) (inv : Inv m) where
  pub next_handle-eq : m.handle_counter + 1 < ulong_mod → next_handle m ≡ m.handle_counter + 1
  next_handle-eq h = omega arith

  pub sweep-Inv : (test : Handle → Bool) → Inv (sweep test m.handles m)
  sweep-Inv test = record {
    unique = sweep-Unique test m.handles m inv.unique;
    fresh = λ k h.
        lookup-sweep test m k inv.unique
        ∙ ap (kept test) (inv.fresh k (rw (← counter-sweep test m.handles m) h));
    zero_free = lookup-sweep test m 0 inv.unique ∙ ap (kept test) inv.zero_free;
    linked = λ o k h. linked-kept test m o k inv h;
  }

  forget-Inv : (k : ℕ) (e : Handle) → lookup k m.handles ≡ some e → Inv (forget k e m)
  forget-Inv k e h = record {
    unique = erase-Unique k m.handles inv.unique;
    fresh = λ j g. ground (arith, inv.fresh j g, lookup-erase k j m.handles);
    zero_free = ground (arith, inv.zero_free, lookup-erase k 0 m.handles);
    linked = λ o j g.
        ground (arith, lookup-erase k j m.handles, lookup-erase e.ptr o m.objects, inv.linked o j);
  }

  module _ (e : Handle) (room : m.handle_counter + 1 < ulong_mod) where
    issue-fresh : (j : ℕ) → next_handle m < j → lookup j (insert (next_handle m) e m.handles) ≡ none
    issue-fresh j g =
        ground
          (arith, next_handle-eq room, inv.fresh j, lookup-insert (next_handle m) j e m.handles)

    issue-zero : lookup 0 (insert (next_handle m) e m.handles) ≡ none
    issue-zero =
        ground
          (arith, next_handle-eq room, inv.zero_free, lookup-insert (next_handle m) 0 e m.handles)

    issue-linked :
        (o j : ℕ)
        → IsEntryOf o (lookup j m.handles)
        → IsEntryOf o (lookup j (insert (next_handle m) e m.handles))
    issue-linked o j g =
        ground
          (arith, next_handle-eq room, inv.fresh j, lookup-insert (next_handle m) j e m.handles)

  pub add_session-Inv :
      (slot_id s : ℕ) → m.handle_counter + 1 < ulong_mod → Inv (add_session slot_id s m).0
  unfolding add_session
  add_session-Inv slot_id s room = record {
    unique = insert-Unique _ _ m.handles inv.unique;
    fresh = issue-fresh _ room;
    zero_free = issue-zero _ room;
    linked = λ o j g. issue-linked _ room o j (inv.linked o j g);
  }

  register-Inv :
      (e : Handle)
      → e.kind ≡ object
      → m.handle_counter + 1 < ulong_mod
      → Inv (record m {
        handles = insert (next_handle m) e m.handles;
        objects = insert e.ptr (next_handle m) m.objects;
        handle_counter = next_handle m;
      })
  register-Inv e kd room = record {
    unique = insert-Unique _ _ m.handles inv.unique;
    fresh = issue-fresh e room;
    zero_free = issue-zero e room;
    linked = λ o j g. ground (
      arith,
      lookup-insert e.ptr o (next_handle m) m.objects,
      lookup-insert (next_handle m) j e m.handles,
      issue-linked e room o j,
      inv.linked o j,
    );
  }

  unregister-Inv : (o : ℕ) → Inv (record m { objects = erase o m.objects })
  unregister-Inv o = record {
    unique = inv.unique;
    fresh = inv.fresh;
    zero_free = inv.zero_free;
    linked = λ p j g. ground (arith, lookup-erase o p m.objects, inv.linked p j);
  }

  pub add_object-Inv :
      (slot_id h_session : ℕ) (is_private : Bool) (o : ℕ)
      → m.handle_counter + 1 < ulong_mod
      → Inv (add_object slot_id h_session is_private o m).0
  add_object-Inv slot_id h_session is_private o room = elim (Option-cases (lookup o m.objects)) [
    | inl new ↦ rw (new, add_object) (register-Inv _ refl room)
    | inr (k, old) ↦ elim (Bool-cases (is_current slot_id (lookup k m.handles))) [
      | inl same ↦ rw (old, add_object, same) inv
      | inr stale ↦ rw (old, add_object, stale) (unregister-Inv o)
    ]
  ]

  pub destroy_object-Inv : (h : ℕ) → Inv (destroy_object h m)
  unfolding destroy_object
  destroy_object-Inv h = elim (Option-cases (lookup h m.handles)) [
    | inl gone ↦ rw (gone, destroy_object) inv
    | inr (e, found) ↦ elim (Bool-cases (is_object e.kind)) [
      | inl obj ↦ rw (found, destroy_object, obj) (rw obj at (forget-Inv h e found))
      | inr misses ↦ rw (found, destroy_object, misses) inv
    ]
  ]

  close_found-Inv :
      (h : ℕ) (e : Handle)
      → lookup h m.handles ≡ some e
      → is_object e.kind ≡ false
      → ((n : HandleManager) (test : Handle → Bool) → Inv n → Inv (sweep test n.handles n))
      → Inv (close_found h e m)
  unfolding all_sessions_closed
  close_found-Inv h e found kd sweeps =
      let m1 : HandleManager = record m { handles = erase h m.handles } in
      let i1 : Inv m1 = rw kd at (forget-Inv h e found) in
      let i2 = sweeps m1 (of_session e.slot_id h) i1 in
      elim (Bool-cases (count_sessions e.slot_id m1.handles == 0)) [
        | inl last ↦ rw last (sweeps _ (of_slot e.slot_id) i2)
        | inr more ↦ rw more i2
      ]

pub session_closed-Inv : (h : ℕ) (m : HandleManager) → Inv m → Inv (session_closed h m)
unfolding session_closed
session_closed-Inv h m inv = elim (Option-cases (lookup h m.handles)) [
  | inl gone ↦ rw (gone, session_closed) inv
  | inr (e, found) ↦ elim (Bool-cases (is_session e.kind)) [
    | inl ses ↦
        rw (found, session_closed, ses)
          (close_found-Inv m inv h e found (ground arith) λ n test i. sweep-Inv n i test)
    | inr misses ↦ rw (found, session_closed, misses) inv
  ]
]

entry_of :
    (o : ℕ) (x : Option Handle)
    → IsEntryOf o x
    → (e : Handle) × (x ≡ some e) × (e.kind ≡ object) × (e.ptr ≡ o)
entry_of o none h = absurd h
entry_of o (some e) h = (e, refl, h.0, h.1)

-- The entry behind a registration.
pub registered_entry :
    (o k : ℕ) (m : HandleManager)
    → Inv m
    → lookup o m.objects ≡ some k
    → (e : Handle) × (lookup k m.handles ≡ some e) × (e.kind ≡ object) × (e.ptr ≡ o)
registered_entry o k m inv h = entry_of o (lookup k m.handles) (inv.linked o k h)
