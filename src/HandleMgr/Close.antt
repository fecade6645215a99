-- ===== src/HandleMgr/Close.antt =====
-- What closing a session does to the handles.
use archive_aaf_sshsm.Common.{
  ℕ, ◌≡◌, refl, ◌∙◌, ◌≢◌, inl, inr, Bool, ◌&&◌, ◌||◌, Option, none, some, [], ◌∷◌, arith, ◌==◌,
  if◌then◌else◌, Bool-cases,
}
use archive_aaf_sshsm.Common.Map.{Map, lookup, erase, Unique, lookup-erase, erase-Unique}
use archive_aaf_sshsm.HandleMgr.{
  session, Handle, HandleManager, is_session, is_object, sweep, count_sessions, of_session, of_slot,
  all_sessions_closed, session_closed,
}
use archive_aaf_sshsm.HandleMgr.Sweep.{kept, lookup-sweep, sweep-Unique}
use archive_aaf_sshsm.HandleMgr.Invariant.{Inv}

-- A session of the slot other than `h` has a handle.
abbrev pub OtherSession : ℕ → ℕ → HandleManager → Type 0
OtherSession slot_id h m =
    (j : ℕ) × (e : Handle) × (j ≢ h)
    × (lookup j m.handles ≡ some e)
    × (e.kind ≡ session)
    × (e.slot_id ≡ slot_id)

counted :
    (slot_id : ℕ) (es : Map Handle) (j : ℕ) (e : Handle)
    → lookup j es ≡ some e
    → e.kind ≡ session
    → e.slot_id ≡ slot_id
    → count_sessions slot_id es ≢ 0
unfolding count_sessions
counted slot_id [] j e h kd sl = ground arith
counted slot_id ((i, e') ∷ rest) j e h kd sl = ground (arith, counted slot_id rest j e)

counts :
    (slot_id : ℕ) (es : Map Handle)
    → Unique es
    → count_sessions slot_id es ≢ 0
    → (j : ℕ) × (e : Handle) × (lookup j es ≡ some e) × (e.kind ≡ session) × (e.slot_id ≡ slot_id)
unfolding count_sessions
counts slot_id [] u h = absurd (h refl)
counts slot_id ((i, e) ∷ rest) u h =
    elim (Bool-cases (is_session e.kind && (slot_id == e.slot_id))) [
      | inl here ↦ (i, e, ground arith, ground arith, ground arith)
      | inr there ↦
          let found : (j : ℕ) × (e : Handle) × (lookup j rest ≡ some e)
              × (e.kind ≡ session)
              × (e.slot_id ≡ slot_id) =
            counts slot_id rest u.1 (λ z. h (ground arith)) in
          (found.0, found.1, ground arith, found.3, found.4)
    ]

-- The entries that a sweep by sessionClosed selects, without the branch that only counts.
abbrev pub object_of_session : ℕ → Handle → Bool
object_of_session h e = is_object e.kind && (h == e.h_session)

kept-of_session :
    (slot_id h : ℕ) (o : Option Handle)
    → kept (of_session slot_id h) o ≡ kept (object_of_session h) o
kept-of_session slot_id h none = refl
kept-of_session slot_id h (some e) = ground arith

module _ (h : ℕ) (e : Handle) (m : HandleManager) (inv : Inv m) where
  abbrev pub erased : HandleManager
  erased = record m { handles = erase h m.handles }

  abbrev pub swept : HandleManager
  swept = sweep (of_session e.slot_id h) erased.handles erased

  pub lookup-swept :
      (k : ℕ)
      → lookup k swept.handles
        ≡ (if h == k then none else kept (object_of_session h) (lookup k m.handles))
  lookup-swept k =
      lookup-sweep (of_session e.slot_id h) erased k (erase-Unique h m.handles inv.unique)
      ∙ kept-of_session e.slot_id h (lookup k erased.handles)
      ∙ ground (arith, lookup-erase h k m.handles)

  pub lookup-swept_again :
      (k : ℕ)
      → lookup k (all_sessions_closed e.slot_id swept).handles
        ≡ kept (of_slot e.slot_id) (lookup k swept.handles)
  unfolding all_sessions_closed
  lookup-swept_again k = lookup-sweep (of_slot e.slot_id) swept k (
      sweep-Unique (of_session e.slot_id h) erased.handles erased
        (erase-Unique h m.handles inv.unique))

module _ (h : ℕ) (e : Handle) (m : HandleManager) (inv : Inv m)
    (found : lookup h m.handles ≡ some e) (kd : e.kind ≡ session) where
  -- Closing a session while another session of its slot is open invalidates its handle and the
  -- handles of the objects made in it, and no other.
  pub session_closed_shared :
      (k : ℕ)
      → OtherSession e.slot_id h m
      → lookup k (session_closed h m).handles
        ≡ (if h == k then none else kept (object_of_session h) (lookup k m.handles))
  unfolding session_closed
  session_closed_shared k (j, e', ne, at, ses, sl) =
      let more =
        counted e.slot_id (erase h m.handles) j e' (ground (arith, lookup-erase h j m.handles)) ses
          sl in
      ground (arith, lookup-swept h e m inv k)

  lone_count : ¬ OtherSession e.slot_id h m → count_sessions e.slot_id (erase h m.handles) ≡ 0
  lone_count lone = elim (Bool-cases (count_sessions e.slot_id (erase h m.handles) == 0)) [
    | inl z ↦ ground arith
    | inr nz ↦
        let c =
          counts e.slot_id (erase h m.handles) (erase-Unique h m.handles inv.unique)
            (ground arith) in
        absurd (
          lone (
            c.0,
            c.1,
            ground (arith, lookup-erase h c.0 m.handles, c.2),
            ground (arith, lookup-erase h c.0 m.handles, c.2),
            c.3,
            c.4,
          ))
  ]

  -- Closing the last session of a slot invalidates every handle of the slot, and of the other slots
  -- those of the objects made in that session.
  pub session_closed_last :
      (k : ℕ)
      → ¬ OtherSession e.slot_id h m
      → lookup k (session_closed h m).handles
        ≡ kept (λ x. (e.slot_id == x.slot_id) || object_of_session h x) (lookup k m.handles)
  unfolding session_closed
  session_closed_last k lone =
      let z = lone_count lone in
      ground (arith, lookup-swept h e m inv k, lookup-swept_again h e m inv k, found, kd)
