-- ===== src/HandleMgr/Run.antt =====
-- The operations of the handle table in any order.
use archive_aaf_sshsm.HandleMgr.Close.{lookup-swept, lookup-swept_again}
use archive_aaf_sshsm.Common.{
  ℕ, ◌+◌, ◌≤◌, ◌<◌, ◌≡◌, refl, ◌⊎◌, inl, inr, Bool, false, Option, none, some, List, [], ◌∷◌, arith,
  Bool-cases, Option-cases, length,
}
use archive_aaf_sshsm.Common.Map.{lookup, erase, Unique, lookup-insert, lookup-erase}
use archive_aaf_sshsm.HandleMgr.{
  session, object, Handle, HandleManager, is_session, next_handle, add_session, add_object,
  add_session_object, add_token_object, destroy_object, sweep, of_session, of_slot, private_of_slot,
  all_sessions_closed, token_logged_out, close_found, session_closed,
}
use archive_aaf_sshsm.Cryptoki.{ulong_mod}
use archive_aaf_sshsm.HandleMgr.Sweep.{kept, lookup-sweep, counter-sweep}
use archive_aaf_sshsm.HandleMgr.Invariant.{
  Inv, sweep-Inv, add_session-Inv, add_object-Inv, destroy_object-Inv, session_closed-Inv,
  next_handle-eq,
}

-- The operations that change the table.
pub data Op : Type 0 where
  adds_session : ℕ → ℕ → Op
  adds_session_object : ℕ → ℕ → Bool → ℕ → Op
  adds_token_object : ℕ → Bool → ℕ → Op
  destroys_object closes_session closes_slot logs_out : ℕ → Op

unfoldable pub step : Op → HandleManager → HandleManager
step (adds_session slot_id s) m = (add_session slot_id s m).0
step (adds_session_object slot_id h_session is_private o) m =
    (add_session_object slot_id h_session is_private o m).0
step (adds_token_object slot_id is_private o) m = (add_token_object slot_id is_private o m).0
step (destroys_object h) m = destroy_object h m
step (closes_session h) m = session_closed h m
step (closes_slot slot_id) m = all_sessions_closed slot_id m
step (logs_out slot_id) m = token_logged_out slot_id m

pub run : List Op → HandleManager → HandleManager
run [] m = m
run (op ∷ ops) m = run ops (step op m)

pub step-Inv :
    (op : Op) (m : HandleManager) → m.handle_counter + 1 < ulong_mod → Inv m → Inv (step op m)
unfolding step add_session_object add_token_object all_sessions_closed token_logged_out
step-Inv (adds_session slot_id s) m room inv = add_session-Inv m inv slot_id s room
step-Inv (adds_session_object slot_id h p o) m room inv = add_object-Inv m inv slot_id h p o room
step-Inv (adds_token_object slot_id p o) m room inv = add_object-Inv m inv slot_id 0 p o room
step-Inv (destroys_object h) m room inv = destroy_object-Inv m inv h
step-Inv (closes_session h) m room inv = session_closed-Inv h m inv
step-Inv (closes_slot slot_id) m room inv = sweep-Inv m inv (of_slot slot_id)
step-Inv (logs_out slot_id) m room inv = sweep-Inv m inv (private_of_slot slot_id)

counter-session_closed :
    (h : ℕ) (m : HandleManager) → (session_closed h m).handle_counter ≡ m.handle_counter
unfolding session_closed
counter-session_closed h m = elim (Option-cases (lookup h m.handles)) [
  | inl gone ↦ rw (gone, session_closed)
  | inr (e, found) ↦
      let m1 : HandleManager = record m { handles = erase h m.handles } in
      let m2 = sweep (of_session e.slot_id h) m1.handles m1 in
      ground (
        arith,
        found,
        counter-sweep (of_session e.slot_id h) m1.handles m1,
        counter-sweep (of_slot e.slot_id) m2.handles m2,
      )
]

-- An operation issues at most one handle.
counter-step :
    (op : Op) (m : HandleManager)
    → m.handle_counter + 1 < ulong_mod
    → (m.handle_counter ≤ (step op m).handle_counter)
      × ((step op m).handle_counter ≤ m.handle_counter + 1)
unfolding step add_session add_session_object add_token_object destroy_object all_sessions_closed
    token_logged_out
counter-step (adds_session slot_id s) m room = omega arith
counter-step (adds_session_object slot_id h p o) m room = ground arith
counter-step (adds_token_object slot_id p o) m room = ground arith
counter-step (destroys_object h) m room = ground arith
counter-step (closes_session h) m room = omega (arith, counter-session_closed h m)
counter-step (closes_slot slot_id) m room =
    omega (arith, counter-sweep (of_slot slot_id) m.handles m)
counter-step (logs_out slot_id) m room =
    omega (arith, counter-sweep (private_of_slot slot_id) m.handles m)

-- As long as the 64-bit counter does not wrap, every sequence of operations keeps the table's
-- invariant: no key twice, no handle 0 and none above the counter, and every registered object
-- behind a live object handle that points back to it.
pub run-Inv :
    (ops : List Op) (m : HandleManager)
    → m.handle_counter + length ops < ulong_mod
    → Inv m
    → Inv (run ops m)
unfolding run
run-Inv [] m room inv = inv
run-Inv (op ∷ ops) m room inv =
    run-Inv ops (step op m) (omega (arith, counter-step op m (omega arith)))
      (step-Inv op m (omega arith) inv)

abbrev pub SameOrGone : Option Handle → Option Handle → Type 0
SameOrGone before after = (after ≡ before) ⊎ (after ≡ none)

SameOrGone-kept : (test : Handle → Bool) (o : Option Handle) → SameOrGone o (kept test o)
SameOrGone-kept test none = inl refl
SameOrGone-kept test (some e) = ground arith

SameOrGone-trans : (a b c : Option Handle) → SameOrGone a b → SameOrGone b c → SameOrGone a c
SameOrGone-trans a b c p q = ground arith

sweep-SameOrGone :
    (test : Handle → Bool) (m : HandleManager) (k : ℕ)
    → Unique m.handles
    → SameOrGone (lookup k m.handles) (lookup k (sweep test m.handles m).handles)
sweep-SameOrGone test m k u =
    rw (lookup-sweep test m k u) (SameOrGone-kept test (lookup k m.handles))

close_found-SameOrGone :
    (h : ℕ) (e : Handle) (m : HandleManager) (k : ℕ)
    → Inv m
    → SameOrGone (lookup k m.handles) (lookup k (close_found h e m).handles)
close_found-SameOrGone h e m k inv =
    ground (arith, lookup-swept h e m inv k, lookup-swept_again h e m inv k)

lookup-add_object :
    (slot_id h_session : ℕ) (p : Bool) (o : ℕ) (m : HandleManager) (k : ℕ)
    → m.handle_counter + 1 < ulong_mod
    → Inv m
    → k ≤ m.handle_counter
    → lookup k (add_object slot_id h_session p o m).0.handles ≡ lookup k m.handles
lookup-add_object slot_id h_session p o m k room inv h = ground (
  arith,
  next_handle-eq m inv room,
  lookup-insert (next_handle m) k
      (record { kind = object; slot_id = slot_id; h_session = h_session; ptr = o; is_private = p })
      m.handles,
)

session_closed-SameOrGone :
    (h : ℕ) (m : HandleManager) (k : ℕ)
    → Inv m
    → SameOrGone (lookup k m.handles) (lookup k (session_closed h m).handles)
unfolding session_closed
session_closed-SameOrGone h m k inv = elim (Option-cases (lookup h m.handles)) [
  | inl gone ↦ rw (gone, session_closed) (inl refl)
  | inr (e, found) ↦ elim (Bool-cases (is_session e.kind)) [
    | inl ses ↦ rw (found, session_closed, ses) (close_found-SameOrGone h e m k inv)
    | inr misses ↦ rw (found, session_closed, misses) (inl refl)
  ]
]

step-SameOrGone :
    (op : Op) (m : HandleManager) (k : ℕ)
    → m.handle_counter + 1 < ulong_mod
    → Inv m
    → k ≤ m.handle_counter
    → SameOrGone (lookup k m.handles) (lookup k (step op m).handles)
unfolding step add_session add_session_object add_token_object destroy_object all_sessions_closed
    token_logged_out
step-SameOrGone (adds_session slot_id s) m k room inv h = ground (
  arith,
  next_handle-eq m inv room,
  lookup-insert (next_handle m) k
      (record { kind = session; slot_id = slot_id; h_session = 0; ptr = s; is_private = false })
      m.handles,
)
step-SameOrGone (adds_session_object slot_id h_session p o) m k room inv h =
    inl (lookup-add_object slot_id h_session p o m k room inv h)
step-SameOrGone (adds_token_object slot_id p o) m k room inv h =
    inl (lookup-add_object slot_id 0 p o m k room inv h)
step-SameOrGone (destroys_object g) m k room inv h = ground (arith, lookup-erase g k m.handles)
step-SameOrGone (closes_session g) m k room inv h = session_closed-SameOrGone g m k inv
step-SameOrGone (closes_slot slot_id) m k room inv h =
    sweep-SameOrGone (of_slot slot_id) m k inv.unique
step-SameOrGone (logs_out slot_id) m k room inv h =
    sweep-SameOrGone (private_of_slot slot_id) m k inv.unique

-- A handle that has been issued keeps its meaning or becomes invalid for ever: after any sequence
-- of operations that does not wrap the counter, a handle up to the old counter stands for the same
-- entry as before, or for none; if it stood for none it still does.
pub run_never_reuses :
    (ops : List Op) (m : HandleManager) (k : ℕ)
    → m.handle_counter + length ops < ulong_mod
    → Inv m
    → k ≤ m.handle_counter
    → SameOrGone (lookup k m.handles) (lookup k (run ops m).handles)
unfolding run
run_never_reuses [] m k room inv h = inl refl
run_never_reuses (op ∷ ops) m k room inv h =
    let more = counter-step op m (omega arith) in
    SameOrGone-trans _ _ _ (step-SameOrGone op m k (omega arith) inv h) (
      run_never_reuses ops (step op m) k (omega arith) (step-Inv op m (omega arith) inv)
        (omega arith))
