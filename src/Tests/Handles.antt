-- ===== src/Tests/Handles.antt =====
-- The theorems on the handle table, on a table with two sessions and an object.
use archive_aaf_sshsm.Common.{
  ℕ, ◌≡◌, refl, ◌≢◌, ◌↔◌, true, false, ◌||◌, none, some, List, [], ◌∷◌, arith, ◌==◌, if◌then◌else◌,
}
use archive_aaf_sshsm.Common.Map.{lookup}
use archive_aaf_sshsm.HandleMgr.{
  session, object, Handle, HandleManager, add_session_object, get_object, get_object_handle,
  destroy_object, token_logged_out, session_closed,
}
use archive_aaf_sshsm.HandleMgr.Sweep.{kept}
use archive_aaf_sshsm.HandleMgr.Invariant.{Inv}
use archive_aaf_sshsm.HandleMgr.Close.{
  OtherSession, object_of_session, session_closed_shared, session_closed_last,
}
use archive_aaf_sshsm.HandleMgr.Logout.{IsPrivateOn, logout_invalidates}
use archive_aaf_sshsm.HandleMgr.Run.{
  Op, adds_session, adds_token_object, closes_session, logs_out, run, run-Inv, SameOrGone,
  run_never_reuses,
}
use archive_aaf_sshsm.HandleMgr.Register.{
  TakenElsewhere, add_session_object_lem, object_entry, destroy_object_lem,
}

abbrev first : Handle
first = record { kind = session; slot_id = 0; h_session = 0; ptr = 100; is_private = false }

abbrev second : Handle
second = record { kind = session; slot_id = 0; h_session = 0; ptr = 200; is_private = false }

abbrev key : Handle
key = record { kind = object; slot_id = 0; h_session = 1; ptr = 300; is_private = true }

abbrev table : HandleManager
table = record {
  handles = (1, first) ∷ (2, second) ∷ (3, key) ∷ [];
  objects = (300, 3) ∷ [];
  handle_counter = 3;
}

abbrev lone_table : HandleManager
lone_table = record {
  handles = (1, first) ∷ (3, key) ∷ [];
  objects = (300, 3) ∷ [];
  handle_counter = 3;
}

table-Inv : Inv table
table-Inv = record {
  unique = (refl, (refl, (refl, tt)));
  fresh = λ k h. ground arith;
  zero_free = refl;
  linked = λ o k e. ground arith;
}

lone_table-Inv : Inv lone_table
lone_table-Inv = record {
  unique = (refl, (refl, tt));
  fresh = λ k h. ground arith;
  zero_free = refl;
  linked = λ o k e. ground arith;
}

alone : ¬ OtherSession 0 1 lone_table
alone (j, e, ne, at, ses, sl) = ground arith

abbrev ops : List Op
ops = adds_session 1 400 ∷ logs_out 0 ∷ closes_session 2 ∷ adds_token_object 1 false 300 ∷ []

run_never_reuses_example : SameOrGone (lookup 3 table.handles) (lookup 3 (run ops table).handles)
run_never_reuses_example = run_never_reuses ops table 3 (omega arith) table-Inv (omega arith)

run-Inv_example : Inv (run ops table)
run-Inv_example = run-Inv ops table (omega arith) table-Inv

session_closed_shared_example :
    lookup 3 (session_closed 1 table).handles
    ≡ (if 1 == 3 then none else kept (object_of_session 1) (lookup 3 table.handles))
session_closed_shared_example =
    session_closed_shared 1 first table table-Inv refl refl 3
      (2, second, omega arith, refl, refl, refl)

session_closed_last_example :
    lookup 3 (session_closed 1 lone_table).handles
    ≡ kept (λ x. (0 == x.slot_id) || object_of_session 1 x) (lookup 3 lone_table.handles)
session_closed_last_example =
    session_closed_last 1 first lone_table lone_table-Inv refl refl 3 alone

logout_invalidates_example :
    let m' = token_logged_out 0 table in
    ((e : Handle) → lookup 3 table.handles ≡ some e → IsPrivateOn 0 e → lookup 3 m'.handles ≡ none)
    × ((e : Handle)
        → lookup 3 table.handles ≡ some e
        → ¬ IsPrivateOn 0 e
        → lookup 3 m'.handles ≡ some e)
    × (lookup 3 table.handles ≡ none → lookup 3 m'.handles ≡ none)
    × ((o : ℕ)
        → lookup o m'.objects ≡ some 3
        → (lookup o table.objects ≡ some 3)
          × (e : Handle) × (lookup 3 m'.handles ≡ some e)
          × (e.ptr ≡ o)
          × (e.kind ≡ object)
          × ¬ IsPrivateOn 0 e)
logout_invalidates_example = logout_invalidates 0 table 3 table-Inv

add_session_object_lem_example :
    let (m', k) = add_session_object 0 2 false 500 table in
    ((k ≡ 0) ↔ TakenElsewhere 0 2 false 500 table table-Inv (omega arith))
    × (k ≢ 0
        → (get_object k m' ≡ 500)
          × (get_object_handle 500 m' ≡ k)
          × (add_session_object 0 2 false 500 m' ≡ (m', k)))
add_session_object_lem_example = add_session_object_lem 0 2 false 500 table table-Inv (omega arith)

abbrev other_handle : ℕ
other_handle = 2

abbrev other_object : ℕ
other_object = 400

destroy_object_lem_example :
    let m' = destroy_object 3 table in
    (get_object 3 m' ≡ 0)
    × (other_handle ≢ 3 → lookup other_handle m'.handles ≡ lookup other_handle table.handles)
    × (other_object ≢ get_object 3 table
        → lookup other_object m'.objects ≡ lookup other_object table.objects)
    × (m'.handle_counter ≡ table.handle_counter)
    × (object_entry (lookup 3 table.handles) ≡ true
        → (lookup 3 m'.handles ≡ none) × (get_object_handle (get_object 3 table) m' ≡ 0))
    × (object_entry (lookup 3 table.handles) ≡ false → m' ≡ table)
destroy_object_lem_example = destroy_object_lem 3 other_handle other_object table
