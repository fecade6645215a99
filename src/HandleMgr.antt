-- ===== src/HandleMgr.antt =====
-- SoftHSMv2/src/lib/handle_mgr: the one table of session and object handles that the application
-- sees. Pointers are numbers, NULL_PTR is 0; the mutex makes each method one step.
pub mod Sweep
pub mod Invariant
pub mod Close
pub mod Logout
pub mod Run
pub mod Register
use archive_aaf_sshsm.Common.{
  ℕ, ◌+◌, ◌%◌, Bool, true, false, ◌&&◌, not, Option, none, some, [], ◌∷◌, ◌==◌, if◌then◌else◌,
}
use archive_aaf_sshsm.Common.Map.{Map, lookup, insert, erase}
use archive_aaf_sshsm.Cryptoki.{ulong_mod}

pub data HandleKind : Type 0 where
  invalid session object : HandleKind

pub record Handle : Type 0 where
  pub kind : HandleKind
  pub slot_id : ℕ
  pub h_session : ℕ
  pub ptr : ℕ
  pub is_private : Bool

pub record HandleManager : Type 0 where
  pub handles : Map Handle
  pub objects : Map ℕ
  pub handle_counter : ℕ

abbrev pub is_session : HandleKind → Bool
is_session session = true
is_session _ = false

abbrev pub is_object : HandleKind → Bool
is_object object = true
is_object _ = false

abbrev pub empty : HandleManager
empty = record { handles = []; objects = []; handle_counter = 0 }

-- `++handleCounter` on a CK_ULONG.
abbrev pub next_handle : HandleManager → ℕ
next_handle m = (m.handle_counter + 1) % ulong_mod

unfoldable pub add_session : ℕ → ℕ → HandleManager → HandleManager × ℕ
add_session slot_id s m = (
  record m {
    handles =
        insert (next_handle m)
          (record { kind = session; slot_id = slot_id; h_session = 0; ptr = s; is_private = false })
          m.handles;
    handle_counter = next_handle m;
  },
  next_handle m,
)

unfoldable pub get_session : ℕ → HandleManager → ℕ
get_session h m = elim (lookup h m.handles) [
  | none ↦ 0
  | some e ↦ if is_session e.kind then e.ptr else 0
]

-- Does the handle that the object is registered under still stand for an object of this slot?
abbrev pub is_current : ℕ → Option Handle → Bool
is_current slot_id none = false
is_current slot_id (some e) = is_object e.kind && (slot_id == e.slot_id)

-- The common body of addSessionObject and addTokenObject, which differ in `h_session` only.
abbrev pub add_object : ℕ → ℕ → Bool → ℕ → HandleManager → HandleManager × ℕ
add_object slot_id h_session is_private o m = elim (lookup o m.objects) [
  | some k ↦
      if is_current slot_id (lookup k m.handles)
      then (m, k)
      else (record m { objects = erase o m.objects }, 0)
  | none ↦ (
    record m {
      handles =
          insert (next_handle m)
            (record {
              kind = object;
              slot_id = slot_id;
              h_session = h_session;
              ptr = o;
              is_private = is_private;
            })
            m.handles;
      objects = insert o (next_handle m) m.objects;
      handle_counter = next_handle m;
    },
    next_handle m,
  )
]

unfoldable pub add_session_object : ℕ → ℕ → Bool → ℕ → HandleManager → HandleManager × ℕ
add_session_object slot_id h_session is_private o m = add_object slot_id h_session is_private o m

unfoldable pub add_token_object : ℕ → Bool → ℕ → HandleManager → HandleManager × ℕ
add_token_object slot_id is_private o m = add_object slot_id 0 is_private o m

unfoldable pub get_object : ℕ → HandleManager → ℕ
get_object h m = elim (lookup h m.handles) [
  | none ↦ 0
  | some e ↦ if is_object e.kind then e.ptr else 0
]

unfoldable pub get_object_handle : ℕ → HandleManager → ℕ
get_object_handle o m = elim (lookup o m.objects) [ none ↦ 0 | some k ↦ k ]

-- `objects.erase(it->second.object); handles.erase(it);`
abbrev pub forget : ℕ → Handle → HandleManager → HandleManager
forget k e m = record m {
  handles = erase k m.handles;
  objects = if is_object e.kind then erase e.ptr m.objects else m.objects;
}

unfoldable pub destroy_object : ℕ → HandleManager → HandleManager
destroy_object h m = elim (lookup h m.handles) [
  | none ↦ m
  | some e ↦ if is_object e.kind then forget h e m else m
]

-- A loop over the entries that erases those which the test selects.
pub sweep : (Handle → Bool) → Map Handle → HandleManager → HandleManager
sweep test [] m = m
sweep test ((k, e) ∷ rest) m = sweep test rest (if test e then forget k e m else m)

-- The sessions that the loop of sessionClosed counts.
pub count_sessions : ℕ → Map Handle → ℕ
count_sessions slot_id [] = 0
count_sessions slot_id ((k, e) ∷ rest) =
    (if is_session e.kind && (slot_id == e.slot_id) then 1 else 0) + count_sessions slot_id rest

-- The first branch of the loop of sessionClosed counts, the second erases.
abbrev pub of_session : ℕ → ℕ → Handle → Bool
of_session slot_id h_session e =
    not (is_session e.kind && (slot_id == e.slot_id))
    && (is_object e.kind && (h_session == e.h_session))

abbrev pub of_slot : ℕ → Handle → Bool
of_slot slot_id e = slot_id == e.slot_id

abbrev pub private_of_slot : ℕ → Handle → Bool
private_of_slot slot_id e = is_object e.kind && ((slot_id == e.slot_id) && e.is_private)

unfoldable pub all_sessions_closed : ℕ → HandleManager → HandleManager
unfolding sweep
all_sessions_closed slot_id m = sweep (of_slot slot_id) m.handles m

unfoldable pub token_logged_out : ℕ → HandleManager → HandleManager
unfolding sweep
token_logged_out slot_id m = sweep (private_of_slot slot_id) m.handles m

-- sessionClosed from the point where the entry is found: erase it, sweep, and if no session of the
-- slot is left, erase all that the slot has.
abbrev pub close_found : ℕ → Handle → HandleManager → HandleManager
close_found h e m =
    let m1 : HandleManager = record m { handles = erase h m.handles } in
    let m2 = sweep (of_session e.slot_id h) m1.handles m1 in
    if count_sessions e.slot_id m1.handles == 0 then all_sessions_closed e.slot_id m2 else m2

unfoldable pub session_closed : ℕ → HandleManager → HandleManager
unfolding sweep count_sessions all_sessions_closed
session_closed h m = elim (lookup h m.handles) [
  | none ↦ m
  | some e ↦ if is_session e.kind then close_found h e m else m
]
