-- ===== src/SessionMgr.antt =====
-- SoftHSMv2/src/lib/session_mgr/SessionManager.cpp: the table of sessions. A handle is an index plus 1,
-- a closed session leaves NULL in its place. Tokens are an interface, kept in a map from slot numbers.
pub mod Table
pub mod Open
pub mod Close
use Prim.Native.Nat.{bit_and}
use archive_aaf_sshsm.Common.{
  ℕ, zero, suc, ◌+◌, ◌-◌, Bool, true, false, not, ◌&&◌, Option, none, some, List, [], ◌∷◌, ltb,
  ◌==◌, if◌then◌else◌, length, set,
}
use archive_aaf_sshsm.Common.Map.{Map, lookup, insert}
use archive_aaf_sshsm.Cryptoki.{
  CkRv, ok, slot_id_invalid, arguments_bad, session_handle_invalid, session_parallel_not_supported,
  session_read_write_so_exists, token_not_present, token_not_recognized,
}
use archive_aaf_sshsm.Session.{
  Session, new_session, is_rw, TokenView, SessionInfo, get_info, set_handle,
}

-- CKF_RW_SESSION and CKF_SERIAL_SESSION.
abbrev pub rw_session : ℕ
rw_session = 2

abbrev pub serial_session : ℕ
serial_session = 4

-- (flags & flag) != 0
unfoldable pub has_flag : ℕ → ℕ → Bool
has_flag flags flag = not (bit_and flags flag == 0)

pub record SessionManager : Type 0 where
  pub sessions : List (Option Session)

-- The first empty spot at index `i` or later takes the session, or else the end of the table does.
unfoldable pub place : Session → ℕ → List (Option Session) → ℕ × List (Option Session)
place s i [] = (i + 1, some (set_handle (i + 1) s) ∷ [])
place s i (none ∷ rest) = (i + 1, some (set_handle (i + 1) s) ∷ rest)
place s i (some x ∷ rest) = let (h, rest') = place s (i + 1) rest in (h, some x ∷ rest')

-- Whether a session on the slot is open, other than the one at index `id`; the list starts at index `i`.
unfoldable pub other_on_slot : ℕ → ℕ → ℕ → List (Option Session) → Bool
other_on_slot slot_id id i [] = false
other_on_slot slot_id id i (none ∷ rest) = other_on_slot slot_id id (i + 1) rest
other_on_slot slot_id id i (some x ∷ rest) =
    let later = other_on_slot slot_id id (i + 1) rest in
    if (x.slot_id == slot_id) && not (i == id) then true else later

-- The loop of closeAllSessions.
unfoldable pub close_slot : ℕ → List (Option Session) → List (Option Session)
close_slot slot_id [] = []
close_slot slot_id (none ∷ rest) = none ∷ close_slot slot_id rest
close_slot slot_id (some x ∷ rest) =
    let rest' = close_slot slot_id rest in
    if x.slot_id == slot_id then none ∷ rest' else some x ∷ rest'

unfoldable pub any_session : ℕ → List (Option Session) → Bool
any_session slot_id [] = false
any_session slot_id (none ∷ rest) = any_session slot_id rest
any_session slot_id (some x ∷ rest) =
    let later = any_session slot_id rest in if x.slot_id == slot_id then true else later

unfoldable pub any_ro_session : ℕ → List (Option Session) → Bool
any_ro_session slot_id [] = false
any_ro_session slot_id (none ∷ rest) = any_ro_session slot_id rest
any_ro_session slot_id (some x ∷ rest) =
    let later = any_ro_session slot_id rest in
    if not (x.slot_id == slot_id) then later else if not (is_rw x) then true else later

unfoldable pub have_session : ℕ → SessionManager → Bool
unfolding any_session
have_session slot_id m = any_session slot_id m.sessions

unfoldable pub have_ro_session : ℕ → SessionManager → Bool
unfolding any_ro_session
have_ro_session slot_id m = any_ro_session slot_id m.sessions

-- sessions[i], where the table has an index i.
abbrev pub session_at : ℕ → List (Option Session) → Option Session
session_at i [] = none
session_at zero (x ∷ rest) = x
session_at (suc i) (x ∷ rest) = session_at i rest

unfoldable pub get_session : ℕ → SessionManager → Option Session
get_session h m =
    if h == 0
    then none
    else if ltb (length m.sessions) h
    then none
    else session_at (h - 1) m.sessions

module _ {K : Type 0} (v : TokenView K) where
  -- The slot is NULL, or it has a number and a token, which may be NULL. The first flag tells whether
  -- phSession points somewhere; the handle is what is written there.
  unfoldable pub open_session :
      Option (ℕ × Option K)
      → ℕ
      → ℕ
      → ℕ
      → ℕ
      → Bool
      → SessionManager
      → CkRv × Option ℕ × SessionManager
  open_session slot flags p_application notify address false m = (arguments_bad, none, m)
  open_session none flags p_application notify address true m = (slot_id_invalid, none, m)
  open_session (some (slot_id, t)) flags p_application notify address true m =
      if not (has_flag flags serial_session)
      then (session_parallel_not_supported, none, m)
      else elim t [
        | none ↦ (token_not_present, none, m)
        | some token ↦
            if not (v.is_initialized token)
            then (token_not_recognized, none, m)
            else if not (has_flag flags rw_session) && v.is_so_logged_in token
            then (session_read_write_so_exists, none, m)
            else let s =
                new_session address slot_id (has_flag flags rw_session) p_application notify in
              let (h, sessions) = place s 0 m.sessions in
              (ok, some h, record { sessions = sessions })
      ]

  -- getSlot()->getToken()->logout()
  unfoldable pub log_out_slot : ℕ → Map K → Map K
  log_out_slot slot_id tokens = elim (lookup slot_id tokens) [
    | none ↦ tokens
    | some token ↦ insert slot_id (v.logout token) tokens
  ]

  unfoldable pub close_session : ℕ → Map K → SessionManager → CkRv × Map K × SessionManager
  close_session h tokens m =
      if h == 0
      then (session_handle_invalid, tokens, m)
      else if ltb (length m.sessions) h
      then (session_handle_invalid, tokens, m)
      else elim (session_at (h - 1) m.sessions) [
        | none ↦ (session_handle_invalid, tokens, m)
        | some s ↦ (
          ok,
          if other_on_slot s.slot_id (h - 1) 0 m.sessions
              then tokens
              else log_out_slot s.slot_id tokens,
          record { sessions = set m.sessions (h - 1) none },
        )
      ]

  -- The slot is NULL, or its number; a number that the map lacks has no token.
  unfoldable pub close_all_sessions :
      Option ℕ → Map K → SessionManager → CkRv × Map K × SessionManager
  close_all_sessions none tokens m = (slot_id_invalid, tokens, m)
  close_all_sessions (some slot_id) tokens m = elim (lookup slot_id tokens) [
    | none ↦ (token_not_present, tokens, m)
    | some token ↦ (
      ok,
      insert slot_id (v.logout token) tokens,
      record { sessions = close_slot slot_id m.sessions },
    )
  ]

  -- The flag tells whether pInfo points somewhere. The token of an open session is always in the map.
  unfoldable pub get_session_info : ℕ → Bool → Map K → SessionManager → CkRv × Option SessionInfo
  get_session_info h there tokens m = elim (get_session h m) [
    | none ↦ (session_handle_invalid, none)
    | some s ↦ elim (lookup s.slot_id tokens) [
      | none ↦ (session_handle_invalid, none)
      | some token ↦ get_info v there token s
    ]
  ]
