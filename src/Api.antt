-- ===== src/Api.antt =====
-- SoftHSMv2/src/lib/SoftHSM.cpp: the handlers that open and close sessions, log in and log out, over the
-- managers. A session pointer is an address; the slot manager is the map of tokens by slot number.
pub mod Managers
pub mod Objects
pub mod Find
pub mod Reading
pub mod Secrets
pub mod Pins
pub mod ReadOnly
pub mod Tokens
pub mod Logout
use archive_aaf_sshsm.Common.{
  ℕ, zero, suc, ◌≡◌, Bool, true, false, not, Option, none, some, List, [], ◌∷◌, ◌==◌, if◌then◌else◌,
}
use archive_aaf_sshsm.Common.Map.{Map, lookup, insert}
use archive_aaf_sshsm.Cryptoki.{
  CkRv, ok, slot_id_invalid, general_error, arguments_bad, operation_not_initialized,
  session_handle_invalid, session_read_only_exists, user_type_invalid, cryptoki_not_initialized,
}
use archive_aaf_sshsm.Session.{Session, TokenView, TokenViewLaws, set_re_authentication}
use archive_aaf_sshsm.ByteString.{Bytes}
use archive_aaf_sshsm.HandleMgr
use archive_aaf_sshsm.HandleMgr.{HandleManager}
use archive_aaf_sshsm.SessionMgr
use archive_aaf_sshsm.SessionMgr.{SessionManager, have_ro_session}
use archive_aaf_sshsm.SessionObjects
use archive_aaf_sshsm.SessionObjects.{SessionObjectStore}

-- What the handlers use of a token.
pub record TokenOps (K : Type 0) : Type 0 where
  pub view : TokenView K
  pub login_so : Bytes → K → CkRv × K
  pub login_user : Bytes → K → CkRv × K
  pub re_authenticate : Bytes → K → CkRv × K

-- Only loginSO logs the SO in.
pub record TokenOpsLaws {K : Type 0} (ops : TokenOps K) : Type 0 where
  pub view_laws : TokenViewLaws ops.view
  pub login_user_so :
      (pin : Bytes) (t : K)
      → ops.view.is_so_logged_in (ops.login_user pin t).1 ≡ true
      → ops.view.is_so_logged_in t ≡ true
  pub re_authenticate_so :
      (pin : Bytes) (t : K)
      → ops.view.is_so_logged_in (ops.re_authenticate pin t).1 ≡ true
      → ops.view.is_so_logged_in t ≡ true

pub record SoftHsm (K A : Type 0) : Type 0 where
  pub is_initialised : Bool
  pub tokens : Map K
  pub sessions : SessionManager
  pub handles : HandleManager
  pub objects : SessionObjectStore A

abbrev pub is_ok : CkRv → Bool
is_ok ok = true
is_ok _ = false

-- What lies at an address.
abbrev pub pointee : ℕ → List (Option Session) → Option Session
pointee p [] = none
pointee p (none ∷ rest) = pointee p rest
pointee p (some s ∷ rest) = if s.address == p then some s else pointee p rest

-- session->setReAuthentication(false) through a pointer.
abbrev pub re_authenticated : ℕ → List (Option Session) → List (Option Session)
re_authenticated p [] = []
re_authenticated p (none ∷ rest) = none ∷ re_authenticated p rest
re_authenticated p (some s ∷ rest) =
    let rest' = re_authenticated p rest in
    if s.address == p then some (set_re_authentication false s) ∷ rest' else some s ∷ rest'

module _ {K A : Type 0} where
  -- handleManager->getSession(hSession), and the session that is there.
  abbrev pub find_session : ℕ → SoftHsm K A → Option Session
  find_session h s = pointee (HandleMgr.get_session h s.handles) s.sessions.sessions

  -- slotManager->getSlot(slotID)
  abbrev pub get_slot : ℕ → SoftHsm K A → Option (ℕ × Option K)
  get_slot slot_id s = elim (lookup slot_id s.tokens) [
    | none ↦ none
    | some token ↦ some (slot_id, some token)
  ]

module _ {K A : Type 0} (ops : TokenOps K) where
  -- The answer and what is in *phSession afterwards, if it is written.
  unfoldable pub c_open_session :
      ℕ → ℕ → ℕ → ℕ → ℕ → Bool → SoftHsm K A → CkRv × Option ℕ × SoftHsm K A
  c_open_session slot_id flags p_application notify address there s =
      if not s.is_initialised
      then (cryptoki_not_initialized, none, s)
      else let (rv, h, m) =
          SessionMgr.open_session ops.view (get_slot slot_id s) flags p_application notify address
            there s.sessions in
        let s1 : SoftHsm K A = record s { sessions = m } in
        if not (is_ok rv) then (rv, h, s1) else elim h [
          | none ↦ (rv, none, s1)
          | some h_session ↦ elim (SessionMgr.get_session h_session m) [
            | none ↦ (session_handle_invalid, some h_session, s1)
            | some opened ↦
                let (hm, k) = HandleMgr.add_session slot_id opened.address s.handles in
                (ok, some k, record s1 { handles = hm })
          ]
        ]

  unfoldable pub c_close_session : ℕ → SoftHsm K A → CkRv × SoftHsm K A
  c_close_session h s =
      if not s.is_initialised then (cryptoki_not_initialized, s) else elim (find_session h s) [
        | none ↦ (session_handle_invalid, s)
        | some found ↦
            let (rv, tokens, m) =
              SessionMgr.close_session ops.view found.h_session s.tokens s.sessions in
            (
              rv,
              record s {
                tokens = tokens;
                sessions = m;
                handles = HandleMgr.session_closed h s.handles;
                objects = SessionObjects.session_closed h s.objects;
              },
            )
      ]

  unfoldable pub c_close_all_sessions : ℕ → SoftHsm K A → CkRv × SoftHsm K A
  c_close_all_sessions slot_id s =
      if not s.is_initialised
      then (cryptoki_not_initialized, s)
      else elim (lookup slot_id s.tokens) [
        | none ↦ (slot_id_invalid, s)
        | some token ↦
            let (rv, tokens, m) =
              SessionMgr.close_all_sessions ops.view (some slot_id) s.tokens s.sessions in
            (
              rv,
              record s {
                tokens = tokens;
                sessions = m;
                handles = HandleMgr.all_sessions_closed slot_id s.handles;
                objects = SessionObjects.all_sessions_closed slot_id s.objects;
              },
            )
      ]

  -- The switch on the user type: CKU_SO is 0, CKU_USER 1, CKU_CONTEXT_SPECIFIC 2.
  unfoldable pub log_in : Session → ℕ → Bytes → K → SoftHsm K A → CkRv × SoftHsm K A
  log_in found zero pin token s =
      if have_ro_session found.slot_id s.sessions
      then (session_read_only_exists, s)
      else let (rv, token') = ops.login_so pin token in
        (rv, record s { tokens = insert found.slot_id token' s.tokens })
  log_in found (suc zero) pin token s =
      let (rv, token') = ops.login_user pin token in
      (rv, record s { tokens = insert found.slot_id token' s.tokens })
  log_in found (suc (suc zero)) pin token s =
      if not found.re_authentication
      then (operation_not_initialized, s)
      else let (rv, token') = ops.re_authenticate pin token in
        let m = s.sessions.sessions in
        (
          rv,
          record s {
            tokens = insert found.slot_id token' s.tokens;
            sessions = record {
              sessions = if is_ok rv then re_authenticated found.address m else m;
            };
          },
        )
  log_in found (suc (suc (suc n))) pin token s = (user_type_invalid, s)

  -- `pin` is none for NULL_PTR.
  unfoldable pub c_login : ℕ → ℕ → Option Bytes → SoftHsm K A → CkRv × SoftHsm K A
  c_login h user_type pin s =
      if not s.is_initialised then (cryptoki_not_initialized, s) else elim (find_session h s) [
        | none ↦ (session_handle_invalid, s)
        | some found ↦ elim pin [
          | none ↦ (arguments_bad, s)
          | some bytes ↦ elim (lookup found.slot_id s.tokens) [
            | none ↦ (general_error, s)
            | some token ↦ log_in found user_type bytes token s
          ]
        ]
      ]

  unfoldable pub c_logout : ℕ → SoftHsm K A → CkRv × SoftHsm K A
  c_logout h s =
      if not s.is_initialised then (cryptoki_not_initialized, s) else elim (find_session h s) [
        | none ↦ (session_handle_invalid, s)
        | some found ↦ elim (lookup found.slot_id s.tokens) [
          | none ↦ (general_error, s)
          | some token ↦ (
            ok,
            record s {
              tokens = insert found.slot_id (ops.view.logout token) s.tokens;
              handles = HandleMgr.token_logged_out found.slot_id s.handles;
              objects = SessionObjects.token_logged_out found.slot_id s.objects;
            },
          )
        ]
      ]
