-- ===== src/Api/Pins.antt =====
-- SoftHSMv2/src/lib/SoftHSM.cpp: the handlers that initialise a token and set PINs. The bounds on the length of
-- a PIN are those of configure.ac.
use archive_aaf_sshsm.Common.{
  ℕ, ◌≡◌, inl, inr, Bool, true, false, not, ◌||◌, Option, none, some, arith, ltb, if◌then◌else◌,
  Bool-cases, length,
}
use archive_aaf_sshsm.Common.Map.{lookup, insert}
use archive_aaf_sshsm.Cryptoki.{
  CkRv, slot_id_invalid, general_error, arguments_bad, pin_incorrect, pin_len_range,
  session_handle_invalid, session_read_only, session_exists, user_not_logged_in,
  cryptoki_not_initialized, CkState, ro_public_session, ro_user_functions, rw_public_session,
  rw_user_functions, rw_so_functions, other,
}
use archive_aaf_sshsm.ByteString.{Bytes}
use archive_aaf_sshsm.Session.{Session, get_state}
use archive_aaf_sshsm.SessionMgr.{have_session}
use archive_aaf_sshsm.Api.{TokenOps, SoftHsm, find_session}

abbrev pub min_pin_len : ℕ
min_pin_len = 4

abbrev pub max_pin_len : ℕ
max_pin_len = 255

-- What these handlers use of a token; the label is none for NULL_PTR.
pub record PinOps (K : Type 0) : Type 0 where
  pub create_token : Bytes → Option Bytes → K → CkRv × K
  pub init_user_pin : Bytes → K → CkRv × K
  pub set_user_pin : Bytes → Bytes → K → CkRv × K
  pub set_so_pin : Bytes → Bytes → K → CkRv × K

abbrev pub is_bad_length : Bytes → Bool
is_bad_length pin = ltb (length pin) min_pin_len || ltb max_pin_len (length pin)

abbrev pub is_so_state : CkState → Bool
is_so_state rw_so_functions = true
is_so_state _ = false

module _ {K A : Type 0} (ops : TokenOps K) (pins : PinOps K) where
  -- The answer of a token and the slots with the token as it is then.
  abbrev pub put_token : ℕ → CkRv × K → SoftHsm K A → CkRv × SoftHsm K A
  put_token slot_id (rv, token) s = (rv, record s { tokens = insert slot_id token s.tokens })

  unfoldable pub c_init_token : ℕ → Option Bytes → Option Bytes → SoftHsm K A → CkRv × SoftHsm K A
  c_init_token slot_id p_pin label s =
      if not s.is_initialised
      then (cryptoki_not_initialized, s)
      else elim (lookup slot_id s.tokens) [
        | none ↦ (slot_id_invalid, s)
        | some token ↦ if have_session slot_id s.sessions then (session_exists, s) else elim p_pin [
          | none ↦ (arguments_bad, s)
          | some pin ↦
              if is_bad_length pin
              then (pin_incorrect, s)
              else put_token slot_id (pins.create_token pin label token) s
        ]
      ]

  unfoldable pub c_init_pin : ℕ → Option Bytes → SoftHsm K A → CkRv × SoftHsm K A
  c_init_pin h p_pin s =
      if not s.is_initialised then (cryptoki_not_initialized, s) else elim (find_session h s) [
        | none ↦ (session_handle_invalid, s)
        | some found ↦ elim (lookup found.slot_id s.tokens) [
          | none ↦ (general_error, s)
          | some token ↦
              if not (is_so_state (get_state ops.view token found))
              then (user_not_logged_in, s)
              else elim p_pin [
                | none ↦ (arguments_bad, s)
                | some pin ↦
                    if is_bad_length pin
                    then (pin_len_range, s)
                    else put_token found.slot_id (pins.init_user_pin pin token) s
              ]
        ]
      ]

  -- The switch on the state of the session.
  unfoldable pub set_pin : CkState → Session → Bytes → Bytes → K → SoftHsm K A → CkRv × SoftHsm K A
  set_pin rw_public_session found old new token s =
      put_token found.slot_id (pins.set_user_pin old new token) s
  set_pin rw_user_functions found old new token s =
      put_token found.slot_id (pins.set_user_pin old new token) s
  set_pin rw_so_functions found old new token s =
      put_token found.slot_id (pins.set_so_pin old new token) s
  set_pin ro_public_session found old new token s = (session_read_only, s)
  set_pin ro_user_functions found old new token s = (session_read_only, s)
  set_pin (other n) found old new token s = (session_read_only, s)

  unfoldable pub c_set_pin : ℕ → Option Bytes → Option Bytes → SoftHsm K A → CkRv × SoftHsm K A
  c_set_pin h p_old p_new s =
      if not s.is_initialised then (cryptoki_not_initialized, s) else elim (find_session h s) [
        | none ↦ (session_handle_invalid, s)
        | some found ↦ elim p_old [
          | none ↦ (arguments_bad, s)
          | some old ↦ elim p_new [
            | none ↦ (arguments_bad, s)
            | some new ↦
                if is_bad_length new
                then (pin_len_range, s)
                else elim (lookup found.slot_id s.tokens) [
                  | none ↦ (general_error, s)
                  | some token ↦ set_pin (get_state ops.view token found) found old new token s
                ]
          ]
        ]
      ]

  -- A session that can only read changes no PIN, whoever is logged in to its token but the SO.
  set_pin_read_only :
      (found : Session) (old new : Bytes) (token : K) (s : SoftHsm K A)
      → found.is_read_write ≡ false
      → ops.view.is_so_logged_in token ≡ false
      → set_pin (get_state ops.view token found) found old new token s ≡ (session_read_only, s)
  unfolding set_pin get_state
  set_pin_read_only found old new token s reads out =
      elim (Bool-cases (ops.view.is_user_logged_in token)) [
        | inl user ↦ ground (arith, reads, out, user)
        | inr no_user ↦ ground (arith, reads, out, no_user)
      ]
