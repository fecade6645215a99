-- ===== src/Session.antt =====
-- SoftHSMv2/src/lib/session_mgr/Session.cpp: one session. Pointers to algorithms and keys are numbers,
-- NULL is 0; an operation that frees some lists them.
pub mod Reset
use archive_aaf_sshsm.Common.{
  ℕ, ◌+◌, ◌≡◌, Bool, true, false, not, ◌&&◌, Option, none, some, List, [], ◌∷◌, ◌++◌, ◌==◌,
  if◌then◌else◌,
}
use archive_aaf_sshsm.Cryptoki.{
  CkRv, ok, arguments_bad, device_error, CkState, ro_public_session, ro_user_functions,
  rw_public_session, rw_user_functions, rw_so_functions,
}
use archive_aaf_sshsm.ByteString.{Bytes}

-- The SESSION_OP_ constants; only NONE and FIND are looked at here.
pub data SessionOp : Type 0 where
  op_none op_find : SessionOp
  op_other : ℕ → SessionOp

-- `address` is where the session object lies, `slot_id` that of its slot. A find operation is the
-- ascending list of the handles still to be returned.
pub record Session : Type 0 where
  pub address : ℕ
  pub slot_id : ℕ
  pub is_read_write : Bool
  pub h_session : ℕ
  pub p_application : ℕ
  pub notify : ℕ
  pub operation : SessionOp
  pub find_op : Option (List ℕ)
  pub digest_op : ℕ
  pub hash_algo : ℕ
  pub mac_op : ℕ
  pub asymmetric_crypto_op : ℕ
  pub symmetric_crypto_op : ℕ
  pub mechanism : ℕ
  pub re_authentication : Bool
  pub allow_single_part_op : Bool
  pub allow_multi_part_op : Bool
  pub public_key : ℕ
  pub private_key : ℕ
  pub symmetric_key : ℕ
  pub param : Option Bytes
  pub h_key : ℕ
  pub hw_crypto_opaque : ℕ

-- Session(inSlot, inIsReadWrite, inPApplication, inNotify), at a new address.
unfoldable pub new_session : ℕ → ℕ → Bool → ℕ → ℕ → Session
new_session address slot_id is_read_write p_application notify = record {
  address = address;
  slot_id = slot_id;
  is_read_write = is_read_write;
  h_session = 0;
  p_application = p_application;
  notify = notify;
  operation = op_none;
  find_op = none;
  digest_op = 0;
  hash_algo = 0;
  mac_op = 0;
  asymmetric_crypto_op = 0;
  symmetric_crypto_op = 0;
  mechanism = 0;
  re_authentication = false;
  allow_single_part_op = false;
  allow_multi_part_op = false;
  public_key = 0;
  private_key = 0;
  symmetric_key = 0;
  param = none;
  h_key = 0;
  hw_crypto_opaque = 0;
}

abbrev pub is_rw : Session → Bool
is_rw s = s.is_read_write

-- What a session and the session manager use of a token.
pub record TokenView (K : Type 0) : Type 0 where
  pub is_initialized : K → Bool
  pub is_so_logged_in : K → Bool
  pub is_user_logged_in : K → Bool
  pub logout : K → K

pub record TokenViewLaws {K : Type 0} (v : TokenView K) : Type 0 where
  pub logout_so : (k : K) → v.is_so_logged_in (v.logout k) ≡ false
  pub logout_user : (k : K) → v.is_user_logged_in (v.logout k) ≡ false
  pub logout_initialized : (k : K) → v.is_initialized (v.logout k) ≡ v.is_initialized k

pub record SessionInfo : Type 0 where
  pub slot_id : ℕ
  pub state : CkState
  pub flags : ℕ
  pub device_error : ℕ

module _ {K : Type 0} (v : TokenView K) where
  unfoldable pub get_state : K → Session → CkState
  get_state token s =
      if v.is_so_logged_in token
      then rw_so_functions
      else if v.is_user_logged_in token
      then (if is_rw s then rw_user_functions else ro_user_functions)
      else if is_rw s
      then rw_public_session
      else ro_public_session

  -- The flag tells whether pInfo points somewhere; CKF_SERIAL_SESSION is 4, CKF_RW_SESSION is 2.
  unfoldable pub get_info : Bool → K → Session → CkRv × Option SessionInfo
  unfolding get_state
  get_info false token s = (arguments_bad, none)
  get_info true token s = (
    ok,
    some (record {
      slot_id = s.slot_id;
      state = get_state token s;
      flags = if is_rw s then 6 else 4;
      device_error = 0;
    }),
  )

unfoldable pub set_handle : ℕ → Session → Session
set_handle h s = record s { h_session = h }

unfoldable pub set_op_type : SessionOp → Session → Session
set_op_type op s = record s { operation = op }

unfoldable pub set_re_authentication : Bool → Session → Session
set_re_authentication b s = record s { re_authentication = b }

-- The pointers of a list that are not NULL: those that a recycle call or delete frees.
abbrev pub nonzero : List ℕ → List ℕ
nonzero [] = []
nonzero (p ∷ ps) = if p == 0 then nonzero ps else p ∷ nonzero ps

-- Nothing happens without an asymmetric operation.
unfoldable pub set_public_key : ℕ → Session → Session × List ℕ
set_public_key key s =
    if s.asymmetric_crypto_op == 0
    then (s, [])
    else (record s { public_key = key }, nonzero (s.public_key ∷ []))

unfoldable pub set_private_key : ℕ → Session → Session × List ℕ
set_private_key key s =
    if s.asymmetric_crypto_op == 0
    then (s, [])
    else (record s { private_key = key }, nonzero (s.private_key ∷ []))

-- A key that no operation could recycle is kept.
unfoldable pub set_symmetric_key : ℕ → Session → Session × List ℕ
set_symmetric_key key s =
    if s.symmetric_key == 0
    then (record s { symmetric_key = key }, [])
    else if (s.mac_op == 0) && (s.symmetric_crypto_op == 0)
    then (s, [])
    else (record s { symmetric_key = key }, s.symmetric_key ∷ [])

unfoldable pub set_asymmetric_crypto_op : ℕ → Session → Session × List ℕ
set_asymmetric_crypto_op op s =
    if s.asymmetric_crypto_op == 0
    then (record s { asymmetric_crypto_op = op }, [])
    else let (s1, freed1) = set_public_key 0 s in
      let (s2, freed2) = set_private_key 0 s1 in
      (record s2 { asymmetric_crypto_op = op }, freed1 ++ (freed2 ++ s.asymmetric_crypto_op ∷ []))

unfoldable pub set_symmetric_crypto_op : ℕ → Session → Session × List ℕ
set_symmetric_crypto_op op s =
    if s.symmetric_crypto_op == 0
    then (record s { symmetric_crypto_op = op }, [])
    else let (s1, freed) = set_symmetric_key 0 s in
      (record s1 { symmetric_crypto_op = op }, freed ++ s.symmetric_crypto_op ∷ [])

unfoldable pub set_mac_op : ℕ → Session → Session × List ℕ
set_mac_op op s =
    if s.mac_op == 0
    then (record s { mac_op = op }, [])
    else let (s1, freed) = set_symmetric_key 0 s in
      (record s1 { mac_op = op }, freed ++ s.mac_op ∷ [])

unfoldable pub set_digest_op : ℕ → Session → Session × List ℕ
set_digest_op op s = (record s { digest_op = op }, nonzero (s.digest_op ∷ []))

unfoldable pub set_find_op : Option (List ℕ) → Session → Session
set_find_op op s = record s { find_op = op }

-- An empty parameter is ignored; malloc is taken to succeed.
unfoldable pub set_parameters : Bytes → Session → Session
set_parameters [] s = s
set_parameters (b ∷ bs) s = record s { param = some (b ∷ bs) }

-- The chain of `else if` in resetOp: the first operation that is there is freed, with its keys.
unfoldable pub reset_ops : Session → Session × List ℕ
reset_ops s =
    if not (s.digest_op == 0)
    then (record s { digest_op = 0 }, s.digest_op ∷ [])
    else elim s.find_op [
      | some handles ↦ (record s { find_op = none }, [])
      | none ↦
          if not (s.asymmetric_crypto_op == 0)
          then (
            record s { public_key = 0; private_key = 0; asymmetric_crypto_op = 0 },
            nonzero (s.public_key ∷ s.private_key ∷ s.asymmetric_crypto_op ∷ []),
          )
          else if not (s.symmetric_crypto_op == 0)
          then (
            record s { symmetric_key = 0; symmetric_crypto_op = 0 },
            nonzero (s.symmetric_key ∷ s.symmetric_crypto_op ∷ []),
          )
          else if not (s.mac_op == 0)
          then (
            record s { symmetric_key = 0; mac_op = 0 },
            nonzero (s.symmetric_key ∷ s.mac_op ∷ []),
          )
          else (s, [])
    ]

unfoldable pub reset_op : Session → Session × List ℕ
unfolding reset_ops
reset_op s =
    let (s', freed) = reset_ops (record s { param = none }) in
    (record s' { operation = op_none; re_authentication = false }, freed)
