-- ===== src/Token.antt =====
-- SoftHSMv2/src/lib/slot_mgr/Token.cpp: the login state of one token. `token` and `sdm` are NULL
-- together, since the constructors and createToken set both; the mutex makes each method one step.
pub mod Store
pub mod Exclusive
pub mod Pins
pub mod View
use Prim.Native.Nat.{bit_and, bit_or}
use archive_aaf_sshsm.Common.{
  ℕ, ◌-◌, Bool, true, false, not, ◌&&◌, ◌||◌, Option, none, some, [], ◌==◌, if◌then◌else◌, length,
}
use archive_aaf_sshsm.Cryptoki.{
  CkRv, ok, general_error, arguments_bad, device_error, operation_not_initialized, pin_incorrect,
  user_already_logged_in, user_pin_not_initialized, user_another_already_logged_in,
}
use archive_aaf_sshsm.ByteString.{Bytes}
use archive_aaf_sshsm.Crypto.{Crypto}
use archive_aaf_sshsm.SecureData
use archive_aaf_sshsm.SecureData.{SecureDataManager}
use Store.{TokenStore}

pub record Loaded (T : Type 0) : Type 0 where
  pub store : T
  pub sdm : SecureDataManager

pub record Token (T : Type 0) : Type 0 where
  pub loaded : Option (Loaded T)
  pub valid : Bool

-- CKF_SO_PIN_COUNT_LOW and CKF_USER_PIN_COUNT_LOW.
abbrev pub so_pin_count_low : ℕ
so_pin_count_low = 0x00100000

abbrev pub user_pin_count_low : ℕ
user_pin_count_low = 0x00010000

-- flags |= bit; flags &= ~bit;
pub set_bit : ℕ → ℕ → ℕ
set_bit flags bit = bit_or flags bit

pub clear_bit : ℕ → ℕ → ℕ
clear_bit flags bit = flags - bit_and flags bit

abbrev pub blob_or_empty : Option Bytes → Bytes
blob_or_empty none = []
blob_or_empty (some b) = b

abbrev pub is_some : Option Bytes → Bool
is_some none = false
is_some (some b) = true

module _ {T : Type 0} where
  unfoldable pub is_initialized : Token T → Bool
  is_initialized t = elim t.loaded [ none ↦ false | some l ↦ true ]

  unfoldable pub is_so_logged_in : Token T → Bool
  is_so_logged_in t = elim t.loaded [ none ↦ false | some l ↦ l.sdm.so_logged_in ]

  unfoldable pub is_user_logged_in : Token T → Bool
  is_user_logged_in t = elim t.loaded [ none ↦ false | some l ↦ l.sdm.user_logged_in ]

  abbrev pub put : Loaded T → Token T → Token T
  put l t = record t { loaded = some l }

  unfoldable pub logout : Token T → Token T
  logout t = elim t.loaded [
    | none ↦ t
    | some l ↦ put (record l { sdm = SecureData.logout l.sdm }) t
  ]

module _ {C T : Type 0} (c : Crypto C) (st : TokenStore T) where
  -- getSOPIN(soPINBlob) && getUserPIN(userPINBlob): the second is read only after the first.
  abbrev pub pins_readable : T → Bool
  pins_readable s = is_some (st.get_so_pin s) && is_some (st.get_user_pin s)

  abbrev pub fresh_sdm : T → ℕ → SecureDataManager
  fresh_sdm s rng =
      SecureData.with_blobs c (blob_or_empty (st.get_so_pin s))
        (if is_some (st.get_so_pin s) then blob_or_empty (st.get_user_pin s) else []) rng

  -- The constructor from a stored token, the generator being at call `rng`.
  unfoldable pub load_token : T → ℕ → Token T
  load_token s rng = record {
    loaded = some (record { store = s; sdm = fresh_sdm s rng });
    valid = pins_readable s;
  }

  unfoldable pub is_valid : Token T → Bool
  is_valid t = elim t.loaded [ none ↦ false | some l ↦ t.valid && st.is_valid l.store ]

  -- What a check of a PIN leaves: the flag cleared or set, and the manager.
  abbrev pub checked : ℕ → ℕ → Bool → SecureDataManager → Loaded T → Loaded T
  checked bit flags right sdm l = record {
    store = st.set_token_flags (if right then clear_bit flags bit else set_bit flags bit) l.store;
    sdm = sdm;
  }

  abbrev pub pin_rv : Bool → CkRv
  pin_rv right = if right then ok else pin_incorrect

  unfoldable pub login_so : Bytes → Token T → CkRv × Token T
  login_so pin t = elim t.loaded [
    | none ↦ (general_error, t)
    | some l ↦
        if l.sdm.user_logged_in
        then (user_another_already_logged_in, t)
        else if l.sdm.so_logged_in
        then (user_already_logged_in, t)
        else elim (st.get_token_flags l.store) [
          | none ↦ (general_error, t)
          | some flags ↦
              let (right, sdm) = SecureData.login_so c pin l.sdm in
              (pin_rv right, put (checked so_pin_count_low flags right sdm l) t)
        ]
  ]

  unfoldable pub login_user : Bytes → Token T → CkRv × Token T
  login_user pin t = elim t.loaded [
    | none ↦ (general_error, t)
    | some l ↦
        if l.sdm.so_logged_in
        then (user_another_already_logged_in, t)
        else if l.sdm.user_logged_in
        then (user_already_logged_in, t)
        else if length l.sdm.user_encrypted_key == 0
        then (user_pin_not_initialized, t)
        else elim (st.get_token_flags l.store) [
          | none ↦ (general_error, t)
          | some flags ↦
              let (right, sdm) = SecureData.login_user c pin l.sdm in
              (pin_rv right, put (checked user_pin_count_low flags right sdm l) t)
        ]
  ]

  unfoldable pub re_authenticate : Bytes → Token T → CkRv × Token T
  re_authenticate pin t = elim t.loaded [
    | none ↦ (general_error, t)
    | some l ↦ elim (st.get_token_flags l.store) [
      | none ↦ (general_error, t)
      | some flags ↦
          let so_right = SecureData.re_authenticate_so c pin l.sdm in
          let user_right = SecureData.re_authenticate_user c pin l.sdm in
          if l.sdm.so_logged_in
          then (pin_rv so_right, put (checked so_pin_count_low flags so_right l.sdm l) t)
          else if l.sdm.user_logged_in
          then (pin_rv user_right, put (checked user_pin_count_low flags user_right l.sdm l) t)
          else (operation_not_initialized, t)
    ]
  ]

  -- setSOPIN from the point where the old PIN is verified, with the generator past the verifier.
  abbrev pub change_so_pin : Bytes → ℕ → Loaded T → Token T → CkRv × Token T
  change_so_pin new_pin flags l t =
      let (changed, sdm) = SecureData.set_so_pin c new_pin l.sdm in
      let (saved, store) = st.set_so_pin sdm.so_encrypted_key l.store in
      if not changed
      then (general_error, put (record l { sdm = sdm }) t)
      else if not saved
      then (general_error, put (record { store = store; sdm = sdm }) t)
      else (
        ok,
        record {
          loaded = some (checked so_pin_count_low flags true sdm (record l { store = store }));
          valid = pins_readable store;
        },
      )

  unfoldable pub set_so_pin : Bytes → Bytes → Token T → CkRv × Token T
  set_so_pin old_pin new_pin t = elim t.loaded [
    | none ↦ (general_error, t)
    | some l ↦ elim (st.get_token_flags l.store) [
      | none ↦ (general_error, t)
      | some flags ↦
          let verifier =
            SecureData.with_blobs c l.sdm.so_encrypted_key l.sdm.user_encrypted_key l.sdm.rng in
          let (right, used) = SecureData.login_so c old_pin verifier in
          let sdm : SecureDataManager = record (l.sdm) { rng = used.rng } in
          if not right
          then (pin_incorrect, put (checked so_pin_count_low flags false sdm l) t)
          else change_so_pin new_pin flags (record l { sdm = sdm }) t
    ]
  ]

  -- setUserPIN from the point where a new manager has logged in with the old PIN.
  abbrev pub change_user_pin : Bytes → ℕ → SecureDataManager → Loaded T → Token T → CkRv × Token T
  change_user_pin new_pin flags logged_in l t =
      let (changed, sdm) = SecureData.set_user_pin c new_pin logged_in in
      let (saved, store) = st.set_user_pin sdm.user_encrypted_key l.store in
      let kept : SecureDataManager = record (l.sdm) { rng = sdm.rng } in
      if not changed
      then (general_error, put (record l { sdm = kept }) t)
      else if not saved
      then (general_error, put (record { store = store; sdm = kept }) t)
      else (
        ok,
        record {
          loaded = some (
              checked user_pin_count_low flags true
                (if l.sdm.user_logged_in then sdm else SecureData.logout sdm)
                (record l { store = store }));
          valid = pins_readable store;
        },
      )

  unfoldable pub set_user_pin : Bytes → Bytes → Token T → CkRv × Token T
  set_user_pin old_pin new_pin t = elim t.loaded [
    | none ↦ (general_error, t)
    | some l ↦ elim (st.get_token_flags l.store) [
      | none ↦ (general_error, t)
      | some flags ↦
          let new_sdm =
            SecureData.with_blobs c l.sdm.so_encrypted_key l.sdm.user_encrypted_key l.sdm.rng in
          let (right, logged_in) = SecureData.login_user c old_pin new_sdm in
          let kept : SecureDataManager = record (l.sdm) { rng = logged_in.rng } in
          if not right
          then (pin_incorrect, put (checked user_pin_count_low flags false kept l) t)
          else change_user_pin new_pin flags logged_in l t
    ]
  ]

  unfoldable pub init_user_pin : Bytes → Token T → CkRv × Token T
  init_user_pin pin t = elim t.loaded [
    | none ↦ (general_error, t)
    | some l ↦
        let (changed, sdm) = SecureData.set_user_pin c pin l.sdm in
        let (saved, store) = st.set_user_pin sdm.user_encrypted_key l.store in
        if not changed
        then (general_error, put (record l { sdm = sdm }) t)
        else if not saved
        then (general_error, put (record { store = store; sdm = sdm }) t)
        else (
          ok,
          record {
            loaded = some (record { store = store; sdm = sdm });
            valid = pins_readable store;
          },
        )
  ]

  -- createToken on a token that exists: the SO PIN is checked unless none is set.
  abbrev pub reset_existing : Bytes → Bytes → ℕ → Loaded T → Token T → CkRv × Token T
  reset_existing so_pin label flags l t =
      let none_set = length l.sdm.so_encrypted_key == 0 in
      let (right, used) = SecureData.login_so c so_pin l.sdm in
      let sdm = if none_set then l.sdm else used in
      let l' = checked so_pin_count_low flags (none_set || right) sdm l in
      let (done, store) = st.reset_token label l'.store in
      if not (none_set || right)
      then (pin_incorrect, put l' t)
      else if not done
      then (device_error, put (record l' { store = store }) t)
      else (ok, load_token store sdm.rng)

  -- createToken in an empty slot, the generator being at call `rng`; a token whose SO PIN cannot be
  -- saved is destroyed.
  abbrev pub create_new : Bytes → Bytes → ℕ → Token T → CkRv × Token T
  create_new so_pin label rng t =
      let (made, sdm) = SecureData.set_so_pin c so_pin (SecureData.with_blobs c [] [] rng) in
      if not made then (general_error, t) else elim (st.new_token label) [
        | none ↦ (device_error, t)
        | some s ↦
            let (saved, store) = st.set_so_pin sdm.so_encrypted_key s in
            if not saved then (device_error, t) else (ok, load_token store sdm.rng)
      ]

  -- `label` is none for NULL_PTR.
  unfoldable pub create_token : Bytes → Option Bytes → ℕ → Token T → CkRv × Token T
  create_token so_pin none rng t = (arguments_bad, t)
  create_token so_pin (some label) rng t = elim t.loaded [
    | none ↦ create_new so_pin label rng t
    | some l ↦ elim (st.get_token_flags l.store) [
      | none ↦ (general_error, t)
      | some flags ↦ reset_existing so_pin label flags l t
    ]
  ]
