-- ===== src/SecureData/Flags.antt =====
-- How the operations of the data manager change who is logged in.
use archive_aaf_sshsm.Common.{
  ℕ, ◌+◌, ◌≡◌, refl, ◌≢◌, inl, inr, true, false, none, ◌++◌, arith, Option-cases,
}
use archive_aaf_sshsm.ByteString.{Bytes, substr_from}
use archive_aaf_sshsm.Crypto.{Crypto}
use archive_aaf_sshsm.SecureData.{
  SecureDataManager, with_blobs, remask, unmask, first_key, generated, derive_key, encrypt_key_blob,
  pbe_encrypt_key, set_so_pin, set_user_pin, decrypt_blob, login, login_so, login_user, logout,
}

abbrev pub SameFlags : SecureDataManager → SecureDataManager → Type 0
SameFlags s s' = (s'.so_logged_in ≡ s.so_logged_in) × (s'.user_logged_in ≡ s.user_logged_in)

abbrev pub LoggedOut : SecureDataManager → Type 0
LoggedOut s = (s.so_logged_in ≡ false) × (s.user_logged_in ≡ false)

pub logout-LoggedOut : (s : SecureDataManager) → LoggedOut (logout s)
unfolding logout
logout-LoggedOut s = (refl, refl)

module _ {C : Type 0} (c : Crypto C) where
  remask-SameFlags : (key : Bytes) (s : SecureDataManager) → SameFlags s (remask c key s)
  unfolding remask
  remask-SameFlags key s = (refl, refl)

  pub with_blobs-LoggedOut : (a b : Bytes) (n : ℕ) → LoggedOut (with_blobs c a b n)
  unfolding with_blobs
  with_blobs-LoggedOut a b n = (refl, refl)

  login-LoggedOut : (pin blob : Bytes) (s : SecureDataManager) → LoggedOut (login c pin blob s).1
  unfolding login
  login-LoggedOut pin blob s = elim (Option-cases (decrypt_blob c pin blob)) [
    | inl e ↦ rw (e, login) (logout-LoggedOut s)
    | inr (plain, e) ↦
        ground (arith, logout-LoggedOut s, remask-SameFlags (substr_from 3 plain) (logout s))
  ]

  -- A login succeeds exactly if the PIN opens the blob.
  login-eq_opens :
      (pin blob : Bytes) (s : SecureDataManager)
      → (login c pin blob s).0 ≡ true
      → decrypt_blob c pin blob ≢ none
  unfolding login
  login-eq_opens pin blob s h = ground arith

  -- After a login attempt of the SO nobody else is logged in, and the SO is if the PIN was right.
  pub login_so_flags :
      (pin : Bytes) (s : SecureDataManager)
      → let (right, s') = login_so c pin s in
        (s'.so_logged_in ≡ right)
        × (s'.user_logged_in ≡ false)
        × (right ≡ true → decrypt_blob c pin s.so_encrypted_key ≢ none)
  unfolding login_so
  login_so_flags pin s = (
    refl,
    (login-LoggedOut pin s.so_encrypted_key s).1,
    λ h. login-eq_opens pin s.so_encrypted_key s h,
  )

  pub login_user_flags :
      (pin : Bytes) (s : SecureDataManager)
      → let (right, s') = login_user c pin s in
        (s'.user_logged_in ≡ right)
        × (s'.so_logged_in ≡ false)
        × (right ≡ true → decrypt_blob c pin s.user_encrypted_key ≢ none)
  unfolding login_user
  login_user_flags pin s = (
    refl,
    (login-LoggedOut pin s.user_encrypted_key s).0,
    λ h. login-eq_opens pin s.user_encrypted_key s h,
  )

  encrypt_key_blob-SameFlags :
      (key iv blob : Bytes) (s : SecureDataManager)
      → SameFlags s (encrypt_key_blob c key iv blob s).2
  unfolding encrypt_key_blob
  encrypt_key_blob-SameFlags key iv blob s = ground (arith, remask-SameFlags (unmask s) s)

  pbe_encrypt_key-SameFlags :
      (p old : Bytes) (s : SecureDataManager) → SameFlags s (pbe_encrypt_key c p old s).2
  unfolding pbe_encrypt_key
  pbe_encrypt_key-SameFlags p old s = elim (Option-cases (c.random s.rng 8)) [
    | inl e ↦ ground arith
    | inr (salt, e) ↦ elim (Option-cases (derive_key c p salt)) [
      | inl e1 ↦ ground arith
      | inr (key, e1) ↦ elim (Option-cases (c.random (s.rng + 1) c.block_size)) [
        | inl e2 ↦ ground arith
        | inr (iv, e2) ↦
            ground
              (arith, encrypt_key_blob-SameFlags key iv (salt ++ iv) (record s { rng = s.rng + 2 }))
      ]
    ]
  ]

  first_key-SameFlags : (s : SecureDataManager) → SameFlags s (first_key c s)
  first_key-SameFlags s =
      ground (arith, remask-SameFlags (generated c s.rng 32) (record s { rng = s.rng + 1 }))

  pub set_so_pin-SameFlags :
      (pin : Bytes) (s : SecureDataManager) → SameFlags s (set_so_pin c pin s).1
  unfolding set_so_pin
  set_so_pin-SameFlags pin s = ground (
    arith,
    first_key-SameFlags s,
    pbe_encrypt_key-SameFlags pin s.so_encrypted_key (first_key c s),
  )

  pub set_user_pin-SameFlags :
      (pin : Bytes) (s : SecureDataManager) → SameFlags s (set_user_pin c pin s).1
  unfolding set_user_pin
  set_user_pin-SameFlags pin s =
      ground (arith, pbe_encrypt_key-SameFlags pin s.user_encrypted_key s)

  -- A PIN that opens the key logs in.
  pub login_so_opens :
      (pin : Bytes) (s : SecureDataManager)
      → decrypt_blob c pin s.so_encrypted_key ≢ none
      → (login_so c pin s).0 ≡ true
  unfolding login_so login
  login_so_opens pin s h = ground arith

  pub login_user_opens :
      (pin : Bytes) (s : SecureDataManager)
      → decrypt_blob c pin s.user_encrypted_key ≢ none
      → (login_user c pin s).0 ≡ true
  unfolding login_user login
  login_user_opens pin s h = ground arith
