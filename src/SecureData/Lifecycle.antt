-- ===== src/SecureData/Lifecycle.antt =====
-- Through a token's life: what was encrypted before a PIN was set is decrypted after a login with it,
-- and nothing is while nobody is logged in.
use archive_aaf_sshsm.Common.{
  ◌≤◌, ◌≡◌, refl, ap, ◌∙◌, inl, inr, true, false, none, some, [], ◌++◌, arith, Option-cases, length,
  length-append,
}
use archive_aaf_sshsm.ByteString.{Bytes, size_max, xor_assign}
use archive_aaf_sshsm.ByteString.Serial.{substr_front, substr_back}
use archive_aaf_sshsm.ByteString.Masking.{length-xor_assign}
use archive_aaf_sshsm.Crypto.{Crypto, decrypt_all, CryptoLaws}
use archive_aaf_sshsm.SecureData.{
  magic, SecureDataManager, remask, unmask, new_mask, pbe_encrypt_key, set_user_pin, decrypt_blob,
  login, login_so, login_user, logout, may_use_key, decrypt, encrypt, encrypt_with,
}
use archive_aaf_sshsm.SecureData.Login.{unmask-remask, pbe_encrypt_key_lem, login_opens}

unmask_cong :
    (a b : SecureDataManager) → a.masked_key ≡ b.masked_key → a.mask ≡ b.mask → unmask a ≡ unmask b
unfolding unmask
unmask_cong a b p q = rw (p, q)

length-unmask : (s : SecureDataManager) → length (unmask s) ≡ length s.masked_key
unfolding unmask
length-unmask s = length-xor_assign s.masked_key s.mask

module _ {C : Type 0} (c : Crypto C) where
  length-remask :
      (key : Bytes) (s : SecureDataManager) → length (remask c key s).masked_key ≡ length key
  unfolding remask
  length-remask key s = length-xor_assign key (new_mask c s)

  -- Nobody is logged in, no key is held, and nothing is encrypted or decrypted.
  pub record IsLocked (s : SecureDataManager) : Type 0 where
    pub no_so : s.so_logged_in ≡ false
    pub no_user : s.user_logged_in ≡ false
    pub no_key : unmask s ≡ []
    pub no_encrypt : (bs : Bytes) → encrypt c bs s ≡ (false, none, s)
    pub no_decrypt : (bs : Bytes) → decrypt c bs s ≡ (false, none, s)

  logout-IsLocked : (s : SecureDataManager) → IsLocked (logout s)
  unfolding logout unmask encrypt decrypt xor_assign
  logout-IsLocked s = record {
    no_so = refl;
    no_user = refl;
    no_key = refl;
    no_encrypt = λ bs. refl;
    no_decrypt = λ bs. refl;
  }

  failed_login-IsLocked :
      (passphrase blob : Bytes) (s : SecureDataManager)
      → (login c passphrase blob s).0 ≡ false
      → (login c passphrase blob s).1 ≡ logout s
  unfolding login
  failed_login-IsLocked passphrase blob s h = ground arith

  login_so_failed :
      (pin : Bytes) (s : SecureDataManager)
      → (login_so c pin s).0 ≡ false
      → (login_so c pin s).1 ≡ logout s
  unfolding login_so logout
  login_so_failed pin s h = ground (arith, failed_login-IsLocked pin s.so_encrypted_key s)

  login_user_failed :
      (pin : Bytes) (s : SecureDataManager)
      → (login_user c pin s).0 ≡ false
      → (login_user c pin s).1 ≡ logout s
  unfolding login_user logout
  login_user_failed pin s h = ground (arith, failed_login-IsLocked pin s.user_encrypted_key s)

  -- After a logout, and after a login of the SO or of the user that fails, the manager is locked:
  -- nobody is logged in, the key is gone, and it neither encrypts nor decrypts anything.
  pub IsLocked-when_logged_out :
      (s : SecureDataManager) (pin : Bytes)
      → IsLocked (logout s)
        × ((login_so c pin s).0 ≡ false → IsLocked (login_so c pin s).1)
        × ((login_user c pin s).0 ≡ false → IsLocked (login_user c pin s).1)
  IsLocked-when_logged_out s pin = (
    logout-IsLocked s,
    λ h. rw (login_so_failed pin s h) (logout-IsLocked s),
    λ h. rw (login_user_failed pin s h) (logout-IsLocked s),
  )

  module _ (laws : CryptoLaws c) where
    login_user_opens :
        (pin plain : Bytes) (s : SecureDataManager)
        → decrypt_blob c pin s.user_encrypted_key ≡ some (magic ++ plain)
        → length plain ≡ 32
        → login_user c pin s ≡ (true, record (remask c plain (logout s)) { user_logged_in = true })
    unfolding login_user
    login_user_opens pin plain s h len =
        rw (login_opens c laws pin s.user_encrypted_key plain s h (omega arith))

    pub set_user_pin_lem :
        (pin : Bytes) (s s' : SecureDataManager)
        → set_user_pin c pin s ≡ (true, s')
        → length s'.user_encrypted_key ≤ size_max
        → (decrypt_blob c pin s'.user_encrypted_key ≡ some (magic ++ unmask s))
          × (8 ≤ length s'.user_encrypted_key)
    unfolding set_user_pin
    set_user_pin_lem pin s s' h room =
        let r = pbe_encrypt_key c pin s.user_encrypted_key s in
        let done : r ≡ (true, r.1, r.2) = ground arith in
        let kept_blob : s'.user_encrypted_key ≡ r.1 = ground arith in
        let r_lem =
          pbe_encrypt_key_lem c laws pin s.user_encrypted_key s r.1 r.2 done
            (rw (← kept_blob) room) in
        rw kept_blob (r_lem.0, r_lem.2)

    encrypt_with_lem :
        (key iv plaintext enc : Bytes)
        → encrypt_with c key iv plaintext ≡ some enc
        → (out : Bytes) × (enc ≡ iv ++ out) × (decrypt_all c key iv out ≡ some plaintext)
    encrypt_with_lem key iv plaintext enc h = elim (Option-cases (c.encrypt_init key iv)) [
      | inl e ↦ absurd (ground arith)
      | inr (c0, e0) ↦ elim (Option-cases (c.encrypt_update c0 plaintext)) [
        | inl e ↦ absurd (ground arith)
        | inr ((out, c1), e1) ↦ elim (Option-cases (c.encrypt_final c1)) [
          | inl e ↦ absurd (ground arith)
          | inr (end, e2) ↦
              (out ++ end, ground arith, laws.one_part key iv plaintext out end c0 c1 e0 e1 e2)
        ]
      ]
    ]

    encrypt_lem :
        (plaintext enc : Bytes) (s s' : SecureDataManager)
        → encrypt c plaintext s ≡ (true, some enc, s')
        → (iv : Bytes) × (out : Bytes) × (enc ≡ iv ++ out)
          × (length iv ≡ c.block_size)
          × (decrypt_all c (unmask s) iv out ≡ some plaintext)
    unfolding encrypt
    encrypt_lem plaintext enc s s' h =
        let i = (remask c (unmask s) s).rng in
        elim (Option-cases (c.random i c.block_size)) [
          | inl e ↦ absurd (ground arith)
          | inr (iv, e0) ↦ elim (Option-cases (encrypt_with c (unmask s) iv plaintext)) [
            | inl e ↦ absurd (ground arith)
            | inr (enc', e1) ↦
                let same : enc ≡ enc' = ground arith in
                let (out, joined, opens) = encrypt_with_lem (unmask s) iv plaintext enc' e1 in
                (iv, out, same ∙ joined, laws.random_length i c.block_size iv e0, opens)
          ]
        ]

    decrypt_opens :
        (iv out plaintext : Bytes) (t : SecureDataManager)
        → length iv ≡ c.block_size
        → length (iv ++ out) ≤ size_max
        → may_use_key t ≡ true
        → decrypt_all c (unmask t) iv out ≡ some plaintext
        → decrypt c (iv ++ out) t ≡ (true, some plaintext, remask c (unmask t) t)
    unfolding decrypt
    decrypt_opens iv out plaintext t len room may opens = ground (
      arith,
      laws.block_pos,
      length-append iv out,
      substr_front c.block_size iv out len,
      substr_back c.block_size iv out len room,
    )

    -- What one manager has encrypted, another that is logged in with the same master key decrypts.
    pub decrypt-encrypt :
        (plaintext enc : Bytes) (s s' t : SecureDataManager)
        → encrypt c plaintext s ≡ (true, some enc, s')
        → length enc ≤ size_max
        → may_use_key t ≡ true
        → unmask t ≡ unmask s
        → ((decrypt c enc t).0 ≡ true) × ((decrypt c enc t).1 ≡ some plaintext)
    decrypt-encrypt plaintext enc s s' t h room may key =
        let (iv, out, joined, len, opens) = encrypt_lem plaintext enc s s' h in
        rw (joined, decrypt_opens iv out plaintext t len (rw (← joined) room) may (rw key opens))
          (refl, refl)

    encrypt_keeps_key :
        (plaintext enc : Bytes) (s s' : SecureDataManager)
        → encrypt c plaintext s ≡ (true, some enc, s')
        → (unmask s' ≡ unmask s) × (length (unmask s) ≡ 32)
    unfolding encrypt
    encrypt_keeps_key plaintext enc s s' h = (
      unmask_cong s' (remask c (unmask s) s) (ground arith) (ground arith)
          ∙ unmask-remask c (unmask s) s,
      ground (arith, length-unmask s),
    )

    -- What was encrypted under one login is decrypted after the user PIN has been set and the user has
    -- logged in with the new PIN: the login succeeds, and the plaintext comes back.
    pub encrypt-login_user :
        (plaintext enc pin : Bytes) (s s1 s2 : SecureDataManager)
        → encrypt c plaintext s ≡ (true, some enc, s1)
        → set_user_pin c pin s1 ≡ (true, s2)
        → length enc ≤ size_max
        → length s2.user_encrypted_key ≤ size_max
        → let (done, t) = login_user c pin s2 in
          (done ≡ true) × ((decrypt c enc t).0 ≡ true) × ((decrypt c enc t).1 ≡ some plaintext)
    encrypt-login_user plaintext enc pin s s1 s2 h done room room' =
        let (same, len) = encrypt_keeps_key plaintext enc s s1 h in
        let opens = (set_user_pin_lem pin s1 s2 done room').0 in
        let t : SecureDataManager = record (remask c (unmask s1) (logout s2)) {
          user_logged_in = true;
        } in
        let size : length t.masked_key ≡ 32 =
          omega (arith, length-remask (unmask s1) (logout s2), ap length same) in
        let key : unmask t ≡ unmask s =
          unmask_cong t (remask c (unmask s1) (logout s2)) refl refl
          ∙ unmask-remask c (unmask s1) (logout s2)
          ∙ same in
        let opened = decrypt-encrypt plaintext enc s s1 t h room (ground arith) key in
        rw (login_user_opens pin (unmask s1) s2 opens (rw (same, len))) (refl, opened.0, opened.1)
