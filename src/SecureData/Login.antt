-- ===== src/SecureData/Login.antt =====
-- What a PIN has encrypted, that PIN decrypts: the lemmas behind login.
use mathlib.Core.List.{append_assoc}
use archive_aaf_sshsm.Common.{
  ◌+◌, ◌-◌, ◌≤◌, ◌≡◌, refl, inl, inr, true, some, ◌++◌, arith, Option-cases, length, length-append,
}
use archive_aaf_sshsm.ByteString.{Bytes, size_max, substr_from}
use archive_aaf_sshsm.ByteString.Serial.{substr_front, substr_middle, substr_back}
use archive_aaf_sshsm.ByteString.Masking.{xor_assign_twice, bytes_eq_iff}
use archive_aaf_sshsm.Crypto.{Crypto, decrypt_all, CryptoLaws}
use archive_aaf_sshsm.SecureData.{
  magic, SecureDataManager, remask, unmask, new_mask, derive_key, encrypt_key_blob, pbe_encrypt_key,
  decrypt_blob, login, logout,
}

module _ {C : Type 0} (c : Crypto C) where
  pub unmask-remask : (key : Bytes) (s : SecureDataManager) → unmask (remask c key s) ≡ key
  unfolding unmask remask
  unmask-remask key s =
      ground (arith, xor_assign_twice key s.mask, xor_assign_twice key (new_mask c s))

  blob_opens :
      (passphrase salt iv key_data key plain : Bytes)
      → length salt ≡ 8
      → length iv ≡ c.block_size
      → length (salt ++ (iv ++ key_data)) ≤ size_max
      → derive_key c passphrase salt ≡ some key
      → decrypt_all c key iv key_data ≡ some (magic ++ plain)
      → decrypt_blob c passphrase (salt ++ (iv ++ key_data)) ≡ some (magic ++ plain)
  unfolding decrypt_blob
  blob_opens passphrase salt iv key_data key plain hs hi room hk hd =
      let back : substr_from (8 + c.block_size) (salt ++ (iv ++ key_data)) ≡ key_data =
        rw (← append_assoc salt iv key_data) (
          substr_back (8 + c.block_size) (salt ++ iv) key_data
            (omega (arith, length-append salt iv)) (rw (append_assoc salt iv key_data) room)) in
      ground (
        arith,
        substr_front 8 salt (iv ++ key_data) hs,
        substr_middle 8 c.block_size salt iv key_data hs hi,
        back,
        substr_front 3 magic plain refl,
        (bytes_eq_iff magic magic).1 refl,
      )

  joined_blob_opens :
      (passphrase salt iv key_data blob key plain : Bytes)
      → blob ≡ (salt ++ iv) ++ key_data
      → length salt ≡ 8
      → length iv ≡ c.block_size
      → length blob ≤ size_max
      → derive_key c passphrase salt ≡ some key
      → decrypt_all c key iv key_data ≡ some (magic ++ plain)
      → (decrypt_blob c passphrase blob ≡ some (magic ++ plain)) × (8 ≤ length blob)
  joined_blob_opens passphrase salt iv key_data blob key plain eb hs hi room hk hd =
      let e : blob ≡ salt ++ (iv ++ key_data) = rw (eb, append_assoc salt iv key_data) in
      (
        rw e (blob_opens passphrase salt iv key_data key plain hs hi (rw (← e) room) hk hd),
        rw e (omega (arith, length-append salt (iv ++ key_data))),
      )

  module _ (laws : CryptoLaws c) where
    encrypt_key_blob_lem :
        (key iv blob : Bytes) (s : SecureDataManager) (blob' : Bytes) (s' : SecureDataManager)
        → encrypt_key_blob c key iv blob s ≡ (true, blob', s')
        → (out : Bytes) × (blob' ≡ blob ++ out)
          × (decrypt_all c key iv out ≡ some (magic ++ unmask s))
          × (s' ≡ remask c (unmask s) s)
    unfolding encrypt_key_blob
    encrypt_key_blob_lem key iv blob s blob' s' h = elim (Option-cases (c.encrypt_init key iv)) [
      | inl e ↦ absurd (ground arith)
      | inr (c0, e0) ↦ elim (Option-cases (c.encrypt_update c0 magic)) [
        | inl e ↦ absurd (ground arith)
        | inr ((out1, c1), e1) ↦ elim (Option-cases (c.encrypt_update c1 (unmask s))) [
          | inl e ↦ absurd (ground arith)
          | inr ((out2, c2), e2) ↦ elim (Option-cases (c.encrypt_final c2)) [
            | inl e ↦ absurd (ground arith)
            | inr (end, e3) ↦ (
              out1 ++ (out2 ++ end),
              ground arith,
              laws.two_parts key iv magic (unmask s) out1 out2 end c0 c1 c2 e0 e1 e2 e3,
              ground arith,
            )
          ]
        ]
      ]
    ]

    -- A key encrypted under a passphrase is found again with that passphrase.
    pub pbe_encrypt_key_lem :
        (passphrase old : Bytes) (s : SecureDataManager) (blob : Bytes) (s' : SecureDataManager)
        → pbe_encrypt_key c passphrase old s ≡ (true, blob, s')
        → length blob ≤ size_max
        → (decrypt_blob c passphrase blob ≡ some (magic ++ unmask s))
          × (s' ≡ remask c (unmask s) (record s { rng = s.rng + 2 }))
          × (8 ≤ length blob)
    unfolding pbe_encrypt_key unmask
    pbe_encrypt_key_lem passphrase old s blob s' h room = elim (Option-cases (c.random s.rng 8)) [
      | inl e ↦ absurd (ground arith)
      | inr (salt, e0) ↦ elim (Option-cases (derive_key c passphrase salt)) [
        | inl e ↦ absurd (ground arith)
        | inr (key, e1) ↦ elim (Option-cases (c.random (s.rng + 1) c.block_size)) [
          | inl e ↦ absurd (ground arith)
          | inr (iv, e2) ↦
              let got =
                encrypt_key_blob_lem key iv (salt ++ iv) (record s { rng = s.rng + 2 }) blob s'
                  (ground arith) in
              let whole =
                joined_blob_opens passphrase salt iv got.0 blob key (unmask s) got.1
                  (laws.random_length s.rng 8 salt e0)
                  (laws.random_length (s.rng + 1) c.block_size iv e2) room e1 got.2 in
              (whole.0, got.3, whole.1)
        ]
      ]
    ]

    -- A login with a passphrase that opens the blob gives back the key in it.
    pub login_opens :
        (passphrase blob plain : Bytes) (s : SecureDataManager)
        → decrypt_blob c passphrase blob ≡ some (magic ++ plain)
        → length plain ≤ size_max - 3
        → login c passphrase blob s ≡ (true, remask c plain (logout s))
    unfolding login
    login_opens passphrase blob plain s h room =
        ground (arith, substr_back 3 magic plain refl (omega arith))
