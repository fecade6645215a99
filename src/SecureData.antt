-- ===== src/SecureData.antt =====
-- SoftHSMv2/src/lib/data_mgr/SecureDataManager.cpp and RFC4880.cpp: the master key, masked in memory
-- and encrypted under the PINs.
pub mod Login
pub mod Lifecycle
pub mod Flags
use archive_aaf_sshsm.Common.{
  ℕ, zero, suc, ◌+◌, ◌-◌, Bool, true, false, not, ◌&&◌, ◌||◌, Option, none, some, [], ◌∷◌, ◌++◌,
  ltb, ◌==◌, if◌then◌else◌, length,
}
use archive_aaf_sshsm.ByteString.{Bytes, xor_assign, substr, substr_from, bytes_eq, wipe}
use archive_aaf_sshsm.Crypto.{Crypto, decrypt_all}

-- "RJR"
abbrev pub magic : Bytes
magic = 0x52 ∷ 0x4A ∷ 0x52 ∷ []

-- `rng` counts the calls of generateRandom.
pub record SecureDataManager : Type 0 where
  pub so_encrypted_key : Bytes
  pub user_encrypted_key : Bytes
  pub masked_key : Bytes
  pub mask : Bytes
  pub so_logged_in : Bool
  pub user_logged_in : Bool
  pub rng : ℕ

abbrev pub last_or_zero : Bytes → ℕ
last_or_zero [] = 0
last_or_zero (b ∷ []) = b
last_or_zero (b ∷ (c ∷ bs)) = last_or_zero (c ∷ bs)

unfoldable pub unmask : SecureDataManager → Bytes
unmask s = xor_assign s.masked_key s.mask

unfoldable pub logout : SecureDataManager → SecureDataManager
logout s = record s { so_logged_in = false; user_logged_in = false; masked_key = [] }

-- Somebody is logged in and the key is there.
abbrev pub may_use_key : SecureDataManager → Bool
may_use_key s = (s.user_logged_in || s.so_logged_in) && (length s.masked_key == 32)

module _ {C : Type 0} (c : Crypto C) where
  -- The buffer after a call of generateRandom, which wipes it first, whose result is not looked at.
  abbrev pub generated : ℕ → ℕ → Bytes
  generated call len = elim (c.random call len) [ none ↦ wipe len [] | some bs ↦ bs ]

  abbrev pub new_mask : SecureDataManager → Bytes
  new_mask s = generated s.rng 32

  -- initObject and the constructor from two key blobs; a blank manager has empty ones.
  unfoldable pub with_blobs : Bytes → Bytes → ℕ → SecureDataManager
  with_blobs so_blob user_blob rng = record {
    so_encrypted_key = so_blob;
    user_encrypted_key = user_blob;
    masked_key = [];
    mask = generated rng 32;
    so_logged_in = false;
    user_logged_in = false;
    rng = rng + 1;
  }

  unfoldable pub remask : Bytes → SecureDataManager → SecureDataManager
  remask key s = record s {
    mask = new_mask s;
    masked_key = xor_assign key (new_mask s);
    rng = s.rng + 1;
  }

  -- The loop of RFC4880::PBEDeriveKey, by the rounds left.
  unfoldable pub pbe_loop : ℕ → Bytes → Option Bytes
  pbe_loop zero intermediate = some intermediate
  pbe_loop (suc rounds) intermediate = elim (c.hash intermediate) [
    | none ↦ none
    | some next ↦ pbe_loop rounds next
  ]

  -- 1500 and the last byte of the salt give the number of hashes; the first is over salt and
  -- password, and `--iter > 0` lets one round less follow.
  unfoldable pub derive_key : Bytes → Bytes → Option Bytes
  derive_key password salt =
      if ltb (length salt) 8
      then none
      else if length password == 0
      then none
      else elim (c.hash (salt ++ password)) [
        | none ↦ none
        | some intermediate ↦ pbe_loop (1500 + last_or_zero salt - 1) intermediate
      ]

  -- pbeEncryptKey from encryptInit on; `blob` holds salt and IV.
  unfoldable pub encrypt_key_blob :
      Bytes → Bytes → Bytes → SecureDataManager → Bool × Bytes × SecureDataManager
  encrypt_key_blob key iv blob s = elim (c.encrypt_init key iv) [
    | none ↦ (false, blob, s)
    | some c0 ↦ elim (c.encrypt_update c0 magic) [
      | none ↦ (false, blob, s)
      | some (out1, c1) ↦ elim (c.encrypt_update c1 (unmask s)) [
        | none ↦ (false, blob ++ out1, remask (unmask s) s)
        | some (out2, c2) ↦ elim (c.encrypt_final c2) [
          | none ↦ (false, blob ++ (out1 ++ out2), remask (unmask s) s)
          | some end ↦ (true, blob ++ (out1 ++ (out2 ++ end)), remask (unmask s) s)
        ]
      ]
    ]
  ]

  -- pbeEncryptKey: whether it succeeded, and the encrypted key as it leaves it.
  unfoldable pub pbe_encrypt_key :
      Bytes → Bytes → SecureDataManager → Bool × Bytes × SecureDataManager
  pbe_encrypt_key passphrase old s =
      let s1 : SecureDataManager = record s { rng = s.rng + 1 } in
      let s2 : SecureDataManager = record s { rng = s.rng + 2 } in
      elim (c.random s.rng 8) [
        | none ↦ (false, old, s1)
        | some salt ↦ elim (derive_key passphrase salt) [
          | none ↦ (false, old, s1)
          | some key ↦ elim (c.random (s.rng + 1) c.block_size) [
            | none ↦ (false, salt, s2)
            | some iv ↦ encrypt_key_blob key iv (salt ++ iv) s2
          ]
        ]
      ]

  -- A blank manager gets a new master key; a failing generator leaves it empty.
  abbrev pub first_key : SecureDataManager → SecureDataManager
  first_key s =
      if length s.so_encrypted_key == 0
      then remask (generated s.rng 32) (record s { rng = s.rng + 1 })
      else s

  unfoldable pub set_so_pin : Bytes → SecureDataManager → Bool × SecureDataManager
  set_so_pin pin s =
      if length pin == 0
      then (false, s)
      else if ltb 0 (length s.so_encrypted_key) && not s.so_logged_in
      then (false, s)
      else let (done, blob, s') = pbe_encrypt_key pin s.so_encrypted_key (first_key s) in
        (done, record s' { so_encrypted_key = blob })

  unfoldable pub set_user_pin : Bytes → SecureDataManager → Bool × SecureDataManager
  set_user_pin pin s =
      if not s.so_logged_in && not s.user_logged_in
      then (false, s)
      else if length pin == 0
      then (false, s)
      else let (done, blob, s') = pbe_encrypt_key pin s.user_encrypted_key s in
        (done, record s' { user_encrypted_key = blob })

  -- The common part of login and reAuthenticate: the key data under the passphrase, if its magic is
  -- right.
  unfoldable pub decrypt_blob : Bytes → Bytes → Option Bytes
  decrypt_blob passphrase blob =
      let salt = substr 0 8 blob in
      let iv = substr 8 c.block_size blob in
      let key_data = substr_from (8 + c.block_size) blob in
      elim (derive_key passphrase salt) [
        | none ↦ none
        | some key ↦ elim (decrypt_all c key iv key_data) [
          | none ↦ none
          | some plain ↦ if bytes_eq (substr 0 3 plain) magic then some plain else none
        ]
      ]

  unfoldable pub login : Bytes → Bytes → SecureDataManager → Bool × SecureDataManager
  login passphrase blob s = elim (decrypt_blob passphrase blob) [
    | none ↦ (false, logout s)
    | some plain ↦ (true, remask (substr_from 3 plain) (logout s))
  ]

  unfoldable pub login_so : Bytes → SecureDataManager → Bool × SecureDataManager
  login_so pin s =
      let (done, s') = login pin s.so_encrypted_key s in (done, record s' { so_logged_in = done })

  unfoldable pub login_user : Bytes → SecureDataManager → Bool × SecureDataManager
  login_user pin s =
      let (done, s') = login pin s.user_encrypted_key s in
      (done, record s' { user_logged_in = done })

  abbrev pub re_authenticate : Bytes → Bytes → Bool
  re_authenticate passphrase blob = elim (decrypt_blob passphrase blob) [
    | none ↦ false
    | some plain ↦ true
  ]

  unfoldable pub re_authenticate_so : Bytes → SecureDataManager → Bool
  re_authenticate_so pin s = re_authenticate pin s.so_encrypted_key

  unfoldable pub re_authenticate_user : Bytes → SecureDataManager → Bool
  re_authenticate_user pin s = re_authenticate pin s.user_encrypted_key

  -- decrypt: whether it succeeded, the plaintext if so, and the manager with a new mask.
  unfoldable pub decrypt : Bytes → SecureDataManager → Bool × Option Bytes × SecureDataManager
  decrypt encrypted s =
      let s1 = remask (unmask s) s in
      let iv = substr 0 c.block_size encrypted in
      if not (may_use_key s)
      then (false, none, s)
      else if length encrypted == 0
      then (true, some [], s)
      else if not (length iv == c.block_size)
      then (false, none, s1)
      else elim (decrypt_all c (unmask s) iv (substr_from c.block_size encrypted)) [
        | none ↦ (false, none, s1)
        | some plaintext ↦ (true, some plaintext, s1)
      ]

  -- encryptInit, encryptUpdate and encryptFinal, with the IV put in front.
  abbrev pub encrypt_with : Bytes → Bytes → Bytes → Option Bytes
  encrypt_with key iv plaintext = elim (c.encrypt_init key iv) [
    | none ↦ none
    | some c0 ↦ elim (c.encrypt_update c0 plaintext) [
      | none ↦ none
      | some (out, c1) ↦ elim (c.encrypt_final c1) [
        | none ↦ none
        | some end ↦ some (iv ++ (out ++ end))
      ]
    ]
  ]

  unfoldable pub encrypt : Bytes → SecureDataManager → Bool × Option Bytes × SecureDataManager
  encrypt plaintext s =
      let s1 = remask (unmask s) s in
      let s2 : SecureDataManager = record s1 { rng = s1.rng + 1 } in
      if not (may_use_key s) then (false, none, s) else elim (c.random s1.rng c.block_size) [
        | none ↦ (false, none, s2)
        | some iv ↦ elim (encrypt_with (unmask s) iv plaintext) [
          | none ↦ (false, none, s2)
          | some encrypted ↦ (true, some encrypted, s2)
        ]
      ]
