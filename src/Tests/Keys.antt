-- ===== src/Tests/Keys.antt =====
-- The theorems on the data manager and on byte strings, on the toy cipher.
use archive_aaf_sshsm.Common.{
  ◌+◌, ◌≡◌, refl, ap, Bool, true, false, none, some, [], ◌∷◌, ◌++◌, arith, replicate,
}
use archive_aaf_sshsm.ByteString.{Bytes, xor_assign}
use archive_aaf_sshsm.SecureData.{
  SecureDataManager, remask, unmask, derive_key, encrypt_key_blob, pbe_encrypt_key, set_user_pin,
  login_so, login_user, logout, decrypt, encrypt,
}
use archive_aaf_sshsm.SecureData.Lifecycle.{
  IsLocked, IsLocked-when_logged_out, decrypt-encrypt, encrypt-login_user,
}
use archive_aaf_sshsm.Tests.Fixtures.{toy, toy_laws, toy_loop, wraps}

-- "1234" and "4321x", and a secret.
abbrev so_pin : Bytes
so_pin = 0x31 ∷ 0x32 ∷ 0x33 ∷ 0x34 ∷ []

abbrev user_pin : Bytes
user_pin = 0x34 ∷ 0x33 ∷ 0x32 ∷ 0x31 ∷ 0x78 ∷ []

abbrev secret : Bytes
secret = 0xCA ∷ 0xFE ∷ []

-- A manager whose SO is logged in.
abbrev manager : SecureDataManager
manager = record {
  so_encrypted_key = replicate 60 9;
  user_encrypted_key = [];
  masked_key = replicate 32 7;
  mask = replicate 32 5;
  so_logged_in = true;
  user_logged_in = false;
  rng = 3;
}

abbrev encrypted : Bytes
encrypted = elim (encrypt toy secret manager).1 [ none ↦ [] | some bs ↦ bs ]

abbrev after_encrypt : SecureDataManager
after_encrypt = (encrypt toy secret manager).2

IsLocked-when_logged_out_example :
    IsLocked toy (logout manager)
    × ((login_so toy user_pin manager).0 ≡ false → IsLocked toy (login_so toy user_pin manager).1)
    × ((login_user toy user_pin manager).0 ≡ false
        → IsLocked toy (login_user toy user_pin manager).1)
IsLocked-when_logged_out_example = IsLocked-when_logged_out toy manager user_pin

decrypt-encrypt_example :
    ((decrypt toy encrypted after_encrypt).0 ≡ true)
    × ((decrypt toy encrypted after_encrypt).1 ≡ some secret)
unfolding encrypt remask unmask xor_assign
decrypt-encrypt_example =
    decrypt-encrypt toy toy_laws secret encrypted manager after_encrypt after_encrypt refl
      (omega arith) refl refl

abbrev salt : Bytes
salt = replicate 8 5

derived : derive_key toy user_pin salt ≡ some (106 ∷ [])
unfolding derive_key
derived = toy_loop 1504 106 (omega arith)

abbrev key_blob : Bool × Bytes × SecureDataManager
key_blob =
    encrypt_key_blob toy (106 ∷ []) (replicate 16 6) (salt ++ replicate 16 6)
      (record after_encrypt { rng = after_encrypt.rng + 2 })

key_wrapped : pbe_encrypt_key toy user_pin [] after_encrypt ≡ key_blob
unfolding encrypt remask
key_wrapped = wraps toy user_pin [] (106 ∷ []) salt (replicate 16 6) after_encrypt refl derived refl

abbrev with_user : SecureDataManager
with_user = record key_blob.2 { user_encrypted_key = key_blob.1 }

user_set : set_user_pin toy user_pin after_encrypt ≡ (true, with_user)
unfolding encrypt remask unmask xor_assign set_user_pin encrypt_key_blob
user_set = ap (λ r. (r.0, record r.2 { user_encrypted_key = r.1 })) key_wrapped

encrypt-login_user_example :
    let (done, t) = login_user toy user_pin with_user in
    (done ≡ true)
    × ((decrypt toy encrypted t).0 ≡ true)
    × ((decrypt toy encrypted t).1 ≡ some secret)
unfolding encrypt remask unmask xor_assign encrypt_key_blob
encrypt-login_user_example =
    encrypt-login_user toy toy_laws secret encrypted user_pin manager after_encrypt with_user refl
      user_set (omega arith) (omega arith)
