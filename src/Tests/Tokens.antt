-- ===== src/Tests/Tokens.antt =====
-- The theorems on a token, on the toy cipher and store.
use archive_aaf_sshsm.Common.{
  ◌≤◌, ◌≡◌, refl, ap, ◌≢◌, ◌↔◌, Bool, true, false, none, some, List, [], ◌∷◌, ◌++◌, arith, length,
  replicate,
}
use archive_aaf_sshsm.ByteString.{Bytes, size_max, xor_assign}
use archive_aaf_sshsm.Token.{
  Loaded, Token, is_so_logged_in, is_user_logged_in, login_user, logout, init_user_pin,
  create_token,
}
use archive_aaf_sshsm.Cryptoki.{ok, device_error}
use archive_aaf_sshsm.SecureData
use archive_aaf_sshsm.SecureData.{SecureDataManager}
use archive_aaf_sshsm.SecureData.Login.{pbe_encrypt_key_lem}
use archive_aaf_sshsm.SecureData.Flags.{login_so_opens}
use archive_aaf_sshsm.Token.Exclusive.{
  TokenOp, logs_in_so, logs_in_user, sets_so_pin, creates, logs_out, step, run, IsExclusive, Change,
  step-Change, run-IsExclusive,
}
use archive_aaf_sshsm.Token.Pins.{
  CreateOutcome, create_token_lem, login_user_lem, init_user_pin-login_user,
}
use archive_aaf_sshsm.Tests.Fixtures.{
  Disk, toy, toy_laws, disk, disk_laws, stuck_disk, fresh_disk, logged_in, toy_loop, wraps,
}

abbrev pin : Bytes
pin = 0x31 ∷ 0x32 ∷ 0x33 ∷ 0x34 ∷ []

abbrev ops : List TokenOp
ops =
    logs_out
    ∷ logs_in_user pin
    ∷ sets_so_pin pin pin
    ∷ creates pin (some []) 9
    ∷ logs_in_so pin
    ∷ []

step-Change_example :
    Change toy disk (logs_in_user pin) logged_in (step toy disk (logs_in_user pin) logged_in)
unfolding is_so_logged_in is_user_logged_in
step-Change_example = step-Change toy disk (logs_in_user pin) logged_in refl

run-IsExclusive_example : IsExclusive toy disk (run toy disk ops logged_in)
unfolding is_so_logged_in is_user_logged_in
run-IsExclusive_example = run-IsExclusive toy disk ops logged_in refl

login_user_lem_example :
    let (rv, t') = login_user toy disk pin logged_in in
    ((rv ≡ ok) ↔ (
      (l : Loaded Disk) × (logged_in.loaded ≡ some l)
      × (l.sdm.so_logged_in ≡ false)
      × (l.sdm.user_logged_in ≡ false)
      × (length l.sdm.user_encrypted_key ≢ 0)
      × (disk.get_token_flags l.store ≢ none)
      × (SecureData.decrypt_blob toy pin l.sdm.user_encrypted_key ≢ none)))
    × (rv ≡ ok → is_user_logged_in t' ≡ true)
    × (rv ≢ ok → is_user_logged_in logged_in ≡ false → is_user_logged_in t' ≡ false)
login_user_lem_example = login_user_lem toy disk pin logged_in

abbrev salt : Bytes
salt = replicate 8 3

derived : SecureData.derive_key toy pin salt ≡ some (226 ∷ [])
unfolding SecureData.derive_key
derived = toy_loop 1502 226 (omega arith)

abbrev sdm : SecureDataManager
sdm = record {
  so_encrypted_key = replicate 60 9;
  user_encrypted_key = [];
  masked_key = replicate 32 7;
  mask = replicate 32 5;
  so_logged_in = true;
  user_logged_in = false;
  rng = 3;
}

abbrev wrapped : Bool × Bytes × SecureDataManager
wrapped =
    SecureData.encrypt_key_blob toy (226 ∷ []) (replicate 16 4) (salt ++ replicate 16 4)
      (record sdm { rng = 5 })

user_set :
    SecureData.set_user_pin toy pin sdm
    ≡ (wrapped.0, record wrapped.2 { user_encrypted_key = wrapped.1 })
unfolding SecureData.set_user_pin
user_set =
    ap (λ r. (r.0, record r.2 { user_encrypted_key = r.1 }))
      (wraps toy pin [] (226 ∷ []) salt (replicate 16 4) sdm refl derived refl)

abbrev loaded : Loaded Disk
loaded = record { store = fresh_disk; sdm = sdm }

inits :
    (l : Loaded Disk) (t : Token Disk)
    → t.loaded ≡ some l
    → (SecureData.set_user_pin toy pin l.sdm).0 ≡ true
    → init_user_pin toy disk pin t ≡ (ok, (init_user_pin toy disk pin t).1)
unfolding init_user_pin
inits l t e done = rw (e, done) refl

user_set_done : (SecureData.set_user_pin toy pin sdm).0 ≡ true
unfolding SecureData.encrypt_key_blob
user_set_done = ap (λ r. r.0) user_set

blob_fits : length (SecureData.set_user_pin toy pin sdm).1.user_encrypted_key ≤ size_max
unfolding SecureData.encrypt_key_blob SecureData.unmask xor_assign
blob_fits = rw user_set (omega arith)

init_user_pin-login_user_example :
    let (rv, t'') = login_user toy disk pin (logout (init_user_pin toy disk pin logged_in).1) in
    (rv ≡ ok) × (is_user_logged_in t'' ≡ true)
init_user_pin-login_user_example =
    init_user_pin-login_user toy disk toy_laws disk_laws pin loaded logged_in
      (init_user_pin toy disk pin logged_in).1 refl (inits loaded logged_in refl user_set_done)
      blob_fits

-- The SO's key wrapped under the PIN.
abbrev with_so : Loaded Disk
with_so = record {
  store = fresh_disk;
  sdm = record sdm { so_encrypted_key = wrapped.1; so_logged_in = false };
}

abbrev with_so_token : Token Disk
with_so_token = record { loaded = some with_so; valid = true }

so_opens : (SecureData.login_so toy pin with_so.sdm).0 ≡ true
unfolding SecureData.encrypt_key_blob SecureData.unmask xor_assign
so_opens =
    let opened =
      pbe_encrypt_key_lem toy toy_laws pin [] sdm wrapped.1 wrapped.2
        (wraps toy pin [] (226 ∷ []) salt (replicate 16 4) sdm refl derived refl) (omega arith) in
    login_so_opens toy pin with_so.sdm (λ e. ground (arith, opened))

create_token_lem_example :
    CreateOutcome toy stuck_disk pin with_so with_so_token
      (create_token toy stuck_disk pin (some []) 9 with_so_token)
create_token_lem_example = create_token_lem toy stuck_disk pin [] 9 with_so with_so_token refl

-- The right PIN on a disk that cannot be reset: the SO is logged in after a device error.
failed_reset : (create_token toy stuck_disk pin (some []) 9 with_so_token).0 ≡ device_error
unfolding create_token SecureData.encrypt_key_blob
failed_reset = ground (arith, so_opens)

so_left : is_so_logged_in (create_token toy stuck_disk pin (some []) 9 with_so_token).1 ≡ true
unfolding SecureData.encrypt_key_blob
so_left =
    ((create_token_lem toy stuck_disk pin [] 9 with_so with_so_token refl).so_left_in failed_reset
      (omega arith)).0
