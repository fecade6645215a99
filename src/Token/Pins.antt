-- ===== src/Token/Pins.antt =====
-- PINs and errors on a token.
use archive_aaf_sshsm.Common.{
  ℕ, ◌≤◌, ◌≡◌, refl, ◌≢◌, ◌⊎◌, ◌↔◌, inl, inr, true, false, ◌||◌, none, some, arith, ◌==◌,
  if◌then◌else◌, Bool-cases, Option-cases, length,
}
use archive_aaf_sshsm.Cryptoki.{CkRv, ok, general_error, device_error, pin_incorrect}
use archive_aaf_sshsm.ByteString.{Bytes, size_max}
use archive_aaf_sshsm.Crypto.{Crypto, CryptoLaws}
use archive_aaf_sshsm.SecureData
use archive_aaf_sshsm.SecureData.Flags.{
  login_so_flags, login_so_opens, login_user_flags, login_user_opens,
}
use archive_aaf_sshsm.SecureData.Lifecycle.{set_user_pin_lem}
use archive_aaf_sshsm.Token.Exclusive.{load_token-LoggedOut}
use archive_aaf_sshsm.Token.Store.{TokenStore, StoreLaws}
use archive_aaf_sshsm.Token.{
  Loaded, Token, so_pin_count_low, is_so_logged_in, is_user_logged_in, login_user, logout,
  init_user_pin, create_token, checked, reset_existing, set_bit,
}

abbrev pub NobodyIn : {T : Type 0} → Token T → Type 0
NobodyIn t = (is_so_logged_in t ≡ false) × (is_user_logged_in t ≡ false)

module _ {C T : Type 0} (c : Crypto C) (st : TokenStore T) where
  -- What createToken returns for an initialised token, and what it leaves.
  pub record CreateOutcome (so_pin : Bytes) (l : Loaded T) (t : Token T) (r : CkRv × Token T)
      : Type 0 where
    pub incorrect : (r.0 ≡ pin_incorrect) ↔ (
        (st.get_token_flags l.store ≢ none)
        × (length l.sdm.so_encrypted_key ≢ 0)
        × (SecureData.decrypt_blob c so_pin l.sdm.so_encrypted_key ≡ none))
    pub store_kept :
        r.0 ≡ pin_incorrect
        → NobodyIn r.1
          × (flags : ℕ) × (l' : Loaded T) × (r.1.loaded ≡ some l')
          × (l'.store ≡ st.set_token_flags flags l.store)
    pub reset :
        r.0 ≡ ok
        → NobodyIn r.1
          × ((length l.sdm.so_encrypted_key ≡ 0)
              ⊎ (SecureData.decrypt_blob c so_pin l.sdm.so_encrypted_key ≢ none))
    pub so_left_in :
        r.0 ≡ device_error
        → length l.sdm.so_encrypted_key ≢ 0
        → (is_so_logged_in r.1 ≡ true) × (is_user_logged_in r.1 ≡ false)
    pub unchanged : r.0 ≡ general_error → r.1 ≡ t
    pub no_other :
        ((r.0 ≡ ok) ⊎ (r.0 ≡ pin_incorrect)) ⊎ ((r.0 ≡ device_error) ⊎ (r.0 ≡ general_error))

  reset_existing-CreateOutcome :
      (so_pin label : Bytes) (flags : ℕ) (l : Loaded T) (t : Token T)
      → st.get_token_flags l.store ≡ some flags
      → CreateOutcome so_pin l t (reset_existing c st so_pin label flags l t)
  unfolding is_so_logged_in is_user_logged_in
  reset_existing-CreateOutcome so_pin label flags l t readable =
      let none_set = length l.sdm.so_encrypted_key == 0 in
      let (right, used) = SecureData.login_so c so_pin l.sdm in
      let f = login_so_flags c so_pin l.sdm in
      let opens = login_so_opens c so_pin l.sdm in
      let sdm = if none_set then l.sdm else used in
      let l' = checked c st so_pin_count_low flags (none_set || right) sdm l in
      let (done, store) = st.reset_token label l'.store in
      let out = load_token-LoggedOut c st store sdm.rng in
      elim (Bool-cases (none_set || right)) [
        | inl passed ↦ elim (Bool-cases done) [
          | inl success ↦ record {
            incorrect =
                (λ h. ground (arith, passed, success), λ h. ground (arith, passed, success, f.2));
            store_kept = λ h. ground (arith, passed, success);
            reset = λ h. (
              ground (arith, out),
              elim (Bool-cases none_set) [
                | inl blank ↦ inl (ground (arith, blank))
                | inr pin_set ↦ inr (f.2 (ground (arith, passed, pin_set)))
              ],
            );
            so_left_in = λ h. ground (arith, passed, success);
            unchanged = λ h. ground (arith, passed, success);
            no_other = ground (arith, passed, success);
          }
          | inr failure ↦ record {
            incorrect =
                (λ h. ground (arith, passed, failure), λ h. ground (arith, passed, failure, f.2));
            store_kept = λ h. ground (arith, passed, failure);
            reset = λ h. ground (arith, passed, failure);
            so_left_in = λ h pin_set. ground (arith, passed, failure, f.0, f.1);
            unchanged = λ h. ground (arith, passed, failure);
            no_other = ground (arith, passed, failure);
          }
        ]
        | inr wrong ↦ record {
          incorrect = (
            λ h. (
              λ u. ground (arith, readable, u),
              ground (arith, wrong),
              elim (Option-cases (SecureData.decrypt_blob c so_pin l.sdm.so_encrypted_key)) [
                | inl closed ↦ closed
                | inr (plain, open_key) ↦
                    absurd (ground (arith, wrong, opens (λ z. ground (arith, open_key))))
              ],
            ),
            λ h. ground (arith, wrong),
          );
          store_kept = λ h. (
            (ground (arith, wrong, f.0), ground (arith, wrong, f.1)),
            set_bit flags so_pin_count_low,
            l',
            ground (arith, wrong),
            ground (arith, wrong),
          );
          reset = λ h. ground (arith, wrong);
          so_left_in = λ h. ground (arith, wrong);
          unchanged = λ h. ground (arith, wrong);
          no_other = ground (arith, wrong);
        }
      ]

  -- createToken on an initialised token. It reports an incorrect PIN exactly if the flags can be read, an
  -- SO PIN is set and the given PIN does not open the SO's key; then the stored token is as before but for
  -- its flags, and nobody is logged in. It succeeds only if no SO PIN is set or the PIN opens the SO's key;
  -- then nobody is logged in. With a device error, when an SO PIN is set, the SO is logged in and the user
  -- is not. With a general error nothing has changed. It returns no other code.
  pub create_token_lem :
      (so_pin label : Bytes) (rng : ℕ) (l : Loaded T) (t : Token T)
      → t.loaded ≡ some l
      → CreateOutcome so_pin l t (create_token c st so_pin (some label) rng t)
  unfolding create_token
  create_token_lem so_pin label rng l t e = elim (Option-cases (st.get_token_flags l.store)) [
    | inl unreadable ↦
        let same : create_token c st so_pin (some label) rng t ≡ (general_error, t) =
          ground arith in
        rw same (record {
          incorrect = (λ h. ground arith, λ h. ground (arith, h.0));
          store_kept = λ h. ground arith;
          reset = λ h. ground arith;
          so_left_in = λ h. ground arith;
          unchanged = λ h. refl;
          no_other = inr (inr refl);
        })
    | inr (flags, readable) ↦
        let opened : create_token c st so_pin (some label) rng t
            ≡ reset_existing c st so_pin label flags l t =
          ground arith in
        rw opened (reset_existing-CreateOutcome so_pin label flags l t readable)
  ]

  -- loginUser succeeds exactly if the token is initialised, nobody is logged in, a user PIN is set,
  -- the flags can be read and the PIN opens the user's key; then the user is logged in. Any other
  -- result leaves the user logged out if he was.
  pub login_user_lem :
      (pin : Bytes) (t : Token T)
      → let (rv, t') = login_user c st pin t in
        ((rv ≡ ok) ↔ (
          (l : Loaded T) × (t.loaded ≡ some l)
          × (l.sdm.so_logged_in ≡ false)
          × (l.sdm.user_logged_in ≡ false)
          × (length l.sdm.user_encrypted_key ≢ 0)
          × (st.get_token_flags l.store ≢ none)
          × (SecureData.decrypt_blob c pin l.sdm.user_encrypted_key ≢ none)))
        × (rv ≡ ok → is_user_logged_in t' ≡ true)
        × (rv ≢ ok → is_user_logged_in t ≡ false → is_user_logged_in t' ≡ false)
  unfolding login_user is_user_logged_in
  login_user_lem pin t = elim (Option-cases t.loaded) [
    | inl e ↦ (
      (λ h. absurd (ground arith), λ h. absurd (ground (arith, h.1))),
      λ h. ground arith,
      λ h g. ground arith,
    )
    | inr (l, e) ↦
        let f = login_user_flags c pin l.sdm in
        let o = login_user_opens c pin l.sdm in
        (
          (
            λ h.
                (l, e, ground arith, ground arith, ground arith, ground arith, ground (arith, f.2)),
            λ h. ground (arith, h.1, h.2, h.3, h.4, h.5, h.6, o),
          ),
          λ h. ground (arith, f.0),
          λ h g. ground (arith, f.0),
        )
  ]

  module _ (laws : CryptoLaws c) (kept : StoreLaws st) where
    -- After the SO has initialised the user PIN and logged out, the user logs in with that PIN.
    pub init_user_pin-login_user :
        (pin : Bytes) (l : Loaded T) (t t' : Token T)
        → t.loaded ≡ some l
        → init_user_pin c st pin t ≡ (ok, t')
        → length (SecureData.set_user_pin c pin l.sdm).1.user_encrypted_key ≤ size_max
        → let (rv, t'') = login_user c st pin (logout t') in
          (rv ≡ ok) × (is_user_logged_in t'' ≡ true)
    unfolding init_user_pin logout SecureData.logout
    init_user_pin-login_user pin l t t' e h room =
        let r = SecureData.set_user_pin c pin l.sdm in
        let w = st.set_user_pin r.1.user_encrypted_key l.store in
        let saved : w.0 ≡ true = ground arith in
        let blob = set_user_pin_lem c laws pin l.sdm r.1 (ground arith) room in
        let l' : Loaded T = record { store = w.1; sdm = SecureData.logout r.1 } in
        let out : (logout t').loaded ≡ some l' = ground arith in
        let lem = login_user_lem pin (logout t') in
        let done = lem.0.1 (
          l',
          out,
          refl,
          refl,
          omega (arith, blob.1),
          kept.user_pin_keeps_readable r.1.user_encrypted_key l.store saved,
          λ n. ground (arith, blob.0),
        ) in
        (done, lem.1 done)
