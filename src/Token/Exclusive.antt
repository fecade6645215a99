-- ===== src/Token/Exclusive.antt =====
-- Who is logged in on a token, through every sequence of its operations.
use archive_aaf_sshsm.Common.{
  ℕ, ◌≡◌, refl, ◌≢◌, ◌⊎◌, inl, inr, Bool, true, false, ◌&&◌, ◌||◌, Option, none, some, List, [],
  ◌∷◌, arith, ◌==◌, if◌then◌else◌, Bool-cases, Option-cases, length,
}
use archive_aaf_sshsm.ByteString.{Bytes}
use archive_aaf_sshsm.Crypto.{Crypto}
use archive_aaf_sshsm.SecureData
use archive_aaf_sshsm.SecureData.Flags.{
  logout-LoggedOut, with_blobs-LoggedOut, login_so_flags, login_user_flags, set_so_pin-SameFlags,
  set_user_pin-SameFlags,
}
use archive_aaf_sshsm.Token.Store.{TokenStore}
use archive_aaf_sshsm.Token.{
  Loaded, Token, so_pin_count_low, load_token, is_so_logged_in, is_user_logged_in, login_so,
  login_user, re_authenticate, logout, set_so_pin, set_user_pin, init_user_pin, create_token,
  checked, reset_existing, create_new, blob_or_empty, is_some,
}

-- The operations of a token, each with its arguments; `creates` also has the call that the
-- generator is at.
pub data TokenOp : Type 0 where
  logs_in_so logs_in_user re_authenticates inits_user_pin : Bytes → TokenOp
  sets_so_pin sets_user_pin : Bytes → Bytes → TokenOp
  creates : Bytes → Option Bytes → ℕ → TokenOp
  logs_out : TokenOp

module _ {C T : Type 0} (c : Crypto C) (st : TokenStore T) where
  unfoldable pub step : TokenOp → Token T → Token T
  step (logs_in_so pin) t = (login_so c st pin t).1
  step (logs_in_user pin) t = (login_user c st pin t).1
  step (re_authenticates pin) t = (re_authenticate c st pin t).1
  step (inits_user_pin pin) t = (init_user_pin c st pin t).1
  step (sets_so_pin old new) t = (set_so_pin c st old new t).1
  step (sets_user_pin old new) t = (set_user_pin c st old new t).1
  step (creates so_pin label rng) t = (create_token c st so_pin label rng t).1
  step logs_out t = logout t

  pub run : List TokenOp → Token T → Token T
  run [] t = t
  run (op ∷ ops) t = run ops (step op t)

  -- The SO and the user are not both logged in.
  abbrev pub IsExclusive : Token T → Type 0
  IsExclusive t = (is_so_logged_in t && is_user_logged_in t) ≡ false

  -- createToken on an initialised token logs the SO in too, to verify the PIN.
  abbrev pub GivesSoPin : Bytes → TokenOp → Type 0
  GivesSoPin pin op =
      (op ≡ logs_in_so pin) ⊎ ((label : Option Bytes) × (rng : ℕ) × (op ≡ creates pin label rng))

  -- How an operation may change who is logged in: not at all, by logging everybody out, or by
  -- logging one user in whose PIN opens his key.
  pub data Change (op : TokenOp) (t t' : Token T) : Type 0 where
    same :
        is_so_logged_in t' ≡ is_so_logged_in t
        → is_user_logged_in t' ≡ is_user_logged_in t
        → Change op t t'
    cleared : is_so_logged_in t' ≡ false → is_user_logged_in t' ≡ false → Change op t t'
    so_entered :
        (pin : Bytes) (l : Loaded T)
        → GivesSoPin pin op
        → t.loaded ≡ some l
        → SecureData.decrypt_blob c pin l.sdm.so_encrypted_key ≢ none
        → is_so_logged_in t' ≡ true
        → is_user_logged_in t' ≡ false
        → Change op t t'
    user_entered :
        (pin : Bytes) (l : Loaded T)
        → op ≡ logs_in_user pin
        → t.loaded ≡ some l
        → SecureData.decrypt_blob c pin l.sdm.user_encrypted_key ≢ none
        → is_so_logged_in t' ≡ false
        → is_user_logged_in t' ≡ true
        → Change op t t'

  abbrev busy : Loaded T → Bool
  busy l = l.sdm.so_logged_in || l.sdm.user_logged_in

  login_so-Change : (pin : Bytes) (t : Token T) → Change (logs_in_so pin) t (login_so c st pin t).1
  unfolding login_so is_so_logged_in is_user_logged_in
  login_so-Change pin t = elim (Option-cases t.loaded) [
    | inl e ↦ same (ground arith) (ground arith)
    | inr (l, e) ↦
        let flags = login_so_flags c pin l.sdm in
        let right = (SecureData.login_so c pin l.sdm).0 in
        elim (Bool-cases (busy l)) [
          | inl taken ↦ same (ground arith) (ground arith)
          | inr idle ↦ elim (Option-cases (st.get_token_flags l.store)) [
            | inl unreadable ↦ same (ground arith) (ground arith)
            | inr (f, e1) ↦ elim (Bool-cases right) [
              | inl yes_right ↦
                  so_entered pin l (inl refl) e (flags.2 yes_right) (ground (arith, flags.0))
                    (ground (arith, flags.1))
              | inr wrong ↦ cleared (ground (arith, flags.0)) (ground (arith, flags.1))
            ]
          ]
        ]
  ]

  pub login_user-Change :
      (pin : Bytes) (t : Token T) → Change (logs_in_user pin) t (login_user c st pin t).1
  unfolding login_user is_so_logged_in is_user_logged_in
  login_user-Change pin t = elim (Option-cases t.loaded) [
    | inl e ↦ same (ground arith) (ground arith)
    | inr (l, e) ↦
        let flags = login_user_flags c pin l.sdm in
        let right = (SecureData.login_user c pin l.sdm).0 in
        elim (Bool-cases (busy l || length l.sdm.user_encrypted_key == 0)) [
          | inl taken ↦ same (ground arith) (ground arith)
          | inr idle ↦ elim (Option-cases (st.get_token_flags l.store)) [
            | inl unreadable ↦ same (ground arith) (ground arith)
            | inr (f, e1) ↦ elim (Bool-cases right) [
              | inl yes_right ↦
                  user_entered pin l refl e (flags.2 yes_right) (ground (arith, flags.1))
                    (ground (arith, flags.0))
              | inr wrong ↦ cleared (ground (arith, flags.1)) (ground (arith, flags.0))
            ]
          ]
        ]
  ]

  pub re_authenticate-same :
      (pin : Bytes) (t : Token T)
      → let t' = (re_authenticate c st pin t).1 in
        (is_so_logged_in t' ≡ is_so_logged_in t) × (is_user_logged_in t' ≡ is_user_logged_in t)
  unfolding re_authenticate is_so_logged_in is_user_logged_in
  re_authenticate-same pin t = (ground arith, ground arith)

  init_user_pin-same :
      (pin : Bytes) (t : Token T)
      → let t' = (init_user_pin c st pin t).1 in
        (is_so_logged_in t' ≡ is_so_logged_in t) × (is_user_logged_in t' ≡ is_user_logged_in t)
  unfolding init_user_pin is_so_logged_in is_user_logged_in
  init_user_pin-same pin t = elim (Option-cases t.loaded) [
    | inl e ↦ (ground arith, ground arith)
    | inr (l, e) ↦
        let f = set_user_pin-SameFlags c pin l.sdm in
        (ground (arith, e, f.0), ground (arith, e, f.1))
  ]

  set_so_pin-same :
      (old new : Bytes) (t : Token T)
      → let t' = (set_so_pin c st old new t).1 in
        (is_so_logged_in t' ≡ is_so_logged_in t) × (is_user_logged_in t' ≡ is_user_logged_in t)
  unfolding set_so_pin is_so_logged_in is_user_logged_in
  set_so_pin-same old new t = elim (Option-cases t.loaded) [
    | inl e ↦ (ground arith, ground arith)
    | inr (l, e) ↦
        let verifier =
          SecureData.with_blobs c l.sdm.so_encrypted_key l.sdm.user_encrypted_key l.sdm.rng in
        let used = (SecureData.login_so c old verifier).1 in
        let f = set_so_pin-SameFlags c new (record (l.sdm) { rng = used.rng }) in
        (ground (arith, e, f.0), ground (arith, e, f.1))
  ]

  set_user_pin-Change :
      (old new : Bytes) (t : Token T)
      → IsExclusive t
      → Change (sets_user_pin old new) t (set_user_pin c st old new t).1
  unfolding set_user_pin is_so_logged_in is_user_logged_in
  set_user_pin-Change old new t ex = elim (Option-cases t.loaded) [
    | inl e ↦ same (ground arith) (ground arith)
    | inr (l, e) ↦
        let new_sdm =
          SecureData.with_blobs c l.sdm.so_encrypted_key l.sdm.user_encrypted_key l.sdm.rng in
        let logged_in = (SecureData.login_user c old new_sdm).1 in
        let sdm = (SecureData.set_user_pin c new logged_in).1 in
        let f = login_user_flags c old new_sdm in
        let g = set_user_pin-SameFlags c new logged_in in
        let o = logout-LoggedOut sdm in
        let right = (SecureData.login_user c old new_sdm).0 in
        let changed = (SecureData.set_user_pin c new logged_in).0 in
        let saved = (st.set_user_pin sdm.user_encrypted_key l.store).0 in
        elim (Bool-cases l.sdm.user_logged_in) [
          | inl user ↦
              same (ground (arith, e, user, ex, f.1, g.0, f.0, g.1))
                (ground (arith, e, user, ex, f.1, g.0, f.0, g.1))
          | inr no_user ↦ elim (Option-cases (st.get_token_flags l.store)) [
            | inl unreadable ↦ same (ground arith) (ground arith)
            | inr (flags, e1) ↦ elim (Bool-cases (right && (changed && saved))) [
              | inl success ↦ cleared (ground (arith, o.0)) (ground (arith, o.1))
              | inr failure ↦ same (ground arith) (ground arith)
            ]
          ]
        ]
  ]

  pub load_token-LoggedOut :
      (s : T) (rng : ℕ)
      → (is_so_logged_in (load_token c st s rng) ≡ false)
        × (is_user_logged_in (load_token c st s rng) ≡ false)
  unfolding load_token is_so_logged_in is_user_logged_in
  load_token-LoggedOut s rng =
      with_blobs-LoggedOut c (blob_or_empty (st.get_so_pin s))
        (if is_some (st.get_so_pin s) then blob_or_empty (st.get_user_pin s) else []) rng

  create_new-Change :
      (so_pin label : Bytes) (rng n : ℕ) (o : Option Bytes) (t : Token T)
      → Change (creates so_pin o n) t (create_new c st so_pin label rng t).1
  create_new-Change so_pin label rng n o t =
      let r = SecureData.set_so_pin c so_pin (SecureData.with_blobs c [] [] rng) in
      elim (Bool-cases r.0) [
        | inr failed ↦ same (ground arith) (ground arith)
        | inl made ↦ elim (Option-cases (st.new_token label)) [
          | inl e ↦ same (ground arith) (ground arith)
          | inr (s, e) ↦
              let saved = st.set_so_pin r.1.so_encrypted_key s in
              let out = load_token-LoggedOut saved.1 r.1.rng in
              elim (Bool-cases saved.0) [
                | inl kept ↦ cleared (ground (arith, out.0)) (ground (arith, out.1))
                | inr lost ↦ same (ground arith) (ground arith)
              ]
        ]
      ]

  reset_existing-Change :
      (so_pin label : Bytes) (flags n : ℕ) (o : Option Bytes) (l : Loaded T) (t : Token T)
      → t.loaded ≡ some l
      → Change (creates so_pin o n) t (reset_existing c st so_pin label flags l t).1
  unfolding is_so_logged_in is_user_logged_in
  reset_existing-Change so_pin label flags n o l t e =
      let none_set = length l.sdm.so_encrypted_key == 0 in
      let (right, used) = SecureData.login_so c so_pin l.sdm in
      let f = login_so_flags c so_pin l.sdm in
      let sdm = if none_set then l.sdm else used in
      let l' = checked c st so_pin_count_low flags (none_set || right) sdm l in
      let (done, store) = st.reset_token label l'.store in
      let out = load_token-LoggedOut store sdm.rng in
      elim (Bool-cases ((none_set || right) && done)) [
        | inl success ↦ cleared (ground (arith, out.0)) (ground (arith, out.1))
        | inr failure ↦ elim (Bool-cases none_set) [
          | inl blank ↦ same (ground (arith, e)) (ground (arith, e))
          | inr pin_set ↦ elim (Bool-cases right) [
            | inl yes_right ↦
                so_entered so_pin l (inr (o, n, refl)) e (f.2 yes_right) (ground (arith, f.0))
                  (ground (arith, f.1))
            | inr wrong ↦ cleared (ground (arith, f.0)) (ground (arith, f.1))
          ]
        ]
      ]

  create_token-Change :
      (so_pin : Bytes) (label : Option Bytes) (rng : ℕ) (t : Token T)
      → Change (creates so_pin label rng) t (create_token c st so_pin label rng t).1
  unfolding create_token
  create_token-Change so_pin none rng t = same refl refl
  create_token-Change so_pin (some label) rng t = elim (Option-cases t.loaded) [
    | inl e ↦
        let opened : create_token c st so_pin (some label) rng t
            ≡ create_new c st so_pin label rng t =
          ground arith in
        rw opened (create_new-Change so_pin label rng rng (some label) t)
    | inr (l, e) ↦ elim (Option-cases (st.get_token_flags l.store)) [
      | inl unreadable ↦ same (ground arith) (ground arith)
      | inr (f, e1) ↦
          let opened : create_token c st so_pin (some label) rng t
              ≡ reset_existing c st so_pin label f l t =
            ground arith in
          rw opened (reset_existing-Change so_pin label f rng (some label) l t e)
    ]
  ]

  logout-cleared :
      (t : Token T) → (is_so_logged_in (logout t) ≡ false) × (is_user_logged_in (logout t) ≡ false)
  unfolding logout is_so_logged_in is_user_logged_in
  logout-cleared t = elim (Option-cases t.loaded) [
    | inl e ↦ (ground arith, ground arith)
    | inr (l, e) ↦
        let o = logout-LoggedOut l.sdm in (ground (arith, e, o.0), ground (arith, e, o.1))
  ]

  -- Every operation of a token leaves the login state as it is, logs everybody out, or logs one in:
  -- the SO by a PIN that opens the SO's key, given to loginSO or createToken, or the user by a PIN
  -- that opens the user's key, given to loginUser. SO and user must not both have been logged in.
  pub step-Change : (op : TokenOp) (t : Token T) → IsExclusive t → Change op t (step op t)
  unfolding step
  step-Change (logs_in_so pin) t ex = login_so-Change pin t
  step-Change (logs_in_user pin) t ex = login_user-Change pin t
  step-Change (re_authenticates pin) t ex =
      same (re_authenticate-same pin t).0 (re_authenticate-same pin t).1
  step-Change (inits_user_pin pin) t ex =
      same (init_user_pin-same pin t).0 (init_user_pin-same pin t).1
  step-Change (sets_so_pin old new) t ex =
      same (set_so_pin-same old new t).0 (set_so_pin-same old new t).1
  step-Change (sets_user_pin old new) t ex = set_user_pin-Change old new t ex
  step-Change (creates so_pin label rng) t ex = create_token-Change so_pin label rng t
  step-Change logs_out t ex = cleared (logout-cleared t).0 (logout-cleared t).1

  Change-IsExclusive :
      {op : TokenOp} {t t' : Token T} → Change op t t' → IsExclusive t → IsExclusive t'
  Change-IsExclusive (same a b) ex = ground arith
  Change-IsExclusive (cleared a b) ex = ground arith
  Change-IsExclusive (so_entered pin l g e d a b) ex = ground arith
  Change-IsExclusive (user_entered pin l g e d a b) ex = ground arith

  -- After any sequence of operations the SO and the user are not both logged in, if they were not
  -- before.
  pub run-IsExclusive : (ops : List TokenOp) (t : Token T) → IsExclusive t → IsExclusive (run ops t)
  unfolding run
  run-IsExclusive [] t ex = ex
  run-IsExclusive (op ∷ ops) t ex =
      run-IsExclusive ops (step op t) (Change-IsExclusive (step-Change op t ex) ex)
