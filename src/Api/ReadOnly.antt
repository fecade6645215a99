-- ===== src/Api/ReadOnly.antt =====
-- SoftHSM.cpp: no read-only session is open on a slot whose SO is logged in.
use archive_aaf_sshsm.Common.{
  ℕ, zero, suc, ◌-◌, ◌≡◌, refl, sym, ◌∙◌, subst, ◌⊎◌, inl, inr, Bool, true, Option, none, some,
  List, [], ◌∷◌, arith, ◌==◌, Bool-cases, Option-cases,
}
use archive_aaf_sshsm.Common.Map.{Map, lookup, insert, lookup-insert}
use archive_aaf_sshsm.Session.{Session, is_rw, TokenView, set_re_authentication}
use archive_aaf_sshsm.ByteString.{Bytes}
use archive_aaf_sshsm.SessionMgr.{SessionManager, open_session, have_ro_session, session_at}
use archive_aaf_sshsm.SessionMgr.Open.{get_session_lem}
use archive_aaf_sshsm.Api.{
  TokenOps, TokenOpsLaws, SoftHsm, is_ok, re_authenticated, find_session, c_open_session,
  c_close_session, c_close_all_sessions, log_in, c_login, c_logout,
}
use archive_aaf_sshsm.Api.Managers.{
  AllRw, have_ro_session_none, Safe, slot_of, open-Safe, close-Safe, close_all-Safe,
}

get_session-re_authenticated :
    (p k : ℕ) (xs : List (Option Session)) (x : Session)
    → session_at k (re_authenticated p xs) ≡ some x
    → (y : Session) × (session_at k xs ≡ some y) × (y.slot_id ≡ x.slot_id) × (is_rw y ≡ is_rw x)
unfolding set_re_authentication
get_session-re_authenticated p k [] x e = absurd (ground arith)
get_session-re_authenticated p zero (none ∷ xs) x e = absurd (ground arith)
get_session-re_authenticated p (suc k) (none ∷ xs) x e = get_session-re_authenticated p k xs x e
get_session-re_authenticated p zero (some y ∷ xs) x e = (y, refl, ground arith, ground arith)
get_session-re_authenticated p (suc k) (some y ∷ xs) x e =
    get_session-re_authenticated p k xs x (ground arith)

AllRw-re_authenticated :
    (p slot_id : ℕ) (m : SessionManager)
    → AllRw slot_id m
    → AllRw slot_id (record { sessions = re_authenticated p m.sessions })
AllRw-re_authenticated p slot_id m all k x found on =
    let m' : SessionManager = record { sessions = re_authenticated p m.sessions } in
    let (y, at, sl, w) =
      get_session-re_authenticated p (k - 1) m.sessions x (ground (arith, get_session_lem k m')) in
    ground (arith, all k y (ground (arith, get_session_lem k m, get_session_lem k m')) (sl ∙ on))

module _ {K : Type 0} (ops : TokenOps K) (laws : TokenOpsLaws ops) where
  abbrev v : TokenView K
  v = ops.view

  -- Putting back a token whose SO is logged in only if he was.
  put-Safe :
      (slot_id : ℕ) (token token' : K) (tokens : Map K) (m : SessionManager)
      → lookup slot_id tokens ≡ some token
      → (v.is_so_logged_in token' ≡ true → v.is_so_logged_in token ≡ true)
      → Safe v tokens m
      → Safe v (insert slot_id token' tokens) m
  put-Safe slot_id token token' tokens m e back safe slot t at so =
      elim (Bool-cases (slot_id == slot)) [
        | inl same ↦
            let there : slot_id ≡ slot = ground arith in
            let e' : lookup slot tokens ≡ some token =
              subst (λ i. lookup i tokens ≡ some token) there e in
            let it : token' ≡ t = ground (arith, lookup-insert slot_id slot token' tokens) in
            safe slot token e' (back (subst (λ i. v.is_so_logged_in i ≡ true) (sym it) so))
        | inr ne ↦ safe slot t (ground (arith, lookup-insert slot_id slot token' tokens)) so
      ]

  -- Putting back any token on a slot without read-only sessions.
  put_rw-Safe :
      (slot_id : ℕ) (token' : K) (tokens : Map K) (m : SessionManager)
      → AllRw slot_id m
      → Safe v tokens m
      → Safe v (insert slot_id token' tokens) m
  put_rw-Safe slot_id token' tokens m all safe slot t at so = elim (Bool-cases (slot_id == slot)) [
    | inl same ↦ let there : slot_id ≡ slot = ground arith in subst (λ i. AllRw i m) there all
    | inr ne ↦ safe slot t (ground (arith, lookup-insert slot_id slot token' tokens)) so
  ]

  module _ {A : Type 0} where
    -- No handle of the session table finds a read-only session on a slot whose SO is logged in.
    abbrev pub IsSafe : SoftHsm K A → Type 0
    IsSafe s = Safe v s.tokens s.sessions

    c_open_session-IsSafe :
        (slot_id flags p n a : ℕ) (there : Bool) (s : SoftHsm K A)
        → IsSafe s
        → IsSafe (c_open_session ops slot_id flags p n a there s).2
    unfolding c_open_session
    c_open_session-IsSafe slot_id flags p n a there s safe =
        let s' = (c_open_session ops slot_id flags p n a there s).2 in
        let m = (open_session v (slot_of v slot_id s.tokens) flags p n a there s.sessions).2 in
        let kept : s'.tokens ≡ s.tokens = ground arith in
        let either : (s'.sessions ≡ s.sessions) ⊎ (s'.sessions ≡ m) = ground arith in
        subst (λ x. Safe v x s'.sessions) (sym kept)
          (elim either [
            | inl e ↦ subst (Safe v s.tokens) (sym e) safe
            | inr e ↦
                subst (Safe v s.tokens) (sym e)
                  (open-Safe v slot_id flags p n a there s.tokens s.sessions safe)
          ])

    c_close_session-IsSafe :
        (h : ℕ) (s : SoftHsm K A) → IsSafe s → IsSafe (c_close_session ops h s).1
    unfolding c_close_session
    c_close_session-IsSafe h s safe = elim (Bool-cases s.is_initialised) [
      | inr not_yet ↦ rw (not_yet, c_close_session) safe
      | inl ready ↦ elim (Option-cases (find_session h s)) [
        | inl e ↦ rw (ready, e, c_close_session) safe
        | inr (found, e) ↦
            rw (ready, e, c_close_session)
              (close-Safe v found.h_session s.tokens s.sessions laws.view_laws safe)
      ]
    ]

    c_close_all_sessions-IsSafe :
        (slot_id : ℕ) (s : SoftHsm K A) → IsSafe s → IsSafe (c_close_all_sessions ops slot_id s).1
    unfolding c_close_all_sessions
    c_close_all_sessions-IsSafe slot_id s safe = elim (Bool-cases s.is_initialised) [
      | inr not_yet ↦ rw (not_yet, c_close_all_sessions) safe
      | inl ready ↦ elim (Option-cases (lookup slot_id s.tokens)) [
        | inl e ↦ rw (ready, e, c_close_all_sessions) safe
        | inr (token, e) ↦
            rw (ready, e, c_close_all_sessions)
              (close_all-Safe v slot_id token s.tokens s.sessions laws.view_laws e safe)
      ]
    ]

    log_in-IsSafe :
        (found : Session) (user_type : ℕ) (pin : Bytes) (token : K) (s : SoftHsm K A)
        → lookup found.slot_id s.tokens ≡ some token
        → IsSafe s
        → IsSafe (log_in ops found user_type pin token s).1
    unfolding log_in
    log_in-IsSafe found zero pin token s e safe =
        elim (Bool-cases (have_ro_session found.slot_id s.sessions)) [
          | inl some_ro ↦ rw (some_ro, log_in) safe
          | inr no_ro ↦
              rw (no_ro, log_in)
                (put_rw-Safe found.slot_id (ops.login_so pin token).1 s.tokens s.sessions
                  (have_ro_session_none found.slot_id s.sessions no_ro) safe)
        ]
    log_in-IsSafe found (suc zero) pin token s e safe =
        put-Safe found.slot_id token (ops.login_user pin token).1 s.tokens s.sessions e
          (laws.login_user_so pin token) safe
    log_in-IsSafe found (suc (suc zero)) pin token s e safe =
        elim (Bool-cases found.re_authentication) [
          | inr not_asked ↦ rw (not_asked, log_in) safe
          | inl asked ↦
              let put =
                put-Safe found.slot_id token (ops.re_authenticate pin token).1 s.tokens s.sessions e
                  (laws.re_authenticate_so pin token) safe in
              elim (Bool-cases (is_ok (ops.re_authenticate pin token).0)) [
                | inl done ↦
                    rw (asked, done, log_in)
                      (λ slot t at so.
                        AllRw-re_authenticated found.address slot s.sessions (put slot t at so))
                | inr refused ↦ rw (asked, refused, log_in) put
              ]
        ]
    log_in-IsSafe found (suc (suc (suc n))) pin token s e safe = safe

    c_login-IsSafe :
        (h user_type : ℕ) (pin : Option Bytes) (s : SoftHsm K A)
        → IsSafe s
        → IsSafe (c_login ops h user_type pin s).1
    unfolding c_login
    c_login-IsSafe h user_type pin s safe = elim (Bool-cases s.is_initialised) [
      | inr not_yet ↦ rw (not_yet, c_login) safe
      | inl ready ↦ elim (Option-cases (find_session h s)) [
        | inl e ↦ rw (ready, e, c_login) safe
        | inr (found, e) ↦ elim (Option-cases pin) [
          | inl no_pin ↦ rw (ready, e, no_pin, c_login) safe
          | inr (bytes, e1) ↦ elim (Option-cases (lookup found.slot_id s.tokens)) [
            | inl e2 ↦ rw (ready, e, e1, e2, c_login) safe
            | inr (token, e2) ↦
                rw (ready, e, e1, e2, c_login) (log_in-IsSafe found user_type bytes token s e2 safe)
          ]
        ]
      ]
    ]

    c_logout-IsSafe : (h : ℕ) (s : SoftHsm K A) → IsSafe s → IsSafe (c_logout ops h s).1
    unfolding c_logout
    c_logout-IsSafe h s safe = elim (Bool-cases s.is_initialised) [
      | inr not_yet ↦ rw (not_yet, c_logout) safe
      | inl ready ↦ elim (Option-cases (find_session h s)) [
        | inl e ↦ rw (ready, e, c_logout) safe
        | inr (found, e) ↦ elim (Option-cases (lookup found.slot_id s.tokens)) [
          | inl e2 ↦ rw (ready, e, e2, c_logout) safe
          | inr (token, e2) ↦
              rw (ready, e, e2, c_logout)
                (put-Safe found.slot_id token (v.logout token) s.tokens s.sessions e2
                  (λ so. absurd (ground (arith, laws.view_laws.logout_so token))) safe)
        ]
      ]
    ]

    -- A library state is reached from another by calls of the handlers, in any order.
    pub data Reaches (s : SoftHsm K A) : SoftHsm K A → Type 0 where
      start : Reaches s s
      opens_session :
          (t : SoftHsm K A) (slot_id flags p n a : ℕ) (there : Bool)
          → Reaches s t
          → Reaches s (c_open_session ops slot_id flags p n a there t).2
      closes_session :
          (t : SoftHsm K A) (h : ℕ) → Reaches s t → Reaches s (c_close_session ops h t).1
      closes_all_sessions :
          (t : SoftHsm K A) (slot_id : ℕ)
          → Reaches s t
          → Reaches s (c_close_all_sessions ops slot_id t).1
      logs_in :
          (t : SoftHsm K A) (h user_type : ℕ) (pin : Option Bytes)
          → Reaches s t
          → Reaches s (c_login ops h user_type pin t).1
      logs_out : (t : SoftHsm K A) (h : ℕ) → Reaches s t → Reaches s (c_logout ops h t).1

    -- Through every sequence of calls that open and close sessions, log in and log out, no read-only
    -- session is open on a slot whose SO is logged in, if none was before. The tokens are such that a user
    -- login and a re-authentication do not log the SO in, and a logout logs him out.
    pub Reaches-IsSafe : (s t : SoftHsm K A) → Reaches s t → IsSafe s → IsSafe t
    Reaches-IsSafe s _ start safe = safe
    Reaches-IsSafe s _ (opens_session t slot_id flags p n a there r) safe =
        c_open_session-IsSafe slot_id flags p n a there t (Reaches-IsSafe s t r safe)
    Reaches-IsSafe s _ (closes_session t h r) safe =
        c_close_session-IsSafe h t (Reaches-IsSafe s t r safe)
    Reaches-IsSafe s _ (closes_all_sessions t slot_id r) safe =
        c_close_all_sessions-IsSafe slot_id t (Reaches-IsSafe s t r safe)
    Reaches-IsSafe s _ (logs_in t h user_type pin r) safe =
        c_login-IsSafe h user_type pin t (Reaches-IsSafe s t r safe)
    Reaches-IsSafe s _ (logs_out t h r) safe = c_logout-IsSafe h t (Reaches-IsSafe s t r safe)
