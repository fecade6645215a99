-- ===== src/Api/Managers.antt =====
-- SessionManager.cpp: that no read-only session is open on a slot whose SO is logged in, through each of
-- its operations.
use archive_aaf_sshsm.Common.{
  ℕ, ◌-◌, ◌≡◌, refl, sym, subst, ◌≢◌, inl, inr, Bool, true, false, Option, none, some, arith, ◌==◌,
  Bool-cases, Option-cases,
}
use archive_aaf_sshsm.Common.Map.{Map, lookup}
use archive_aaf_sshsm.Cryptoki.{CkRv, ok}
use archive_aaf_sshsm.Session.{Session, new_session, is_rw, TokenView, TokenViewLaws, set_handle}
use archive_aaf_sshsm.SessionMgr.{
  SessionManager, get_session, open_session, close_session, close_all_sessions, have_ro_session,
  log_out_slot, other_on_slot,
}
use archive_aaf_sshsm.SessionMgr.Table.{any_ro_session_none, closed_on}
use archive_aaf_sshsm.SessionMgr.Open.{
  get_session_lem, MayOpen, open_session_granted, open_session_lem,
}
use archive_aaf_sshsm.SessionMgr.Close.{
  lookup-log_out_slot, closes, close_session_lem, close_session_unknown, close_all_sessions_lem,
}
use archive_aaf_sshsm.Api.{is_ok}

-- Every session that a handle finds on the slot is read-write.
abbrev pub AllRw : ℕ → SessionManager → Type 0
AllRw slot_id m =
    (k : ℕ) (x : Session) → get_session k m ≡ some x → x.slot_id ≡ slot_id → is_rw x ≡ true

pub have_ro_session_none :
    (slot_id : ℕ) (m : SessionManager) → have_ro_session slot_id m ≡ false → AllRw slot_id m
unfolding have_ro_session
have_ro_session_none slot_id m e k x found on = elim (Bool-cases (is_rw x)) [
  | inl writable ↦ writable
  | inr ro ↦ absurd (
      any_ro_session_none slot_id m.sessions e
        (k - 1, x, ground (arith, get_session_lem k m), on, ro))
]

is_ok-true : (rv : CkRv) → is_ok rv ≡ true → rv ≡ ok
is_ok-true ok e = refl
is_ok-true _ e = absurd (ground arith)

module _ {K : Type 0} (v : TokenView K) where
  -- A slot whose SO is logged in has read-write sessions only.
  abbrev pub Safe : Map K → SessionManager → Type 0
  Safe tokens m =
      (slot_id : ℕ) (t : K)
      → lookup slot_id tokens ≡ some t
      → v.is_so_logged_in t ≡ true
      → AllRw slot_id m

  abbrev pub slot_of : ℕ → Map K → Option (ℕ × Option K)
  slot_of slot_id tokens = elim (lookup slot_id tokens) [
    | none ↦ none
    | some token ↦ some (slot_id, some token)
  ]

  opened-Safe :
      (slot_id : ℕ) (token : K) (flags p n a : ℕ) (tokens : Map K) (m : SessionManager)
      → lookup slot_id tokens ≡ some token
      → MayOpen v (some (slot_id, some token)) flags true
      → Safe tokens m
      → Safe tokens (open_session v (some (slot_id, some token)) flags p n a true m).2
  unfolding new_session set_handle
  opened-Safe slot_id token flags p n a tokens m e may safe slot t at so k x found on =
      let (h, e1, e2, e3) = open_session_lem v slot_id token flags p n a m k may in
      elim (Bool-cases (k == h)) [
        | inl same ↦ elim may.2 [
          | inl writable ↦ ground (arith, e3, found)
          | inr idle ↦
              let at_slot : slot ≡ slot_id = ground (arith, e3, found, on) in
              let e' : lookup slot_id tokens ≡ some t =
                subst (λ i. lookup i tokens ≡ some t) at_slot at in
              ground (arith, e, e', so, idle)
        ]
        | inr ne ↦ safe slot t at so k x (ground arith) on
      ]

  no_slot : (flags : ℕ) (there : Bool) → ¬ MayOpen v none flags there
  no_slot flags false may = may
  no_slot flags true may = may

  refused-Safe :
      (slot : Option (ℕ × Option K)) (flags p n a : ℕ) (there : Bool) (tokens : Map K)
      (m : SessionManager)
      → ¬ MayOpen v slot flags there
      → Safe tokens m
      → Safe tokens (open_session v slot flags p n a there m).2
  refused-Safe slot flags p n a there tokens m refused safe =
      let granted = open_session_granted v slot flags p n a there m in
      let same = (granted.1 (λ e. refused (granted.0.0 e))).1 in subst (Safe tokens) (sym same) safe

  some_slot :
      (slot_id : ℕ) (token : K) (flags p n a : ℕ) (there : Bool) (tokens : Map K)
      (m : SessionManager)
      → lookup slot_id tokens ≡ some token
      → Safe tokens m
      → Safe tokens (open_session v (some (slot_id, some token)) flags p n a there m).2
  some_slot slot_id token flags p n a false tokens m e safe =
      refused-Safe (some (slot_id, some token)) flags p n a false tokens m (λ may. may) safe
  some_slot slot_id token flags p n a true tokens m e safe =
      let slot : Option (ℕ × Option K) = some (slot_id, some token) in
      let rv = (open_session v slot flags p n a true m).0 in
      elim (Bool-cases (is_ok rv)) [
        | inl done ↦
            opened-Safe slot_id token flags p n a tokens m e
              ((open_session_granted v slot flags p n a true m).0.0 (is_ok-true rv done)) safe
        | inr refused ↦
            let rv_bad : rv ≢ ok = λ q. ground arith in
            subst (Safe tokens)
              (sym (((open_session_granted v slot flags p n a true m).1 rv_bad).1)) safe
      ]

  pub open-Safe :
      (slot_id flags p n a : ℕ) (there : Bool) (tokens : Map K) (m : SessionManager)
      → Safe tokens m
      → Safe tokens (open_session v (slot_of slot_id tokens) flags p n a there m).2
  open-Safe slot_id flags p n a there tokens m safe = elim (Option-cases (lookup slot_id tokens)) [
    | inl e ↦
        let slot : slot_of slot_id tokens ≡ none = ground arith in
        subst (λ x. Safe tokens (open_session v x flags p n a there m).2) (sym slot)
          (refused-Safe none flags p n a there tokens m (λ may. no_slot flags there may) safe)
    | inr (token, e) ↦
        let slot : slot_of slot_id tokens ≡ some (slot_id, some token) = ground arith in
        subst (λ x. Safe tokens (open_session v x flags p n a there m).2) (sym slot)
          (some_slot slot_id token flags p n a there tokens m e safe)
  ]

  -- A token whose SO is logged in after a logout is another one, and was as it is.
  logged_out_before :
      (slot_id slot : ℕ) (t : K) (tokens : Map K)
      → TokenViewLaws v
      → lookup slot (log_out_slot v slot_id tokens) ≡ some t
      → v.is_so_logged_in t ≡ true
      → lookup slot tokens ≡ some t
  logged_out_before slot_id slot t tokens laws now so =
      let lem = lookup-log_out_slot v slot_id slot tokens in
      elim (Bool-cases (slot_id == slot)) [
        | inl same ↦ elim (Option-cases (lookup slot tokens)) [
          | inl gone ↦ absurd (ground arith)
          | inr (t', there) ↦ absurd (ground (arith, laws.logout_so t'))
        ]
        | inr ne ↦ ground arith
      ]

  closed_on-some :
      (slot_id : ℕ) (o : Option Session) (x : Session) → closed_on slot_id o ≡ some x → o ≡ some x
  closed_on-some slot_id none x e = e
  closed_on-some slot_id (some y) x e = ground arith

  pub close-Safe :
      (h : ℕ) (tokens : Map K) (m : SessionManager)
      → TokenViewLaws v
      → Safe tokens m
      → Safe (close_session v h tokens m).1 (close_session v h tokens m).2
  close-Safe h tokens m laws safe = elim (Option-cases (get_session h m)) [
    | inl e ↦ rw (close_session_unknown v h tokens m e) safe
    | inr (s, e) ↦ λ slot t at so k x found on.
        let lem = close_session_lem v h s tokens m e k slot in
        let before : get_session k m ≡ some x = ground arith in
        elim (Bool-cases (other_on_slot s.slot_id (h - 1) 0 m.sessions)) [
          | inl other_there ↦ safe slot t (ground (arith, closes v h s tokens m e)) so k x before on
          | inr lone ↦
              let now : lookup slot (log_out_slot v s.slot_id tokens) ≡ some t =
                ground (arith, closes v h s tokens m e) in
              safe slot t (logged_out_before s.slot_id slot t tokens laws now so) so k x before on
        ]
  ]

  pub close_all-Safe :
      (slot_id : ℕ) (token : K) (tokens : Map K) (m : SessionManager)
      → TokenViewLaws v
      → lookup slot_id tokens ≡ some token
      → Safe tokens m
      → Safe
          (close_all_sessions v (some slot_id) tokens m).1
          (close_all_sessions v (some slot_id) tokens m).2
  close_all-Safe slot_id token tokens m laws e safe slot t at so k x found on =
      let lem = close_all_sessions_lem v slot_id token tokens m k slot e in
      elim (Bool-cases (slot_id == slot)) [
        | inl same ↦ absurd (ground (arith, lem, at, so, laws.logout_so token))
        | inr ne ↦
            let before : get_session k m ≡ some x =
              closed_on-some slot_id (get_session k m) x (ground (arith, lem)) in
            safe slot t (ground (arith, lem, at)) so k x before on
      ]
