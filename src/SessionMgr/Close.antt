-- ===== src/SessionMgr/Close.antt =====
-- SessionManager.cpp: what closing sessions changes in the table and in the tokens.
use archive_aaf_sshsm.Common.{
  ℕ, ◌+◌, ◌-◌, ◌≡◌, refl, subst, ◌≢◌, inl, inr, true, false, none, some, arith, ltb, ◌==◌,
  if◌then◌else◌, Bool-cases, Option-cases, length, set,
}
use archive_aaf_sshsm.Common.Map.{Map, lookup, insert, lookup-insert}
use archive_aaf_sshsm.Cryptoki.{ok, session_handle_invalid}
use archive_aaf_sshsm.Session.{Session, TokenView}
use mathlib.Core.Option
use archive_aaf_sshsm.SessionMgr.{
  SessionManager, session_at, get_session, close_session, close_all_sessions, log_out_slot,
  close_slot, other_on_slot, have_session,
}
use archive_aaf_sshsm.SessionMgr.Table.{
  closed_on, session_at-close_slot, session_at-set, any_session-close_slot, other_on_slot_found,
  other_on_slot_none,
}
use archive_aaf_sshsm.SessionMgr.Open.{get_session_lem}

-- Another handle than `h` finds a session on the slot.
abbrev pub OtherOpen : ℕ → ℕ → SessionManager → Type 0
OtherOpen slot_id h m =
    (k : ℕ) × (s : Session) × (get_session k m ≡ some s) × (s.slot_id ≡ slot_id) × (k ≢ h)

module _ {K : Type 0} (v : TokenView K) where
  pub lookup-log_out_slot :
      (slot_id j : ℕ) (tokens : Map K)
      → lookup j (log_out_slot v slot_id tokens)
        ≡ (if slot_id == j then Option.map v.logout (lookup j tokens) else lookup j tokens)
  unfolding log_out_slot
  lookup-log_out_slot slot_id j tokens = elim (Option-cases (lookup slot_id tokens)) [
    | inl e ↦ elim (Bool-cases (slot_id == j)) [
      | inl same ↦
          let at : slot_id ≡ j = ground arith in
          let gone : lookup j tokens ≡ none = subst (λ x. lookup x tokens ≡ none) at e in
          ground arith
      | inr ne ↦ ground arith
    ]
    | inr (token, e) ↦ ground (arith, e, lookup-insert slot_id j (v.logout token) tokens)
  ]

  module _ (h : ℕ) (s : Session) (tokens : Map K) (m : SessionManager)
      (found : get_session h m ≡ some s) where
    in_table :
        (h ≢ 0) × session_at (h - 1) m.sessions ≡ some s × (ltb (length m.sessions) h ≡ false)
    unfolding get_session
    in_table = ground arith

    pub closes : close_session v h tokens m ≡ (
      ok,
      if other_on_slot s.slot_id (h - 1) 0 m.sessions
          then tokens
          else log_out_slot v s.slot_id tokens,
      record { sessions = set m.sessions (h - 1) none },
    )
    unfolding close_session
    closes = ground (arith, in_table)

    other_open : other_on_slot s.slot_id (h - 1) 0 m.sessions ≡ true → OtherOpen s.slot_id h m
    other_open e =
        let (k, x, at, on, ne) = other_on_slot_found s.slot_id (h - 1) 0 m.sessions e in
        (k + 1, x, ground (arith, get_session_lem (k + 1) m), on, omega arith)

    none_open : other_on_slot s.slot_id (h - 1) 0 m.sessions ≡ false → ¬ OtherOpen s.slot_id h m
    none_open e (k, x, at, on, ne) =
        let here : session_at (k - 1) m.sessions ≡ some x = ground (arith, get_session_lem k m) in
        let nz : k ≢ 0 = ground (arith, get_session_lem k m) in
        let same = other_on_slot_none s.slot_id (h - 1) 0 m.sessions (k - 1) x e here on in
        omega (arith, in_table)

    -- Closing a session that a handle finds answers CKR_OK; afterwards that handle finds nothing and every
    -- other what it found. Its token is logged out when no other handle finds a session on the slot, and
    -- is left as it is when one does; the tokens of other slots stay as they are.
    pub close_session_lem :
        (k j : ℕ)
        → ((close_session v h tokens m).0 ≡ ok)
          × (get_session k (close_session v h tokens m).2
              ≡ (if k == h then none else get_session k m))
          × (OtherOpen s.slot_id h m → (close_session v h tokens m).1 ≡ tokens)
          × (¬ OtherOpen s.slot_id h m
              → lookup j (close_session v h tokens m).1 ≡ (
                  if s.slot_id == j
                  then Option.map v.logout (lookup j tokens)
                  else lookup j tokens))
    close_session_lem k j = rw closes (
      refl,
      ground (
        arith,
        get_session_lem k (record { sessions = set m.sessions (h - 1) none }),
        get_session_lem k m,
        session_at-set (k - 1) (h - 1) m.sessions,
        in_table,
      ),
      λ other. ground (arith, none_open),
      λ lone. ground (arith, other_open, lookup-log_out_slot s.slot_id j tokens),
    )

  -- A handle that finds no session cannot be closed, and trying changes nothing.
  pub close_session_unknown :
      (h : ℕ) (tokens : Map K) (m : SessionManager)
      → get_session h m ≡ none
      → close_session v h tokens m ≡ (session_handle_invalid, tokens, m)
  unfolding close_session get_session
  close_session_unknown h tokens m e = ground arith

  pub closes_all :
      (slot_id : ℕ) (token : K) (tokens : Map K) (m : SessionManager)
      → lookup slot_id tokens ≡ some token
      → close_all_sessions v (some slot_id) tokens m ≡ (
        ok,
        insert slot_id (v.logout token) tokens,
        record { sessions = close_slot slot_id m.sessions },
      )
  unfolding close_all_sessions
  closes_all slot_id token tokens m found = ground arith

  -- Closing all sessions of a slot that has a token answers CKR_OK; afterwards a handle finds what it
  -- found unless that was on the slot, when it finds nothing; no session is open on the slot; that token
  -- is logged out and the others stay as they are.
  pub close_all_sessions_lem :
      (slot_id : ℕ) (token : K) (tokens : Map K) (m : SessionManager) (k j : ℕ)
      → lookup slot_id tokens ≡ some token
      → ((close_all_sessions v (some slot_id) tokens m).0 ≡ ok)
        × (get_session k (close_all_sessions v (some slot_id) tokens m).2
            ≡ closed_on slot_id (get_session k m))
        × (have_session slot_id (close_all_sessions v (some slot_id) tokens m).2 ≡ false)
        × (lookup j (close_all_sessions v (some slot_id) tokens m).1
            ≡ (if slot_id == j then some (v.logout token) else lookup j tokens))
  unfolding have_session
  close_all_sessions_lem slot_id token tokens m k j found =
      rw (closes_all slot_id token tokens m found) (
        refl,
        ground (
          arith,
          get_session_lem k (record { sessions = close_slot slot_id m.sessions }),
          get_session_lem k m,
          session_at-close_slot slot_id (k - 1) m.sessions,
        ),
        any_session-close_slot slot_id m.sessions,
        lookup-insert slot_id j (v.logout token) tokens,
      )
