-- ===== src/SessionMgr/Open.antt =====
-- SessionManager.cpp: what opening a session changes, and what it answers.
use archive_aaf_sshsm.Common.{
  ℕ, ◌+◌, ◌-◌, ◌≡◌, refl, ◌≢◌, ◌↔◌, ◌⊎◌, inl, inr, Bool, true, false, Option, none, some, arith,
  ltb, ◌==◌, if◌then◌else◌, Bool-cases, length,
}
use archive_aaf_sshsm.Cryptoki.{ok}
use archive_aaf_sshsm.Session.{Session, new_session, TokenView, set_handle}
use archive_aaf_sshsm.SessionMgr.{
  SessionManager, has_flag, serial_session, rw_session, place, session_at, get_session,
  open_session,
}
use archive_aaf_sshsm.SessionMgr.Table.{
  free_spot, place_handle, session_at-place, session_at-free_spot, session_at-length,
}

-- A handle is one more than an index; past the end of the table nothing stands.
pub get_session_lem :
    (h : ℕ) (m : SessionManager)
    → get_session h m ≡ (if h == 0 then none else session_at (h - 1) m.sessions)
unfolding get_session
get_session_lem h m = elim (Bool-cases (ltb (length m.sessions) h)) [
  | inl beyond ↦ ground (arith, session_at-length (h - 1) m.sessions (ground arith))
  | inr within ↦ ground arith
]

get_session-place :
    (s : Session) (k : ℕ) (m : SessionManager)
    → get_session k (record { sessions = (place s 0 m.sessions).1 }) ≡ (
        if k == (place s 0 m.sessions).0
        then some (set_handle (place s 0 m.sessions).0 s)
        else get_session k m)
get_session-place s k m =
    let handle : (place s 0 m.sessions).0 ≡ free_spot m.sessions + 0 + 1 =
      place_handle s 0 m.sessions in
    rw
      (
        handle,
        get_session_lem k (record { sessions = (place s 0 m.sessions).1 }),
        get_session_lem k m,
        session_at-place s 0 (k - 1) m.sessions,
      )
      (elim (Bool-cases (k == 0)) [
        | inl z ↦ ground arith
        | inr nz ↦ elim (Bool-cases (k == free_spot m.sessions + 0 + 1)) [
          | inl e ↦ let at : k - 1 ≡ free_spot m.sessions = ground arith in ground arith
          | inr ne ↦ let at : k - 1 ≢ free_spot m.sessions = ground arith in ground arith
        ]
      ])

module _ {K : Type 0} (v : TokenView K) where
  -- phSession and the slot are not NULL, the session is serial, the slot has an initialised token, and
  -- the session is read-write or no SO is logged in.
  abbrev pub MayOpen : Option (ℕ × Option K) → ℕ → Bool → Type 0
  MayOpen slot flags false = ⊥
  MayOpen none flags true = ⊥
  MayOpen (some (slot_id, none)) flags true = ⊥
  MayOpen (some (slot_id, some token)) flags true =
      (has_flag flags serial_session ≡ true)
      × (v.is_initialized token ≡ true)
      × ((has_flag flags rw_session ≡ true) ⊎ (v.is_so_logged_in token ≡ false))

  -- A session is opened exactly when it may be; when it is not, the table stays as it was and no handle
  -- is written.
  pub open_session_granted :
      (slot : Option (ℕ × Option K)) (flags p n a : ℕ) (there : Bool) (m : SessionManager)
      → ((open_session v slot flags p n a there m).0 ≡ ok ↔ MayOpen slot flags there)
        × ((open_session v slot flags p n a there m).0 ≢ ok
            → ((open_session v slot flags p n a there m).1 ≡ none)
              × ((open_session v slot flags p n a there m).2 ≡ m))
  unfolding open_session
  open_session_granted slot flags p n a false m =
      ((λ e. ground arith, λ may. absurd may), λ e. (refl, refl))
  open_session_granted none flags p n a true m =
      ((λ e. ground arith, λ may. absurd may), λ e. (refl, refl))
  open_session_granted (some (slot_id, none)) flags p n a true m =
      ((λ e. ground arith, λ may. absurd may), λ e. ground arith)
  open_session_granted (some (slot_id, some token)) flags p n a true m =
      ((λ e. ground arith, λ may. ground arith), λ e. ground arith)

  opens :
      (slot_id : ℕ) (token : K) (flags p n a : ℕ) (m : SessionManager)
      → MayOpen (some (slot_id, some token)) flags true
      → open_session v (some (slot_id, some token)) flags p n a true m ≡ (
          let placed = place (new_session a slot_id (has_flag flags rw_session) p n) 0 m.sessions in
          (ok, some placed.0, record { sessions = placed.1 }))
  unfolding open_session
  opens slot_id token flags p n a m may = ground arith

  -- When it may, the new handle was unused and now finds the new session, with the handle written in it,
  -- and every other handle finds what it found.
  pub open_session_lem :
      (slot_id : ℕ) (token : K) (flags p n a : ℕ) (m : SessionManager) (k : ℕ)
      → MayOpen (some (slot_id, some token)) flags true
      → (h : ℕ) × (open_session v (some (slot_id, some token)) flags p n a true m).1 ≡ some h
        × get_session h m ≡ none
        × get_session k (open_session v (some (slot_id, some token)) flags p n a true m).2 ≡ (
            if k == h
            then some (set_handle h (new_session a slot_id (has_flag flags rw_session) p n))
            else get_session k m)
  open_session_lem slot_id token flags p n a m k may =
      let s = new_session a slot_id (has_flag flags rw_session) p n in
      let handle = place_handle s 0 m.sessions in
      rw (opens slot_id token flags p n a m may) (
        (place s 0 m.sessions).0,
        refl,
        ground (
          arith,
          handle,
          get_session_lem (free_spot m.sessions + 0 + 1) m,
          session_at-free_spot m.sessions,
        ),
        get_session-place s k m,
      )
