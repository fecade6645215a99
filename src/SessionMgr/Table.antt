-- ===== src/SessionMgr/Table.antt =====
-- The table of sessions as a partial function of the index: placing, closing, scanning.
use archive_aaf_sshsm.Common.{
  ℕ, zero, suc, ◌+◌, ◌≤◌, ◌≡◌, refl, ◌≢◌, inl, inr, true, false, Option, none, some, List, [], ◌∷◌,
  arith, ◌==◌, if◌then◌else◌, Bool-cases, length, set,
}
use archive_aaf_sshsm.Session.{Session, is_rw, set_handle}
use archive_aaf_sshsm.SessionMgr.{
  place, other_on_slot, close_slot, any_session, any_ro_session, session_at,
}

abbrev pub closed_on : ℕ → Option Session → Option Session
closed_on slot_id none = none
closed_on slot_id (some s) = if s.slot_id == slot_id then none else some s

pub session_at-close_slot :
    (slot_id k : ℕ) (xs : List (Option Session))
    → session_at k (close_slot slot_id xs) ≡ closed_on slot_id (session_at k xs)
unfolding close_slot
session_at-close_slot slot_id k [] = ground arith
session_at-close_slot slot_id zero (none ∷ xs) = refl
session_at-close_slot slot_id (suc k) (none ∷ xs) = session_at-close_slot slot_id k xs
session_at-close_slot slot_id zero (some x ∷ xs) = ground arith
session_at-close_slot slot_id (suc k) (some x ∷ xs) =
    ground (arith, session_at-close_slot slot_id k xs)

pub session_at-set :
    (k i : ℕ) (xs : List (Option Session))
    → session_at k (set xs i none) ≡ (if k == i then none else session_at k xs)
session_at-set k i [] = ground arith
session_at-set zero zero (x ∷ xs) = ground arith
session_at-set (suc k) zero (x ∷ xs) = ground arith
session_at-set zero (suc i) (x ∷ xs) = ground arith
session_at-set (suc k) (suc i) (x ∷ xs) = ground (arith, session_at-set k i xs)

pub session_at-length :
    (k : ℕ) (xs : List (Option Session)) → length xs ≤ k → session_at k xs ≡ none
session_at-length k [] h = ground arith
session_at-length zero (x ∷ xs) h = absurd (omega arith)
session_at-length (suc k) (x ∷ xs) h = session_at-length k xs (omega arith)

-- The index of the spot where a session is placed.
abbrev pub free_spot : List (Option Session) → ℕ
free_spot [] = 0
free_spot (none ∷ xs) = 0
free_spot (some x ∷ xs) = suc (free_spot xs)

pub session_at-free_spot : (xs : List (Option Session)) → session_at (free_spot xs) xs ≡ none
session_at-free_spot [] = refl
session_at-free_spot (none ∷ xs) = refl
session_at-free_spot (some x ∷ xs) = session_at-free_spot xs

pub place_handle :
    (s : Session) (i : ℕ) (xs : List (Option Session)) → (place s i xs).0 ≡ free_spot xs + i + 1
unfolding place
place_handle s i [] = omega arith
place_handle s i (none ∷ xs) = omega arith
place_handle s i (some x ∷ xs) = omega (arith, place_handle s (i + 1) xs)

pub session_at-place :
    (s : Session) (i k : ℕ) (xs : List (Option Session))
    → session_at k (place s i xs).1
      ≡ (if k == free_spot xs then some (set_handle (free_spot xs + i + 1) s) else session_at k xs)
unfolding place
session_at-place s i zero [] = ground arith
session_at-place s i (suc k) [] = ground arith
session_at-place s i zero (none ∷ xs) = ground arith
session_at-place s i (suc k) (none ∷ xs) = ground arith
session_at-place s i zero (some x ∷ xs) = ground arith
session_at-place s i (suc k) (some x ∷ xs) =
    let next : suc (free_spot xs) + i + 1 ≡ free_spot xs + (i + 1) + 1 = omega arith in
    rw next (ground (arith, session_at-place s (i + 1) k xs))

-- Some session of the slot stands at an index.
abbrev pub OpenOn : ℕ → List (Option Session) → Type 0
OpenOn slot_id xs = (k : ℕ) × (s : Session) × (session_at k xs ≡ some s) × (s.slot_id ≡ slot_id)

-- A read-only one does.
abbrev pub OpenRo : ℕ → List (Option Session) → Type 0
OpenRo slot_id xs =
    (k : ℕ) × (s : Session) × (session_at k xs ≡ some s) × (s.slot_id ≡ slot_id) × (is_rw s ≡ false)

-- One does at an index other than `id`.
abbrev pub OtherOn : ℕ → ℕ → List (Option Session) → Type 0
OtherOn slot_id id xs =
    (k : ℕ) × (s : Session) × (session_at k xs ≡ some s) × (s.slot_id ≡ slot_id) × (k ≢ id)

pub any_session_found :
    (slot_id : ℕ) (xs : List (Option Session)) → any_session slot_id xs ≡ true → OpenOn slot_id xs
unfolding any_session
any_session_found slot_id [] e = absurd (ground arith)
any_session_found slot_id (none ∷ xs) e =
    let r = any_session_found slot_id xs e in (suc r.0, r.1, r.2, r.3)
any_session_found slot_id (some x ∷ xs) e = elim (Bool-cases (x.slot_id == slot_id)) [
  | inl same ↦ (0, x, refl, ground arith)
  | inr ne ↦ let r = any_session_found slot_id xs (ground arith) in (suc r.0, r.1, r.2, r.3)
]

pub any_session_none :
    (slot_id : ℕ) (xs : List (Option Session)) (k : ℕ) (s : Session)
    → any_session slot_id xs ≡ false
    → session_at k xs ≡ some s
    → s.slot_id ≢ slot_id
unfolding any_session
any_session_none slot_id [] k s e at = absurd (ground arith)
any_session_none slot_id (none ∷ xs) zero s e at = absurd (ground arith)
any_session_none slot_id (none ∷ xs) (suc k) s e at = any_session_none slot_id xs k s e at
any_session_none slot_id (some x ∷ xs) zero s e at = ground arith
any_session_none slot_id (some x ∷ xs) (suc k) s e at =
    any_session_none slot_id xs k s (ground arith) at

pub any_ro_session_none :
    (slot_id : ℕ) (xs : List (Option Session))
    → any_ro_session slot_id xs ≡ false
    → ¬ OpenRo slot_id xs
unfolding any_ro_session
any_ro_session_none slot_id [] e (k, s, at, on, ro) = absurd (ground arith)
any_ro_session_none slot_id (none ∷ xs) e (zero, s, at, on, ro) = absurd (ground arith)
any_ro_session_none slot_id (none ∷ xs) e (suc k, s, at, on, ro) =
    any_ro_session_none slot_id xs e (k, s, at, on, ro)
any_ro_session_none slot_id (some x ∷ xs) e (zero, s, at, on, ro) = ground arith
any_ro_session_none slot_id (some x ∷ xs) e (suc k, s, at, on, ro) =
    any_ro_session_none slot_id xs (ground arith) (k, s, at, on, ro)

pub any_ro_session_found :
    (slot_id : ℕ) (xs : List (Option Session))
    → any_ro_session slot_id xs ≡ true
    → OpenRo slot_id xs
unfolding any_ro_session
any_ro_session_found slot_id [] e = absurd (ground arith)
any_ro_session_found slot_id (none ∷ xs) e =
    let r = any_ro_session_found slot_id xs e in (suc r.0, r.1, r.2, r.3, r.4)
any_ro_session_found slot_id (some x ∷ xs) e = elim (Bool-cases (any_ro_session slot_id xs)) [
  | inl later ↦ let r = any_ro_session_found slot_id xs later in (suc r.0, r.1, r.2, r.3, r.4)
  | inr none_later ↦ (0, x, refl, ground arith, ground arith)
]

pub other_on_slot_found :
    (slot_id id i : ℕ) (xs : List (Option Session))
    → other_on_slot slot_id id i xs ≡ true
    → (k : ℕ) × (s : Session) × (session_at k xs ≡ some s) × (s.slot_id ≡ slot_id) × (k + i ≢ id)
unfolding other_on_slot
other_on_slot_found slot_id id i [] e = absurd (ground arith)
other_on_slot_found slot_id id i (none ∷ xs) e =
    let (k, s, at, on, ne) = other_on_slot_found slot_id id (i + 1) xs e in
    (suc k, s, at, on, omega arith)
other_on_slot_found slot_id id i (some x ∷ xs) e =
    elim (Bool-cases (other_on_slot slot_id id (i + 1) xs)) [
      | inl later ↦
          let (k, s, at, on, ne) = other_on_slot_found slot_id id (i + 1) xs later in
          (suc k, s, at, on, omega arith)
      | inr none_later ↦ (0, x, refl, ground arith, ground arith)
    ]

pub other_on_slot_none :
    (slot_id id i : ℕ) (xs : List (Option Session)) (k : ℕ) (s : Session)
    → other_on_slot slot_id id i xs ≡ false
    → session_at k xs ≡ some s
    → s.slot_id ≡ slot_id
    → k + i ≡ id
unfolding other_on_slot
other_on_slot_none slot_id id i [] k s e at on = absurd (ground arith)
other_on_slot_none slot_id id i (none ∷ xs) zero s e at on = absurd (ground arith)
other_on_slot_none slot_id id i (none ∷ xs) (suc k) s e at on =
    omega (arith, other_on_slot_none slot_id id (i + 1) xs k s e at on)
other_on_slot_none slot_id id i (some x ∷ xs) zero s e at on = ground arith
other_on_slot_none slot_id id i (some x ∷ xs) (suc k) s e at on =
    omega (arith, other_on_slot_none slot_id id (i + 1) xs k s (ground arith) at on)

pub any_session-close_slot :
    (slot_id : ℕ) (xs : List (Option Session)) → any_session slot_id (close_slot slot_id xs) ≡ false
unfolding any_session close_slot
any_session-close_slot slot_id [] = refl
any_session-close_slot slot_id (none ∷ xs) = any_session-close_slot slot_id xs
any_session-close_slot slot_id (some x ∷ xs) = ground (arith, any_session-close_slot slot_id xs)
