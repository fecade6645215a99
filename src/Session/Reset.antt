-- ===== src/Session/Reset.antt =====
-- What resetOp, and so the destructor, frees.
use archive_aaf_sshsm.Common.{
  ℕ, ◌+◌, ◌≤◌, ◌≡◌, false, none, some, List, [], ◌∷◌, arith, ◌==◌, if◌then◌else◌,
}
use archive_aaf_sshsm.Session.{op_none, Session, nonzero, reset_op}

abbrev one_if : ℕ → ℕ
one_if p = if p == 0 then 0 else 1

-- A session runs one operation at a time, and its keys belong to that operation.
pub record IsSingle (s : Session) : Type 0 where
  pub one_op :
      one_if s.digest_op
        + (elim s.find_op [ none ↦ 0 | some l ↦ 1 ])
        + one_if s.asymmetric_crypto_op
        + one_if s.symmetric_crypto_op
        + one_if s.mac_op
      ≤ 1
  pub asymmetric_keys : s.asymmetric_crypto_op ≡ 0 → (s.public_key ≡ 0) × (s.private_key ≡ 0)
  pub symmetric_keys : s.symmetric_crypto_op ≡ 0 → s.mac_op ≡ 0 → s.symmetric_key ≡ 0

-- The algorithms and keys that a session points to.
abbrev pub owned : Session → List ℕ
owned s = nonzero (
    s.digest_op ∷ s.public_key ∷ s.private_key ∷ s.asymmetric_crypto_op ∷ s.symmetric_key
    ∷ s.symmetric_crypto_op ∷ s.mac_op ∷ [])

-- Resetting a session that runs at most one operation frees every algorithm and key that the session
-- points to, once, and leaves it with no operation, no find, no parameter and no re-authentication
-- pending.
pub reset_op_frees_all :
    (s : Session)
    → IsSingle s
    → let (s', freed) = reset_op s in
      (freed ≡ owned s)
      × (owned s' ≡ [])
      × (s'.find_op ≡ none)
      × (s'.param ≡ none)
      × (s'.operation ≡ op_none)
      × (s'.re_authentication ≡ false)
unfolding reset_op
reset_op_frees_all s v =
    (ground arith, ground arith, ground arith, ground arith, ground arith, ground arith)
