-- ===== src/Access/Table.antt =====
-- The access rules of access.cpp against an independent reading: a user is logged in, a session is
-- writable.
use archive_aaf_sshsm.Common.{◌≡◌, ◌↔◌, ◌⊎◌, Bool, false, arith}
use archive_aaf_sshsm.Cryptoki.{
  ok, CkState, ro_public_session, ro_user_functions, rw_public_session, rw_user_functions,
  rw_so_functions,
}
use archive_aaf_sshsm.Access.{have_read, have_write}

abbrev pub IsUserState : CkState → Type 0
IsUserState s = (s ≡ ro_user_functions) ⊎ (s ≡ rw_user_functions)

abbrev pub IsWritable : CkState → Type 0
IsWritable s = (s ≡ rw_public_session) ⊎ ((s ≡ rw_user_functions) ⊎ (s ≡ rw_so_functions))

-- The five states of PKCS#11.
abbrev pub IsKnown : CkState → Type 0
IsKnown s =
    IsUserState s ⊎ ((s ≡ ro_public_session) ⊎ ((s ≡ rw_public_session) ⊎ (s ≡ rw_so_functions)))

-- Write access is granted exactly when, in one of the five states, the object is a session object or the
-- session is writable, and the object is public or a user is logged in; and it implies read access.
pub have_write_granted :
    (s : CkState) (tok priv : Bool)
    → ((have_write s tok priv ≡ ok)
        ↔ (IsKnown s × ((tok ≡ false) ⊎ IsWritable s) × ((priv ≡ false) ⊎ IsUserState s)))
      × (have_write s tok priv ≡ ok → have_read s tok priv ≡ ok)
unfolding have_write have_read
have_write_granted ro_public_session tok priv =
    ((λ h. ground arith, λ h. ground arith), λ h. ground arith)
have_write_granted _ tok priv = ((λ h. ground arith, λ h. ground arith), λ h. ground arith)
