-- ===== src/Api/Logout.antt =====
-- SoftHSM.cpp, C_Logout: what a logout leaves in all the managers.
use archive_aaf_sshsm.Common.{
  ℕ, ◌≡◌, ◌∙◌, refl, true, false, some, arith, ◌==◌, if◌then◌else◌, ==_refl,
}
use archive_aaf_sshsm.Common.Map.{lookup, insert, lookup-insert}
use archive_aaf_sshsm.Cryptoki.{ok}
use archive_aaf_sshsm.HandleMgr
use archive_aaf_sshsm.SessionObjects
use archive_aaf_sshsm.HandleMgr.Sweep.{kept}
use archive_aaf_sshsm.HandleMgr.Invariant.{Inv}
use archive_aaf_sshsm.HandleMgr.Logout.{
  private_handle_on, kept-private_handle_on, lookup-token_logged_out,
}
use archive_aaf_sshsm.Session.{Session}
use archive_aaf_sshsm.SessionObjects.Removal.{private_on, Swept, token_logged_out_lem}
use archive_aaf_sshsm.Api.{TokenOps, TokenOpsLaws, SoftHsm, find_session, c_logout}

module _ {K A : Type 0} (ops : TokenOps K) (laws : TokenOpsLaws ops) where
  logs_out :
      (h : ℕ) (s : SoftHsm K A) (found : Session) (token : K)
      → s.is_initialised ≡ true
      → find_session h s ≡ some found
      → lookup found.slot_id s.tokens ≡ some token
      → c_logout ops h s ≡ (
        ok,
        record s {
          tokens = insert found.slot_id (ops.view.logout token) s.tokens;
          handles = HandleMgr.token_logged_out found.slot_id s.handles;
          objects = SessionObjects.token_logged_out found.slot_id s.objects;
        },
      )
  unfolding c_logout
  logs_out h s found token ready at there = ground arith

  -- C_Logout in a session that a handle finds answers CKR_OK. Afterwards the slot's token has nobody
  -- logged in and the other tokens are as they were; handles of the slot's private objects find nothing and
  -- the other handles what they found; the slot's listed private session objects are invalid and listed no
  -- more, and the other objects are as they were.
  pub c_logout_lem :
      (h : ℕ) (s : SoftHsm K A) (found : Session) (token : K) (j k a : ℕ)
      → s.is_initialised ≡ true
      → find_session h s ≡ some found
      → lookup found.slot_id s.tokens ≡ some token
      → Inv s.handles
      → let (rv, s') = c_logout ops h s in
        (rv ≡ ok)
        × ((t : K) × (lookup found.slot_id s'.tokens ≡ some t)
            × (ops.view.is_so_logged_in t ≡ false)
            × (ops.view.is_user_logged_in t ≡ false))
        × (lookup j s'.tokens
            ≡ (if found.slot_id == j then some (ops.view.logout token) else lookup j s.tokens))
        × (lookup k s'.handles.handles
            ≡ kept (private_handle_on found.slot_id) (lookup k s.handles.handles))
        × Swept (private_on found.slot_id) s.objects s'.objects a
  c_logout_lem h s found token j k a ready at there inv =
      rw (logs_out h s found token ready at there) (
        refl,
        (
          ops.view.logout token,
          ground (
            arith,
            lookup-insert found.slot_id found.slot_id (ops.view.logout token) s.tokens,
            ==_refl found.slot_id,
          ),
          laws.view_laws.logout_so token,
          laws.view_laws.logout_user token,
        ),
        lookup-insert found.slot_id j (ops.view.logout token) s.tokens,
        lookup-token_logged_out found.slot_id s.handles k inv
            ∙ kept-private_handle_on found.slot_id (lookup k s.handles.handles),
        token_logged_out_lem found.slot_id a s.objects,
      )
