-- ===== src/Tests/Handlers.antt =====
-- The theorems on the handlers, with one slot, its SO logged in, and one read-write session.
use archive_aaf_sshsm.Common.{ℕ, ◌≡◌, refl, true, false, some, [], ◌∷◌, arith, ◌==◌, if◌then◌else◌}
use archive_aaf_sshsm.Common.Map.{lookup}
use archive_aaf_sshsm.Cryptoki.{ok}
use archive_aaf_sshsm.HandleMgr
use archive_aaf_sshsm.HandleMgr.{session, object}
use archive_aaf_sshsm.HandleMgr.Sweep.{kept}
use archive_aaf_sshsm.HandleMgr.Invariant.{Inv}
use archive_aaf_sshsm.Session.{Session, new_session, set_handle}
use archive_aaf_sshsm.SessionMgr.{get_session}
use archive_aaf_sshsm.SessionObjects.{new_session_object}
use archive_aaf_sshsm.SessionObjects.Removal.{private_on, Swept}
use archive_aaf_sshsm.Token.{Token, is_so_logged_in, is_user_logged_in, logout}
use archive_aaf_sshsm.Api.{SoftHsm, c_open_session, c_logout}
use archive_aaf_sshsm.Api.Tokens.{token_ops, token_ops-laws}
use archive_aaf_sshsm.Api.ReadOnly.{IsSafe, Reaches, start, opens_session, logs_out, Reaches-IsSafe}
use archive_aaf_sshsm.Api.Logout.{c_logout_lem}
use archive_aaf_sshsm.HandleMgr.Logout.{private_handle_on}
use archive_aaf_sshsm.Tests.Fixtures.{Disk, toy, disk, logged_in}

abbrev writer : Session
writer = set_handle 1 (new_session 100 7 true 0 0)

abbrev hsm : SoftHsm (Token Disk) ℕ
hsm = record {
  is_initialised = true;
  tokens = (7, logged_in) ∷ [];
  sessions = record { sessions = some writer ∷ [] };
  handles = record {
    handles =
        (1, record { kind = session; slot_id = 7; h_session = 0; ptr = 100; is_private = false })
        ∷ (2, record { kind = object; slot_id = 7; h_session = 1; ptr = 300; is_private = true })
        ∷ [];
    objects = (300, 2) ∷ [];
    handle_counter = 2;
  };
  objects = record { objects = 300 ∷ []; all_objects = (300, new_session_object 7 1 true) ∷ [] };
}

handles-Inv : Inv hsm.handles
handles-Inv = record {
  unique = (refl, (refl, tt));
  fresh = λ k h. ground arith;
  zero_free = refl;
  linked = λ o k e. ground arith;
}

hsm-IsSafe : IsSafe (token_ops toy disk) (token_ops-laws toy disk) hsm
unfolding get_session set_handle new_session
hsm-IsSafe slot_id t at so k x found on = ground arith

abbrev refused : SoftHsm (Token Disk) ℕ
refused = (c_open_session (token_ops toy disk) 7 4 0 0 200 true hsm).2

abbrev left : SoftHsm (Token Disk) ℕ
left = (c_logout (token_ops toy disk) 1 refused).1

steps : Reaches (token_ops toy disk) (token_ops-laws toy disk) hsm left
steps = logs_out refused 1 (opens_session hsm 7 4 0 0 200 true start)

Reaches-IsSafe_example : IsSafe (token_ops toy disk) (token_ops-laws toy disk) left
Reaches-IsSafe_example =
    Reaches-IsSafe (token_ops toy disk) (token_ops-laws toy disk) hsm left steps hsm-IsSafe

c_logout_lem_example :
    let (rv, s') = c_logout (token_ops toy disk) 1 hsm in
    (rv ≡ ok)
    × ((t : Token Disk) × (lookup 7 s'.tokens ≡ some t)
        × (is_so_logged_in t ≡ false)
        × (is_user_logged_in t ≡ false))
    × (lookup 8 s'.tokens ≡ (if 7 == 8 then some (logout logged_in) else lookup 8 hsm.tokens))
    × (lookup 2 s'.handles.handles ≡ kept (private_handle_on 7) (lookup 2 hsm.handles.handles))
    × Swept (private_on 7) hsm.objects s'.objects 300
unfolding HandleMgr.get_session set_handle new_session
c_logout_lem_example =
    c_logout_lem (token_ops toy disk) (token_ops-laws toy disk) 1 hsm writer logged_in 8 2 300 refl
      refl refl handles-Inv
