-- ===== src/Tests/Sessions.antt =====
-- The theorems on sessions and their table, with a table of two sessions on a slot.
use archive_aaf_sshsm.Common.{
  ℕ, ◌≡◌, refl, ◌≢◌, ◌↔◌, inl, true, false, none, some, [], ◌∷◌, arith, ◌==◌, if◌then◌else◌,
}
use archive_aaf_sshsm.Common.Map.{Map, lookup}
use archive_aaf_sshsm.Cryptoki.{ok}
use archive_aaf_sshsm.Session.{op_none, op_other, Session, new_session, set_handle, reset_op}
use mathlib.Core.Option
use archive_aaf_sshsm.Session.Reset.{owned, reset_op_frees_all}
use archive_aaf_sshsm.SessionMgr.{
  SessionManager, has_flag, rw_session, get_session, open_session, close_session,
  close_all_sessions, have_session,
}
use archive_aaf_sshsm.SessionMgr.Table.{closed_on}
use archive_aaf_sshsm.SessionMgr.Open.{MayOpen, open_session_granted, open_session_lem}
use archive_aaf_sshsm.SessionMgr.Close.{OtherOpen, close_session_lem, close_all_sessions_lem}
use archive_aaf_sshsm.Token.{Token, is_initialized}
use archive_aaf_sshsm.Token.View.{token_view}
use archive_aaf_sshsm.Tests.Fixtures.{Disk, logged_in}

abbrev busy : Session
busy = record (set_handle 1 (new_session 100 7 true 0 0)) {
  operation = op_other 2;
  symmetric_crypto_op = 11;
  symmetric_key = 12;
}

abbrev idle : Session
idle = set_handle 3 (new_session 200 7 false 0 0)

-- The second session was closed.
abbrev table : SessionManager
table = record { sessions = some busy ∷ none ∷ some idle ∷ [] }

abbrev tokens : Map (Token Disk)
tokens = (7, logged_in) ∷ []

open_session_granted_example :
    ((open_session token_view (some (7, some logged_in)) 6 0 0 300 true table).0 ≡ ok
      ↔ MayOpen token_view (some (7, some logged_in)) 6 true)
    × ((open_session token_view (some (7, some logged_in)) 6 0 0 300 true table).0 ≢ ok
        → ((open_session token_view (some (7, some logged_in)) 6 0 0 300 true table).1 ≡ none)
          × ((open_session token_view (some (7, some logged_in)) 6 0 0 300 true table).2 ≡ table))
open_session_granted_example =
    open_session_granted token_view (some (7, some logged_in)) 6 0 0 300 true table

open_session_lem_example :
    (h : ℕ) × (open_session token_view (some (7, some logged_in)) 6 0 0 300 true table).1 ≡ some h
    × get_session h table ≡ none
    × get_session 3 (open_session token_view (some (7, some logged_in)) 6 0 0 300 true table).2 ≡ (
        if 3 == h
        then some (set_handle h (new_session 300 7 (has_flag 6 rw_session) 0 0))
        else get_session 3 table)
unfolding has_flag is_initialized
open_session_lem_example =
    open_session_lem token_view 7 logged_in 6 0 0 300 table 3 (refl, refl, inl refl)

close_session_lem_example :
    ((close_session token_view 1 tokens table).0 ≡ ok)
    × (get_session 3 (close_session token_view 1 tokens table).2
        ≡ (if 3 == 1 then none else get_session 3 table))
    × (OtherOpen 7 1 table → (close_session token_view 1 tokens table).1 ≡ tokens)
    × (¬ OtherOpen 7 1 table
        → lookup 7 (close_session token_view 1 tokens table).1
          ≡ (if 7 == 7 then Option.map token_view.logout (lookup 7 tokens) else lookup 7 tokens))
unfolding get_session set_handle new_session
close_session_lem_example = close_session_lem token_view 1 busy tokens table refl 3 7

close_all_sessions_lem_example :
    ((close_all_sessions token_view (some 7) tokens table).0 ≡ ok)
    × (get_session 3 (close_all_sessions token_view (some 7) tokens table).2
        ≡ closed_on 7 (get_session 3 table))
    × (have_session 7 (close_all_sessions token_view (some 7) tokens table).2 ≡ false)
    × (lookup 7 (close_all_sessions token_view (some 7) tokens table).1
        ≡ (if 7 == 7 then some (token_view.logout logged_in) else lookup 7 tokens))
close_all_sessions_lem_example = close_all_sessions_lem token_view 7 logged_in tokens table 3 7 refl

reset_op_frees_all_example :
    let (s', freed) = reset_op busy in
    (freed ≡ owned busy)
    × (owned s' ≡ [])
    × (s'.find_op ≡ none)
    × (s'.param ≡ none)
    × (s'.operation ≡ op_none)
    × (s'.re_authentication ≡ false)
unfolding set_handle new_session
reset_op_frees_all_example = reset_op_frees_all busy (record {
  one_op = omega arith;
  asymmetric_keys = λ e. (refl, refl);
  symmetric_keys = λ e. ground arith;
})
