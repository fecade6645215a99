-- ===== src/Tests/Objects.antt =====
-- The theorems on the session object store, on a store of two objects.
use archive_aaf_sshsm.Common.{ℕ, refl, inl, inr, true, false, [], ◌∷◌, arith, ◌==◌, Bool-cases}
use archive_aaf_sshsm.Common.Map.{lookup}
use archive_aaf_sshsm.SessionObjects.{
  member, SessionObject, SessionObjectStore, new_session_object, create_object, session_closed,
  all_sessions_closed, token_logged_out,
}
use archive_aaf_sshsm.SessionObjects.Removal.{
  made_in, lies_on, private_on, Swept, session_closed_lem, all_sessions_closed_lem,
  token_logged_out_lem,
}
use archive_aaf_sshsm.SessionObjects.Run.{
  Reaches, start, creates, logs_out, closes_session, IsLive, Later, Reaches-IsLive, Reaches-Later,
}

-- The attributes are numbers.
abbrev key : SessionObject ℕ
key = record (new_session_object 7 1 true) { attributes = (3, 5) ∷ [] }

abbrev certificate : SessionObject ℕ
certificate = new_session_object 7 2 false

abbrev store : SessionObjectStore ℕ
store = record { objects = 40 ∷ 50 ∷ []; all_objects = (40, key) ∷ (50, certificate) ∷ [] }

store-IsLive : IsLive store
unfolding member
store-IsLive a listed = elim (Bool-cases (40 == a)) [
  | inl first ↦ (key, ground arith, refl)
  | inr other ↦ (certificate, ground arith, refl)
]

abbrev later : SessionObjectStore ℕ
later = token_logged_out 7 (session_closed 2 (create_object 60 8 3 false store))

steps : Reaches store later
steps =
    logs_out (session_closed 2 (create_object 60 8 3 false store)) 7
      (closes_session (create_object 60 8 3 false store) 2 (creates store 60 8 3 false start refl))

session_closed_lem_example : Swept (made_in 1) store (session_closed 1 store) 40
session_closed_lem_example = session_closed_lem 1 40 store

all_sessions_closed_lem_example : Swept (lies_on 7) store (all_sessions_closed 7 store) 50
all_sessions_closed_lem_example = all_sessions_closed_lem 7 50 store

token_logged_out_lem_example : Swept (private_on 7) store (token_logged_out 7 store) 40
token_logged_out_lem_example = token_logged_out_lem 7 40 store

Reaches-IsLive_example : IsLive later
Reaches-IsLive_example = Reaches-IsLive store later steps store-IsLive

Reaches-Later_example : Later (lookup 40 store.all_objects) (lookup 40 later.all_objects)
Reaches-Later_example = Reaches-Later store later 40 steps
