-- ===== src/Api/Find.antt =====
-- SoftHSMv2/src/lib/SoftHSM.cpp: the handlers of a search for objects.
use archive_aaf_sshsm.Common.{
  ℕ, Bool, true, false, not, ◌&&◌, ◌||◌, Option, none, some, List, [], ◌∷◌, ◌++◌, ◌==◌,
  if◌then◌else◌, length,
}
use archive_aaf_sshsm.Common.Map.{lookup}
use archive_aaf_sshsm.Cryptoki.{
  CkRv, ok, general_error, arguments_bad, operation_active, operation_not_initialized,
  session_handle_invalid, cryptoki_not_initialized, CkState, ro_user_functions, rw_user_functions,
  ro_public_session, rw_public_session, rw_so_functions, other,
}
use archive_aaf_sshsm.Cryptoki.Attributes.{cka_token, cka_private}
use archive_aaf_sshsm.ByteString.{Bytes, bytes_eq}
use archive_aaf_sshsm.HandleMgr
use archive_aaf_sshsm.Session.{
  SessionOp, op_none, op_find, op_other, Session, get_state, set_op_type, set_find_op, reset_op,
}
use archive_aaf_sshsm.SessionObjects
use archive_aaf_sshsm.FindOperation.{insert_handle, next_page}
use archive_aaf_sshsm.OsObject.{
  OsAttribute, boolean, ulong, byte_string, mechanism_set, attribute_map,
}
use archive_aaf_sshsm.P11Attributes.{TemplateEntry, Context, bytes_at, ulong_at}
use archive_aaf_sshsm.P11Attributes.Retrieve.{revealed}
use archive_aaf_sshsm.Api.{TokenOps, SoftHsm, find_session}
use archive_aaf_sshsm.Api.Objects.{ObjectOps}

-- *(CK_BBOOL*)pValue == CK_TRUE
unfoldable pub true_at : Option Bytes → Bool
true_at none = false
true_at (some []) = false
true_at (some (b ∷ bs)) = b == 1

-- Whether an attribute has the value of a template entry; `none` when it cannot be decrypted.
unfoldable pub matches_value : Context → Bool → OsAttribute → TemplateEntry → Option Bool
matches_value ctx is_private (boolean b) e =
    some ((e.ul_value_len == 1) && (if true_at e.p_value then b else not b))
matches_value ctx is_private (ulong n) e = some ((e.ul_value_len == 8) && (n == ulong_at e.p_value))
matches_value ctx is_private (byte_string value) e = elim (revealed ctx is_private value) [
  | none ↦ none
  | some bytes ↦
      let same = (e.ul_value_len == 0) || bytes_eq bytes (bytes_at e.p_value e.ul_value_len) in
      some ((length bytes == e.ul_value_len) && same)
]
matches_value ctx is_private (mechanism_set ms) e = some false
matches_value ctx is_private (attribute_map m) e = some false

abbrev pub is_op_none : SessionOp → Bool
is_op_none op_none = true
is_op_none op_find = false
is_op_none (op_other n) = false

abbrev pub is_op_find : SessionOp → Bool
is_op_find op_none = false
is_op_find op_find = true
is_op_find (op_other n) = false

abbrev pub is_public : CkState → Bool
is_public ro_user_functions = false
is_public rw_user_functions = false
is_public ro_public_session = true
is_public rw_public_session = true
is_public rw_so_functions = true
is_public (other n) = true

-- Writing to the session that lies at the address of this one.
unfoldable pub put_session : Session → List (Option Session) → List (Option Session)
put_session s [] = []
put_session s (none ∷ rest) = none ∷ put_session s rest
put_session s (some old ∷ rest) =
    let rest' = put_session s rest in
    if old.address == s.address then some s ∷ rest' else some old ∷ rest'

module _ {K A : Type 0} where
  abbrev pub with_session : Session → SoftHsm K A → SoftHsm K A
  with_session found s = record s {
    sessions = record { sessions = put_session found s.sessions.sessions };
  }

-- `token_objects` gives the pointers that Token::getObjects inserts.
module _ {K A O : Type 0} (ops : TokenOps K) (objects : ObjectOps K A O)
    (token_objects : K → List ℕ) where
  -- The loop over the template, for one object.
  unfoldable pub matches : Context → Bool → List TemplateEntry → O → Option Bool
  matches ctx is_private [] o = some true
  matches ctx is_private (e ∷ es) o =
      let rest = matches ctx is_private es o in
      if not (objects.os.attribute_exists e.type o)
      then some false
      else elim (matches_value ctx is_private (objects.os.get_attribute e.type o) e) [
        | none ↦ none
        | some fits ↦ if fits then rest else some false
      ]

  -- The handle of an object that was found.
  unfoldable pub handle_of : Session → ℕ → ℕ → O → SoftHsm K A → ℕ × SoftHsm K A
  handle_of found h address o s =
      let is_private = objects.os.get_boolean_value cka_private true o in
      let (m, k) =
        if objects.os.get_boolean_value cka_token false o
        then HandleMgr.add_token_object found.slot_id is_private address s.handles
        else HandleMgr.add_session_object found.slot_id h is_private address s.handles in
      (k, record s { handles = m })

  -- The loop over the objects, with the handles so far; `none` for CKR_GENERAL_ERROR.
  unfoldable pub find_each :
      Session
      → ℕ
      → Context
      → Bool
      → List TemplateEntry
      → List ℕ
      → List ℕ
      → SoftHsm K A
      → Option (List ℕ) × SoftHsm K A
  find_each found h ctx is_public_session template [] handles s = (some handles, s)
  find_each found h ctx is_public_session template (p ∷ ps) handles s =
      elim (objects.object_at p s) [
        | none ↦ find_each found h ctx is_public_session template ps handles s
        | some o ↦
            let is_private = objects.os.get_boolean_value cka_private true o in
            let skipped = find_each found h ctx is_public_session template ps handles s in
            let (k, s') = handle_of found h p o s in
            let taken =
              find_each found h ctx is_public_session template ps (insert_handle k handles) s' in
            if not (objects.os.is_valid o)
            then skipped
            else if is_public_session && is_private
            then skipped
            else elim (matches ctx is_private template o) [
              | none ↦ (none, s)
              | some fits ↦ if not fits then skipped else if k == 0 then (none, s') else taken
            ]
      ]

  -- C_FindObjectsInit; memory for the operation is taken to be there.
  unfoldable pub c_find_objects_init : ℕ → List TemplateEntry → SoftHsm K A → CkRv × SoftHsm K A
  c_find_objects_init h template s =
      if not s.is_initialised then (cryptoki_not_initialized, s) else elim (find_session h s) [
        | none ↦ (session_handle_invalid, s)
        | some found ↦ elim (lookup found.slot_id s.tokens) [
          | none ↦ (general_error, s)
          | some token ↦
              let started = set_op_type op_find found in
              let all = token_objects token ++ SessionObjects.get_objects found.slot_id s.objects in
              let (handles, s') =
                find_each found h (objects.context token)
                  (is_public (get_state ops.view token found)) template all []
                  (with_session started s) in
              if not (is_op_none found.operation) then (operation_active, s) else elim handles [
                | none ↦ (general_error, s')
                | some hs ↦ (ok, with_session (set_find_op (some hs) started) s')
              ]
        ]
      ]

module _ {K A : Type 0} where
  -- The handles written to phObject come with the code.
  unfoldable pub c_find_objects : ℕ → ℕ → Bool → SoftHsm K A → CkRv × List ℕ × SoftHsm K A
  c_find_objects h most there s =
      if not s.is_initialised
      then (cryptoki_not_initialized, [], s)
      else if not there
      then (arguments_bad, [], s)
      else elim (find_session h s) [
        | none ↦ (session_handle_invalid, [], s)
        | some found ↦
            if not (is_op_find found.operation)
            then (operation_not_initialized, [], s)
            else elim found.find_op [
              | none ↦ (general_error, [], s)
              | some handles ↦
                  let (page, left) = next_page most handles in
                  (ok, page, with_session (set_find_op (some left) found) s)
            ]
      ]

  unfoldable pub c_find_objects_final : ℕ → SoftHsm K A → CkRv × SoftHsm K A
  c_find_objects_final h s =
      if not s.is_initialised then (cryptoki_not_initialized, s) else elim (find_session h s) [
        | none ↦ (session_handle_invalid, s)
        | some found ↦
            if not (is_op_find found.operation)
            then (operation_not_initialized, s)
            else (ok, with_session (reset_op found).0 s)
      ]
