-- ===== src/Api/Objects.antt =====
-- SoftHSMv2/src/lib/SoftHSM.cpp: the handlers that read, change and destroy an object. What lies at the address
-- of an object, of a session or of a token, is reached through `ObjectOps`.
use archive_aaf_sshsm.Common.{
  ℕ, Bool, true, false, not, Option, none, some, List, [], if◌then◌else◌,
}
use archive_aaf_sshsm.Common.Map.{lookup}
use archive_aaf_sshsm.Cryptoki.{
  CkRv, ok, general_error, function_failed, arguments_bad, action_prohibited, object_handle_invalid,
  session_handle_invalid, cryptoki_not_initialized, unavailable_information,
}
use archive_aaf_sshsm.Cryptoki.Attributes.{cka_token, cka_private, cka_modifiable, cka_destroyable}
use archive_aaf_sshsm.Access.{have_read, have_write}
use archive_aaf_sshsm.HandleMgr
use archive_aaf_sshsm.Session.{Session, get_state}
use archive_aaf_sshsm.OsObject.{OsObject}
use archive_aaf_sshsm.P11Attributes.{op_set, TemplateEntry, Context}
use archive_aaf_sshsm.P11Objects.Factory.{new_p11_object}
use archive_aaf_sshsm.P11Objects.Templates.{load_template, save_template}
use archive_aaf_sshsm.Api.{TokenOps, SoftHsm, is_ok, find_session}

pub record ObjectOps (K A O : Type 0) : Type 0 where
  pub os : OsObject O
  pub object_at : ℕ → SoftHsm K A → Option O
  pub put_object : ℕ → O → SoftHsm K A → SoftHsm K A
  -- OSObject::destroyObject of the object at an address.
  pub destroy_object : ℕ → SoftHsm K A → Bool × SoftHsm K A
  -- The cipher of a token and the rest of what attributes need.
  pub context : K → Context

module _ {K A O : Type 0} (ops : TokenOps K) (objects : ObjectOps K A O) where
  -- handleManager->getObject(hObject), where the object is there and valid.
  unfoldable pub find_object : ℕ → SoftHsm K A → Option O
  find_object h_object s = elim (objects.object_at (HandleMgr.get_object h_object s.handles) s) [
    | none ↦ none
    | some o ↦ if objects.os.is_valid o then some o else none
  ]

  -- What all handlers of objects look up first: the session, its token and the object, or the code to return.
  unfoldable pub find_all_three : ℕ → ℕ → SoftHsm K A → CkRv × Option (Session × K × O)
  find_all_three h h_object s = elim (find_session h s) [
    | none ↦ (session_handle_invalid, none)
    | some found ↦ elim (lookup found.slot_id s.tokens) [
      | none ↦ (general_error, none)
      | some token ↦ elim (find_object h_object s) [
        | none ↦ (object_handle_invalid, none)
        | some o ↦ (ok, some (found, token, o))
      ]
    ]
  ]

  -- The place of the object and whether it is private, as the handlers read them.
  abbrev pub is_on_token : O → Bool
  is_on_token o = objects.os.get_boolean_value cka_token false o

  abbrev pub is_private_object : O → Bool
  is_private_object o = objects.os.get_boolean_value cka_private true o

  -- *pulSize comes with the code.
  unfoldable pub c_get_object_size : ℕ → ℕ → Bool → SoftHsm K A → CkRv × Option ℕ
  c_get_object_size h h_object there s =
      let (rv, found) = find_all_three h h_object s in
      if not s.is_initialised
      then (cryptoki_not_initialized, none)
      else if not there
      then (arguments_bad, none)
      else elim found [ none ↦ (rv, none) | some r ↦ (ok, some unavailable_information) ]

  -- C_GetAttributeValue once the access was granted: the template, and the object with its defaults.
  unfoldable pub load_attributes :
      ℕ → Context → List TemplateEntry → O → SoftHsm K A → CkRv × List TemplateEntry × SoftHsm K A
  load_attributes h_object ctx template o s =
      let (rv, made) = new_p11_object objects.os o in
      elim made [
        | none ↦ (rv, template, s)
        | some r ↦
            let s' = objects.put_object (HandleMgr.get_object h_object s.handles) r.object s in
            let (rv', template') = load_template objects.os ctx r.attributes template r.object in
            if not (is_ok rv) then (rv, template, s') else (rv', template', s')
      ]

  unfoldable pub c_get_attribute_value :
      ℕ → ℕ → Option (List TemplateEntry) → SoftHsm K A → CkRv × List TemplateEntry × SoftHsm K A
  c_get_attribute_value h h_object p_template s = elim p_template [
    | none ↦ (if not s.is_initialised then cryptoki_not_initialized else arguments_bad, [], s)
    | some template ↦
        let (rv, found) = find_all_three h h_object s in
        if not s.is_initialised then (cryptoki_not_initialized, template, s) else elim found [
          | none ↦ (rv, template, s)
          | some (session_found, token, o) ↦
              let access =
                have_read (get_state ops.view token session_found) (is_on_token o)
                  (is_private_object o) in
              if not (is_ok access)
              then (general_error, template, s)
              else load_attributes h_object (objects.context token) template o s
        ]
  ]

  -- C_SetAttributeValue once the access was granted.
  unfoldable pub save_attributes :
      ℕ → Context → List TemplateEntry → O → SoftHsm K A → CkRv × SoftHsm K A
  save_attributes h_object ctx template o s =
      let (rv, made) = new_p11_object objects.os o in
      let address = HandleMgr.get_object h_object s.handles in
      elim made [
        | none ↦ (rv, s)
        | some r ↦
            let (rv', o') =
              save_template objects.os ctx r.attributes (is_private_object o) op_set template
                r.object in
            if not (is_ok rv)
            then (rv, objects.put_object address r.object s)
            else (rv', objects.put_object address o' s)
      ]

  unfoldable pub c_set_attribute_value :
      ℕ → ℕ → Option (List TemplateEntry) → SoftHsm K A → CkRv × SoftHsm K A
  c_set_attribute_value h h_object p_template s = elim p_template [
    | none ↦ (if not s.is_initialised then cryptoki_not_initialized else arguments_bad, s)
    | some template ↦
        let (rv, found) = find_all_three h h_object s in
        if not s.is_initialised then (cryptoki_not_initialized, s) else elim found [
          | none ↦ (rv, s)
          | some (session_found, token, o) ↦
              let access =
                have_write (get_state ops.view token session_found) (is_on_token o)
                  (is_private_object o) in
              if not (is_ok access)
              then (access, s)
              else if not (objects.os.get_boolean_value cka_modifiable true o)
              then (action_prohibited, s)
              else save_attributes h_object (objects.context token) template o s
        ]
  ]

  unfoldable pub c_destroy_object : ℕ → ℕ → SoftHsm K A → CkRv × SoftHsm K A
  c_destroy_object h h_object s =
      let (rv, found) = find_all_three h h_object s in
      if not s.is_initialised then (cryptoki_not_initialized, s) else elim found [
        | none ↦ (rv, s)
        | some (session_found, token, o) ↦
            let access =
              have_write (get_state ops.view token session_found) (is_on_token o)
                (is_private_object o) in
            let address = HandleMgr.get_object h_object s.handles in
            let s1 : SoftHsm K A = record s {
              handles = HandleMgr.destroy_object h_object s.handles;
            } in
            let (destroyed, s2) = objects.destroy_object address s1 in
            if not (is_ok access)
            then (access, s)
            else if not (objects.os.get_boolean_value cka_destroyable true o)
            then (action_prohibited, s)
            else (if destroyed then ok else function_failed, s2)
      ]
