-- ===== src/P11Objects/Templates.antt =====
-- SoftHSMv2/src/lib/P11Objects.cpp: loadTemplate and saveTemplate, on an object whose init was called.
use archive_aaf_sshsm.Common.{
  ℕ, Bool, true, false, not, ◌&&◌, ◌||◌, Option, none, some, List, [], ◌∷◌, ◌==◌, if◌then◌else◌,
}
use archive_aaf_sshsm.Common.Map.{Map, lookup}
use archive_aaf_sshsm.Cryptoki.{
  CkRv, ok, general_error, action_prohibited, attribute_sensitive, attribute_type_invalid,
  buffer_too_small, template_incomplete, unavailable_information,
}
use archive_aaf_sshsm.OsObject.{OsObject}
use archive_aaf_sshsm.P11Attributes.{
  ObjectOp, op_create, op_generate, op_unwrap, op_set, op_copy, TemplateEntry, Context, ck1, ck3,
  ck5, has, P11Attribute,
}
use archive_aaf_sshsm.P11Attributes.Steps.{is_op, and_then}
use archive_aaf_sshsm.P11Attributes.Update.{update}
use archive_aaf_sshsm.P11Attributes.Retrieve.{retrieve}
use archive_aaf_sshsm.P11Objects.{is_private, is_copyable, is_modifiable}

-- The three flags that loadTemplate collects.
pub record LoadFlags : Type 0 where
  pub invalid : Bool
  pub sensitive : Bool
  pub buffer_too_small : Bool

abbrev pub no_flags : LoadFlags
no_flags = record { invalid = false; sensitive = false; buffer_too_small = false }

-- What the loop notes of a retrieval; `none` makes it return CKR_GENERAL_ERROR.
abbrev pub note_result : CkRv → LoadFlags → Option LoadFlags
note_result ok f = some f
note_result attribute_sensitive f = some (record f { sensitive = true })
note_result buffer_too_small f = some (record f { buffer_too_small = true })
note_result _ f = none

abbrev pub load_result : LoadFlags → CkRv
load_result f =
    if f.sensitive
    then attribute_sensitive
    else if f.invalid
    then attribute_type_invalid
    else if f.buffer_too_small
    then buffer_too_small
    else ok

-- Whether a type stands in the template.
unfoldable pub is_specified : ℕ → List TemplateEntry → Bool
is_specified t [] = false
is_specified t (e ∷ es) = let later = is_specified t es in if t == e.type then true else later

abbrev pub is_mandatory : P11Attribute → ObjectOp → Bool
is_mandatory a op =
    has ck1 a.checks && is_op op op_create
    || (has ck3 a.checks && is_op op op_generate || (has ck5 a.checks && is_op op op_unwrap))

-- The loop over the attributes that looks for one that must be specified and is not.
unfoldable pub lacks_mandatory : Map P11Attribute → ObjectOp → List TemplateEntry → Bool
lacks_mandatory [] op template = false
lacks_mandatory ((t, a) ∷ m) op template =
    let later = lacks_mandatory m op template in
    if is_mandatory a op && not (is_specified t template) then true else later

module _ {O : Type 0} (I : OsObject O) (ctx : Context) (attributes : Map P11Attribute) where
  -- The template afterwards comes with the return code.
  unfoldable pub load_loop : Bool → O → LoadFlags → List TemplateEntry → CkRv × List TemplateEntry
  load_loop hidden o flags [] = (load_result flags, [])
  load_loop hidden o flags (e ∷ es) = elim (lookup e.type attributes) [
    | none ↦
        let (rv, rest) = load_loop hidden o (record flags { invalid = true }) es in
        (rv, record e { ul_value_len = unavailable_information } ∷ rest)
    | some a ↦
        let (retrieve_rv, p_value, len) = retrieve I ctx hidden a e.p_value e.ul_value_len o in
        let e' = record e { p_value = p_value; ul_value_len = len } in
        elim (note_result retrieve_rv flags) [
          | none ↦ (general_error, e' ∷ es)
          | some flags' ↦ let (rv, rest) = load_loop hidden o flags' es in (rv, e' ∷ rest)
        ]
  ]

  unfoldable pub load_template : List TemplateEntry → O → CkRv × List TemplateEntry
  load_template template o = load_loop (is_private I o) o no_flags template

  -- The updates in turn, up to the first that fails.
  unfoldable pub save_loop : Bool → ObjectOp → List TemplateEntry → O → CkRv × O
  save_loop hidden op [] o = (ok, o)
  save_loop hidden op (e ∷ es) o = elim (lookup e.type attributes) [
    | none ↦ (attribute_type_invalid, o)
    | some a ↦
        and_then (save_loop hidden op es) (update I ctx hidden a e.p_value e.ul_value_len op o)
  ]

  -- After the loop: the check for mandatory attributes, or the return of the loop's code.
  unfoldable pub finish : ObjectOp → List TemplateEntry → CkRv → O → CkRv × O
  finish op template ok o =
      if lacks_mandatory attributes op template
      then (template_incomplete, o)
      else (if (I.commit_transaction o).0 then ok else general_error, (I.commit_transaction o).1)
  finish op template failed o = (failed, (I.abort_transaction o).1)

  -- Once the transaction has started and the object may be changed.
  unfoldable pub save_started : Bool → ObjectOp → List TemplateEntry → O → CkRv × O
  save_started hidden op template o =
      let (rv, o') = save_loop hidden op template o in finish op template rv o'

  unfoldable pub save_template : Bool → ObjectOp → List TemplateEntry → O → CkRv × O
  save_template hidden op template o =
      let (started, o') = I.start_transaction o in
      if not started
      then (general_error, o')
      else if is_op op op_set && not (is_modifiable I o')
      then (action_prohibited, (I.abort_transaction o').1)
      else if is_op op op_copy && not (is_copyable I o')
      then (action_prohibited, (I.abort_transaction o').1)
      else save_started hidden op template o'
