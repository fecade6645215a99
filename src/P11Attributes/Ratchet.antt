-- ===== src/P11Attributes/Ratchet.antt =====
-- SoftHSMv2/src/lib/P11Attributes.cpp: CKA_SENSITIVE stays true and CKA_EXTRACTABLE stays false when the
-- attributes of an object are set or copied.
use archive_aaf_sshsm.Common.{
  ℕ, ◌≡◌, ap, ◌∙◌, ◌⊎◌, inl, inr, Bool, true, false, not, ◌&&◌, ◌||◌, Option, some, arith,
  Bool-cases,
}
use archive_aaf_sshsm.Cryptoki.Attributes.{cka_sensitive, cka_extractable}
use archive_aaf_sshsm.ByteString.{Bytes}
use archive_aaf_sshsm.OsObject.{OsAttribute, boolean, OsObject, OsObjectLaws, as_boolean}
use archive_aaf_sshsm.P11Attributes.{
  ObjectOp, Context, P11Attribute, UpdateRule, sensitive_rule, extractable_rule,
}
use archive_aaf_sshsm.P11Attributes.Steps.{changes_object}
use archive_aaf_sshsm.P11Attributes.Rules.{
  update_by_rule, update_sensitive, update_extractable, update_attr,
}
use archive_aaf_sshsm.P11Attributes.Update.{update}
use archive_aaf_sshsm.P11Attributes.Frame.{may_change, Keeps, update_attr-view}

abbrev pub is_sensitive_rule : UpdateRule → Bool
is_sensitive_rule sensitive_rule = true
is_sensitive_rule _ = false

abbrev pub is_extractable_rule : UpdateRule → Bool
is_extractable_rule extractable_rule = true
is_extractable_rule _ = false

-- No attribute but the one with its rule changes CKA_SENSITIVE or CKA_EXTRACTABLE.
abbrev pub is_tame : P11Attribute → Bool
is_tame a =
    (not (may_change a cka_sensitive) || is_sensitive_rule a.rule)
    && (not (may_change a cka_extractable) || is_extractable_rule a.rule)

module _ {O : Type 0} {I : OsObject O} (L : OsObjectLaws I) where
  abbrev pub IsSensitive : O → Type 0
  IsSensitive o = L.view cka_sensitive o ≡ some (boolean true)

  abbrev pub IsUnextractable : O → Type 0
  IsUnextractable o = L.view cka_extractable o ≡ some (boolean false)

  module _ (ctx : Context) (is_private : Bool) (p_value : Option Bytes) (len : ℕ) where
    update_sensitive-refused :
        (op : ObjectOp) (t : ℕ) (o : O)
        → changes_object op ≡ true
        → IsSensitive o
        → (update_sensitive I ctx is_private p_value len op t o).1 ≡ o
    unfolding update_sensitive as_boolean
    update_sensitive-refused op t o h s =
        let known : I.get_boolean_value cka_sensitive false o ≡ true =
          L.boolean_view cka_sensitive false o ∙ ap (as_boolean false) s in
        ground (arith, known)

    update_extractable-refused :
        (op : ObjectOp) (t : ℕ) (o : O)
        → changes_object op ≡ true
        → IsUnextractable o
        → (update_extractable I ctx is_private p_value len op t o).1 ≡ o
    unfolding update_extractable as_boolean
    update_extractable-refused op t o h s =
        let known : I.get_boolean_value cka_extractable false o ≡ false =
          L.boolean_view cka_extractable false o ∙ ap (as_boolean false) s in
        ground (arith, known)

    sensitive_rule-refused :
        (r : UpdateRule) (op : ObjectOp) (t : ℕ) (o : O)
        → is_sensitive_rule r ≡ true
        → changes_object op ≡ true
        → IsSensitive o
        → (update_by_rule I ctx is_private p_value len r op t o).1 ≡ o
    unfolding update_by_rule
    sensitive_rule-refused sensitive_rule op t o e h s = update_sensitive-refused op t o h s
    sensitive_rule-refused _ op t o e h s = absurd (ground arith)

    extractable_rule-refused :
        (r : UpdateRule) (op : ObjectOp) (t : ℕ) (o : O)
        → is_extractable_rule r ≡ true
        → changes_object op ≡ true
        → IsUnextractable o
        → (update_by_rule I ctx is_private p_value len r op t o).1 ≡ o
    unfolding update_by_rule
    extractable_rule-refused extractable_rule op t o e h s = update_extractable-refused op t o h s
    extractable_rule-refused _ op t o e h s = absurd (ground arith)

  -- A reading of CKA_SENSITIVE, or of CKA_EXTRACTABLE, that only its own setAttribute changes.
  module _ (look : O → Option OsAttribute) where
    module _ (ctx : Context) (is_private : Bool) (p_value : Option Bytes) (len : ℕ) where
      update_attr-IsSensitive :
          (a : P11Attribute) (op : ObjectOp) (o : O)
          → Keeps I look cka_sensitive
          → is_tame a ≡ true
          → changes_object op ≡ true
          → IsSensitive o
          → look (update_attr I ctx is_private p_value len a op o).1 ≡ look o
      update_attr-IsSensitive a op o keeps tame h s =
          elim (Bool-cases (may_change a cka_sensitive)) [
            | inl changed ↦ ap look (
                sensitive_rule-refused ctx is_private p_value len a.rule op a.type o (ground arith)
                  h s)
            | inr kept ↦
                update_attr-view I look cka_sensitive keeps ctx is_private p_value len a op o kept
          ]

      update_attr-IsUnextractable :
          (a : P11Attribute) (op : ObjectOp) (o : O)
          → Keeps I look cka_extractable
          → is_tame a ≡ true
          → changes_object op ≡ true
          → IsUnextractable o
          → look (update_attr I ctx is_private p_value len a op o).1 ≡ look o
      update_attr-IsUnextractable a op o keeps tame h s =
          elim (Bool-cases (may_change a cka_extractable)) [
            | inl changed ↦ ap look (
                extractable_rule-refused ctx is_private p_value len a.rule op a.type o
                  (ground arith) h s)
            | inr kept ↦
                update_attr-view I look cka_extractable keeps ctx is_private p_value len a op o kept
          ]

  -- An update leaves the object alone or is the updateAttr.
  pub update-cases :
      (ctx : Context) (is_private : Bool) (a : P11Attribute) (p_value : Option Bytes) (len : ℕ)
      (op : ObjectOp) (o : O)
      → ((update I ctx is_private a p_value len op o).1 ≡ o)
        ⊎ (update I ctx is_private a p_value len op o
            ≡ update_attr I ctx is_private p_value len a op o)
  unfolding update
  update-cases ctx is_private a p_value len op o = ground arith

  -- An update of a tame attribute does not change what is read of CKA_SENSITIVE once it is true.
  pub update-IsSensitive :
      (look : O → Option OsAttribute) (ctx : Context) (is_private : Bool) (a : P11Attribute)
      (p_value : Option Bytes) (len : ℕ) (op : ObjectOp) (o : O)
      → Keeps I look cka_sensitive
      → is_tame a ≡ true
      → changes_object op ≡ true
      → IsSensitive o
      → look (update I ctx is_private a p_value len op o).1 ≡ look o
  update-IsSensitive look ctx is_private a p_value len op o keeps tame h s =
      elim (update-cases ctx is_private a p_value len op o) [
        | inl left ↦ ap look left
        | inr done ↦
            rw done (update_attr-IsSensitive look ctx is_private p_value len a op o keeps tame h s)
      ]

  -- Nor what is read of CKA_EXTRACTABLE once it is false.
  pub update-IsUnextractable :
      (look : O → Option OsAttribute) (ctx : Context) (is_private : Bool) (a : P11Attribute)
      (p_value : Option Bytes) (len : ℕ) (op : ObjectOp) (o : O)
      → Keeps I look cka_extractable
      → is_tame a ≡ true
      → changes_object op ≡ true
      → IsUnextractable o
      → look (update I ctx is_private a p_value len op o).1 ≡ look o
  update-IsUnextractable look ctx is_private a p_value len op o keeps tame h s =
      elim (update-cases ctx is_private a p_value len op o) [
        | inl left ↦ ap look left
        | inr done ↦
            rw done
              (update_attr-IsUnextractable look ctx is_private p_value len a op o keeps tame h s)
      ]
