-- ===== src/Api/Secrets.antt =====
-- SoftHSMv2/src/lib/SoftHSM.cpp: an object that is sensitive stays so through the handlers that read and set
-- attributes, which also give it defaults.
use archive_aaf_sshsm.Common.{
  ℕ, ◌≡◌, refl, sym, ap, ◌∙◌, subst, inl, inr, Bool, true, ◌&&◌, Option, none, some, List, arith,
  ◌==◌, if◌then◌else◌, Bool-cases, Option-cases,
}
use archive_aaf_sshsm.Common.Map.{lookup}
use archive_aaf_sshsm.Cryptoki.Attributes.{cka_sensitive, cka_modifiable}
use archive_aaf_sshsm.Access.{have_read, have_write}
use archive_aaf_sshsm.HandleMgr
use archive_aaf_sshsm.Session.{Session, get_state}
use archive_aaf_sshsm.OsObject.{boolean, OsObjectLaws, TransactionLaws}
use archive_aaf_sshsm.P11Attributes.{op_set, TemplateEntry, Context}
use archive_aaf_sshsm.P11Attributes.Ratchet.{IsSensitive}
use archive_aaf_sshsm.P11Objects.Factory.{new_p11_object}
use archive_aaf_sshsm.P11Objects.Templates.{save_template}
use archive_aaf_sshsm.P11Objects.Ratchet.{save_template-IsSensitive}
use archive_aaf_sshsm.P11Objects.Classes.{new_p11_object-IsProper}
use archive_aaf_sshsm.P11Objects.Defaults.{new_p11_object-Has}
use archive_aaf_sshsm.Api.{TokenOps, SoftHsm, is_ok, find_session}
use archive_aaf_sshsm.Api.Objects.{
  ObjectOps, find_object, find_all_three, is_private_object, is_on_token, load_attributes,
  save_attributes, c_get_attribute_value, c_set_attribute_value,
}

-- Objects keep their contracts, and what is written to an address lies there and nowhere else.
pub record ObjectOpsLaws {K A O : Type 0} (objects : ObjectOps K A O) : Type 0 where
  pub laws : OsObjectLaws objects.os
  pub transactions : TransactionLaws laws
  pub put_at :
      (p q : ℕ) (o : O) (s : SoftHsm K A)
      → objects.object_at p (objects.put_object q o s)
        ≡ (if q == p then some o else objects.object_at p s)

module _ {K A O : Type 0} (ops : TokenOps K) (objects : ObjectOps K A O)
    (W : ObjectOpsLaws objects) where
  -- A sensitive object lies at the address.
  abbrev pub IsSecret : ℕ → SoftHsm K A → Type 0
  IsSecret p s = (o : O) × (objects.object_at p s ≡ some o) × IsSensitive W.laws o

  same_state : (p : ℕ) {s s' : SoftHsm K A} → s ≡ s' → IsSecret p s → IsSecret p s'
  same_state p e secret = subst (IsSecret p) e secret

  put-IsSecret :
      (p q : ℕ) (o o' : O) (s : SoftHsm K A)
      → objects.object_at q s ≡ some o
      → (IsSensitive W.laws o → IsSensitive W.laws o')
      → IsSecret p s
      → IsSecret p (objects.put_object q o' s)
  put-IsSecret p q o o' s there keeps (secret, at, sensitive) = elim (Bool-cases (q == p)) [
    | inl here ↦
        let typed : q ≡ p = ground (arith, here) in
        let same : some o ≡ some secret = sym there ∙ ap (λ n. objects.object_at n s) typed ∙ at in
        (o', ground (arith, here, W.put_at p q o' s), keeps (ground (arith, same, sensitive)))
    | inr away ↦ (secret, ground (arith, away, at, W.put_at p q o' s), sensitive)
  ]

  find_object-at :
      (h_object : ℕ) (s : SoftHsm K A) (o : O)
      → find_object ops objects h_object s ≡ some o
      → objects.object_at (HandleMgr.get_object h_object s.handles) s ≡ some o
  unfolding find_object
  find_object-at h_object s o found =
      elim (Option-cases (objects.object_at (HandleMgr.get_object h_object s.handles) s)) [
        | inl nothing ↦ absurd (ground (arith, found, nothing))
        | inr (there, at) ↦ ground (arith, found, at)
      ]

  find_all_three-at :
      (h h_object : ℕ) (s : SoftHsm K A) (r : Session × K × O)
      → (find_all_three ops objects h h_object s).1 ≡ some r
      → objects.object_at (HandleMgr.get_object h_object s.handles) s ≡ some r.2
  unfolding find_all_three
  find_all_three-at h h_object s r found = elim (Option-cases (find_session h s)) [
    | inl none_found ↦ absurd (ground (arith, found, none_found))
    | inr (x, e) ↦ elim (Option-cases (lookup x.slot_id s.tokens)) [
      | inl no_token ↦ absurd (ground (arith, found, e, no_token))
      | inr (token, t) ↦ elim (Option-cases (find_object ops objects h_object s)) [
        | inl no_object ↦ absurd (ground (arith, found, e, t, no_object))
        | inr (o, at) ↦ ground (arith, found, e, t, at, find_object-at h_object s o at)
      ]
    ]
  ]

  save_attributes-IsSecret :
      (p h_object : ℕ) (ctx : Context) (template : List TemplateEntry) (o : O) (s : SoftHsm K A)
      → objects.object_at (HandleMgr.get_object h_object s.handles) s ≡ some o
      → IsSecret p s
      → IsSecret p (save_attributes ops objects h_object ctx template o s).1
  unfolding save_attributes
  save_attributes-IsSecret p h_object ctx template o s there secret =
      let address : ℕ = HandleMgr.get_object h_object s.handles in
      elim (Option-cases (new_p11_object objects.os o).1) [
        | inl unmade ↦ same_state p (ground (arith, unmade)) secret
        | inr (r, made) ↦
            let hidden : Bool = is_private_object ops objects o in
            let saved : O =
              (save_template objects.os ctx r.attributes hidden op_set template r.object).1 in
            let given_defaults : IsSensitive W.laws o → IsSensitive W.laws r.object =
              λ has. new_p11_object-Has W.laws cka_sensitive (boolean true) refl o r made has in
            let unset : IsSecret p (objects.put_object address r.object s) =
              put-IsSecret p address o r.object s there given_defaults secret in
            let set_too : IsSecret p (objects.put_object address saved s) =
              put-IsSecret p address o saved s there
                (λ has.
                  save_template-IsSensitive W.transactions ctx r.attributes hidden op_set template
                    r.object (new_p11_object-IsProper objects.os o r made) refl
                    (given_defaults has))
                secret in
            elim (Bool-cases (is_ok (new_p11_object objects.os o).0)) [
              | inl fine ↦ same_state p (ground (arith, made, fine)) set_too
              | inr failed ↦ same_state p (ground (arith, made, failed)) unset
            ]
      ]

  load_attributes-IsSecret :
      (p h_object : ℕ) (ctx : Context) (template : List TemplateEntry) (o : O) (s : SoftHsm K A)
      → objects.object_at (HandleMgr.get_object h_object s.handles) s ≡ some o
      → IsSecret p s
      → IsSecret p (load_attributes ops objects h_object ctx template o s).2
  unfolding load_attributes
  load_attributes-IsSecret p h_object ctx template o s there secret =
      let address : ℕ = HandleMgr.get_object h_object s.handles in
      elim (Option-cases (new_p11_object objects.os o).1) [
        | inl unmade ↦ same_state p (ground (arith, unmade)) secret
        | inr (r, made) ↦
            let given_defaults : IsSensitive W.laws o → IsSensitive W.laws r.object =
              λ has. new_p11_object-Has W.laws cka_sensitive (boolean true) refl o r made has in
            same_state p (ground (arith, made))
              (put-IsSecret p address o r.object s there given_defaults secret)
      ]

  c_set_attribute_value-IsSecret :
      (p h h_object : ℕ) (template : Option (List TemplateEntry)) (s : SoftHsm K A)
      → IsSecret p s
      → IsSecret p (c_set_attribute_value ops objects h h_object template s).1
  unfolding c_set_attribute_value
  c_set_attribute_value-IsSecret p h h_object none s secret = secret
  c_set_attribute_value-IsSecret p h h_object (some template) s secret =
      elim (Option-cases (find_all_three ops objects h h_object s).1) [
        | inl nothing ↦ same_state p (ground (arith, nothing)) secret
        | inr (r, found) ↦
            let saved =
              save_attributes-IsSecret p h_object (objects.context r.1) template r.2 s
                (find_all_three-at h h_object s r found) secret in
            let access =
              have_write (get_state ops.view r.1 r.0) (is_on_token ops objects r.2)
                (is_private_object ops objects r.2) in
            elim (Bool-cases (
              s.is_initialised
              && (is_ok access && objects.os.get_boolean_value cka_modifiable true r.2))) [
                | inl granted ↦ same_state p (ground (arith, found, granted)) saved
                | inr refused ↦ same_state p (ground (arith, found, refused)) secret
              ]
      ]

  c_get_attribute_value-IsSecret :
      (p h h_object : ℕ) (template : Option (List TemplateEntry)) (s : SoftHsm K A)
      → IsSecret p s
      → IsSecret p (c_get_attribute_value ops objects h h_object template s).2
  unfolding c_get_attribute_value
  c_get_attribute_value-IsSecret p h h_object none s secret = secret
  c_get_attribute_value-IsSecret p h h_object (some template) s secret =
      elim (Option-cases (find_all_three ops objects h h_object s).1) [
        | inl nothing ↦ same_state p (ground (arith, nothing)) secret
        | inr (r, found) ↦
            let loaded =
              load_attributes-IsSecret p h_object (objects.context r.1) template r.2 s
                (find_all_three-at h h_object s r found) secret in
            let access =
              have_read (get_state ops.view r.1 r.0) (is_on_token ops objects r.2)
                (is_private_object ops objects r.2) in
            elim (Bool-cases (s.is_initialised && is_ok access)) [
              | inl granted ↦ same_state p (ground (arith, found, granted)) loaded
              | inr refused ↦ same_state p (ground (arith, found, refused)) secret
            ]
      ]

-- Any number of calls of the two handlers, on any objects and through any sessions.
pub data Used {K A O : Type 0} (ops : TokenOps K) (objects : ObjectOps K A O) (first : SoftHsm K A)
    : SoftHsm K A → Type 0 where
  unused : Used ops objects first first
  gets :
      (s : SoftHsm K A) (h h_object : ℕ) (template : Option (List TemplateEntry))
      → Used ops objects first s
      → Used ops objects first (c_get_attribute_value ops objects h h_object template s).2
  sets :
      (s : SoftHsm K A) (h h_object : ℕ) (template : Option (List TemplateEntry))
      → Used ops objects first s
      → Used ops objects first (c_set_attribute_value ops objects h h_object template s).1

module _ {K A O : Type 0} (ops : TokenOps K) (objects : ObjectOps K A O) (W : ObjectOpsLaws objects)
    (first : SoftHsm K A) where
  -- Where objects keep their contracts and lie at their addresses: an object whose CKA_SENSITIVE is true is
  -- still there with it true after any number of calls of C_GetAttributeValue and C_SetAttributeValue, on any
  -- object and in any session, whatever they return.
  pub Used-IsSecret :
      (p : ℕ) (s : SoftHsm K A)
      → Used ops objects first s
      → IsSecret ops objects W p first
      → IsSecret ops objects W p s
  Used-IsSecret p _ unused secret = secret
  Used-IsSecret p _ (gets s h h_object template before) secret =
      c_get_attribute_value-IsSecret ops objects W p h h_object template s
        (Used-IsSecret p s before secret)
  Used-IsSecret p _ (sets s h h_object template before) secret =
      c_set_attribute_value-IsSecret ops objects W p h h_object template s
        (Used-IsSecret p s before secret)
