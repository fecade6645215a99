-- ===== src/P11Objects/Save.antt =====
-- SoftHSMv2/src/lib/P11Objects.cpp: what saveTemplate leaves of an object when it fails, and what it has
-- checked when it succeeds.
use archive_aaf_sshsm.Common.{
  ℕ, suc, ◌+◌, ◌≡◌, refl, ap, ◌∙◌, ◌≢◌, ◌⊎◌, inl, inr, Bool, true, false, Option, none, some, List,
  [], ◌∷◌, arith, ◌==◌, Bool-cases, Option-cases, if◌then◌else◌,
}
use archive_aaf_sshsm.Common.Map.{Map, lookup}
use archive_aaf_sshsm.Cryptoki.{CkRv, ok, general_error, template_incomplete}
use archive_aaf_sshsm.OsObject.{
  OsAttribute, boolean, OsObject, OsObjectLaws, TransactionLaws, RollbackLaws,
}
use archive_aaf_sshsm.P11Attributes.{
  ObjectOp, op_create, op_generate, op_unwrap, ck1, ck3, ck5, has, TemplateEntry, Context,
  P11Attribute, UpdateRule, with_bits_rule,
}
use archive_aaf_sshsm.P11Attributes.Steps.{and_then}
use archive_aaf_sshsm.P11Attributes.Update.{update}
use archive_aaf_sshsm.P11Attributes.Frame.{Keeps, derived, may_change, update_attr-view}
use archive_aaf_sshsm.P11Attributes.Ratchet.{update-cases}
use archive_aaf_sshsm.P11Objects.Templates.{
  is_specified, is_mandatory, lacks_mandatory, save_loop, finish, save_started, save_template,
}
use archive_aaf_sshsm.P11Objects.Ratchet.{save_loop-Holds}

abbrev bits_of : UpdateRule → ℕ
bits_of (with_bits_rule b) = b
bits_of _ = 0

-- The number of no attribute that the update may change.
abbrev spare : P11Attribute → ℕ
spare a = suc (a.type + bits_of a.rule + 4294967296)

derived-spare : (r : UpdateRule) (n : ℕ) → derived r (suc (n + bits_of r + 4294967296)) ≡ false
derived-spare (with_bits_rule b) n = ground arith
derived-spare _ n = ground arith

may_change-spare : (a : P11Attribute) → may_change a (spare a) ≡ false
may_change-spare a = ground (arith, derived-spare a.rule a.type)

module _ {O : Type 0} {I : OsObject O} {L : OsObjectLaws I} {T : TransactionLaws L}
    (R : RollbackLaws T) (ctx : Context) (attributes : Map P11Attribute) (hidden : Bool)
    (op : ObjectOp) (t : ℕ) where
  -- The version that an abort would load back, while the transaction is open, and whether it is.
  abbrev held : O → Option OsAttribute
  held o = if R.in_transaction o then T.saved t o else none

  abbrev is_open : O → Option OsAttribute
  is_open o = if R.in_transaction o then some (boolean true) else none

  held-Keeps : (u : ℕ) → Keeps I held u
  held-Keeps u v b o e = elim (Bool-cases (R.in_transaction o)) [
    | inl begun ↦ ground (arith, begun, R.set_in v b o, R.set_saved_same v t b o begun)
    | inr not_begun ↦ ground (arith, not_begun, R.set_in v b o)
  ]

  is_open-Keeps : (u : ℕ) → Keeps I is_open u
  is_open-Keeps u v b o e = ground (arith, R.set_in v b o)

  module _ (look : O → Option OsAttribute) (keeps : (u : ℕ) → Keeps I look u) where
    update-look :
        (a : P11Attribute) (p_value : Option (List ℕ)) (len : ℕ) (o : O)
        → look (update I ctx hidden a p_value len op o).1 ≡ look o
    update-look a p_value len o = elim (update-cases L ctx hidden a p_value len op o) [
      | inl left ↦ ap look left
      | inr done ↦ rw done (
          update_attr-view I look (spare a) (keeps (spare a)) ctx hidden p_value len a op o
            (may_change-spare a))
    ]

    save_loop-look :
        (template : List TemplateEntry) (o : O)
        → look (save_loop I ctx attributes hidden op template o).1 ≡ look o
    save_loop-look template o =
        let same : O → Type 0 = λ o'. look o' ≡ look o in
        save_loop-Holds I ctx attributes same hidden op
          (λ u a p_value len o' found h. update-look a p_value len o' ∙ h) template o refl

  save_loop-saved :
      (template : List TemplateEntry) (o : O)
      → R.in_transaction o ≡ true
      → T.saved t (save_loop I ctx attributes hidden op template o).1 ≡ T.saved t o
  save_loop-saved template o begun = ground (
    arith,
    begun,
    save_loop-look held held-Keeps template o,
    save_loop-look is_open is_open-Keeps template o,
  )

  -- The object when all updates were made, or all up to one that failed.
  abbrev pub updated : List TemplateEntry → O → O
  updated template o = (save_loop I ctx attributes hidden op template (I.start_transaction o).1).1

  -- The commit at the end failed: a general error, and the object is what the failed commit left.
  abbrev pub CommitFailed : List TemplateEntry → O → CkRv × O → Type 0
  CommitFailed template o r =
      let committed = I.commit_transaction (updated template o) in
      (committed.0 ≡ false) × (r.0 ≡ general_error) × (r.1 ≡ committed.1)

  -- How a call ends: with success, with the code that leaves the transaction open, with a failed commit, or
  -- with the attribute as it was.
  abbrev pub Ends : List TemplateEntry → O → CkRv × O → Type 0
  Ends template o r =
      ((r.0 ≡ ok) ⊎ (r.0 ≡ template_incomplete))
      ⊎ (CommitFailed template o r ⊎ (L.view t r.1 ≡ L.view t o))

  finish-Ends :
      (template : List TemplateEntry) (rv : CkRv) (o : O)
      → T.saved t (updated template o) ≡ L.view t o
      → Ends template o (finish I ctx attributes op template rv (updated template o))
  unfolding finish
  finish-Ends template ok o saved = elim (Bool-cases (lacks_mandatory attributes op template)) [
    | inl lacks ↦ ground (arith, lacks)
    | inr full ↦ elim (Bool-cases (I.commit_transaction (updated template o)).0) [
      | inl committed ↦ ground (arith, full, committed)
      | inr failed ↦ inr (inl (failed, ground (arith, full, failed), ground (arith, full, failed)))
    ]
  ]
  finish-Ends template _ o saved = inr (inr (T.abort_view t (updated template o) ∙ saved))

  -- On an object whose aborts load back the version from before the transaction, saveTemplate ends with
  -- CKR_OK, with CKR_TEMPLATE_INCOMPLETE, with CKR_GENERAL_ERROR and what a failed commit left, or with
  -- the attribute as it was before the call, whichever one looks at.
  pub save_template-Ends :
      (template : List TemplateEntry) (o : O)
      → Ends template o (save_template I ctx attributes hidden op template o)
  unfolding save_template save_started
  save_template-Ends template o =
      let o1 : O = (I.start_transaction o).1 in
      let r : CkRv × O = save_loop I ctx attributes hidden op template o1 in
      elim (Bool-cases (I.start_transaction o).0) [
        | inl begun ↦
            let saved : T.saved t o1 ≡ L.view t o = T.start_saved t o begun in
            let finished =
              finish-Ends template r.0 o
                (save_loop-saved template o1 (R.start_in o begun) ∙ saved) in
            ground (arith, begun, saved, T.abort_view t o1, finished)
        | inr refused ↦ ground (arith, refused, T.start_view t o)
      ]

-- The operation demands the attribute: ck1 on creation, ck3 on generation, ck5 on unwrapping.
abbrev pub IsDemanded : P11Attribute → ObjectOp → Type 0
IsDemanded a op =
    ((has ck1 a.checks ≡ true) × (op ≡ op_create))
    ⊎ (((has ck3 a.checks ≡ true) × (op ≡ op_generate))
        ⊎ ((has ck5 a.checks ≡ true) × (op ≡ op_unwrap)))

demanded : (a : P11Attribute) (op : ObjectOp) → IsDemanded a op → is_mandatory a op ≡ true
demanded a op (inl (h, e)) = rw e (ground (arith, h))
demanded a op (inr (inl (h, e))) = rw e (ground (arith, h))
demanded a op (inr (inr (h, e))) = rw e (ground (arith, h))

lacks_mandatory-none :
    (m : Map P11Attribute) (op : ObjectOp) (template : List TemplateEntry) (t : ℕ)
    (a : P11Attribute)
    → lacks_mandatory m op template ≡ false
    → lookup t m ≡ some a
    → is_mandatory a op ≡ true
    → is_specified t template ≡ true
unfolding lacks_mandatory
lacks_mandatory-none [] op template t a full found needed = absurd (ground arith)
lacks_mandatory-none ((u, b) ∷ m) op template t a full found needed = elim (Bool-cases (u == t)) [
  | inl here ↦
      let typed : u ≡ t = ground arith in ground (arith, ap (λ n. is_specified n template) typed)
  | inr away ↦ lacks_mandatory-none m op template t a (ground arith) (ground arith) needed
]

and_then-ok :
    {O : Type 0} (first : CkRv × O) (next : O → CkRv × O)
    → (and_then next first).0 ≡ ok
    → (next first.1).0 ≡ ok
and_then-ok (ok, o) next h = h
and_then-ok (_, o) next h = absurd (ground arith)

module _ {O : Type 0} (I : OsObject O) (ctx : Context) (attributes : Map P11Attribute)
    (hidden : Bool) (op : ObjectOp) where
  save_loop-ok :
      (template : List TemplateEntry) (o : O) (t : ℕ)
      → (save_loop I ctx attributes hidden op template o).0 ≡ ok
      → is_specified t template ≡ true
      → lookup t attributes ≢ none
  unfolding save_loop is_specified
  save_loop-ok [] o t h named = absurd (ground arith)
  save_loop-ok (e ∷ es) o t h named = elim (Option-cases (lookup e.type attributes)) [
    | inl absent ↦ absurd (ground (arith, absent))
    | inr (a, found) ↦
        let first : CkRv × O = update I ctx hidden a e.p_value e.ul_value_len op o in
        let rest =
          save_loop-ok es first.1 t
            (and_then-ok first (save_loop I ctx attributes hidden op es) (ground (arith, found))) in
        elim (Bool-cases (t == e.type)) [
          | inl here ↦ ground (arith, found)
          | inr away ↦ rest (ground arith)
        ]
  ]

  finish-ok :
      (template : List TemplateEntry) (rv : CkRv) (o : O)
      → (finish I ctx attributes op template rv o).0 ≡ ok
      → (rv ≡ ok) × (lacks_mandatory attributes op template ≡ false)
  unfolding finish
  finish-ok template ok o h = elim (Bool-cases (lacks_mandatory attributes op template)) [
    | inl lacks ↦ absurd (ground (arith, lacks))
    | inr full ↦ (refl, full)
  ]
  finish-ok template _ o h = absurd (ground arith)

  save_template-finish :
      (template : List TemplateEntry) (o : O)
      → (save_template I ctx attributes hidden op template o).0 ≡ ok
      → (save_started I ctx attributes hidden op template (I.start_transaction o).1).0 ≡ ok
  unfolding save_template
  save_template-finish template o h = ground arith

  -- When saveTemplate returns CKR_OK, the class has an attribute for each type in the template, and the
  -- template has each attribute of the class that has ck1 when the object is created, ck3 when it is
  -- generated, or ck5 when it is unwrapped.
  pub save_template-ok :
      (template : List TemplateEntry) (o : O)
      → (save_template I ctx attributes hidden op template o).0 ≡ ok
      → ((t : ℕ) → is_specified t template ≡ true → lookup t attributes ≢ none)
        × ((t : ℕ) (a : P11Attribute)
            → lookup t attributes ≡ some a
            → IsDemanded a op
            → is_specified t template ≡ true)
  unfolding save_started
  save_template-ok template o h =
      let o1 : O = (I.start_transaction o).1 in
      let r : CkRv × O = save_loop I ctx attributes hidden op template o1 in
      let (fine, full) = finish-ok template r.0 r.1 (save_template-finish template o h) in
      (
        λ t named. save_loop-ok template o1 t fine named,
        λ t a found needed.
            lacks_mandatory-none attributes op template t a full found (demanded a op needed),
      )
