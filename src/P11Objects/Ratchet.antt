-- ===== src/P11Objects/Ratchet.antt =====
-- SoftHSMv2/src/lib/P11Objects.cpp: what saveTemplate keeps of CKA_SENSITIVE and CKA_EXTRACTABLE, over any
-- number of calls that set or copy attributes.
use archive_aaf_sshsm.Common.{
  ℕ, ◌≡◌, ◌∙◌, inl, inr, Bool, true, false, not, ◌&&◌, ◌||◌, Option, some, List, [], ◌∷◌, arith,
  ◌==◌, Bool-cases, Option-cases,
}
use archive_aaf_sshsm.Common.Map.{Map, lookup}
use archive_aaf_sshsm.Cryptoki.{CkRv, ok}
use archive_aaf_sshsm.Cryptoki.Attributes.{cka_private, cka_sensitive, cka_extractable}
use archive_aaf_sshsm.OsObject.{OsAttribute, boolean, OsObject, OsObjectLaws, TransactionLaws}
use archive_aaf_sshsm.P11Attributes.{ck7, has, ObjectOp, TemplateEntry, Context, P11Attribute}
use archive_aaf_sshsm.P11Attributes.Steps.{changes_object, and_then}
use archive_aaf_sshsm.P11Attributes.Update.{update}
use archive_aaf_sshsm.P11Attributes.Ratchet.{
  is_tame, IsSensitive, IsUnextractable, update-IsSensitive, update-IsUnextractable,
}
use archive_aaf_sshsm.P11Attributes.Frame.{Keeps}
use archive_aaf_sshsm.P11Objects.Templates.{save_loop, finish, save_started, save_template}

-- CKA_SENSITIVE, CKA_EXTRACTABLE and CKA_PRIVATE can be read of every object.
abbrev pub is_open : P11Attribute → Bool
is_open a =
    not (has ck7 a.checks)
    || not ((a.type == cka_sensitive) || ((a.type == cka_extractable) || (a.type == cka_private)))

-- The attributes are tame and open, and stand under their types.
abbrev pub is_proper : ℕ → P11Attribute → Bool
is_proper t a = (a.type == t) && (is_tame a && is_open a)

abbrev pub IsProper : Map P11Attribute → Type 0
IsProper m = (t : ℕ) (a : P11Attribute) → lookup t m ≡ some a → is_proper t a ≡ true

-- A property of objects that holds of the object and of what an abort would leave.
module _ {O : Type 0} (I : OsObject O) (ctx : Context) (attributes : Map P11Attribute)
    (Holds : O → Type 0) (hidden : Bool) (op : ObjectOp) where
  abbrev pub Kept : Type 0
  Kept =
      (t : ℕ) (a : P11Attribute) (p_value : Option (List ℕ)) (len : ℕ) (o : O)
      → lookup t attributes ≡ some a
      → Holds o
      → Holds (update I ctx hidden a p_value len op o).1

  and_then-Holds :
      (first : CkRv × O) (next : O → CkRv × O)
      → Holds first.1
      → ((o : O) → Holds o → Holds (next o).1)
      → Holds (and_then next first).1
  and_then-Holds (ok, o) next h k = k o h
  and_then-Holds (_, o) next h k = h

  pub save_loop-Holds :
      Kept
      → (template : List TemplateEntry) (o : O) → Holds o
      → Holds (save_loop I ctx attributes hidden op template o).1
  unfolding save_loop
  save_loop-Holds kept [] o h = h
  save_loop-Holds kept (e ∷ es) o h = elim (Option-cases (lookup e.type attributes)) [
    | inl absent ↦ rw (absent, save_loop) h
    | inr (a, found) ↦
        rw (found, save_loop)
          (and_then-Holds (update I ctx hidden a e.p_value e.ul_value_len op o)
            (save_loop I ctx attributes hidden op es)
            (kept e.type a e.p_value e.ul_value_len o found h)
            (λ o' h'. save_loop-Holds kept es o' h'))
  ]

module _ {O : Type 0} {I : OsObject O} {L : OsObjectLaws I} (T : TransactionLaws L) where
  -- CKA_SENSITIVE is true in the object and in what an abort would leave; so for CKA_EXTRACTABLE.
  abbrev IsLocked : O → Type 0
  IsLocked o = IsSensitive L o × (T.saved cka_sensitive o ≡ some (boolean true))

  abbrev IsShut : O → Type 0
  IsShut o = IsUnextractable L o × (T.saved cka_extractable o ≡ some (boolean false))

  view-Keeps : (u : ℕ) → Keeps I (L.view u) u
  view-Keeps u t a o h = ground (arith, L.set_view t u a o)

  module _ (ctx : Context) (attributes : Map P11Attribute) (proper : IsProper attributes)
      (hidden : Bool) (op : ObjectOp) (h : changes_object op ≡ true) where
    finish-view :
        (t : ℕ) (v : Option OsAttribute) (template : List TemplateEntry) (rv : CkRv) (o : O)
        → L.view t o ≡ v
        → T.saved t o ≡ v
        → L.view t (finish I ctx attributes op template rv o).1 ≡ v
    unfolding finish
    finish-view t v template ok o now saved = ground (arith, T.commit_view t o)
    finish-view t v template _ o now saved = T.abort_view t o ∙ saved

    save_started-IsSensitive :
        (template : List TemplateEntry) (o : O)
        → IsLocked o
        → IsSensitive L (save_started I ctx attributes hidden op template o).1
    unfolding save_started
    save_started-IsSensitive template o locked =
        let kept : Kept I ctx attributes IsLocked hidden op =
          λ t a p_value len o found (now, saved). (
            update-IsSensitive L (L.view cka_sensitive) ctx hidden a p_value len op o
                  (view-Keeps cka_sensitive) (ground (arith, proper t a found)) h now
                ∙ now,
            update-IsSensitive L (T.saved cka_sensitive) ctx hidden a p_value len op o
                  (λ t a o e. T.set_saved t cka_sensitive a o e) (ground (arith, proper t a found))
                  h now
                ∙ saved,
          ) in
        let (now, saved) =
          save_loop-Holds I ctx attributes IsLocked hidden op kept template o locked in
        finish-view cka_sensitive (some (boolean true)) template
          (save_loop I ctx attributes hidden op template o).0
          (save_loop I ctx attributes hidden op template o).1 now saved

    save_started-IsUnextractable :
        (template : List TemplateEntry) (o : O)
        → IsShut o
        → IsUnextractable L (save_started I ctx attributes hidden op template o).1
    unfolding save_started
    save_started-IsUnextractable template o locked =
        let kept : Kept I ctx attributes IsShut hidden op = λ t a p_value len o found (now, saved).
          (
            update-IsUnextractable L (L.view cka_extractable) ctx hidden a p_value len op o
                  (view-Keeps cka_extractable) (ground (arith, proper t a found)) h now
                ∙ now,
            update-IsUnextractable L (T.saved cka_extractable) ctx hidden a p_value len op o
                  (λ t a o e. T.set_saved t cka_extractable a o e)
                  (ground (arith, proper t a found)) h now
                ∙ saved,
          ) in
        let (now, saved) =
          save_loop-Holds I ctx attributes IsShut hidden op kept template o locked in
        finish-view cka_extractable (some (boolean false)) template
          (save_loop I ctx attributes hidden op template o).0
          (save_loop I ctx attributes hidden op template o).1 now saved

    -- The guards in front come after the start of the transaction, which aborts when one of them holds.
    save_template-view :
        (t : ℕ) (v : Option OsAttribute) (template : List TemplateEntry) (o : O)
        → ((o' : O)
            → L.view t o' ≡ v
            → T.saved t o' ≡ v
            → L.view t (save_started I ctx attributes hidden op template o').1 ≡ v)
        → L.view t o ≡ v
        → L.view t (save_template I ctx attributes hidden op template o).1 ≡ v
    unfolding save_template
    save_template-view t v template o started now =
        let o' : O = (I.start_transaction o).1 in
        elim (Bool-cases (I.start_transaction o).0) [
          | inl begun ↦
              let saved : T.saved t o' ≡ v = T.start_saved t o begun ∙ now in
              let now' : L.view t o' ≡ v = T.start_view t o ∙ now in
              ground (arith, begun, saved, T.abort_view t o', started o' now' saved)
          | inr refused ↦ ground (arith, refused, now, T.start_view t o)
        ]

  -- A set or a copy keeps CKA_SENSITIVE true and CKA_EXTRACTABLE false, whatever it returns.
  pub save_template-IsSensitive :
      (ctx : Context) (attributes : Map P11Attribute) (hidden : Bool) (op : ObjectOp)
      (template : List TemplateEntry) (o : O)
      → IsProper attributes
      → changes_object op ≡ true
      → IsSensitive L o
      → IsSensitive L (save_template I ctx attributes hidden op template o).1
  save_template-IsSensitive ctx attributes hidden op template o proper h now =
      save_template-view ctx attributes proper hidden op h cka_sensitive (some (boolean true))
        template o
        (λ o' now' saved.
          save_started-IsSensitive ctx attributes proper hidden op h template o' (now', saved))
        now

  pub save_template-IsUnextractable :
      (ctx : Context) (attributes : Map P11Attribute) (hidden : Bool) (op : ObjectOp)
      (template : List TemplateEntry) (o : O)
      → IsProper attributes
      → changes_object op ≡ true
      → IsUnextractable L o
      → IsUnextractable L (save_template I ctx attributes hidden op template o).1
  save_template-IsUnextractable ctx attributes hidden op template o proper h now =
      save_template-view ctx attributes proper hidden op h cka_extractable (some (boolean false))
        template o
        (λ o' now' saved.
          save_started-IsUnextractable ctx attributes proper hidden op h template o' (now', saved))
        now

-- Any number of calls that set or copy the attributes of an object, by any users and in any sessions.
pub data Changed {O : Type 0} (I : OsObject O) (attributes : Map P11Attribute) (first : O)
    : O → Type 0 where
  unchanged : Changed I attributes first first
  changed :
      (o : O) (ctx : Context) (hidden : Bool) (op : ObjectOp) (template : List TemplateEntry)
      → changes_object op ≡ true
      → Changed I attributes first o
      → Changed I attributes first (save_template I ctx attributes hidden op template o).1

module _ {O : Type 0} {I : OsObject O} {L : OsObjectLaws I} (T : TransactionLaws L)
    (attributes : Map P11Attribute) (proper : IsProper attributes) (first : O) where
  -- For a class with proper attributes, on objects that keep the contract of transactions: when CKA_SENSITIVE
  -- is true, it is true after any number of calls of saveTemplate that set or copy attributes, whatever they
  -- return.
  pub Changed-IsSensitive :
      (o : O) → Changed I attributes first o → IsSensitive L first → IsSensitive L o
  Changed-IsSensitive _ unchanged now = now
  Changed-IsSensitive _ (changed o ctx hidden op template h before) now =
      save_template-IsSensitive T ctx attributes hidden op template o proper h
        (Changed-IsSensitive o before now)

  -- For a class with proper attributes, on objects that keep the contract of transactions: when CKA_EXTRACTABLE
  -- is false, it is false after any number of calls of saveTemplate that set or copy attributes, whatever
  -- they return.
  pub Changed-IsUnextractable :
      (o : O) → Changed I attributes first o → IsUnextractable L first → IsUnextractable L o
  Changed-IsUnextractable _ unchanged now = now
  Changed-IsUnextractable _ (changed o ctx hidden op template h before) now =
      save_template-IsUnextractable T ctx attributes hidden op template o proper h
        (Changed-IsUnextractable o before now)
