-- ===== src/P11Objects/Reveal.antt =====
-- SoftHSMv2/src/lib/P11Objects.cpp: what loadTemplate gives of a sensitive or unextractable object does not
-- depend on the values that its attributes marked with ck7 have.
use archive_aaf_sshsm.Common.{
  ℕ, ◌≡◌, refl, sym, ap, ◌∙◌, inl, inr, Bool, true, false, not, ◌||◌, Option, none, some, List, [],
  ◌∷◌, arith, ◌==◌, Bool-cases, Option-cases,
}
use archive_aaf_sshsm.Common.Map.{Map, lookup}
use archive_aaf_sshsm.Cryptoki.{CkRv}
use archive_aaf_sshsm.Cryptoki.Attributes.{cka_private, cka_sensitive, cka_extractable}
use archive_aaf_sshsm.OsObject.{OsObject, OsObjectLaws, present, as_boolean}
use archive_aaf_sshsm.P11Attributes.{
  ck7, has, TemplateEntry, Context, P11Attribute, is_sensitive, is_extractable,
}
use archive_aaf_sshsm.P11Attributes.Retrieve.{retrieve}
use archive_aaf_sshsm.P11Objects
use archive_aaf_sshsm.P11Objects.Templates.{
  LoadFlags, no_flags, note_result, load_loop, load_template,
}
use archive_aaf_sshsm.P11Objects.Ratchet.{IsProper}

-- Whether the attribute of that type is marked with ck7.
abbrev pub hides : Map P11Attribute → ℕ → Bool
hides m t = elim (lookup t m) [ none ↦ false | some a ↦ has ck7 a.checks ]

module _ {O : Type 0} {I : OsObject O} (L : OsObjectLaws I) where
  -- What cannot be revealed of the object.
  abbrev pub IsGuarded : O → Type 0
  IsGuarded o = (is_sensitive I o || not (is_extractable I o)) ≡ true

  -- The objects differ at most in attributes that are marked.
  abbrev pub Agree : Map P11Attribute → O → O → Type 0
  Agree m o o' = (t : ℕ) → hides m t ≡ false → L.view t o ≡ L.view t o'

  is_sensitive-view :
      (o o' : O)
      → L.view cka_sensitive o ≡ L.view cka_sensitive o'
      → is_sensitive I o ≡ is_sensitive I o'
  unfolding is_sensitive
  is_sensitive-view o o' e = ground (
    arith,
    e,
    ap (as_boolean false) e,
    ap present e,
    L.exists_view cka_sensitive o,
    L.exists_view cka_sensitive o',
    L.boolean_view cka_sensitive false o,
    L.boolean_view cka_sensitive false o',
  )

  is_extractable-view :
      (o o' : O)
      → L.view cka_extractable o ≡ L.view cka_extractable o'
      → is_extractable I o ≡ is_extractable I o'
  unfolding is_extractable
  is_extractable-view o o' e = ground (
    arith,
    e,
    ap (as_boolean true) e,
    ap present e,
    L.exists_view cka_extractable o,
    L.exists_view cka_extractable o',
    L.boolean_view cka_extractable true o,
    L.boolean_view cka_extractable true o',
  )

  is_private-view :
      (o o' : O)
      → L.view cka_private o ≡ L.view cka_private o'
      → P11Objects.is_private I o ≡ P11Objects.is_private I o'
  unfolding P11Objects.is_private
  is_private-view o o' e = ground (
    arith,
    e,
    ap (as_boolean false) e,
    ap present e,
    L.exists_view cka_private o,
    L.exists_view cka_private o',
    L.boolean_view cka_private false o,
    L.boolean_view cka_private false o',
  )

  module _ (m : Map P11Attribute) (proper : IsProper m) (ctx : Context) where
    open_type-shown :
        (t : ℕ)
        → ((t == cka_sensitive) || ((t == cka_extractable) || (t == cka_private))) ≡ true
        → hides m t ≡ false
    open_type-shown t h = elim (Option-cases (lookup t m)) [
      | inl absent ↦ ground (arith, absent)
      | inr (a, found) ↦ ground (arith, found, proper t a found)
    ]

    retrieve-view :
        (hidden : Bool) (t : ℕ) (a : P11Attribute) (p_value : Option (List ℕ)) (len : ℕ) (o o' : O)
        → lookup t m ≡ some a
        → Agree m o o'
        → IsGuarded o
        → retrieve I ctx hidden a p_value len o ≡ retrieve I ctx hidden a p_value len o'
    unfolding retrieve
    retrieve-view hidden t a p_value len o o' found agree guarded =
        let sensitive =
          is_sensitive-view o o' (agree cka_sensitive (open_type-shown cka_sensitive refl)) in
        let extractable =
          is_extractable-view o o' (agree cka_extractable (open_type-shown cka_extractable refl)) in
        elim (Bool-cases (has ck7 a.checks)) [
          | inl marked ↦ ground (arith, marked, guarded, sensitive, extractable)
          | inr shown ↦
              let typed : a.type ≡ t = ground (arith, proper t a found) in
              let same : L.view a.type o ≡ L.view a.type o' =
                agree a.type (ground (arith, typed, found, shown, ap (hides m) typed)) in
              elim (Option-cases (L.view a.type o)) [
                | inl absent ↦
                    ground
                      (arith, shown, absent, same, L.exists_view a.type o, L.exists_view a.type o')
                | inr (attr, there) ↦ ground (
                  arith,
                  shown,
                  L.exists_view a.type o,
                  L.exists_view a.type o',
                  there,
                  same,
                  L.attribute_view a.type o attr there,
                  L.attribute_view a.type o' attr (sym same ∙ there),
                )
              ]
        ]

    load_loop-view :
        (hidden : Bool) (flags : LoadFlags) (template : List TemplateEntry) (o o' : O)
        → Agree m o o'
        → IsGuarded o
        → load_loop I ctx m hidden o flags template ≡ load_loop I ctx m hidden o' flags template
    unfolding load_loop
    load_loop-view hidden flags [] o o' agree guarded = refl
    load_loop-view hidden flags (e ∷ es) o o' agree guarded =
        elim (Option-cases (lookup e.type m)) [
          | inl absent ↦
              rw (absent, load_loop)
                (rw (load_loop-view hidden (record flags { invalid = true }) es o o' agree guarded)
                  refl)
          | inr (a, found) ↦
              let same =
                retrieve-view hidden e.type a e.p_value e.ul_value_len o o' found agree guarded in
              let rv : CkRv = (retrieve I ctx hidden a e.p_value e.ul_value_len o').0 in
              rw (found, load_loop, same)
                (elim (Option-cases (note_result rv flags)) [
                  | inl stops ↦ rw (stops, load_loop, same) refl
                  | inr (flags', goes_on) ↦
                      rw
                        (
                          goes_on,
                          load_loop,
                          same,
                          load_loop-view hidden flags' es o o' agree guarded,
                        )
                        refl
                ])
        ]

    -- For a class with proper attributes: when two objects differ at most in attributes that are marked with ck7,
    -- and the first is sensitive or not extractable, loadTemplate returns the same code and the same template,
    -- values included, for both.
    pub load_template-view :
        (template : List TemplateEntry) (o o' : O)
        → Agree m o o'
        → IsGuarded o
        → load_template I ctx m template o ≡ load_template I ctx m template o'
    unfolding load_template
    load_template-view template o o' agree guarded =
        let same = is_private-view o o' (agree cka_private (open_type-shown cka_private refl)) in
        rw (same) (load_loop-view (P11Objects.is_private I o') no_flags template o o' agree guarded)
