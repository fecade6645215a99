-- ===== src/SessionObjects/Run.antt =====
-- SessionObjectStore.cpp: the store through every sequence of its operations. Only clearStore, when the
-- library is finalised, frees objects; it is not among them.
use archive_aaf_sshsm.Common.{
  ℕ, ◌≡◌, refl, sym, ◌∙◌, subst, inl, inr, Bool, true, false, Option, none, some, arith, ◌==◌,
  if◌then◌else◌, Bool-cases, Option-cases,
}
use archive_aaf_sshsm.Common.Map.{lookup, lookup-insert}
use archive_aaf_sshsm.SessionObjects.{
  member, new_session_object, SessionObject, SessionObjectStore, invalidate, create_object,
  delete_object, session_closed, all_sessions_closed, token_logged_out,
}
use archive_aaf_sshsm.SessionObjects.Removal.{
  member-remove, marked, made_in, lies_on, private_on, Swept, session_closed_lem,
  all_sessions_closed_lem, token_logged_out_lem,
}

module _ {A : Type 0} where
  -- One store is reached from another. A new object lies where no object is allocated.
  pub data Reaches (s : SessionObjectStore A) : SessionObjectStore A → Type 0 where
    start : Reaches s s
    creates :
        (t : SessionObjectStore A) (a slot_id h_session : ℕ) (is_private : Bool)
        → Reaches s t
        → lookup a t.all_objects ≡ none
        → Reaches s (create_object a slot_id h_session is_private t)
    deletes : (t : SessionObjectStore A) (a : ℕ) → Reaches s t → Reaches s (delete_object a t).1
    closes_session :
        (t : SessionObjectStore A) (h : ℕ) → Reaches s t → Reaches s (session_closed h t)
    closes_slot :
        (t : SessionObjectStore A) (slot_id : ℕ)
        → Reaches s t
        → Reaches s (all_sessions_closed slot_id t)
    logs_out :
        (t : SessionObjectStore A) (slot_id : ℕ)
        → Reaches s t
        → Reaches s (token_logged_out slot_id t)

  -- An allocated object stays allocated, with its slot, session and privacy, and stays invalid once it is.
  abbrev pub Later : Option (SessionObject A) → Option (SessionObject A) → Type 0
  Later none after = Unit
  Later (some o) none = ⊥
  Later (some o) (some o') =
      (o'.slot_id ≡ o.slot_id)
      × (o'.h_session ≡ o.h_session)
      × (o'.is_private ≡ o.is_private)
      × (o.valid ≡ false → o'.valid ≡ false)

  Later-refl : (o : Option (SessionObject A)) → Later o o
  Later-refl none = tt
  Later-refl (some o) = (refl, refl, refl, λ e. e)

  Later-trans : (a b c : Option (SessionObject A)) → Later a b → Later b c → Later a c
  Later-trans none b c p q = tt
  Later-trans (some o) none c p q = absurd p
  Later-trans (some o) (some o') none p q = absurd q
  Later-trans (some o) (some o') (some x) p q = (q.0 ∙ p.0, q.1 ∙ p.1, q.2 ∙ p.2, λ e. q.3 (p.3 e))

  Later-marked :
      (listed : Bool) (p : SessionObject A → Bool) (o : Option (SessionObject A))
      → Later o (if listed then marked p o else o)
  unfolding invalidate
  Later-marked listed p none = tt
  Later-marked listed p (some o) = ground arith

  -- Every listed object is allocated and valid.
  abbrev pub IsLive : SessionObjectStore A → Type 0
  IsLive s =
      (a : ℕ)
      → member a s.objects ≡ true
      → (o : SessionObject A) × (lookup a s.all_objects ≡ some o) × (o.valid ≡ true)

  -- What a removal does to an address keeps it live.
  Swept-IsLive :
      (s t : SessionObjectStore A) (p : SessionObject A → Bool)
      → IsLive s
      → ((a : ℕ) → Swept p s t a)
      → IsLive t
  Swept-IsLive s t p live by a listed =
      let was : member a s.objects ≡ true = ground (arith, by a) in
      let (o, at, val) = live a was in (o, ground (arith, by a, at), val)

  delete-IsLive : (s : SessionObjectStore A) (x : ℕ) → IsLive s → IsLive (delete_object x s).1
  unfolding delete_object
  delete-IsLive s x live a listed = elim (Option-cases (lookup x s.all_objects)) [
    | inl e ↦
        let same : (delete_object x s).1 ≡ s = ground arith in subst IsLive (sym same) live a listed
    | inr (o, e) ↦
        let was : member a s.objects ≡ true = ground (arith, member-remove a x s.objects) in
        let (o', at, val) = live a was in
        (
          o',
          ground (
            arith,
            at,
            member-remove a x s.objects,
            lookup-insert x a (invalidate o) s.all_objects,
          ),
          val,
        )
  ]

  delete-Later :
      (s : SessionObjectStore A) (x a : ℕ)
      → Later (lookup a s.all_objects) (lookup a (delete_object x s).1.all_objects)
  unfolding delete_object invalidate
  delete-Later s x a = elim (Option-cases (lookup x s.all_objects)) [
    | inl e ↦ ground (arith, Later-refl (lookup a s.all_objects))
    | inr (o, e) ↦ elim (Bool-cases (x == a)) [
      | inl same ↦
          let at : x ≡ a = ground arith in
          let found : lookup a s.all_objects ≡ some o =
            subst (λ i. lookup i s.all_objects ≡ some o) at e in
          elim (Bool-cases (member x s.objects)) [
            | inl listed ↦
                let after : lookup a (delete_object x s).1.all_objects ≡ some (invalidate o) =
                  ground (arith, e, lookup-insert x a (invalidate o) s.all_objects) in
                rw (found, after) (refl, refl, refl, λ v. refl)
            | inr absent ↦
                let after : lookup a (delete_object x s).1.all_objects ≡ some o = ground arith in
                rw (found, after) (refl, refl, refl, λ v. v)
          ]
      | inr ne ↦ ground (
        arith,
        Later-refl (lookup a s.all_objects),
        lookup-insert x a (invalidate o) s.all_objects,
      )
    ]
  ]

  create-IsLive :
      (s : SessionObjectStore A) (x slot_id h : ℕ) (p : Bool)
      → IsLive s
      → IsLive (create_object x slot_id h p s)
  unfolding create_object member
  create-IsLive s x slot_id h p live a listed = elim (Bool-cases (x == a)) [
    | inl same ↦ (
      new_session_object slot_id h p,
      ground (arith, lookup-insert x a (new_session_object {A = A} slot_id h p) s.all_objects),
      refl,
    )
    | inr ne ↦
        let (o, at, val) = live a (ground arith) in
        (
          o,
          ground
              (arith, at, lookup-insert x a (new_session_object {A = A} slot_id h p) s.all_objects),
          val,
        )
  ]

  create-Later :
      (s : SessionObjectStore A) (x slot_id h : ℕ) (p : Bool) (a : ℕ)
      → lookup x s.all_objects ≡ none
      → Later (lookup a s.all_objects) (lookup a (create_object x slot_id h p s).all_objects)
  unfolding create_object
  create-Later s x slot_id h p a free = elim (Bool-cases (x == a)) [
    | inl same ↦
        let at : x ≡ a = ground arith in
        let gone : lookup a s.all_objects ≡ none =
          subst (λ i. lookup i s.all_objects ≡ none) at free in
        rw gone tt
    | inr ne ↦
        rw (lookup-insert x a (new_session_object {A = A} slot_id h p) s.all_objects, ne)
          (Later-refl (lookup a s.all_objects))
  ]

  Swept-Later :
      (p : SessionObject A → Bool) (s t : SessionObjectStore A) (a : ℕ)
      → Swept p s t a
      → Later (lookup a s.all_objects) (lookup a t.all_objects)
  Swept-Later p s t a swept =
      rw (swept.0) (Later-marked (member a s.objects) p (lookup a s.all_objects))

  -- In every store that is reached from one whose listed objects are all allocated and valid, the listed
  -- objects are so too.
  pub Reaches-IsLive : (s t : SessionObjectStore A) → Reaches s t → IsLive s → IsLive t
  Reaches-IsLive s _ start live = live
  Reaches-IsLive s _ (creates t a slot_id h p r free) live =
      create-IsLive t a slot_id h p (Reaches-IsLive s t r live)
  Reaches-IsLive s _ (deletes t a r) live = delete-IsLive t a (Reaches-IsLive s t r live)
  Reaches-IsLive s _ (closes_session t h r) live =
      Swept-IsLive t (session_closed h t) (made_in h) (Reaches-IsLive s t r live)
        (λ a. session_closed_lem h a t)
  Reaches-IsLive s _ (closes_slot t slot_id r) live =
      Swept-IsLive t (all_sessions_closed slot_id t) (lies_on slot_id) (Reaches-IsLive s t r live)
        (λ a. all_sessions_closed_lem slot_id a t)
  Reaches-IsLive s _ (logs_out t slot_id r) live =
      Swept-IsLive t (token_logged_out slot_id t) (private_on slot_id) (Reaches-IsLive s t r live)
        (λ a. token_logged_out_lem slot_id a t)

  -- An object that is allocated in a store stays so in every store reached from it, with its slot, its
  -- session and its privacy, and once it is invalid it stays invalid: a pointer to it never dangles.
  pub Reaches-Later :
      (s t : SessionObjectStore A) (a : ℕ)
      → Reaches s t
      → Later (lookup a s.all_objects) (lookup a t.all_objects)
  Reaches-Later s _ a start = Later-refl (lookup a s.all_objects)
  Reaches-Later s _ a (creates t x slot_id h p r free) =
      Later-trans _ _ _ (Reaches-Later s t a r) (create-Later t x slot_id h p a free)
  Reaches-Later s _ a (deletes t x r) =
      Later-trans _ _ _ (Reaches-Later s t a r) (delete-Later t x a)
  Reaches-Later s _ a (closes_session t h r) =
      Later-trans _ _ _ (Reaches-Later s t a r)
        (Swept-Later (made_in h) t (session_closed h t) a (session_closed_lem h a t))
  Reaches-Later s _ a (closes_slot t slot_id r) = Later-trans _ _ _ (Reaches-Later s t a r) (
      Swept-Later (lies_on slot_id) t (all_sessions_closed slot_id t) a
        (all_sessions_closed_lem slot_id a t))
  Reaches-Later s _ a (logs_out t slot_id r) = Later-trans _ _ _ (Reaches-Later s t a r) (
      Swept-Later (private_on slot_id) t (token_logged_out slot_id t) a
        (token_logged_out_lem slot_id a t))
