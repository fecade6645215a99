-- ===== src/SessionObjects/Removal.antt =====
-- SessionObjectStore.cpp: what closing a session, closing a slot's sessions and logging out leave.
use archive_aaf_sshsm.Common.{
  ℕ, ◌≡◌, refl, ap, inl, inr, Bool, true, false, not, ◌&&◌, Option, none, some, List, [], ◌∷◌,
  arith, ◌==◌, if◌then◌else◌, Option-cases,
}
use archive_aaf_sshsm.Common.Map.{lookup, insert, lookup-insert}
use archive_aaf_sshsm.SessionObjects.{
  member, remove, SessionObject, SessionObjectStore, invalidate, remove_on_session_close,
  remove_on_all_sessions_close, remove_on_token_logout, remove_each, session_closed,
  all_sessions_closed, token_logged_out,
}

pub member-remove :
    (a b : ℕ) (xs : List ℕ) → member a (remove b xs) ≡ (if b == a then false else member a xs)
unfolding member remove
member-remove a b [] = ground arith
member-remove a b (x ∷ xs) = ground (arith, member-remove a b xs)

module _ {A : Type 0} where
  abbrev pub chosen : (SessionObject A → Bool) → Option (SessionObject A) → Bool
  chosen p none = false
  chosen p (some o) = p o

  abbrev pub marked : (SessionObject A → Bool) → Option (SessionObject A) → Option (SessionObject A)
  marked p none = none
  marked p (some o) = some (if p o then invalidate o else o)

  abbrev pub made_in : ℕ → SessionObject A → Bool
  made_in h o = o.h_session == h

  abbrev pub lies_on : ℕ → SessionObject A → Bool
  lies_on slot_id o = o.slot_id == slot_id

  abbrev pub private_on : ℕ → SessionObject A → Bool
  private_on slot_id o = (o.slot_id == slot_id) && o.is_private

  -- At an address: a listed object with the property is invalid, has no attributes and is not listed
  -- afterwards; every other object is as it was, and listed exactly if it was.
  abbrev pub Swept :
      (SessionObject A → Bool) → SessionObjectStore A → SessionObjectStore A → ℕ → Type 0
  Swept p s t a =
      (lookup a t.all_objects ≡ (
        if member a s.objects then marked p (lookup a s.all_objects) else lookup a s.all_objects))
      × (member a t.objects ≡ (member a s.objects && not (chosen p (lookup a s.all_objects))))

  again : (o : SessionObject A) → invalidate (invalidate o) ≡ invalidate o
  unfolding invalidate
  again o = refl

  -- The test of a removal, which invalidating an object does not change.
  module _ (p : SessionObject A → Bool) (f : SessionObject A → Bool × SessionObject A)
      (by : (o : SessionObject A) → f o ≡ (if p o then (true, invalidate o) else (false, o)))
      (stable : (o : SessionObject A) → p (invalidate o) ≡ p o) where
    abbrev after : ℕ → SessionObject A → SessionObjectStore A → SessionObjectStore A
    after a o s = record {
      objects = if (f o).0 then remove a s.objects else s.objects;
      all_objects = insert a (f o).1 s.all_objects;
    }

    opened :
        (x : ℕ) (xs : List ℕ) (o : SessionObject A) (s : SessionObjectStore A)
        → lookup x s.all_objects ≡ some o
        → remove_each f (x ∷ xs) s ≡ remove_each f xs (after x o s)
    unfolding remove_each
    opened x xs o s e = rw (e, remove_each) refl

    opened_none :
        (x : ℕ) (xs : List ℕ) (s : SessionObjectStore A)
        → lookup x s.all_objects ≡ none
        → remove_each f (x ∷ xs) s ≡ remove_each f xs s
    unfolding remove_each
    opened_none x xs s e = rw (e, remove_each) refl

    here :
        (x a : ℕ) (o : SessionObject A) (s : SessionObjectStore A)
        → lookup a (after x o s).all_objects
          ≡ (if x == a then marked p (some o) else lookup a s.all_objects)
    here x a o s = ground (arith, lookup-insert x a (f o).1 s.all_objects, by o)

    at_same :
        (x a : ℕ) (s : SessionObjectStore A)
        → (x == a) ≡ true
        → lookup x s.all_objects ≡ lookup a s.all_objects
    at_same x a s h = let same : x ≡ a = ground arith in ap (λ i. lookup i s.all_objects) same

    lookup-remove_each :
        (a : ℕ) (xs : List ℕ) (s : SessionObjectStore A)
        → lookup a (remove_each f xs s).all_objects
          ≡ (if member a xs then marked p (lookup a s.all_objects) else lookup a s.all_objects)
    unfolding member remove_each
    lookup-remove_each a [] s = refl
    lookup-remove_each a (x ∷ xs) s = elim (Option-cases (lookup x s.all_objects)) [
      | inl e ↦
          rw (opened_none x xs s e) (ground (arith, e, lookup-remove_each a xs s, at_same x a s))
      | inr (o, e) ↦ rw (opened x xs o s e) (
          ground (
            arith,
            e,
            lookup-remove_each a xs (after x o s),
            here x a o s,
            at_same x a s,
            stable o,
            again o,
          ))
    ]

    member-remove_each :
        (a : ℕ) (xs : List ℕ) (s : SessionObjectStore A)
        → member a (remove_each f xs s).objects
          ≡ (member a s.objects && not (member a xs && chosen p (lookup a s.all_objects)))
    unfolding member remove_each
    member-remove_each a [] s = ground arith
    member-remove_each a (x ∷ xs) s = elim (Option-cases (lookup x s.all_objects)) [
      | inl e ↦
          rw (opened_none x xs s e) (ground (arith, e, member-remove_each a xs s, at_same x a s))
      | inr (o, e) ↦ rw (opened x xs o s e) (
          ground (
            arith,
            e,
            member-remove_each a xs (after x o s),
            here x a o s,
            at_same x a s,
            stable o,
            by o,
            member-remove a x s.objects,
          ))
    ]

  -- Closing a session invalidates the listed objects made in it and takes them off the list; every other
  -- object is as it was, and listed exactly if it was.
  pub session_closed_lem :
      (h a : ℕ) (s : SessionObjectStore A) → Swept (made_in h) s (session_closed h s) a
  unfolding session_closed remove_on_session_close invalidate
  session_closed_lem h a s = (
    lookup-remove_each (made_in h) (remove_on_session_close h) (λ o. refl) (λ o. refl) a s.objects
        s,
    ground (
      arith,
      member-remove_each (made_in h) (remove_on_session_close h) (λ o. refl) (λ o. refl) a s.objects
          s,
    ),
  )

  -- Closing all sessions of a slot does so to the listed objects of the slot, and only to them.
  pub all_sessions_closed_lem :
      (slot_id a : ℕ) (s : SessionObjectStore A)
      → Swept (lies_on slot_id) s (all_sessions_closed slot_id s) a
  unfolding all_sessions_closed remove_on_all_sessions_close invalidate
  all_sessions_closed_lem slot_id a s =
      let f = remove_on_all_sessions_close slot_id in
      (
        lookup-remove_each (lies_on slot_id) f (λ o. refl) (λ o. refl) a s.objects s,
        ground
            (arith, member-remove_each (lies_on slot_id) f (λ o. refl) (λ o. refl) a s.objects s),
      )

  -- A logout invalidates the listed private objects of the slot and takes them off the list; every other
  -- object is as it was, and listed exactly if it was.
  pub token_logged_out_lem :
      (slot_id a : ℕ) (s : SessionObjectStore A)
      → Swept (private_on slot_id) s (token_logged_out slot_id s) a
  unfolding token_logged_out remove_on_token_logout invalidate
  token_logged_out_lem slot_id a s =
      let f = remove_on_token_logout slot_id in
      (
        lookup-remove_each (private_on slot_id) f (λ o. refl) (λ o. refl) a s.objects s,
        ground (
          arith,
          member-remove_each (private_on slot_id) f (λ o. refl) (λ o. refl) a s.objects s,
        ),
      )
