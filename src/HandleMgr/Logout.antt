-- ===== src/HandleMgr/Logout.antt =====
-- What logging out does to the handles and to the registrations of the objects.
use archive_aaf_sshsm.Common.{
  ℕ, ◌≡◌, refl, ◌∙◌, Bool, ◌&&◌, ◌==◌, sym, inl, inr, true, Option, none, some, arith, Bool-cases,
}
use archive_aaf_sshsm.Common.Map.{lookup}
use archive_aaf_sshsm.HandleMgr.{
  object, is_object, Handle, HandleManager, private_of_slot, token_logged_out,
}
use archive_aaf_sshsm.HandleMgr.Sweep.{kept, lookup-sweep}
use archive_aaf_sshsm.HandleMgr.Invariant.{Inv, sweep-Inv, registered-sweep, registered_entry}

pub lookup-token_logged_out :
    (slot_id : ℕ) (m : HandleManager) (k : ℕ)
    → Inv m
    → lookup k (token_logged_out slot_id m).handles
      ≡ kept (private_of_slot slot_id) (lookup k m.handles)
unfolding token_logged_out
lookup-token_logged_out slot_id m k inv = lookup-sweep (private_of_slot slot_id) m k inv.unique

-- The handle stands for a private object on the slot.
abbrev pub IsPrivateOn : ℕ → Handle → Type 0
IsPrivateOn slot_id e = (e.kind ≡ object) × (e.slot_id ≡ slot_id) × (e.is_private ≡ true)

-- The same as a test, written apart from the loop of tokenLoggedOut.
abbrev pub private_handle_on : ℕ → Handle → Bool
private_handle_on slot_id e = e.is_private && (is_object e.kind && (e.slot_id == slot_id))

pub kept-private_handle_on :
    (slot_id : ℕ) (o : Option Handle)
    → kept (private_of_slot slot_id) o ≡ kept (private_handle_on slot_id) o
kept-private_handle_on slot_id none = refl
kept-private_handle_on slot_id (some e) = ground arith

public_left :
    (slot_id : ℕ) (e : Handle) (o : Option Handle)
    → kept (private_of_slot slot_id) o ≡ some e
    → ¬ IsPrivateOn slot_id e
public_left slot_id e none h (kd, sl, pr) = absurd (ground arith)
public_left slot_id e (some e') h (kd, sl, pr) = ground arith

-- After a logout from the slot a handle of a private object on it finds nothing, every other handle finds
-- what it found before, and an object that is still registered is registered under the same handle as
-- before, which stands for that object and not for a private one on the slot.
pub logout_invalidates :
    (slot_id : ℕ) (m : HandleManager) (k : ℕ)
    → Inv m
    → let m' = token_logged_out slot_id m in
      ((e : Handle)
        → lookup k m.handles ≡ some e
        → IsPrivateOn slot_id e
        → lookup k m'.handles ≡ none)
      × ((e : Handle)
          → lookup k m.handles ≡ some e
          → ¬ IsPrivateOn slot_id e
          → lookup k m'.handles ≡ some e)
      × (lookup k m.handles ≡ none → lookup k m'.handles ≡ none)
      × ((o : ℕ)
          → lookup o m'.objects ≡ some k
          → (lookup o m.objects ≡ some k)
            × (e : Handle) × (lookup k m'.handles ≡ some e)
            × (e.ptr ≡ o)
            × (e.kind ≡ object)
            × ¬ IsPrivateOn slot_id e)
unfolding token_logged_out
logout_invalidates slot_id m k inv =
    let left = lookup-sweep (private_of_slot slot_id) m k inv.unique in
    (
      λ e found private_on. ground (arith, left, found, private_on.0, private_on.1, private_on.2),
      λ e found public_on. elim (Bool-cases (private_of_slot slot_id e)) [
        | inl selected ↦ absurd (public_on (ground arith, ground arith, ground arith))
        | inr passed ↦ ground (arith, left, found, passed)
      ],
      λ gone. ground (arith, left, gone),
      λ o registered.
          let (e, found, kd, at) =
            registered_entry o k (token_logged_out slot_id m)
              (sweep-Inv m inv (private_of_slot slot_id)) registered in
          (
            registered-sweep (private_of_slot slot_id) m o k registered,
            e,
            found,
            at,
            kd,
            public_left slot_id e (lookup k m.handles) (sym left ∙ found),
          ),
    )
