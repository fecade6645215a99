-- ===== src/Api/Reading.antt =====
-- SoftHSMv2/src/lib/SoftHSM.cpp: who gets to see or to change an object through the handlers.
use archive_aaf_sshsm.Common.{ℕ, ◌≡◌, true, false, some, List, arith}
use archive_aaf_sshsm.Cryptoki.{CkRv, ok, general_error, user_not_logged_in}
use archive_aaf_sshsm.Access.{have_read, have_write}
use archive_aaf_sshsm.Session.{Session, get_state}
use archive_aaf_sshsm.P11Attributes.{TemplateEntry}
use archive_aaf_sshsm.Api.{TokenOps, SoftHsm, is_ok}
use archive_aaf_sshsm.Api.Objects.{
  ObjectOps, find_all_three, is_private_object, is_on_token, c_get_attribute_value,
  c_set_attribute_value, c_destroy_object,
}

module _ {K A O : Type 0} (ops : TokenOps K) (objects : ObjectOps K A O) where
  -- A session of a token to which no user is logged in, and a private object.
  abbrev pub IsForeign : SoftHsm K A → Session × K × O → Type 0
  IsForeign s r =
      (s.is_initialised ≡ true)
      × (ops.view.is_user_logged_in r.1 ≡ false)
      × (is_private_object ops objects r.2 ≡ true)

  foreign-refused :
      (s : SoftHsm K A) (r : Session × K × O)
      → IsForeign s r
      → have_read
          (get_state ops.view r.1 r.0)
          (is_on_token ops objects r.2)
          (is_private_object ops objects r.2)
        ≡ user_not_logged_in
  unfolding have_read get_state
  foreign-refused s r (initialised, out, hidden) = ground (arith, out, hidden)

  foreign-unwritable :
      (s : SoftHsm K A) (r : Session × K × O)
      → IsForeign s r
      → is_ok (
          have_write
            (get_state ops.view r.1 r.0)
            (is_on_token ops objects r.2)
            (is_private_object ops objects r.2))
        ≡ false
  unfolding have_write get_state
  foreign-unwritable s r (initialised, out, hidden) = ground (arith, out, hidden)

  -- The code of the write access is returned, and nothing changes.
  abbrev pub Refused : SoftHsm K A → CkRv × SoftHsm K A → Type 0
  Refused s answer = (is_ok answer.0 ≡ false) × (answer.1 ≡ s)

  gets_nothing :
      (h h_object : ℕ) (template : List TemplateEntry) (s : SoftHsm K A) (r : Session × K × O)
      → find_all_three ops objects h h_object s ≡ (ok, some r)
      → IsForeign s r
      → c_get_attribute_value ops objects h h_object (some template) s
        ≡ (general_error, template, s)
  unfolding c_get_attribute_value
  gets_nothing h h_object template s r found foreign =
      ground (arith, found, foreign.0, foreign-refused s r foreign)

  c_set_attribute_value-Refused :
      (h h_object : ℕ) (template : List TemplateEntry) (s : SoftHsm K A) (r : Session × K × O)
      → find_all_three ops objects h h_object s ≡ (ok, some r)
      → IsForeign s r
      → Refused s (c_set_attribute_value ops objects h h_object (some template) s)
  unfolding c_set_attribute_value
  c_set_attribute_value-Refused h h_object template s r found foreign =
      ground (arith, found, foreign.0, foreign-unwritable s r foreign)

  c_destroy_object-Refused :
      (h h_object : ℕ) (s : SoftHsm K A) (r : Session × K × O)
      → find_all_three ops objects h h_object s ≡ (ok, some r)
      → IsForeign s r
      → Refused s (c_destroy_object ops objects h h_object s)
  unfolding c_destroy_object
  c_destroy_object-Refused h h_object s r found foreign =
      ground (arith, found, foreign.0, foreign-unwritable s r foreign)

  -- In a session of a token to which no user is logged in, a private object cannot be reached:
  -- C_GetAttributeValue answers CKR_GENERAL_ERROR with the template as it was, C_SetAttributeValue and
  -- C_DestroyObject return an error, and none of them changes anything.
  pub handlers_refuse_private :
      (h h_object : ℕ) (template : List TemplateEntry) (s : SoftHsm K A) (r : Session × K × O)
      → find_all_three ops objects h h_object s ≡ (ok, some r)
      → IsForeign s r
      → (c_get_attribute_value ops objects h h_object (some template) s
          ≡ (general_error, template, s))
        × Refused s (c_set_attribute_value ops objects h h_object (some template) s)
        × Refused s (c_destroy_object ops objects h h_object s)
  handlers_refuse_private h h_object template s r found foreign = (
    gets_nothing h h_object template s r found foreign,
    c_set_attribute_value-Refused h h_object template s r found foreign,
    c_destroy_object-Refused h h_object s r found foreign,
  )
