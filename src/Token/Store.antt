-- ===== src/Token/Store.antt =====
-- The part of ObjectStoreToken (SoftHSMv2/src/lib/object_store) that Token.cpp calls: the flags and
-- the two key blobs of a stored token. `none` and `false` are failed calls.
use archive_aaf_sshsm.Common.{ℕ, ◌≡◌, ◌≢◌, Bool, true, Option, none}
use archive_aaf_sshsm.ByteString.{Bytes}

pub record TokenStore (T : Type 0) : Type 0 where
  pub is_valid : T → Bool
  pub get_token_flags : T → Option ℕ
  pub set_token_flags : ℕ → T → T
  pub get_so_pin : T → Option Bytes
  pub get_user_pin : T → Option Bytes
  pub set_so_pin : Bytes → T → Bool × T
  pub set_user_pin : Bytes → T → Bool × T
  pub reset_token : Bytes → T → Bool × T
  -- ObjectStore::newToken.
  pub new_token : Bytes → Option T

-- Writing the flags keeps the blobs and keeps the flags readable, and so does writing a blob.
pub record StoreLaws {T : Type 0} (st : TokenStore T) : Type 0 where
  pub flags_keep_readable :
      (f : ℕ) (t : T)
      → st.get_token_flags t ≢ none
      → st.get_token_flags (st.set_token_flags f t) ≢ none
  pub user_pin_keeps_readable :
      (b : Bytes) (t : T)
      → (st.set_user_pin b t).0 ≡ true
      → st.get_token_flags (st.set_user_pin b t).1 ≢ none
