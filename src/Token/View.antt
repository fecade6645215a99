-- ===== src/Token/View.antt =====
-- What the session manager uses of Token.cpp, filled by the token.
use archive_aaf_sshsm.Common.{arith}
use archive_aaf_sshsm.SecureData
use archive_aaf_sshsm.Session.{TokenView, TokenViewLaws}
use archive_aaf_sshsm.Token.{Token, is_initialized, is_so_logged_in, is_user_logged_in, logout}

module _ {T : Type 0} where
  abbrev pub token_view : TokenView (Token T)
  token_view = record {
    is_initialized = is_initialized;
    is_so_logged_in = is_so_logged_in;
    is_user_logged_in = is_user_logged_in;
    logout = logout;
  }

  pub token_view-laws : TokenViewLaws token_view
  unfolding is_initialized is_so_logged_in is_user_logged_in logout SecureData.logout
  token_view-laws = record {
    logout_so = λ t. ground arith;
    logout_user = λ t. ground arith;
    logout_initialized = λ t. ground arith;
  }
