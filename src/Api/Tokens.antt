-- ===== src/Api/Tokens.antt =====
-- What the handlers of SoftHSM.cpp use of Token.cpp, filled by the token.
use archive_aaf_sshsm.Common.{◌≡◌, sym, ◌∙◌, inl, inr, true, arith}
use archive_aaf_sshsm.Crypto.{Crypto}
use archive_aaf_sshsm.ByteString.{Bytes}
use archive_aaf_sshsm.Token
use archive_aaf_sshsm.Token.{Token, is_so_logged_in}
use archive_aaf_sshsm.Token.Store.{TokenStore}
use archive_aaf_sshsm.Token.View.{token_view, token_view-laws}
use archive_aaf_sshsm.Token.Exclusive.{
  logs_in_user, Change, same, cleared, so_entered, user_entered, login_user-Change,
  re_authenticate-same,
}
use archive_aaf_sshsm.Api.{TokenOps, TokenOpsLaws}

module _ {C T : Type 0} (c : Crypto C) (st : TokenStore T) where
  abbrev pub token_ops : TokenOps (Token T)
  token_ops = record {
    view = token_view;
    login_so = Token.login_so c st;
    login_user = Token.login_user c st;
    re_authenticate = Token.re_authenticate c st;
  }

  user_keeps_so :
      (pin : Bytes) (t t' : Token T)
      → Change c st (logs_in_user pin) t t'
      → is_so_logged_in t' ≡ true
      → is_so_logged_in t ≡ true
  user_keeps_so pin t t' (same s u) so = sym s ∙ so
  user_keeps_so pin t t' (cleared s u) so = absurd (ground arith)
  user_keeps_so pin t t' (so_entered p l given at opens s u) so = elim given [
    | inl e ↦ absurd (ground arith)
    | inr (label, rng, e) ↦ absurd (ground arith)
  ]
  user_keeps_so pin t t' (user_entered p l given at opens s u) so = absurd (ground arith)

  pub token_ops-laws : TokenOpsLaws token_ops
  token_ops-laws = record {
    view_laws = token_view-laws;
    login_user_so = λ pin t so. user_keeps_so pin t _ (login_user-Change c st pin t) so;
    re_authenticate_so = λ pin t so. sym (re_authenticate-same c st pin t).0 ∙ so;
  }
