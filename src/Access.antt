-- ===== src/Access.antt =====
-- SoftHSMv2/src/lib/access.cpp: which session states may read and write which objects.
pub mod Table
use archive_aaf_sshsm.Common.{Bool, if◌then◌else◌}
use archive_aaf_sshsm.Cryptoki.{
  CkRv, ok, general_error, user_not_logged_in, session_read_only, CkState, ro_public_session,
  ro_user_functions, rw_public_session, rw_user_functions, rw_so_functions, other,
}

unfoldable pub have_read : CkState → Bool → Bool → CkRv
have_read ro_public_session is_token_object is_private_object =
    if is_private_object then user_not_logged_in else ok
have_read rw_public_session is_token_object is_private_object =
    if is_private_object then user_not_logged_in else ok
have_read rw_so_functions is_token_object is_private_object =
    if is_private_object then user_not_logged_in else ok
have_read ro_user_functions is_token_object is_private_object = ok
have_read rw_user_functions is_token_object is_private_object = ok
have_read (other n) is_token_object is_private_object = general_error

unfoldable pub have_write : CkState → Bool → Bool → CkRv
have_write ro_public_session is_token_object is_private_object =
    if is_token_object
    then session_read_only
    else if is_private_object
    then user_not_logged_in
    else ok
have_write rw_public_session is_token_object is_private_object =
    if is_private_object then user_not_logged_in else ok
have_write rw_so_functions is_token_object is_private_object =
    if is_private_object then user_not_logged_in else ok
have_write ro_user_functions is_token_object is_private_object =
    if is_token_object then session_read_only else ok
have_write rw_user_functions is_token_object is_private_object = ok
have_write (other n) is_token_object is_private_object = general_error
