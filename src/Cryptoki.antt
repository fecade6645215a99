-- ===== src/Cryptoki.antt =====
-- SoftHSMv2/src/lib/pkcs11/pkcs11t.h: the return codes and session states that the modelled code
-- uses. `other n` stands for a CK_STATE that is none of the five.
pub mod Attributes
use archive_aaf_sshsm.Common.{ℕ, ◌-◌, ◌^◌}

pub data CkRv : Type 0 where
  ok slot_id_invalid general_error function_failed arguments_bad attribute_read_only : CkRv
  attribute_sensitive attribute_type_invalid attribute_value_invalid action_prohibited : CkRv
  device_error function_not_supported object_handle_invalid operation_active : CkRv
  operation_not_initialized pin_incorrect pin_len_range session_handle_invalid : CkRv
  session_parallel_not_supported session_read_only session_exists session_read_only_exists : CkRv
  session_read_write_so_exists template_inconsistent token_not_present : CkRv
  token_not_recognized user_already_logged_in user_not_logged_in user_pin_not_initialized : CkRv
  user_type_invalid user_another_already_logged_in buffer_too_small : CkRv
  cryptoki_not_initialized template_incomplete : CkRv

pub data CkState : Type 0 where
  ro_public_session ro_user_functions rw_public_session rw_user_functions : CkState
  rw_so_functions : CkState
  other : ℕ → CkState

-- CK_ULONG is 64 bits wide.
abbrev pub ulong_mod : ℕ
ulong_mod = 2 ^ 64

-- CK_UNAVAILABLE_INFORMATION and the size `(CK_ULONG)-1`: ~0UL.
abbrev pub unavailable_information : ℕ
unavailable_information = 2 ^ 64 - 1
