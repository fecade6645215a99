-- ===== src/Tests/Bytes.antt =====
-- The theorems on byte strings and on write access.
use archive_aaf_sshsm.Common.{◌≤◌, ◌≡◌, ◌↔◌, ◌⊎◌, true, false, [], ◌∷◌, ◌++◌, arith, length, drop}
use archive_aaf_sshsm.ByteString.{Bytes, long_val, serialise, chain_deserialise}
use archive_aaf_sshsm.Cryptoki.{ok, rw_user_functions}
use archive_aaf_sshsm.ByteString.Serial.{chain_deserialise-serialise, chain_deserialise_within}
use archive_aaf_sshsm.Access.{have_read, have_write}
use archive_aaf_sshsm.Access.Table.{IsKnown, IsWritable, IsUserState, have_write_granted}

abbrev three : Bytes
three = 1 ∷ 2 ∷ 3 ∷ []

-- A length field that claims more than there is.
abbrev lying : Bytes
lying = 0 ∷ 0 ∷ 0 ∷ 0 ∷ 0 ∷ 0 ∷ 1 ∷ 0 ∷ 5 ∷ 6 ∷ []

chain_deserialise-serialise_example : chain_deserialise (serialise three ++ lying) ≡ (three, lying)
chain_deserialise-serialise_example = chain_deserialise-serialise three lying (omega arith)

chain_deserialise_within_example :
    ((chain_deserialise lying).0 ++ (chain_deserialise lying).1 ≡ drop 8 lying)
    × (length (chain_deserialise lying).0 ≤ long_val lying)
chain_deserialise_within_example = chain_deserialise_within lying

have_write_granted_example :
    ((have_write rw_user_functions true true ≡ ok) ↔ (
      IsKnown rw_user_functions
      × ((true ≡ false) ⊎ IsWritable rw_user_functions)
      × ((true ≡ false) ⊎ IsUserState rw_user_functions)))
    × (have_write rw_user_functions true true ≡ ok → have_read rw_user_functions true true ≡ ok)
have_write_granted_example = have_write_granted rw_user_functions true true
