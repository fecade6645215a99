-- ===== src/P11Attributes/Templates.antt =====
-- SoftHSMv2/src/lib/P11Attributes.cpp: how CKA_WRAP_TEMPLATE, CKA_UNWRAP_TEMPLATE and CKA_ALLOWED_MECHANISMS
-- read the array that they are given.
use archive_aaf_sshsm.Common.{
  ℕ, zero, suc, Bool, false, not, ◌||◌, Option, none, some, List, [], ◌∷◌, ◌==◌, ltb, if◌then◌else◌,
  drop,
}
use archive_aaf_sshsm.Cryptoki.Attributes.{
  cka_class, cka_token, cka_private, cka_certificate_type, cka_trusted, cka_certificate_category,
  cka_java_midp_security_domain, cka_name_hash_algorithm, cka_key_type, cka_sensitive, cka_encrypt,
  cka_decrypt, cka_wrap, cka_unwrap, cka_sign, cka_sign_recover, cka_verify, cka_verify_recover,
  cka_derive, cka_modulus_bits, cka_prime_bits, cka_subprime_bits, cka_value_bits, cka_value_len,
  cka_extractable, cka_local, cka_never_extractable, cka_always_sensitive, cka_key_gen_mechanism,
  cka_modifiable, cka_copyable, cka_secondary_auth, cka_auth_pin_flags, cka_always_authenticate,
  cka_wrap_with_trusted, cka_wrap_template, cka_unwrap_template,
}
use archive_aaf_sshsm.ByteString.{Bytes}
use archive_aaf_sshsm.OsObject.{
  OsAttribute, boolean, ulong, byte_string, AttributeMap, no_entry, entry,
}
use archive_aaf_sshsm.P11Attributes.{TemplateEntry, bytes_at, bool_at, ulong_at}

-- std::map::insert: an entry of that type that is there stays.
unfoldable pub insert_entry : ℕ → OsAttribute → AttributeMap → AttributeMap
insert_entry t a no_entry = entry t a no_entry
insert_entry t a (entry u b m) =
    let rest = insert_entry t a m in
    if t == u then entry u b m else if ltb t u then entry t a (entry u b m) else entry u b rest

-- std::set::insert
unfoldable pub insert_mechanism : ℕ → List ℕ → List ℕ
insert_mechanism n [] = n ∷ []
insert_mechanism n (k ∷ ks) =
    let rest = insert_mechanism n ks in
    if n == k then k ∷ ks else if ltb n k then n ∷ k ∷ ks else k ∷ rest

abbrev pub one_of : ℕ → List ℕ → Bool
one_of t [] = false
one_of t (u ∷ us) = (t == u) || one_of t us

-- The cases of the switch whose elements are booleans.
abbrev pub boolean_types : List ℕ
boolean_types =
    cka_token ∷ cka_private ∷ cka_modifiable ∷ cka_copyable ∷ cka_trusted ∷ cka_encrypt
    ∷ cka_decrypt ∷ cka_sign ∷ cka_sign_recover ∷ cka_verify ∷ cka_verify_recover ∷ cka_wrap
    ∷ cka_unwrap ∷ cka_derive ∷ cka_local ∷ cka_always_sensitive ∷ cka_sensitive
    ∷ cka_never_extractable ∷ cka_extractable ∷ cka_wrap_with_trusted ∷ cka_secondary_auth
    ∷ cka_always_authenticate ∷ []

-- Those whose elements are unsigned longs.
abbrev pub ulong_types : List ℕ
ulong_types =
    cka_class ∷ cka_key_type ∷ cka_certificate_type ∷ cka_certificate_category
    ∷ cka_java_midp_security_domain ∷ cka_name_hash_algorithm ∷ cka_key_gen_mechanism
    ∷ cka_modulus_bits ∷ cka_prime_bits ∷ cka_subprime_bits ∷ cka_value_bits ∷ cka_value_len
    ∷ cka_auth_pin_flags ∷ []

-- The body of the switch: `none` for CKR_ATTRIBUTE_VALUE_INVALID.
unfoldable pub element_of : TemplateEntry → Option OsAttribute
element_of e =
    if one_of e.type boolean_types
    then if not (e.ul_value_len == 1) then none else some (boolean (bool_at e.p_value))
    else if one_of e.type ulong_types
    then if not (e.ul_value_len == 8) then none else some (ulong (ulong_at e.p_value))
    else if (e.type == cka_wrap_template) || (e.type == cka_unwrap_template)
    then none
    else some (byte_string (bytes_at e.p_value e.ul_value_len))

-- The loop, with the map so far.
unfoldable pub collect : AttributeMap → List TemplateEntry → Option AttributeMap
collect m [] = some m
collect m (e ∷ es) = elim (element_of e) [
  | none ↦ none
  | some a ↦ collect (insert_entry e.type a m) es
]

-- The mechanisms that lie in memory, one in each eight bytes.
unfoldable pub collect_mechanisms : ℕ → List ℕ → Bytes → List ℕ
collect_mechanisms zero set memory = set
collect_mechanisms (suc n) set memory =
    collect_mechanisms n (insert_mechanism (ulong_at (some memory)) set) (drop 8 memory)
