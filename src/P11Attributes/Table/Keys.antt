-- ===== src/P11Attributes/Table/Keys.antt =====
-- SoftHSMv2/src/lib/P11Attributes.h and P11Attributes.cpp: the attributes that kinds of keys share, each with
-- what its constructor sets (its type, its size, its checks), what setDefault stores and its updateAttr.
use archive_aaf_sshsm.Common.{true, false, some, List, [], ◌∷◌}
use archive_aaf_sshsm.Cryptoki.{unavailable_information}
use archive_aaf_sshsm.Cryptoki.Attributes.{
  cka_sensitive, cka_encrypt, cka_decrypt, cka_wrap, cka_unwrap, cka_sign, cka_sign_recover,
  cka_verify, cka_verify_recover, cka_derive, cka_extractable, cka_local, cka_never_extractable,
  cka_always_sensitive, cka_key_gen_mechanism, cka_always_authenticate, cka_wrap_with_trusted,
}
use archive_aaf_sshsm.OsObject.{boolean, ulong}
use archive_aaf_sshsm.P11Attributes.{
  Check, P11Attribute, ck2, ck4, ck6, ck8, ck9, ck11, ck12, always_authenticate_rule,
  extractable_rule, flag_rule, read_only_rule, sensitive_rule, wrap_with_trusted_rule,
}

abbrev pub p11_attr_derive : P11Attribute
p11_attr_derive = record {
  type = cka_derive;
  size = some 1;
  checks = ck8 ∷ [];
  default = boolean false;
  rule = flag_rule;
}

abbrev pub p11_attr_encrypt : P11Attribute
p11_attr_encrypt = record {
  type = cka_encrypt;
  size = some 1;
  checks = ck8 ∷ ck9 ∷ [];
  default = boolean true;
  rule = flag_rule;
}

abbrev pub p11_attr_verify : P11Attribute
p11_attr_verify = record {
  type = cka_verify;
  size = some 1;
  checks = ck8 ∷ ck9 ∷ [];
  default = boolean true;
  rule = flag_rule;
}

abbrev pub p11_attr_verify_recover : P11Attribute
p11_attr_verify_recover = record {
  type = cka_verify_recover;
  size = some 1;
  checks = ck8 ∷ ck9 ∷ [];
  default = boolean true;
  rule = flag_rule;
}

abbrev pub p11_attr_wrap : P11Attribute
p11_attr_wrap = record {
  type = cka_wrap;
  size = some 1;
  checks = ck8 ∷ ck9 ∷ [];
  default = boolean true;
  rule = flag_rule;
}

abbrev pub p11_attr_decrypt : P11Attribute
p11_attr_decrypt = record {
  type = cka_decrypt;
  size = some 1;
  checks = ck8 ∷ ck9 ∷ [];
  default = boolean true;
  rule = flag_rule;
}

abbrev pub p11_attr_sign : P11Attribute
p11_attr_sign = record {
  type = cka_sign;
  size = some 1;
  checks = ck8 ∷ ck9 ∷ [];
  default = boolean true;
  rule = flag_rule;
}

abbrev pub p11_attr_sign_recover : P11Attribute
p11_attr_sign_recover = record {
  type = cka_sign_recover;
  size = some 1;
  checks = ck8 ∷ ck9 ∷ [];
  default = boolean true;
  rule = flag_rule;
}

abbrev pub p11_attr_unwrap : P11Attribute
p11_attr_unwrap = record {
  type = cka_unwrap;
  size = some 1;
  checks = ck8 ∷ ck9 ∷ [];
  default = boolean true;
  rule = flag_rule;
}

abbrev pub p11_attr_local : List Check → P11Attribute
p11_attr_local in_checks = record {
  type = cka_local;
  size = some 1;
  checks = ck2 ∷ ck4 ∷ in_checks;
  default = boolean false;
  rule = read_only_rule;
}

abbrev pub p11_attr_key_gen_mechanism : P11Attribute
p11_attr_key_gen_mechanism = record {
  type = cka_key_gen_mechanism;
  size = some 8;
  checks = ck2 ∷ ck4 ∷ ck6 ∷ [];
  default = ulong unavailable_information;
  rule = read_only_rule;
}

abbrev pub p11_attr_always_sensitive : P11Attribute
p11_attr_always_sensitive = record {
  type = cka_always_sensitive;
  size = some 1;
  checks = ck2 ∷ ck4 ∷ ck6 ∷ [];
  default = boolean false;
  rule = read_only_rule;
}

abbrev pub p11_attr_never_extractable : P11Attribute
p11_attr_never_extractable = record {
  type = cka_never_extractable;
  size = some 1;
  checks = ck2 ∷ ck4 ∷ ck6 ∷ [];
  default = boolean true;
  rule = read_only_rule;
}

abbrev pub p11_attr_sensitive : P11Attribute
p11_attr_sensitive = record {
  type = cka_sensitive;
  size = some 1;
  checks = ck8 ∷ ck9 ∷ ck11 ∷ [];
  default = boolean false;
  rule = sensitive_rule;
}

abbrev pub p11_attr_extractable : P11Attribute
p11_attr_extractable = record {
  type = cka_extractable;
  size = some 1;
  checks = ck8 ∷ ck9 ∷ ck12 ∷ [];
  default = boolean false;
  rule = extractable_rule;
}

abbrev pub p11_attr_wrap_with_trusted : P11Attribute
p11_attr_wrap_with_trusted = record {
  type = cka_wrap_with_trusted;
  size = some 1;
  checks = ck11 ∷ [];
  default = boolean false;
  rule = wrap_with_trusted_rule;
}

abbrev pub p11_attr_always_authenticate : P11Attribute
p11_attr_always_authenticate = record {
  type = cka_always_authenticate;
  size = some 1;
  checks = [];
  default = boolean false;
  rule = always_authenticate_rule;
}
