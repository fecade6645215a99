-- ===== src/P11Attributes/Table/Values.antt =====
-- SoftHSMv2/src/lib/P11Attributes.h and P11Attributes.cpp: the attributes of kinds of keys and of domain parameters, each with
-- what its constructor sets (its type, its size, its checks), what setDefault stores and its updateAttr.
use archive_aaf_sshsm.Common.{none, some, List, [], ◌∷◌}
use archive_aaf_sshsm.Cryptoki.Attributes.{
  cka_modulus, cka_modulus_bits, cka_public_exponent, cka_private_exponent, cka_prime_1,
  cka_prime_2, cka_exponent_1, cka_exponent_2, cka_coefficient, cka_prime, cka_subprime, cka_base,
  cka_prime_bits, cka_value_bits, cka_value_len, cka_ec_params, cka_ec_point, cka_gostr3410_params,
  cka_gostr3411_params, cka_gost28147_params, cka_wrap_template, cka_unwrap_template,
  cka_allowed_mechanisms, cka_os_private_handle,
}
use archive_aaf_sshsm.OsObject.{ulong, byte_string, mechanism_set, attribute_map, no_entry}
use archive_aaf_sshsm.P11Attributes.{
  Check, P11Attribute, ck1, ck2, ck3, ck4, ck6, ck7, ck8, generated_rule, mechanisms_rule,
  plain_rule, private_handle_rule, template_rule, value_len_rule, with_bits_rule,
}

abbrev pub p11_attr_modulus : List Check → P11Attribute
p11_attr_modulus in_checks = record {
  type = cka_modulus;
  size = none;
  checks = ck1 ∷ ck4 ∷ in_checks;
  default = byte_string [];
  rule = with_bits_rule cka_modulus_bits;
}

abbrev pub p11_attr_public_exponent : List Check → P11Attribute
p11_attr_public_exponent in_checks = record {
  type = cka_public_exponent;
  size = none;
  checks = in_checks;
  default = byte_string [];
  rule = plain_rule;
}

abbrev pub p11_attr_private_exponent : P11Attribute
p11_attr_private_exponent = record {
  type = cka_private_exponent;
  size = none;
  checks = ck1 ∷ ck4 ∷ ck6 ∷ ck7 ∷ [];
  default = byte_string [];
  rule = plain_rule;
}

abbrev pub p11_attr_prime1 : P11Attribute
p11_attr_prime1 = record {
  type = cka_prime_1;
  size = none;
  checks = ck4 ∷ ck6 ∷ ck7 ∷ [];
  default = byte_string [];
  rule = plain_rule;
}

abbrev pub p11_attr_prime2 : P11Attribute
p11_attr_prime2 = record {
  type = cka_prime_2;
  size = none;
  checks = ck4 ∷ ck6 ∷ ck7 ∷ [];
  default = byte_string [];
  rule = plain_rule;
}

abbrev pub p11_attr_exponent1 : P11Attribute
p11_attr_exponent1 = record {
  type = cka_exponent_1;
  size = none;
  checks = ck4 ∷ ck6 ∷ ck7 ∷ [];
  default = byte_string [];
  rule = plain_rule;
}

abbrev pub p11_attr_exponent2 : P11Attribute
p11_attr_exponent2 = record {
  type = cka_exponent_2;
  size = none;
  checks = ck4 ∷ ck6 ∷ ck7 ∷ [];
  default = byte_string [];
  rule = plain_rule;
}

abbrev pub p11_attr_coefficient : P11Attribute
p11_attr_coefficient = record {
  type = cka_coefficient;
  size = none;
  checks = ck4 ∷ ck6 ∷ ck7 ∷ [];
  default = byte_string [];
  rule = plain_rule;
}

abbrev pub p11_attr_modulus_bits : P11Attribute
p11_attr_modulus_bits = record {
  type = cka_modulus_bits;
  size = some 8;
  checks = ck2 ∷ ck3 ∷ [];
  default = ulong 0;
  rule = generated_rule;
}

abbrev pub p11_attr_prime : List Check → P11Attribute
p11_attr_prime in_checks = record {
  type = cka_prime;
  size = none;
  checks = ck1 ∷ in_checks;
  default = byte_string [];
  rule = with_bits_rule cka_prime_bits;
}

abbrev pub p11_attr_sub_prime : List Check → P11Attribute
p11_attr_sub_prime in_checks = record {
  type = cka_subprime;
  size = none;
  checks = ck1 ∷ in_checks;
  default = byte_string [];
  rule = plain_rule;
}

abbrev pub p11_attr_base : List Check → P11Attribute
p11_attr_base in_checks = record {
  type = cka_base;
  size = none;
  checks = ck1 ∷ in_checks;
  default = byte_string [];
  rule = plain_rule;
}

abbrev pub p11_attr_prime_bits : P11Attribute
p11_attr_prime_bits = record {
  type = cka_prime_bits;
  size = some 8;
  checks = ck2 ∷ ck3 ∷ [];
  default = ulong 0;
  rule = generated_rule;
}

abbrev pub p11_attr_value_bits : P11Attribute
p11_attr_value_bits = record {
  type = cka_value_bits;
  size = some 8;
  checks = ck2 ∷ ck6 ∷ [];
  default = ulong 0;
  rule = generated_rule;
}

abbrev pub p11_attr_ec_params : List Check → P11Attribute
p11_attr_ec_params in_checks = record {
  type = cka_ec_params;
  size = none;
  checks = ck1 ∷ in_checks;
  default = byte_string [];
  rule = plain_rule;
}

abbrev pub p11_attr_ec_point : P11Attribute
p11_attr_ec_point = record {
  type = cka_ec_point;
  size = none;
  checks = ck1 ∷ ck4 ∷ [];
  default = byte_string [];
  rule = plain_rule;
}

abbrev pub p11_attr_gost_r3410_params : List Check → P11Attribute
p11_attr_gost_r3410_params in_checks = record {
  type = cka_gostr3410_params;
  size = none;
  checks = ck1 ∷ in_checks;
  default = byte_string [];
  rule = plain_rule;
}

abbrev pub p11_attr_gost_r3411_params : List Check → P11Attribute
p11_attr_gost_r3411_params in_checks = record {
  type = cka_gostr3411_params;
  size = none;
  checks = ck1 ∷ ck8 ∷ in_checks;
  default = byte_string [];
  rule = plain_rule;
}

abbrev pub p11_attr_gost28147_params : List Check → P11Attribute
p11_attr_gost28147_params in_checks = record {
  type = cka_gost28147_params;
  size = none;
  checks = in_checks;
  default = byte_string [];
  rule = plain_rule;
}

abbrev pub p11_attr_value_len : List Check → P11Attribute
p11_attr_value_len in_checks = record {
  type = cka_value_len;
  size = some 8;
  checks = ck2 ∷ ck3 ∷ in_checks;
  default = ulong 0;
  rule = value_len_rule;
}

abbrev pub p11_attr_wrap_template : P11Attribute
p11_attr_wrap_template = record {
  type = cka_wrap_template;
  size = none;
  checks = [];
  default = attribute_map no_entry;
  rule = template_rule;
}

abbrev pub p11_attr_unwrap_template : P11Attribute
p11_attr_unwrap_template = record {
  type = cka_unwrap_template;
  size = none;
  checks = [];
  default = attribute_map no_entry;
  rule = template_rule;
}

abbrev pub p11_attr_allowed_mechanisms : P11Attribute
p11_attr_allowed_mechanisms = record {
  type = cka_allowed_mechanisms;
  size = none;
  checks = [];
  default = mechanism_set [];
  rule = mechanisms_rule;
}

abbrev pub p11_attr_private_handle : P11Attribute
p11_attr_private_handle = record {
  type = cka_os_private_handle;
  size = none;
  checks = [];
  default = ulong 0;
  rule = private_handle_rule;
}
