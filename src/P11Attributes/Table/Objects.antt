-- ===== src/P11Attributes/Table/Objects.antt =====
-- SoftHSMv2/src/lib/P11Attributes.h and P11Attributes.cpp: the attributes of data objects and certificates, each with
-- what its constructor sets (its type, its size, its checks), what setDefault stores and its updateAttr.
use archive_aaf_sshsm.Common.{true, false, none, some, List, [], ◌∷◌}
use archive_aaf_sshsm.Cryptoki.Attributes.{
  cka_class, cka_token, cka_private, cka_label, cka_application, cka_value, cka_object_id,
  cka_certificate_type, cka_issuer, cka_serial_number, cka_trusted, cka_certificate_category,
  cka_java_midp_security_domain, cka_url, cka_hash_of_subject_public_key,
  cka_hash_of_issuer_public_key, cka_name_hash_algorithm, cka_check_value, cka_key_type,
  cka_subject, cka_id, cka_start_date, cka_end_date, cka_modifiable, cka_copyable, cka_destroyable,
  ckc_vendor_defined, ckk_vendor_defined, ckm_sha_1, cko_vendor_defined,
}
use archive_aaf_sshsm.OsObject.{boolean, ulong, byte_string}
use archive_aaf_sshsm.P11Attributes.{
  Check, P11Attribute, ck1, ck8, ck10, ck12, ck15, ck16, ck17, check_value_rule, class_rule,
  copyable_rule, date_rule, flag_rule, number_rule, plain_rule, trusted_rule, value_rule,
}

abbrev pub p11_attr_class : P11Attribute
p11_attr_class = record {
  type = cka_class;
  size = some 8;
  checks = ck1 ∷ [];
  default = ulong cko_vendor_defined;
  rule = class_rule;
}

abbrev pub p11_attr_key_type : List Check → P11Attribute
p11_attr_key_type in_checks = record {
  type = cka_key_type;
  size = some 8;
  checks = ck1 ∷ in_checks;
  default = ulong ckk_vendor_defined;
  rule = class_rule;
}

abbrev pub p11_attr_certificate_type : P11Attribute
p11_attr_certificate_type = record {
  type = cka_certificate_type;
  size = some 8;
  checks = ck1 ∷ [];
  default = ulong ckc_vendor_defined;
  rule = class_rule;
}

abbrev pub p11_attr_token : P11Attribute
p11_attr_token = record {
  type = cka_token;
  size = some 1;
  checks = ck17 ∷ [];
  default = boolean false;
  rule = flag_rule;
}

abbrev pub p11_attr_private : P11Attribute
p11_attr_private = record {
  type = cka_private;
  size = some 1;
  checks = ck17 ∷ [];
  default = boolean true;
  rule = flag_rule;
}

abbrev pub p11_attr_modifiable : P11Attribute
p11_attr_modifiable = record {
  type = cka_modifiable;
  size = some 1;
  checks = ck17 ∷ [];
  default = boolean true;
  rule = flag_rule;
}

abbrev pub p11_attr_label : P11Attribute
p11_attr_label = record {
  type = cka_label;
  size = none;
  checks = ck8 ∷ [];
  default = byte_string [];
  rule = plain_rule;
}

abbrev pub p11_attr_copyable : P11Attribute
p11_attr_copyable = record {
  type = cka_copyable;
  size = some 1;
  checks = ck12 ∷ [];
  default = boolean true;
  rule = copyable_rule;
}

abbrev pub p11_attr_destroyable : P11Attribute
p11_attr_destroyable = record {
  type = cka_destroyable;
  size = some 1;
  checks = ck17 ∷ [];
  default = boolean true;
  rule = flag_rule;
}

abbrev pub p11_attr_application : P11Attribute
p11_attr_application = record {
  type = cka_application;
  size = none;
  checks = [];
  default = byte_string [];
  rule = plain_rule;
}

abbrev pub p11_attr_object_id : P11Attribute
p11_attr_object_id = record {
  type = cka_object_id;
  size = none;
  checks = [];
  default = byte_string [];
  rule = plain_rule;
}

abbrev pub p11_attr_check_value : List Check → P11Attribute
p11_attr_check_value in_checks = record {
  type = cka_check_value;
  size = none;
  checks = in_checks;
  default = byte_string [];
  rule = check_value_rule;
}

abbrev pub p11_attr_public_key_info : List Check → P11Attribute
p11_attr_public_key_info in_checks = record {
  type = cka_object_id;
  size = none;
  checks = in_checks;
  default = byte_string [];
  rule = plain_rule;
}

abbrev pub p11_attr_id : P11Attribute
p11_attr_id = record {
  type = cka_id;
  size = none;
  checks = ck8 ∷ [];
  default = byte_string [];
  rule = plain_rule;
}

abbrev pub p11_attr_value : List Check → P11Attribute
p11_attr_value in_checks = record {
  type = cka_value;
  size = none;
  checks = in_checks;
  default = byte_string [];
  rule = value_rule;
}

abbrev pub p11_attr_subject : List Check → P11Attribute
p11_attr_subject in_checks = record {
  type = cka_subject;
  size = none;
  checks = in_checks;
  default = byte_string [];
  rule = plain_rule;
}

abbrev pub p11_attr_issuer : P11Attribute
p11_attr_issuer = record {
  type = cka_issuer;
  size = none;
  checks = ck8 ∷ [];
  default = byte_string [];
  rule = plain_rule;
}

abbrev pub p11_attr_trusted : P11Attribute
p11_attr_trusted = record {
  type = cka_trusted;
  size = some 1;
  checks = ck10 ∷ [];
  default = boolean false;
  rule = trusted_rule;
}

abbrev pub p11_attr_certificate_category : P11Attribute
p11_attr_certificate_category = record {
  type = cka_certificate_category;
  size = some 8;
  checks = [];
  default = ulong 0;
  rule = number_rule;
}

abbrev pub p11_attr_start_date : List Check → P11Attribute
p11_attr_start_date in_checks = record {
  type = cka_start_date;
  size = none;
  checks = in_checks;
  default = byte_string [];
  rule = date_rule;
}

abbrev pub p11_attr_end_date : List Check → P11Attribute
p11_attr_end_date in_checks = record {
  type = cka_end_date;
  size = none;
  checks = in_checks;
  default = byte_string [];
  rule = date_rule;
}

abbrev pub p11_attr_serial_number : P11Attribute
p11_attr_serial_number = record {
  type = cka_serial_number;
  size = none;
  checks = ck8 ∷ [];
  default = byte_string [];
  rule = plain_rule;
}

abbrev pub p11_attr_url : P11Attribute
p11_attr_url = record {
  type = cka_url;
  size = none;
  checks = ck15 ∷ [];
  default = byte_string [];
  rule = plain_rule;
}

abbrev pub p11_attr_hash_of_subject_public_key : P11Attribute
p11_attr_hash_of_subject_public_key = record {
  type = cka_hash_of_subject_public_key;
  size = none;
  checks = ck16 ∷ [];
  default = byte_string [];
  rule = plain_rule;
}

abbrev pub p11_attr_hash_of_issuer_public_key : P11Attribute
p11_attr_hash_of_issuer_public_key = record {
  type = cka_hash_of_issuer_public_key;
  size = none;
  checks = ck16 ∷ [];
  default = byte_string [];
  rule = plain_rule;
}

abbrev pub p11_attr_java_midp_security_domain : P11Attribute
p11_attr_java_midp_security_domain = record {
  type = cka_java_midp_security_domain;
  size = some 8;
  checks = [];
  default = ulong 0;
  rule = number_rule;
}

abbrev pub p11_attr_name_hash_algorithm : P11Attribute
p11_attr_name_hash_algorithm = record {
  type = cka_name_hash_algorithm;
  size = some 8;
  checks = [];
  default = ulong ckm_sha_1;
  rule = number_rule;
}
