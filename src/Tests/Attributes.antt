-- ===== src/Tests/Attributes.antt =====
-- The theorems on attributes and on PKCS#11 objects, on a secret key of a session and on objects with
-- a saved version.
use archive_aaf_sshsm.Common.{ℕ, ◌≡◌, refl, true, false, some, List, [], ◌∷◌, arith, take}
use archive_aaf_sshsm.Common.Map.{Map, lookup}
use archive_aaf_sshsm.Cryptoki.Attributes.{
  cka_private, cka_label, cka_value, cka_sensitive, cka_extractable,
}
use archive_aaf_sshsm.OsObject.{OsAttribute, boolean, byte_string, as_boolean}
use archive_aaf_sshsm.SessionObjects.{SessionObject, new_session_object}
use archive_aaf_sshsm.SessionObjects.Attributes.{
  attribute_exists, get_boolean_value, IsKept, KeptObject, session_object,
}
use archive_aaf_sshsm.SessionObjects.Laws.{
  session_laws, session_transactions, sets, deletes, perform, intended, Shows, perform-Shows,
}
use archive_aaf_sshsm.P11Attributes.{
  ck1, ck7, has, op_set, TemplateEntry, Context, P11Attribute, is_sensitive,
}
use archive_aaf_sshsm.P11Attributes.Table.{
  p11_attr_sensitive, p11_attr_extractable, p11_attr_private, p11_attr_value, p11_attr_label,
}
use archive_aaf_sshsm.P11Attributes.Ratchet.{IsSensitive, IsUnextractable}
use archive_aaf_sshsm.P11Objects.Templates.{load_template, save_template}
use archive_aaf_sshsm.P11Objects.Ratchet.{
  IsProper, Changed, unchanged, changed, Changed-IsSensitive, Changed-IsUnextractable,
}
use archive_aaf_sshsm.P11Objects.Reveal.{IsGuarded, Agree, load_template-view}
use archive_aaf_sshsm.FindOperation.Pages.{find_all, find_all-some}

abbrev pub context : Context
context = record {
  encrypt = λ bs. some bs;
  decrypt = λ bs. some bs;
  is_so_logged_in = false;
  sha1 = λ bs. some bs;
  symmetric_check_value = λ n bs. take 3 bs;
  aes_check_value = λ n bs. take 3 bs;
  des_check_value = λ n bs. take 3 bs;
  elements = λ n bs. [];
  with_elements = λ es bs. bs;
}

abbrev pub secret_attributes : Map P11Attribute
secret_attributes =
    (cka_sensitive, p11_attr_sensitive)
    ∷ (cka_extractable, p11_attr_extractable)
    ∷ (cka_private, p11_attr_private)
    ∷ (cka_label, p11_attr_label)
    ∷ (cka_value, p11_attr_value (ck1 ∷ ck7 ∷ []))
    ∷ []

secret_attributes-IsProper : IsProper secret_attributes
unfolding has
secret_attributes-IsProper t a found = ground arith

abbrev pub secret_values : List ℕ → Map OsAttribute
secret_values value =
    (cka_sensitive, boolean true)
    ∷ (cka_extractable, boolean false)
    ∷ (cka_label, byte_string (65 ∷ []))
    ∷ (cka_value, byte_string value)
    ∷ []

abbrev pub plain_key : List ℕ → SessionObject OsAttribute
plain_key value = record (new_session_object 7 1 true) { attributes = secret_values value }

pub plain_key-IsKept : (value : List ℕ) → IsKept (plain_key value)
plain_key-IsKept value e = absurd (ground arith)

abbrev pub secret_key : List ℕ → KeptObject
secret_key value = (plain_key value, plain_key-IsKept value)

-- A template that would make the key insensitive.
abbrev pub lowering : List TemplateEntry
lowering = record { type = cka_sensitive; p_value = some (0 ∷ []); ul_value_len = 1 } ∷ []

abbrev pub relabelling : List TemplateEntry
relabelling =
    record { type = cka_label; p_value = some (66 ∷ []); ul_value_len = 1 }
    ∷ record { type = cka_value; p_value = some (0 ∷ 0 ∷ []); ul_value_len = 2 }
    ∷ []

abbrev changed_key : KeptObject
changed_key =
    (save_template session_object context secret_attributes true op_set lowering
      (save_template session_object context secret_attributes true op_set relabelling
        (secret_key (1 ∷ 2 ∷ []))).1).1

changes : Changed session_object secret_attributes (secret_key (1 ∷ 2 ∷ [])) changed_key
changes =
    changed
      (save_template session_object context secret_attributes true op_set relabelling
        (secret_key (1 ∷ 2 ∷ []))).1
      context true op_set lowering refl
      (changed (secret_key (1 ∷ 2 ∷ [])) context true op_set relabelling refl unchanged)

Changed-IsSensitive_example : IsSensitive session_laws changed_key
Changed-IsSensitive_example =
    Changed-IsSensitive session_transactions secret_attributes secret_attributes-IsProper
      (secret_key (1 ∷ 2 ∷ [])) changed_key changes refl

Changed-IsUnextractable_example : IsUnextractable session_laws changed_key
Changed-IsUnextractable_example =
    Changed-IsUnextractable session_transactions secret_attributes secret_attributes-IsProper
      (secret_key (1 ∷ 2 ∷ [])) changed_key changes refl

two_keys-Agree :
    Agree session_laws secret_attributes (secret_key (1 ∷ 2 ∷ [])) (secret_key (3 ∷ []))
unfolding has
two_keys-Agree t shown = ground arith

secret_key-IsGuarded : IsGuarded session_laws (secret_key (1 ∷ 2 ∷ []))
unfolding is_sensitive attribute_exists get_boolean_value as_boolean
secret_key-IsGuarded = refl

load_template-view_example :
    load_template session_object context secret_attributes relabelling (secret_key (1 ∷ 2 ∷ []))
    ≡ load_template session_object context secret_attributes relabelling (secret_key (3 ∷ []))
load_template-view_example =
    load_template-view session_laws secret_attributes secret_attributes-IsProper context relabelling
      (secret_key (1 ∷ 2 ∷ [])) (secret_key (3 ∷ [])) two_keys-Agree secret_key-IsGuarded

perform-Shows_example :
    Shows
      (perform (sets cka_label (byte_string []) ∷ deletes cka_value ∷ []) (plain_key (4 ∷ [])))
      (intended
        (sets cka_label (byte_string []) ∷ deletes cka_value ∷ [])
        (λ u. lookup u (secret_values (4 ∷ [])))
        cka_value)
      cka_value
perform-Shows_example =
    perform-Shows (sets cka_label (byte_string []) ∷ deletes cka_value ∷ []) (plain_key (4 ∷ []))
      cka_value refl

find_all-some_example : find_all 4 2 (10 ∷ 11 ∷ 12 ∷ []) ≡ some (10 ∷ 11 ∷ 12 ∷ [])
find_all-some_example = find_all-some 4 2 (10 ∷ 11 ∷ 12 ∷ []) (omega arith) (omega arith)
