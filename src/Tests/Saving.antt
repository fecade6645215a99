-- ===== src/Tests/Saving.antt =====
-- The theorems on saveTemplate, on an object file, and on reading back what was stored, on a session object.
use archive_aaf_sshsm.Common.{
  ℕ, ◌≡◌, refl, sym, ap, ◌≢◌, true, false, not, ◌&&◌, ◌||◌, Option, none, some, List, [], ◌∷◌,
  arith, drop,
}
use archive_aaf_sshsm.Common.Map.{Map, lookup}
use archive_aaf_sshsm.P11Attributes.{Context, ck7, is_sensitive, is_extractable}
use archive_aaf_sshsm.P11Attributes.Table.{p11_attr_label}
use archive_aaf_sshsm.P11Attributes.Retrieve.{retrieve, overwrite}
use archive_aaf_sshsm.P11Attributes.RoundTrip.{Decrypts, retrieve-update_plain}
use archive_aaf_sshsm.Cryptoki.{ok}
use archive_aaf_sshsm.Cryptoki.Attributes.{cka_label, cka_value}
use archive_aaf_sshsm.OsObject.{OsAttribute, byte_string, RollbackLaws, as_unsigned_long}
use archive_aaf_sshsm.P11Attributes.{
  has, op_set, op_create, TemplateEntry, P11Attribute, is_modifiable, is_trusted, bytes_at,
}
use archive_aaf_sshsm.P11Attributes.Steps.{stored, put, put_if}
use archive_aaf_sshsm.P11Attributes.Rules.{
  update_by_rule, update_plain, update_value, value_sizes, certificate_check, put_value_bits,
  put_value_len, secret_key_check,
}
use archive_aaf_sshsm.P11Attributes.Update.{is_trusted_certificate, update}
use archive_aaf_sshsm.P11Objects.Templates.{
  is_specified, lacks_mandatory, save_loop, finish, save_started, save_template,
}
use archive_aaf_sshsm.ObjectFile.{ObjectDisk, contents}
use archive_aaf_sshsm.ObjectFile
use archive_aaf_sshsm.ObjectFile.Stored.{ObjectDiskLaws, StoredObject, object_file}
use archive_aaf_sshsm.ObjectFile.Laws.{object_file_transactions, object_file_rollback}
use archive_aaf_sshsm.SessionObjects.{new_session_object}
use archive_aaf_sshsm.SessionObjects.Attributes.{
  set_attribute, KeptObject, session_object, new_session_object-IsKept,
}
use archive_aaf_sshsm.SessionObjects.Laws.{session_laws}
use archive_aaf_sshsm.P11Objects.Save.{IsDemanded, Ends, save_template-Ends, save_template-ok}
use archive_aaf_sshsm.Tests.Attributes.{context, secret_attributes, secret_values, relabelling}

-- A disk with room for one object file.
abbrev disk : ObjectDisk (Map OsAttribute)
disk = record { lock = λ f. true; write_attributes = λ m f. (true, m); read_attributes = contents }

abbrev disk_laws : ObjectDiskLaws disk
disk_laws = record { writes = λ m f. refl; read_write = λ m f. refl }

abbrev on_disk : Map OsAttribute → StoredObject disk disk_laws
on_disk m = (
  record { attributes = m; valid = true; in_transaction = false; file = m },
  record { is_valid = refl; on_disk = m; reads = refl; in_step = λ e. refl },
)

abbrev rollback : RollbackLaws (object_file_transactions disk disk_laws)
rollback = object_file_rollback disk disk_laws

abbrev stored_key : StoredObject disk disk_laws
stored_key = on_disk (secret_values (1 ∷ 2 ∷ []))

-- The value cannot be set, so the label stays as well.
save_template-Ends_example :
    Ends rollback context secret_attributes true op_set cka_label relabelling stored_key (
      save_template
        (object_file disk disk_laws)
        context
        secret_attributes
        true
        op_set
        relabelling
        stored_key)
save_template-Ends_example =
    save_template-Ends rollback context secret_attributes true op_set cka_label relabelling
      stored_key

abbrev creating : List TemplateEntry
creating =
    record { type = cka_label; p_value = some (66 ∷ []); ul_value_len = 1 }
    ∷ record { type = cka_value; p_value = some (7 ∷ 8 ∷ []); ul_value_len = 2 }
    ∷ []

creating-ok :
    (save_template
      (object_file disk disk_laws)
      context
      secret_attributes
      false
      op_create
      creating
      (on_disk [])).0
    ≡ ok
unfolding save_template save_started save_loop finish lacks_mandatory is_specified update has
    is_modifiable is_trusted_certificate is_trusted update_by_rule update_plain stored bytes_at put
    update_value value_sizes certificate_check as_unsigned_long put_value_bits put_if put_value_len
    secret_key_check ObjectFile.start_transaction ObjectFile.attribute_exists
    ObjectFile.set_attribute ObjectFile.store ObjectFile.get_unsigned_long_value
    ObjectFile.commit_transaction
creating-ok = refl

save_template-ok_example :
    ((t : ℕ) → is_specified t creating ≡ true → lookup t secret_attributes ≢ none)
    × ((t : ℕ) (a : P11Attribute)
        → lookup t secret_attributes ≡ some a
        → IsDemanded a op_create
        → is_specified t creating ≡ true)
save_template-ok_example =
    save_template-ok (object_file disk disk_laws) context secret_attributes false op_create creating
      (on_disk []) creating-ok

-- A cipher that puts a byte in front.
abbrev unseal : Option (List ℕ) → Option (List ℕ)
unseal none = none
unseal (some value) = some (drop 1 value)

abbrev sealing : Context
sealing = record context { encrypt = λ bs. some (0 ∷ bs); decrypt = λ bs. some (drop 1 bs) }

sealing-Decrypts : Decrypts sealing
sealing-Decrypts plain value e = ap unseal (sym e)

-- A private session object without attributes.
abbrev blank : KeptObject
blank = (new_session_object 0 1 true, new_session_object-IsKept 0 1 true)

abbrev labelled : KeptObject
labelled = (update_plain session_object sealing true (some (65 ∷ 66 ∷ [])) 2 cka_label blank).1

labelled-ok :
    (update_plain session_object sealing true (some (65 ∷ 66 ∷ [])) 2 cka_label blank).0 ≡ ok
unfolding update_plain stored bytes_at
labelled-ok = refl

blank-writes : (bs : List ℕ) → (set_attribute cka_label (byte_string bs) blank.0).0 ≡ true
unfolding set_attribute
blank-writes bs = refl

label_shown :
    (has ck7 p11_attr_label.checks
      && (is_sensitive session_object labelled || not (is_extractable session_object labelled)))
    ≡ false
unfolding has
label_shown = refl

retrieve-update_plain_example :
    (retrieve session_object sealing true p11_attr_label none 0 labelled ≡ (ok, none, 2))
    × (retrieve session_object sealing true p11_attr_label (some (9 ∷ 9 ∷ 9 ∷ [])) 3 labelled
        ≡ (ok, some (overwrite (65 ∷ 66 ∷ []) (9 ∷ 9 ∷ 9 ∷ [])), 2))
retrieve-update_plain_example =
    retrieve-update_plain session_laws sealing true sealing-Decrypts p11_attr_label (65 ∷ 66 ∷ [])
      blank (9 ∷ 9 ∷ 9 ∷ []) 3 labelled-ok blank-writes refl label_shown (omega arith)
