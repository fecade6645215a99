-- ===== src/P11Attributes/Retrieve.antt =====
-- SoftHSMv2/src/lib/P11Attributes.cpp: P11Attribute::retrieve with retrieveAttributeMap. A write through
-- pValue gives the memory afterwards; the object and the pointer to the length are there.
use archive_aaf_sshsm.Common.{
  ℕ, ◌+◌, ◌*◌, Bool, not, ◌&&◌, ◌||◌, Option, none, some, List, [], ◌∷◌, ◌++◌, ◌==◌, ltb, leb,
  if◌then◌else◌, length, take, drop,
}
use archive_aaf_sshsm.Cryptoki.{
  CkRv, ok, general_error, attribute_sensitive, attribute_type_invalid, buffer_too_small,
  unavailable_information,
}
use archive_aaf_sshsm.ByteString.{Bytes}
use archive_aaf_sshsm.OsObject.{
  OsAttribute, boolean, ulong, byte_string, mechanism_set, attribute_map, AttributeMap, no_entry,
  entry, OsObject,
}
use archive_aaf_sshsm.P11Attributes.{
  TemplateEntry, Context, ck7, has, P11Attribute, le_bytes, is_sensitive, is_extractable,
}

unfoldable pub map_size : AttributeMap → ℕ
map_size no_entry = 0
map_size (entry t a m) = 1 + map_size m

unfoldable pub find_entry : ℕ → AttributeMap → Option OsAttribute
find_entry t no_entry = none
find_entry t (entry u a m) = if u == t then some a else find_entry t m

-- The bytes of an element of a map; `none` for the kinds that cannot stand in one.
unfoldable pub element_bytes : OsAttribute → Option Bytes
element_bytes (boolean b) = some ((if b then 1 else 0) ∷ [])
element_bytes (ulong n) = some (le_bytes 8 n)
element_bytes (byte_string value) = some value
element_bytes (mechanism_set ms) = none
element_bytes (attribute_map m) = none

unfoldable pub count_null : List TemplateEntry → ℕ
count_null [] = 0
count_null (e ∷ es) = elim e.p_value [ none ↦ 1 + count_null es | some memory ↦ count_null es ]

-- Memory into which bytes were copied.
unfoldable pub overwrite : Bytes → Bytes → Bytes
overwrite value memory = value ++ drop (length value) memory

abbrev pub write_to : Bytes → Option Bytes → Option Bytes
write_to value none = none
write_to value (some memory) = some (overwrite value memory)

-- The loop for a caller who wants types and sizes, over the map and the template side by side.
unfoldable pub map_sizes : AttributeMap → List TemplateEntry → CkRv × List TemplateEntry
map_sizes no_entry es = (ok, es)
map_sizes (entry t a m) [] = (ok, [])
map_sizes (entry t a m) (e ∷ es) = elim (element_bytes a) [
  | none ↦ (general_error, record e { type = t } ∷ es)
  | some value ↦
      let (rv, rest) = map_sizes m es in
      (rv, record e { type = t; ul_value_len = length value } ∷ rest)
]

-- The loop for a caller who wants the values.
unfoldable pub map_values : AttributeMap → List TemplateEntry → CkRv × List TemplateEntry
map_values m [] = (ok, [])
map_values m (e ∷ es) = elim (find_entry e.type m) [
  | none ↦ (attribute_type_invalid, record e { ul_value_len = unavailable_information } ∷ es)
  | some a ↦ elim (element_bytes a) [
    | none ↦ (general_error, e ∷ es)
    | some value ↦
        let (rv, rest) = map_values m es in
        if ltb e.ul_value_len (length value)
        then (buffer_too_small, record e { ul_value_len = unavailable_information } ∷ es)
        else (
          rv,
          record e { p_value = write_to value e.p_value; ul_value_len = length value } ∷ rest,
        )
  ]
]

unfoldable pub retrieve_attribute_map :
    AttributeMap → List TemplateEntry → CkRv × List TemplateEntry
retrieve_attribute_map m es =
    if count_null es == map_size m then map_sizes m es else map_values m es

unfoldable pub mechanism_bytes : List ℕ → Bytes
mechanism_bytes [] = []
mechanism_bytes (n ∷ ns) = le_bytes 8 n ++ mechanism_bytes ns

module _ (ctx : Context) (is_private : Bool) where
  -- The bytes of an attribute as the caller gets them; `none` when they cannot be decrypted.
  unfoldable pub revealed : Bytes → Option Bytes
  revealed value = if is_private && not (length value == 0) then ctx.decrypt value else some value

  -- The size of an attribute without a fixed one: `none` is CKR_GENERAL_ERROR.
  unfoldable pub variable_size : OsAttribute → Option ℕ
  variable_size (boolean b) = none
  variable_size (ulong n) = some 8
  variable_size (byte_string value) = elim (revealed value) [
    | none ↦ none
    | some bytes ↦ some (length bytes)
  ]
  variable_size (mechanism_set ms) = some (length ms * 8)
  variable_size (attribute_map m) = some (map_size m * 24)

  unfoldable pub attribute_size : P11Attribute → OsAttribute → Option ℕ
  attribute_size a attr = elim a.size [ none ↦ variable_size attr | some size ↦ some size ]

  -- The return code and the memory, or `none` for the return in the middle. The mechanisms are written
  -- from the second place on, as the loop writes pTemplate[++i].
  unfoldable pub copy_out : OsAttribute → ℕ → Bytes → Option (CkRv × Bytes)
  copy_out (boolean b) size memory = some (ok, overwrite ((if b then 1 else 0) ∷ []) memory)
  copy_out (ulong n) size memory = some (ok, overwrite (le_bytes 8 n) memory)
  copy_out (byte_string value) size memory = elim (revealed value) [
    | none ↦ none
    | some bytes ↦
        some (ok, if length value == 0 then memory else overwrite (take size bytes) memory)
  ]
  copy_out (mechanism_set ms) size memory =
      some (ok, overwrite (take 8 memory ++ mechanism_bytes ms) memory)
  copy_out (attribute_map m) size memory =
      let (rv, es) = retrieve_attribute_map m (ctx.elements (map_size m) memory) in
      some (rv, ctx.with_elements es memory)

-- P11Attribute::retrieve: the return code, the memory from pValue on and *pulValueLen afterwards.
module _ {O : Type 0} (I : OsObject O) (ctx : Context) (is_private : Bool) where
  unfoldable pub retrieve_value :
      P11Attribute → OsAttribute → Option Bytes → ℕ → CkRv × Option Bytes × ℕ
  retrieve_value a attr p_value len = elim (attribute_size ctx is_private a attr) [
    | none ↦ (general_error, p_value, len)
    | some size ↦ elim p_value [
      | none ↦ (ok, none, size)
      | some memory ↦
          if leb size len
          then elim (copy_out ctx is_private attr size memory) [
            | none ↦ (general_error, some memory, len)
            | some (rv, memory') ↦ (rv, some memory', size)
          ]
          else (buffer_too_small, some memory, unavailable_information)
    ]
  ]

  unfoldable pub retrieve : P11Attribute → Option Bytes → ℕ → O → CkRv × Option Bytes × ℕ
  retrieve a p_value len o =
      if has ck7 a.checks && (is_sensitive I o || not (is_extractable I o))
      then (attribute_sensitive, p_value, unavailable_information)
      else if not (I.attribute_exists a.type o)
      then (general_error, p_value, len)
      else retrieve_value a (I.get_attribute a.type o) p_value len
