-- ===== src/P11Attributes/Frame.antt =====
-- SoftHSMv2/src/lib/P11Attributes.cpp: which attributes of the object an update leaves as they are.
use archive_aaf_sshsm.Common.{
  ℕ, ◌/◌, ◌%◌, ◌≡◌, refl, ◌∙◌, Bool, true, false, not, ◌||◌, Option, none, some, [], arith, ◌==◌,
  if◌then◌else◌,
}
use archive_aaf_sshsm.Cryptoki.{CkRv, ok, general_error, attribute_value_invalid}
use archive_aaf_sshsm.Cryptoki.Attributes.{
  cka_check_value, cka_key_type, cka_value_bits, cka_value_len, cka_never_extractable,
  cka_always_sensitive, ckk_vendor_defined,
}
use archive_aaf_sshsm.ByteString.{Bytes, bytes_eq}
use archive_aaf_sshsm.OsObject.{
  OsAttribute, boolean, ulong, byte_string, mechanism_set, attribute_map, AttributeMap, no_entry,
  OsObject,
}
use archive_aaf_sshsm.P11Attributes.{
  bytes_at, ulong_at, op_generate, op_derive, ObjectOp, Context, P11Attribute, UpdateRule,
  plain_rule, class_rule, flag_rule, copyable_rule, trusted_rule, number_rule, date_rule,
  read_only_rule, sensitive_rule, extractable_rule, wrap_with_trusted_rule,
  always_authenticate_rule, value_rule, check_value_rule, generated_rule, value_len_rule,
  private_handle_rule, template_rule, mechanisms_rule, with_bits_rule,
}
use archive_aaf_sshsm.P11Attributes.Steps.{
  is_op, stored, key_check_value, given, and_then, put, put_if,
}
use archive_aaf_sshsm.P11Attributes.Rules.{
  compare_and_put, check_and_put, bits_step, update_plain, put_check_value, put_value_len,
  put_value_bits, value_sizes, certificate_check, secret_key_check, update_value,
  update_check_value, update_with_bits, update_class, update_flag, update_copyable, update_trusted,
  update_sensitive, update_extractable, update_wrap_with_trusted, update_always_authenticate,
  update_number, update_restricted, update_date, update_template, update_mechanisms, update_by_rule,
  update_attr,
}
use archive_aaf_sshsm.P11Attributes.Templates.{collect, collect_mechanisms}

-- The attributes other than its own that an updateAttr sets.
abbrev pub derived : UpdateRule → ℕ → Bool
derived value_rule u = (u == cka_value_len) || ((u == cka_value_bits) || (u == cka_check_value))
derived (with_bits_rule b) u = u == b
derived sensitive_rule u = u == cka_always_sensitive
derived extractable_rule u = u == cka_never_extractable
derived _ u = false

abbrev pub may_change : P11Attribute → ℕ → Bool
may_change a u = (u == a.type) || derived a.rule u

-- `look` reads an attribute of an object, in its present or in its saved state, and only the setAttribute of
-- that attribute changes what it reads.
abbrev pub Keeps : {O : Type 0} → OsObject O → (O → Option OsAttribute) → ℕ → Type 0
Keeps {O} I look u =
    (t : ℕ) (a : OsAttribute) (o : O) → (u == t) ≡ false → look (I.set_attribute t a o).1 ≡ look o

module _ {O : Type 0} (look : O → Option OsAttribute) where
  -- Both objects show the same.
  abbrev Same : O → O → Type 0
  Same o o' = look o' ≡ look o

  and_then-view :
      (o : O) (first : CkRv × O) (next : O → CkRv × O)
      → look first.1 ≡ look o
      → ((o' : O) → look (next o').1 ≡ look o')
      → look (and_then next first).1 ≡ look o
  and_then-view o (ok, o') next h k = k o' ∙ h
  and_then-view o (_, o') next h k = h

  choose-view :
      (c : Bool) (o : O) (x y : CkRv × O) → Same o x.1 → Same o y.1 → Same o (if c then x else y).1
  choose-view true o x y h k = h
  choose-view false o x y h k = k

  given-view :
      {A : Type 0} (m : Option A) (o : O) (failure : CkRv × O) (next : A → CkRv × O)
      → Same o failure.1
      → ((a : A) → Same o (next a).1)
      → Same o (given m failure next).1
  given-view none o failure next h k = h
  given-view (some a) o failure next h k = k a

module _ {O : Type 0} (I : OsObject O) (look : O → Option OsAttribute) (u : ℕ)
    (keeps : Keeps I look u) where
  put-view : (t : ℕ) (a : OsAttribute) (o : O) → (u == t) ≡ false → look (put I t a o) ≡ look o
  unfolding put
  put-view t a o h = keeps t a o h

  put_if-view :
      (c : Bool) (t : ℕ) (a : OsAttribute) (o : O)
      → (u == t) ≡ false
      → look (put_if I c t a o) ≡ look o
  unfolding put_if
  put_if-view true t a o h = put-view t a o h
  put_if-view false t a o h = refl

  module _ (ctx : Context) (is_private : Bool) (p_value : Option Bytes) (len : ℕ) where
    update_plain-view :
        (t : ℕ) (o : O)
        → (u == t) ≡ false
        → Same look o (update_plain I ctx is_private p_value len t o).1
    unfolding update_plain
    update_plain-view t o h = given-view look _ o _ _ refl (λ value. put-view t _ o h)

    put_check_value-view :
        (check : Bytes) (o : O)
        → (u == cka_check_value) ≡ false
        → Same look o (put_check_value I ctx is_private p_value len check o).1
    unfolding put_check_value
    put_check_value-view check o h =
        given-view look _ o _ _ refl (λ value. put-view cka_check_value _ o h)

    value_sizes-view :
        (op : ObjectOp) (o : O)
        → (u == cka_value_len) ≡ false
        → (u == cka_value_bits) ≡ false
        → Same look o (value_sizes I ctx is_private p_value len op o).1
    unfolding value_sizes put_value_len put_value_bits
    value_sizes-view op o h k =
        choose-view look _ o _ _
          (put_if-view _ cka_value_bits _ _ k ∙ put_if-view _ cka_value_len _ o h) refl

    certificate_check-view :
        (o : O)
        → (u == cka_check_value) ≡ false
        → Same look o (certificate_check I ctx is_private p_value len o).1
    unfolding certificate_check
    certificate_check-view o h =
        choose-view look _ o _ _
          (given-view look _ o _ _ refl (λ digest. put_check_value-view _ o h)) (refl)

    secret_key_check-view :
        (op : ObjectOp) (o : O)
        → (u == cka_check_value) ≡ false
        → Same look o (secret_key_check I ctx is_private p_value len op o).1
    unfolding secret_key_check
    secret_key_check-view op o h =
        choose-view look _ o _ _
          (given-view look _ o _ _ refl (λ check. put_check_value-view check o h)) (refl)

    update_value-view :
        (op : ObjectOp) (t : ℕ) (o : O)
        → (u == t) ≡ false
        → derived value_rule u ≡ false
        → Same look o (update_value I ctx is_private p_value len op t o).1
    unfolding update_value
    update_value-view op t o h d =
        let first : CkRv × O = update_plain I ctx is_private p_value len t o in
        let sized : CkRv × O = and_then (value_sizes I ctx is_private p_value len op) first in
        let certified : CkRv × O =
          and_then (certificate_check I ctx is_private p_value len) sized in
        let sized-view : Same look o sized.1 =
          and_then-view look o first (value_sizes I ctx is_private p_value len op)
            (update_plain-view t o h)
            (λ o'. value_sizes-view op o' (ground arith) (ground arith)) in
        let certified-view : Same look o certified.1 =
          and_then-view look o sized (certificate_check I ctx is_private p_value len) sized-view
            (λ o'. certificate_check-view o' (ground arith)) in
        and_then-view look o certified (secret_key_check I ctx is_private p_value len op)
          certified-view (λ o'. secret_key_check-view op o' (ground arith))

    compare_and_put-view :
        (t : ℕ) (value keybits : Bytes) (o : O)
        → (u == t) ≡ false
        → Same look o (compare_and_put I ctx is_private p_value len t value keybits o).1
    unfolding compare_and_put
    compare_and_put-view t value keybits o h =
        given-view look
          (key_check_value ctx (bytes_at p_value len) keybits
            (I.get_unsigned_long_value cka_key_type ckk_vendor_defined o))
          o (general_error, o)
          (λ check.
            if not (bytes_eq (bytes_at p_value len) check)
            then (attribute_value_invalid, o)
            else (ok, put I t (byte_string value) o))
          refl
          (λ check.
            choose-view look (not (bytes_eq (bytes_at p_value len) check)) o
              (attribute_value_invalid, o) (ok, put I t (byte_string value) o) refl
              (put-view t (byte_string value) o h))

    check_and_put-view :
        (t : ℕ) (value : Bytes) (o : O)
        → (u == t) ≡ false
        → Same look o (check_and_put I ctx is_private p_value len t value o).1
    unfolding check_and_put
    check_and_put-view t value o h =
        given-view look _ o _ _ refl (λ keybits. compare_and_put-view t value keybits o h)

    update_check_value-view :
        (t : ℕ) (o : O)
        → (u == t) ≡ false
        → Same look o (update_check_value I ctx is_private p_value len t o).1
    unfolding update_check_value
    update_check_value-view t o h =
        given-view look (stored ctx is_private p_value len) o (general_error, o)
          (λ value.
            if len == 0
            then (ok, put I t (byte_string value) o)
            else check_and_put I ctx is_private p_value len t value o)
          refl
          (λ value.
            choose-view look (len == 0) o (ok, put I t (byte_string value) o)
              (check_and_put I ctx is_private p_value len t value o)
              (put-view t (byte_string value) o h) (check_and_put-view t value o h))

    update_with_bits-view :
        (op : ObjectOp) (b t : ℕ) (o : O)
        → (u == t) ≡ false
        → (u == b) ≡ false
        → Same look o (update_with_bits I ctx is_private p_value len op b t o).1
    unfolding update_with_bits bits_step
    update_with_bits-view op b t o h k =
        and_then-view look o (update_plain I ctx is_private p_value len t o)
          (bits_step I ctx is_private p_value len op b) (update_plain-view t o h)
          (λ o'. put_if-view _ b _ o' k)

    update_class-view :
        (t : ℕ) (o : O) → Same look o (update_class I ctx is_private p_value len t o).1
    unfolding update_class
    update_class-view t o = ground arith

    update_flag-view :
        (t : ℕ) (o : O)
        → (u == t) ≡ false
        → Same look o (update_flag I ctx is_private p_value len t o).1
    unfolding update_flag
    update_flag-view t o h =
        ground (arith, put-view t (boolean true) o h, put-view t (boolean false) o h)

    update_copyable-view :
        (t : ℕ) (o : O)
        → (u == t) ≡ false
        → Same look o (update_copyable I ctx is_private p_value len t o).1
    unfolding update_copyable
    update_copyable-view t o h = ground (arith, put-view t (boolean false) o h)

    update_trusted-view :
        (t : ℕ) (o : O)
        → (u == t) ≡ false
        → Same look o (update_trusted I ctx is_private p_value len t o).1
    unfolding update_trusted
    update_trusted-view t o h =
        ground (arith, put-view t (boolean true) o h, put-view t (boolean false) o h)

    update_sensitive-view :
        (op : ObjectOp) (t : ℕ) (o : O)
        → (u == t) ≡ false
        → (u == cka_always_sensitive) ≡ false
        → Same look o (update_sensitive I ctx is_private p_value len op t o).1
    unfolding update_sensitive
    update_sensitive-view op t o h k =
        let lowered = put I t (boolean false) o in
        let raised = put I t (boolean true) o in
        ground (
          arith,
          put-view t (boolean true) o h,
          put-view t (boolean false) o h,
          put-view cka_always_sensitive (boolean false) lowered k,
          put_if-view (is_op op op_generate || is_op op op_derive) cka_always_sensitive
              (boolean true) raised k,
        )

    update_extractable-view :
        (op : ObjectOp) (t : ℕ) (o : O)
        → (u == t) ≡ false
        → (u == cka_never_extractable) ≡ false
        → Same look o (update_extractable I ctx is_private p_value len op t o).1
    unfolding update_extractable
    update_extractable-view op t o h k =
        let raised = put I t (boolean true) o in
        ground (
          arith,
          put-view t (boolean true) o h,
          put-view t (boolean false) o h,
          put-view cka_never_extractable (boolean false) raised k,
        )

    update_wrap_with_trusted-view :
        (op : ObjectOp) (t : ℕ) (o : O)
        → (u == t) ≡ false
        → Same look o (update_wrap_with_trusted I ctx is_private p_value len op t o).1
    unfolding update_wrap_with_trusted
    update_wrap_with_trusted-view op t o h =
        ground (arith, put-view t (boolean true) o h, put-view t (boolean false) o h)

    update_always_authenticate-view :
        (t : ℕ) (o : O)
        → (u == t) ≡ false
        → Same look o (update_always_authenticate I ctx is_private p_value len t o).1
    unfolding update_always_authenticate
    update_always_authenticate-view t o h =
        ground (arith, put-view t (boolean true) o h, put-view t (boolean false) o h)

    update_number-view :
        (t : ℕ) (o : O)
        → (u == t) ≡ false
        → Same look o (update_number I ctx is_private p_value len t o).1
    unfolding update_number
    update_number-view t o h = ground (arith, put-view t (ulong (ulong_at p_value)) o h)

    update_restricted-view :
        (allowed : Bool) (t : ℕ) (o : O)
        → (u == t) ≡ false
        → Same look o (update_restricted I ctx is_private p_value len allowed t o).1
    unfolding update_restricted
    update_restricted-view allowed t o h = ground (arith, put-view t (ulong (ulong_at p_value)) o h)

    update_date-view :
        (t : ℕ) (o : O)
        → (u == t) ≡ false
        → Same look o (update_date I ctx is_private p_value len t o).1
    unfolding update_date
    update_date-view t o h = ground (arith, put-view t (byte_string (bytes_at p_value len)) o h)

    update_template-view :
        (t : ℕ) (o : O)
        → (u == t) ≡ false
        → Same look o (update_template I ctx is_private p_value len t o).1
    unfolding update_template
    update_template-view t o h =
        let given_map : Option AttributeMap =
          collect no_entry (ctx.elements (len / 24) (bytes_at p_value len)) in
        let next : AttributeMap → CkRv × O = λ m. (ok, put I t (attribute_map m) o) in
        choose-view look (not (len % 24 == 0)) o (attribute_value_invalid, o)
          (given given_map (attribute_value_invalid, o) next) refl
          (given-view look given_map o (attribute_value_invalid, o) next refl
            (λ m. put-view t (attribute_map m) o h))

    update_mechanisms-view :
        (t : ℕ) (o : O)
        → (u == t) ≡ false
        → Same look o (update_mechanisms I ctx is_private p_value len t o).1
    unfolding update_mechanisms
    update_mechanisms-view t o h = ground (
      arith,
      put-view t (mechanism_set (collect_mechanisms (len / 8) [] (bytes_at p_value len))) o h,
    )

    update_by_rule-view :
        (r : UpdateRule) (op : ObjectOp) (t : ℕ) (o : O)
        → (u == t) ≡ false
        → derived r u ≡ false
        → Same look o (update_by_rule I ctx is_private p_value len r op t o).1
    unfolding update_by_rule
    update_by_rule-view plain_rule op t o h d = update_plain-view t o h
    update_by_rule-view class_rule op t o h d = update_class-view t o
    update_by_rule-view flag_rule op t o h d = update_flag-view t o h
    update_by_rule-view copyable_rule op t o h d = update_copyable-view t o h
    update_by_rule-view trusted_rule op t o h d = update_trusted-view t o h
    update_by_rule-view number_rule op t o h d = update_number-view t o h
    update_by_rule-view date_rule op t o h d = update_date-view t o h
    update_by_rule-view read_only_rule op t o h d = refl
    update_by_rule-view sensitive_rule op t o h d = update_sensitive-view op t o h d
    update_by_rule-view extractable_rule op t o h d = update_extractable-view op t o h d
    update_by_rule-view wrap_with_trusted_rule op t o h d = update_wrap_with_trusted-view op t o h
    update_by_rule-view always_authenticate_rule op t o h d = update_always_authenticate-view t o h
    update_by_rule-view value_rule op t o h d = update_value-view op t o h d
    update_by_rule-view check_value_rule op t o h d = update_check_value-view t o h
    update_by_rule-view generated_rule op t o h d = update_restricted-view _ t o h
    update_by_rule-view value_len_rule op t o h d = update_restricted-view _ t o h
    update_by_rule-view private_handle_rule op t o h d = update_restricted-view _ t o h
    update_by_rule-view template_rule op t o h d = update_template-view t o h
    update_by_rule-view mechanisms_rule op t o h d = update_mechanisms-view t o h
    update_by_rule-view (with_bits_rule bits_type) op t o h d =
        update_with_bits-view op bits_type t o h d

    -- An updateAttr changes no attribute but its own and those derived from it.
    pub update_attr-view :
        (a : P11Attribute) (op : ObjectOp) (o : O)
        → may_change a u ≡ false
        → Same look o (update_attr I ctx is_private p_value len a op o).1
    update_attr-view a op o h = update_by_rule-view a.rule op a.type o (ground arith) (ground arith)
