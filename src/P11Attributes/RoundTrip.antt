-- ===== src/P11Attributes/RoundTrip.antt =====
-- SoftHSMv2/src/lib/P11Attributes.cpp: what was stored in an attribute is what a caller gets, by the two calls
-- that ask for the length first.
use archive_aaf_sshsm.Common.{
  ℕ, ◌≤◌, ◌≡◌, refl, ap, ◌∙◌, inl, inr, Bool, true, false, not, ◌&&◌, ◌||◌, none, some, [], ◌∷◌,
  arith, ltb, leb, ◌==◌, le→leb, Bool-cases, Option-cases, length, take, take_all,
}
use archive_aaf_sshsm.Cryptoki.{ok}
use archive_aaf_sshsm.ByteString.{Bytes}
use archive_aaf_sshsm.OsObject.{byte_string, OsObject, OsObjectLaws, present}
use archive_aaf_sshsm.P11Attributes.{
  Context, P11Attribute, ck7, has, bytes_at, is_sensitive, is_extractable,
}
use archive_aaf_sshsm.P11Attributes.Steps.{stored, put}
use archive_aaf_sshsm.P11Attributes.Rules.{update_plain}
use archive_aaf_sshsm.P11Attributes.Retrieve.{
  overwrite, revealed, variable_size, attribute_size, copy_out, retrieve_value, retrieve,
}

-- The cipher of a token gives back what it encrypted.
abbrev pub Decrypts : Context → Type 0
Decrypts ctx =
    (plain value : Bytes) → ctx.encrypt plain ≡ some value → ctx.decrypt value ≡ some plain

length-zero : (bs : Bytes) → length bs ≡ 0 → bs ≡ []
length-zero [] h = refl
length-zero (b ∷ bs) h = absurd (omega (arith, h))

-- The value that `stored` gives is what a caller is shown.
stored-revealed :
    (ctx : Context) (is_private : Bool) (plain value : Bytes)
    → Decrypts ctx
    → stored ctx is_private (some plain) (length plain) ≡ some value
    → revealed ctx is_private value ≡ some plain
unfolding stored revealed bytes_at
stored-revealed ctx false plain value decrypts h =
    let whole : take (length plain) plain ≡ plain = take_all (length plain) plain (omega arith) in
    let small : ltb (length (take (length plain) plain)) (length plain) ≡ false =
      ground (arith, ap length whole) in
    ground (arith, h, whole, small)
stored-revealed ctx true plain value decrypts h =
    let whole : take (length plain) plain ≡ plain = take_all (length plain) plain (omega arith) in
    let whole_encrypted = ap ctx.encrypt whole in
    elim (Option-cases (ctx.encrypt plain)) [
      | inl failed ↦ absurd (ground (arith, h, whole_encrypted, failed))
      | inr (c, e) ↦ elim (Bool-cases (ltb (length c) (length plain))) [
        | inl short ↦ absurd (ground (arith, h, whole_encrypted, e, short))
        | inr long ↦
            let same : some c ≡ some value = ground (arith, h, whole_encrypted, e, long) in
            let typed : c ≡ value = ground (arith, same) in
            elim (Bool-cases (length value == 0)) [
              | inl empty ↦
                  let none_left : length plain ≡ 0 = ground (arith, ap length typed, empty, long) in
                  ground (
                    arith,
                    empty,
                    length-zero plain none_left,
                    length-zero value (ground (arith, empty)),
                  )
              | inr filled ↦ ground (arith, filled, decrypts plain value (e ∙ same))
            ]
      ]
    ]

module _ {O : Type 0} {I : OsObject O} (L : OsObjectLaws I) (ctx : Context) (is_private : Bool)
    (decrypts : Decrypts ctx) (a : P11Attribute) (plain : Bytes) (o : O) where
  -- The object after the update.
  abbrev pub updated : O
  updated = (update_plain I ctx is_private (some plain) (length plain) a.type o).1

  update_plain-stored :
      (update_plain I ctx is_private (some plain) (length plain) a.type o).0 ≡ ok
      → (value : Bytes) × (stored ctx is_private (some plain) (length plain) ≡ some value)
        × (updated ≡ put I a.type (byte_string value) o)
  unfolding update_plain
  update_plain-stored fine =
      elim (Option-cases (stored ctx is_private (some plain) (length plain))) [
        | inl failed ↦ absurd (ground (arith, fine, failed))
        | inr (value, e) ↦ (value, e, ground (arith, e))
      ]

  update_plain-view :
      (value : Bytes)
      → ((bs : Bytes) → (I.set_attribute a.type (byte_string bs) o).0 ≡ true)
      → updated ≡ put I a.type (byte_string value) o
      → L.view a.type updated ≡ some (byte_string value)
  unfolding put
  update_plain-view value writes e =
      ap (L.view a.type) e
      ∙ ground (arith, L.set_view a.type a.type (byte_string value) o, writes value)

  revealed-empty :
      (value : Bytes)
      → (length value == 0) ≡ true
      → revealed ctx is_private value ≡ some plain
      → plain ≡ []
  unfolding revealed
  revealed-empty value empty shown =
      ground (arith, empty, shown, length-zero value (ground (arith, empty)))

  overwrite-nothing : (memory : Bytes) → overwrite [] memory ≡ memory
  unfolding overwrite
  overwrite-nothing memory = refl

  -- What a caller with enough room gets of a stored value.
  retrieve_value-stored :
      (value memory : Bytes) (room : ℕ)
      → a.size ≡ none
      → revealed ctx is_private value ≡ some plain
      → length plain ≤ room
      → (retrieve_value I ctx is_private a (byte_string value) none 0 ≡ (ok, none, length plain))
        × (retrieve_value I ctx is_private a (byte_string value) (some memory) room
            ≡ (ok, some (overwrite plain memory), length plain))
  unfolding retrieve_value attribute_size variable_size copy_out
  retrieve_value-stored value memory room free shown enough =
      let whole : take (length plain) plain ≡ plain = take_all (length plain) plain (omega arith) in
      let fits : leb (length plain) room ≡ true = le→leb (length plain) room enough in
      (
        ground (arith, free, shown),
        elim (Bool-cases (length value == 0)) [
          | inl empty ↦
              let nothing : plain ≡ [] = revealed-empty value empty shown in
              ground (
                arith,
                free,
                shown,
                fits,
                empty,
                nothing,
                overwrite-nothing memory,
                ap (λ bs. overwrite bs memory) nothing,
              )
          | inr filled ↦
              ground (arith, free, shown, fits, filled, whole, ap (λ bs. overwrite bs memory) whole)
        ],
      )

  -- A plain attribute of variable size, stored by an update that returns CKR_OK in an object that takes byte
  -- strings for that attribute, with a cipher that decrypts what it encrypted, and not hidden in the object
  -- afterwards: a call without a buffer then gets the length that was stored, and a call with room for it
  -- gets the same bytes, the rest of the buffer left alone.
  pub retrieve-update_plain :
      (memory : Bytes) (room : ℕ)
      → (update_plain I ctx is_private (some plain) (length plain) a.type o).0 ≡ ok
      → ((bs : Bytes) → (I.set_attribute a.type (byte_string bs) o).0 ≡ true)
      → a.size ≡ none
      → (has ck7 a.checks && (is_sensitive I updated || not (is_extractable I updated))) ≡ false
      → length plain ≤ room
      → (retrieve I ctx is_private a none 0 updated ≡ (ok, none, length plain))
        × (retrieve I ctx is_private a (some memory) room updated
            ≡ (ok, some (overwrite plain memory), length plain))
  unfolding retrieve
  retrieve-update_plain memory room fine writes free shown enough =
      let (value, e, after) = update_plain-stored fine in
      let there = update_plain-view value writes after in
      let (length_known, bytes_known) =
        retrieve_value-stored value memory room free
          (stored-revealed ctx is_private plain value decrypts e) enough in
      let exists : I.attribute_exists a.type updated ≡ true =
        L.exists_view a.type updated ∙ ap present there in
      let got : I.get_attribute a.type updated ≡ byte_string value =
        L.attribute_view a.type updated (byte_string value) there in
      (
        ground (
          arith,
          shown,
          exists,
          ap (λ b. retrieve_value I ctx is_private a b none 0) got,
          length_known,
        ),
        ground (
          arith,
          shown,
          exists,
          ap (λ b. retrieve_value I ctx is_private a b (some memory) room) got,
          bytes_known,
        ),
      )
