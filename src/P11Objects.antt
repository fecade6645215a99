-- ===== src/P11Objects.antt =====
-- SoftHSMv2/src/lib/P11Objects.cpp: PKCS#11 objects, which are the attributes of a class of objects over an
-- OSObject. `attributes` is the std::map from types to attributes.
pub mod Attributes
pub mod Init
pub mod Templates
pub mod Ratchet
pub mod Factory
pub mod Classes
pub mod Defaults
pub mod Reveal
pub mod Save
use archive_aaf_sshsm.Common.{ℕ, Bool, true, false, not, ◌||◌, List, [], ◌∷◌, ◌==◌, if◌then◌else◌}
use archive_aaf_sshsm.Common.Map.{Map, insert}
use archive_aaf_sshsm.Cryptoki.Attributes.{cka_private, cka_modifiable, cka_copyable}
use archive_aaf_sshsm.OsObject.{boolean, ulong, OsObject}
use archive_aaf_sshsm.P11Attributes
use archive_aaf_sshsm.P11Attributes.{P11Attribute}

-- What init returns, the object and the attributes afterwards.
pub record InitResult (O : Type 0) : Type 0 where
  pub initialized : Bool
  pub object : O
  pub attributes : Map P11Attribute

-- attributes[attr->getType()] = attr, for each.
unfoldable pub add_all : List P11Attribute → Map P11Attribute → Map P11Attribute
add_all [] m = m
add_all (a ∷ rest) m = add_all rest (insert a.type a m)

module _ {O : Type 0} (I : OsObject O) where
  -- The value that the class needs, where the object has none or another.
  unfoldable pub require : ℕ → ℕ → ℕ → O → O
  require t val value o =
      if not (I.attribute_exists t o) || not (I.get_unsigned_long_value t val o == value)
      then (I.set_attribute t (ulong value) o).1
      else o

  -- Certificates and public keys are public unless something else was said.
  unfoldable pub default_private : O → O
  default_private o =
      if not (I.attribute_exists cka_private o)
      then (I.set_attribute cka_private (boolean false) o).1
      else o

  -- The init of each in turn, up to the first that fails.
  unfoldable pub init_all : List P11Attribute → O → Bool × O
  init_all [] o = (true, o)
  init_all (a ∷ rest) o =
      let (done, o') = P11Attributes.init I a o in
      let others = init_all rest o' in if done then others else (false, o')

  -- The common part of each init, after the one of the class above it.
  unfoldable pub extend : List P11Attribute → InitResult O → InitResult O
  extend own r =
      let (done, o) = init_all own r.object in
      if not r.initialized
      then r
      else if not done
      then record r { initialized = false; object = o }
      else record { initialized = true; object = o; attributes = add_all own r.attributes }

  -- P11Object's own reading of the flags.
  unfoldable pub is_private : O → Bool
  is_private o =
      if not (I.attribute_exists cka_private o)
      then false
      else I.get_boolean_value cka_private false o

  unfoldable pub is_copyable : O → Bool
  is_copyable o =
      if not (I.attribute_exists cka_copyable o)
      then true
      else I.get_boolean_value cka_copyable true o

  unfoldable pub is_modifiable : O → Bool
  is_modifiable o =
      if not (I.attribute_exists cka_modifiable o)
      then true
      else I.get_boolean_value cka_modifiable true o
