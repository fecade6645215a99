-- ===== src/Tests/Fixtures.antt =====
-- A toy cipher and a toy token store, which satisfy the laws that the theorems ask for.
use archive_aaf_sshsm.Common.{
  ℕ, zero, suc, ◌+◌, ◌%◌, ◌<◌, ◌≡◌, refl, Bool, true, false, Option, none, some, [], ◌∷◌, ◌++◌,
  arith, ◌==◌, if◌then◌else◌, ==_refl, length, replicate, length-replicate,
}
use archive_aaf_sshsm.ByteString.{Bytes}
use archive_aaf_sshsm.Crypto.{Crypto, CryptoLaws}
use archive_aaf_sshsm.Token.Store.{TokenStore, StoreLaws}
use archive_aaf_sshsm.Token.{Token}
use archive_aaf_sshsm.SecureData.{
  SecureDataManager, pbe_loop, derive_key, pbe_encrypt_key, encrypt_key_blob,
}

abbrev pub sum : Bytes → ℕ
sum [] = 0
sum (b ∷ bs) = b + sum bs

-- A running cipher: the first byte of its key, and what it holds back.
abbrev pub Running : Type 0
Running = ℕ × Bytes

abbrev pub key_byte : Bytes → ℕ
key_byte [] = 0
key_byte (b ∷ bs) = b

-- Everything comes out at the end, behind the first byte of the key.
abbrev pub toy_decrypt : Running → Bytes → Option (Bytes × Running)
toy_decrypt (k, held) [] = none
toy_decrypt (k, held) (b ∷ bs) = if b == k then some ([], (k, held ++ bs)) else none

abbrev pub toy : Crypto Running
toy = record {
  random = λ i n. some (replicate n (i % 256));
  hash = λ bs. some (sum bs % 256 ∷ []);
  block_size = 16;
  encrypt_init = λ key iv. some (key_byte key, []);
  encrypt_update = λ c bs. some ([], (c.0, c.1 ++ bs));
  encrypt_final = λ c. some (c.0 ∷ c.1);
  decrypt_init = λ key iv. some (key_byte key, []);
  decrypt_update = toy_decrypt;
  decrypt_final = λ c. some c.1;
}

random_length : (i n : ℕ) (bs : Bytes) → toy.random i n ≡ some bs → length bs ≡ n
random_length i n bs e = ground (arith, length-replicate n (i % 256))

pub toy_laws : CryptoLaws toy
toy_laws = record {
  random_length = random_length;
  block_pos = omega arith;
  one_part = λ key iv bs out end c0 c1 i u f. ground (arith, ==_refl (key_byte key));
  two_parts = λ key iv bs cs out1 out2 end c0 c1 c2 i u v f. ground (arith, ==_refl (key_byte key));
}

-- A hash of one byte is that byte.
pub toy_loop : (n b : ℕ) → b < 256 → pbe_loop toy n (b ∷ []) ≡ some (b ∷ [])
unfolding pbe_loop
toy_loop zero b h = refl
toy_loop (suc n) b h = let same : (b + 0) % 256 ≡ b = omega arith in rw same (toy_loop n b h)

-- A key is wrapped when the generator and the hash answer.
pub wraps :
    {C : Type 0} (c : Crypto C) (pin old key drawn iv : Bytes) (s : SecureDataManager)
    → c.random s.rng 8 ≡ some drawn
    → derive_key c pin drawn ≡ some key
    → c.random (s.rng + 1) c.block_size ≡ some iv
    → pbe_encrypt_key c pin old s
      ≡ encrypt_key_blob c key iv (drawn ++ iv) (record s { rng = s.rng + 2 })
unfolding pbe_encrypt_key
wraps c pin old key drawn iv s e d i = ground arith

pub record Disk : Type 0 where
  pub flags : Option ℕ
  pub so_pin : Option Bytes
  pub user_pin : Option Bytes
  pub can_reset : Bool

abbrev pub disk : TokenStore Disk
disk = record {
  is_valid = λ d. true;
  get_token_flags = λ d. d.flags;
  set_token_flags = λ f d. record d { flags = some f };
  get_so_pin = λ d. d.so_pin;
  get_user_pin = λ d. d.user_pin;
  set_so_pin = λ b d. (true, record d { so_pin = some b; flags = some 0 });
  set_user_pin = λ b d. (true, record d { user_pin = some b; flags = some 0 });
  reset_token = λ label d. (d.can_reset, d);
  new_token = λ label.
      some (record { flags = some 0; so_pin = some []; user_pin = some []; can_reset = true });
}

-- A store that cannot be reset.
abbrev pub stuck_disk : TokenStore Disk
stuck_disk = record disk { reset_token = λ label d. (false, d) }

pub disk_laws : StoreLaws disk
disk_laws = record {
  flags_keep_readable = λ f t h. ground arith;
  user_pin_keeps_readable = λ b t h. ground arith;
}

abbrev pub fresh_disk : Disk
fresh_disk = record {
  flags = some 0;
  so_pin = some (replicate 60 9);
  user_pin = some [];
  can_reset = true;
}

-- An initialised token whose SO is logged in.
abbrev pub logged_in : Token Disk
logged_in = record {
  loaded = some (record {
    store = fresh_disk;
    sdm = record {
      so_encrypted_key = replicate 60 9;
      user_encrypted_key = [];
      masked_key = replicate 32 7;
      mask = replicate 32 5;
      so_logged_in = true;
      user_logged_in = false;
      rng = 3;
    };
  });
  valid = true;
}
