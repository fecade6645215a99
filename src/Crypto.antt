-- ===== src/Crypto.antt =====
-- What the data manager uses of the random number generator, SHA-256 and AES-CBC, which stand for
-- OpenSSL or Botan. `C` is the state of a running cipher.
use archive_aaf_sshsm.Common.{ℕ, ◌<◌, ◌≡◌, Option, none, some, ◌++◌, length}
use archive_aaf_sshsm.ByteString.{Bytes}

pub record Crypto (C : Type 0) : Type 0 where
  -- What the n-th call of generateRandom for so many bytes gives.
  pub random : ℕ → ℕ → Option Bytes
  -- hashInit, hashUpdate of the parts, hashFinal, on the parts joined.
  pub hash : Bytes → Option Bytes
  pub block_size : ℕ
  pub encrypt_init : Bytes → Bytes → Option C
  pub encrypt_update : C → Bytes → Option (Bytes × C)
  pub encrypt_final : C → Option Bytes
  pub decrypt_init : Bytes → Bytes → Option C
  pub decrypt_update : C → Bytes → Option (Bytes × C)
  pub decrypt_final : C → Option Bytes

-- decryptInit, decryptUpdate and decryptFinal in a row.
abbrev pub decrypt_all : {C : Type 0} → Crypto C → Bytes → Bytes → Bytes → Option Bytes
decrypt_all c key iv bs = elim (c.decrypt_init key iv) [
  | none ↦ none
  | some c0 ↦ elim (c.decrypt_update c0 bs) [
    | none ↦ none
    | some (out, c1) ↦ elim (c.decrypt_final c1) [ none ↦ none | some end ↦ some (out ++ end) ]
  ]
]

-- Random strings have the length asked for, and what a run of one or two updates encrypts is
-- decrypted under the same key and IV.
pub record CryptoLaws {C : Type 0} (c : Crypto C) : Type 0 where
  pub random_length : (i n : ℕ) (bs : Bytes) → c.random i n ≡ some bs → length bs ≡ n
  pub block_pos : 0 < c.block_size
  pub one_part :
      (key iv bs out end : Bytes) (c0 c1 : C)
      → c.encrypt_init key iv ≡ some c0
      → c.encrypt_update c0 bs ≡ some (out, c1)
      → c.encrypt_final c1 ≡ some end
      → decrypt_all c key iv (out ++ end) ≡ some bs
  pub two_parts :
      (key iv bs cs out1 out2 end : Bytes) (c0 c1 c2 : C)
      → c.encrypt_init key iv ≡ some c0
      → c.encrypt_update c0 bs ≡ some (out1, c1)
      → c.encrypt_update c1 cs ≡ some (out2, c2)
      → c.encrypt_final c2 ≡ some end
      → decrypt_all c key iv (out1 ++ (out2 ++ end)) ≡ some (bs ++ cs)
