-- ===== src/ByteString.antt =====
-- SoftHSMv2/src/lib/data_mgr/ByteString.cpp: byte strings as lists of numbers below 256. An
-- operation that changes the string in place returns the new string.
pub mod Serial
pub mod Masking
use archive_aaf_sshsm.Common.{
  ℕ, zero, suc, ◌+◌, ◌-◌, ◌*◌, ◌/◌, ◌%◌, ◌^◌, min, ◌⊎◌, inl, inr, Bool, true, false, ◌&&◌, List, [],
  ◌∷◌, ◌++◌, ltb, leb, ◌==◌, if◌then◌else◌, length, take, drop, replicate,
}
use archive_aaf_sshsm.Cryptoki.{ulong_mod}
use Prim.Native.Nat.{bit_xor}

abbrev pub Bytes : Type 0
Bytes = List ℕ

-- SIZE_T_MAX, the default length of `substr`.
abbrev pub size_max : ℕ
size_max = ulong_mod - 1

-- The loop of ByteString(unsigned long): byteStrIn[7-i] = setValue & 0xFF; setValue >>= 8.
pub be_bytes : ℕ → ℕ → Bytes → Bytes
be_bytes zero set_value acc = acc
be_bytes (suc rounds) set_value acc = be_bytes rounds (set_value / 256) (set_value % 256 ∷ acc)

unfoldable pub from_ulong : ℕ → Bytes
unfolding be_bytes
from_ulong long_value = be_bytes 8 long_value []

-- rv <<= 8; rv += byteString[i], on an unsigned long.
pub long_from : ℕ → Bytes → ℕ
long_from rv [] = rv
long_from rv (b ∷ bs) = long_from ((rv * 256 % ulong_mod + b) % ulong_mod) bs

unfoldable pub long_val : Bytes → ℕ
unfolding long_from
long_val bs = long_from 0 (take (min 8 (length bs)) bs)

-- std::vector::resize: cut, or fill with zeros.
unfoldable pub resize : ℕ → Bytes → Bytes
resize n bs = take n (bs ++ replicate n 0)

unfoldable pub wipe : ℕ → Bytes → Bytes
wipe n bs = replicate n 0

-- operator^=: the bytes that both have are combined, the rest stays.
unfoldable pub xor_assign : Bytes → Bytes → Bytes
xor_assign [] rhs = []
xor_assign (b ∷ bs) [] = b ∷ bs
xor_assign (b ∷ bs) (r ∷ rhs) = bit_xor b r ∷ xor_assign bs rhs

-- operator^: only the bytes that both have.
unfoldable pub xor : Bytes → Bytes → Bytes
xor [] rhs = []
xor (b ∷ bs) [] = []
xor (b ∷ bs) (r ∷ rhs) = bit_xor b r ∷ xor bs rhs

unfoldable pub substr : ℕ → ℕ → Bytes → Bytes
substr start len bs =
    if leb (length bs) start then [] else take (min len (length bs - start)) (drop start bs)

unfoldable pub substr_from : ℕ → Bytes → Bytes
unfolding substr
substr_from start bs = substr start size_max bs

-- The cut-off front, and what stays in the string: the bytes from `len` on, moved to the front.
unfoldable pub split : ℕ → Bytes → Bytes × Bytes
split len bs =
    let new_size = if ltb len (length bs) then length bs - len else 0 in
    (substr 0 len bs, resize new_size (drop len bs))

unfoldable pub first_long : Bytes → ℕ × Bytes
first_long bs = (long_val bs, (split 8 bs).1)

unfoldable pub serialise : Bytes → Bytes
serialise bs = from_ulong (length bs) ++ bs

-- The first string of a chain, and the rest of the chain.
unfoldable pub chain_deserialise : Bytes → Bytes × Bytes
chain_deserialise serialised = let (len, rest) = first_long serialised in split len rest

-- memcmp over equal lengths.
unfoldable pub bytes_eq : Bytes → Bytes → Bool
bytes_eq [] [] = true
bytes_eq [] (c ∷ cs) = false
bytes_eq (b ∷ bs) [] = false
bytes_eq (b ∷ bs) (c ∷ cs) = (b == c) && bytes_eq bs cs

-- The loop over the masks of one byte: `inl n` goes on with n bits, `inr n` returns n.
pub bits_byte : ℕ → ℕ → ℕ → ℕ ⊎ ℕ
bits_byte zero byte n = inl n
bits_byte (suc k) byte n =
    let rest = bits_byte k byte (n - 1) in if byte / 2 ^ k % 2 == 0 then rest else inr n

pub bits_from : Bytes → ℕ → ℕ
bits_from [] n = n
bits_from (b ∷ bs) n = elim (bits_byte 8 b n) [ inl n' ↦ bits_from bs n' | inr n' ↦ n' ]

unfoldable pub bits : Bytes → ℕ
unfolding bits_from bits_byte
bits bs = if length bs * 8 == 0 then 0 else bits_from bs (length bs * 8)
