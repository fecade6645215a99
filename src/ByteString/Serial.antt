-- ===== src/ByteString/Serial.antt =====
-- Serialised strings read back.
use archive_aaf_sshsm.Common.{
  ℕ, zero, suc, ◌+◌, ◌-◌, ◌*◌, ◌/◌, ◌%◌, ◌^◌, ◌≤◌, ◌<◌, min, ◌≡◌, refl, ap, ◌∙◌, inl, inr, [], ◌∷◌,
  ◌++◌, arith, ltb, leb, if◌then◌else◌, leb→le, Bool-cases, length, take, drop, replicate,
  length-append, take-length_append, drop-length_append, take_all, take-append-drop, length-take,
  length-drop,
}
use archive_aaf_sshsm.Cryptoki.{ulong_mod}
use native.Mathlib.Nat.{pow-suc}
use mathlib.Core.List.{append_assoc}
use archive_aaf_sshsm.ByteString.{
  Bytes, size_max, from_ulong, be_bytes, long_from, long_val, resize, substr, substr_from, split,
  first_long, serialise, chain_deserialise,
}

be_bytes-append :
    (n v : ℕ) (acc rest : Bytes) → be_bytes n v acc ++ rest ≡ be_bytes n v (acc ++ rest)
unfolding be_bytes
be_bytes-append zero v acc rest = refl
be_bytes-append (suc n) v acc rest = be_bytes-append n (v / 256) (v % 256 ∷ acc) rest

length-be_bytes : (n v : ℕ) (acc : Bytes) → length (be_bytes n v acc) ≡ n + length acc
unfolding be_bytes
length-be_bytes zero v acc = omega arith
length-be_bytes (suc n) v acc = omega (arith, length-be_bytes n (v / 256) (v % 256 ∷ acc))

pub length-from_ulong : (v : ℕ) → length (from_ulong v) ≡ 8
unfolding from_ulong
length-from_ulong v = length-be_bytes 8 v []

-- Reading the bytes of a number below 256^n, after a number that leaves room for them.
long_from-be_bytes :
    (n v r : ℕ) (acc : Bytes)
    → v < 256 ^ n
    → r * 256 ^ n + v < ulong_mod
    → long_from r (be_bytes n v acc) ≡ long_from (r * 256 ^ n + v) acc
unfolding be_bytes long_from
long_from-be_bytes zero v r acc h room = ap (λ x. long_from x acc) (omega arith)
long_from-be_bytes (suc n) v r acc h room =
    let p : 256 ^ suc n ≡ 256 ^ n * 256 = pow-suc 256 n in
    let q : r * 256 ^ suc n ≡ 256 * (r * 256 ^ n) = omega (arith, ap (λ (t : ℕ). r * t) p) in
    long_from-be_bytes n (v / 256) r (v % 256 ∷ acc) (omega arith) (omega arith)
    ∙ ap (λ x. long_from x acc) (omega arith)

take-eight :
    (xs rest : Bytes) → length xs ≡ 8 → take (min 8 (length (xs ++ rest))) (xs ++ rest) ≡ xs
take-eight xs rest h =
    ap (λ n. take n (xs ++ rest)) (omega (arith, length-append xs rest))
    ∙ take-length_append xs rest

long_from-from_ulong : (v : ℕ) → v < ulong_mod → long_from 0 (from_ulong v) ≡ v
unfolding from_ulong long_from
long_from-from_ulong v h = long_from-be_bytes 8 v 0 [] (omega arith) (omega arith) ∙ omega arith

pub long_val-from_ulong :
    (v : ℕ) (rest : Bytes) → v < ulong_mod → long_val (from_ulong v ++ rest) ≡ v
unfolding long_val
long_val-from_ulong v rest h =
    ap (long_from 0) (take-eight (from_ulong v) rest (length-from_ulong v))
    ∙ long_from-from_ulong v h

take-min : (n : ℕ) (xs : Bytes) → take (min n (length xs)) xs ≡ take n xs
take-min zero xs = rw (zero_min (length xs))
  where
    zero_min : (k : ℕ) → min 0 k ≡ 0
    zero_min k = omega arith
take-min (suc n) [] = rw (min_zero n)
  where
    min_zero : (k : ℕ) → min (suc k) 0 ≡ 0
    min_zero k = omega arith
take-min (suc n) (x ∷ xs) = rw (min_suc n (length xs)) (ap (◌∷◌ x) (take-min n xs))
  where
    min_suc : (k l : ℕ) → min (suc k) (suc l) ≡ suc (min k l)
    min_suc k l = omega arith

take-nil : (n : ℕ) → take n (let e : Bytes = [] in e) ≡ []
take-nil zero = refl
take-nil (suc n) = refl

drop_all : (n : ℕ) (bs : Bytes) → length bs ≤ n → drop n bs ≡ []
drop_all zero [] h = refl
drop_all zero (b ∷ bs) h = absurd (omega arith)
drop_all (suc n) [] h = refl
drop_all (suc n) (b ∷ bs) h = drop_all n bs (omega arith)

-- `substr` is the bytes from `start` on, at most `len` of them, and empty behind the end.
pub substr_lem : (start len : ℕ) (bs : Bytes) → substr start len bs ≡ take len (drop start bs)
unfolding substr
substr_lem start len bs = elim (Bool-cases (leb (length bs) start)) [
  | inl out ↦ rw (out, drop_all start bs (leb→le _ _ out), take-nil len)
  | inr inside ↦ rw (inside, ← length-drop start bs) (take-min len (drop start bs))
]

pub substr_from_lem :
    (start : ℕ) (bs : Bytes) → length bs ≤ size_max → substr_from start bs ≡ drop start bs
unfolding substr_from
substr_from_lem start bs h =
    substr_lem start size_max bs
    ∙ take_all size_max (drop start bs) (omega (arith, length-drop start bs))

rest_size :
    (n : ℕ) (bs : Bytes) → (if ltb n (length bs) then length bs - n else 0) ≡ length (drop n bs)
rest_size n bs = ground (arith, length-drop n bs)

resize_self : (xs : Bytes) → resize (length xs) xs ≡ xs
unfolding resize
resize_self xs = take-length_append xs (replicate (length xs) 0)

-- `split` cuts the string in two: nothing is lost, added or reordered.
pub split_lem : (n : ℕ) (bs : Bytes) → split n bs ≡ (take n bs, drop n bs)
unfolding split
split_lem n bs = rw (rest_size n bs, resize_self (drop n bs), substr_lem 0 n bs)

chain_deserialise_lem :
    (bs : Bytes)
    → chain_deserialise bs ≡ (take (long_val bs) (drop 8 bs), drop (long_val bs) (drop 8 bs))
unfolding chain_deserialise first_long
chain_deserialise_lem bs = rw (split_lem 8 bs) (split_lem (long_val bs) (drop 8 bs))

drop-eight : (xs rest : Bytes) → length xs ≡ 8 → drop 8 (xs ++ rest) ≡ rest
drop-eight xs rest h = rw (← h) (drop-length_append xs rest)

-- A serialised string at the front of a chain is read back, and the rest of the chain is left.
pub chain_deserialise-serialise :
    (bs rest : Bytes)
    → length bs < ulong_mod
    → chain_deserialise (serialise bs ++ rest) ≡ (bs, rest)
unfolding serialise
chain_deserialise-serialise bs rest h =
    let field = from_ulong (length bs) in
    rw
      (
        append_assoc,
        chain_deserialise_lem (field ++ (bs ++ rest)),
        long_val-from_ulong (length bs) (bs ++ rest) h,
        drop-eight field (bs ++ rest) (length-from_ulong (length bs)),
        take-length_append bs rest,
        drop-length_append bs rest,
      )
      refl

-- Reading a chain stays within it: the string read and the new rest are together the bytes behind
-- the length field, whatever length that field claims, and no more bytes are read than it claims.
pub chain_deserialise_within :
    (bs : Bytes)
    → ((chain_deserialise bs).0 ++ (chain_deserialise bs).1 ≡ drop 8 bs)
      × (length (chain_deserialise bs).0 ≤ long_val bs)
chain_deserialise_within bs = rw (chain_deserialise_lem bs) (
  take-append-drop (long_val bs) (drop 8 bs),
  omega (arith, length-take (long_val bs) (drop 8 bs)),
)

take_front : (n : ℕ) (xs ys : Bytes) → length xs ≡ n → take n (xs ++ ys) ≡ xs
take_front n xs ys h = rw (← h) (take-length_append xs ys)

drop_front : (n : ℕ) (xs ys : Bytes) → length xs ≡ n → drop n (xs ++ ys) ≡ ys
drop_front n xs ys h = rw (← h) (drop-length_append xs ys)

pub substr_front : (n : ℕ) (xs ys : Bytes) → length xs ≡ n → substr 0 n (xs ++ ys) ≡ xs
substr_front n xs ys h = substr_lem 0 n (xs ++ ys) ∙ take_front n xs ys h

pub substr_middle :
    (n k : ℕ) (xs ys zs : Bytes)
    → length xs ≡ n
    → length ys ≡ k
    → substr n k (xs ++ (ys ++ zs)) ≡ ys
substr_middle n k xs ys zs h g =
    substr_lem n k (xs ++ (ys ++ zs))
    ∙ ap (take k) (drop_front n xs (ys ++ zs) h)
    ∙ take_front k ys zs g

pub substr_back :
    (n : ℕ) (xs ys : Bytes)
    → length xs ≡ n
    → length (xs ++ ys) ≤ size_max
    → substr_from n (xs ++ ys) ≡ ys
substr_back n xs ys h g = substr_from_lem n (xs ++ ys) g ∙ drop_front n xs ys h
