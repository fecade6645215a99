-- ===== src/Common/Bits.antt =====
-- Laws of `^`, `|=` and `&= ~` on unsigned numbers.
use Prim.Native.Nat.{
  ℕ, zero, suc, ◌+◌, ◌*◌, ◌/◌, ◌%◌, ◌≤◌, ◌<◌, bit_xor, digits, differ, bit_xor-bitwise,
}
use mathlib.Core.Path.{◌≡◌, refl, ◌∙◌}
use native.Mathlib.Omega.{arith}

abbrev xor_digits : ℕ → ℕ → ℕ → ℕ
xor_digits = digits (λ y. y) differ

differ-mod : (a b : ℕ) → differ (a % 2) (b % 2) ≡ (a + b) % 2
differ-mod a b = two (a % 2) (b % 2) (omega arith) (omega arith) ∙ omega arith
  where
    two : (x y : ℕ) → x < 2 → y < 2 → differ x y ≡ (x + y) % 2
    two zero y p q = omega arith
    two (suc zero) zero p q = refl
    two (suc zero) (suc zero) p q = refl
    two (suc zero) (suc (suc y)) p q = absurd (omega arith)
    two (suc (suc x)) y p q = absurd (omega arith)

-- More digits than the first number has make no difference.
xor_digits_enough : (n m a b : ℕ) → a ≤ n → a ≤ m → xor_digits n a b ≡ xor_digits m a b
xor_digits_enough n m zero b p q = at_zero n b ∙ at_zero_back m b
  where
    at_zero : (k c : ℕ) → xor_digits k 0 c ≡ c
    at_zero zero c = refl
    at_zero (suc k) c = refl

    at_zero_back : (k c : ℕ) → c ≡ xor_digits k 0 c
    at_zero_back zero c = refl
    at_zero_back (suc k) c = refl
xor_digits_enough zero m (suc a) b p q = absurd (omega arith)
xor_digits_enough (suc n) zero (suc a) b p q = absurd (omega arith)
xor_digits_enough (suc n) (suc m) (suc a) b p q =
    rw (xor_digits_enough n m (suc a / 2) (b / 2) (omega arith) (omega arith))

bit_xor_low : (a b : ℕ) → bit_xor a b ≡ bit_xor (a / 2) (b / 2) * 2 + (a + b) % 2
bit_xor_low zero b = simp bit_xor-bitwise (omega arith)
bit_xor_low (suc a) b = simp bit_xor-bitwise (
    omega (
      arith,
      differ-mod (suc a) b,
      xor_digits_enough a (suc a / 2) (suc a / 2) (b / 2) (omega arith) (omega arith),
    ))

xor_twice_below : (n a b : ℕ) → a + b ≤ n → bit_xor (bit_xor a b) b ≡ a
xor_twice_below zero zero zero h = refl
xor_twice_below zero zero (suc b) h = absurd (omega arith)
xor_twice_below zero (suc a) b h = absurd (omega arith)
xor_twice_below (suc n) zero zero h = refl
xor_twice_below (suc n) a b h =
    let half : bit_xor a b / 2 ≡ bit_xor (a / 2) (b / 2) = omega (arith, bit_xor_low a b) in
    bit_xor_low (bit_xor a b) b
    ∙ rw (half, xor_twice_below n (a / 2) (b / 2) (omega arith)) (omega (arith, bit_xor_low a b))

-- XOR with the same number twice gives the number back.
pub bit_xor_twice : (a b : ℕ) → bit_xor (bit_xor a b) b ≡ a
bit_xor_twice a b = xor_twice_below (a + b) a b (omega arith)
