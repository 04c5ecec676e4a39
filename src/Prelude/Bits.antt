-- ===== src/Prelude/Bits.antt =====
-- Exclusive or of native numbers stays within the width of its arguments.
use Prim.Native.Nat.{digits, differ, bit_xor-bitwise}
use threader.Prelude.{ℕ, zero, suc, ◌/◌, ◌%◌, ◌^◌, ◌<◌, arith, bit_xor}
use native.Mathlib.Nat.{pow-suc}

differ-lt : (a b : ℕ) → a < 2 → b < 2 → differ a b < 2
differ-lt zero b h k = k
differ-lt (suc zero) zero h k = omega arith
differ-lt (suc zero) (suc zero) h k = omega arith
differ-lt (suc zero) (suc (suc b)) h k = absurd (omega arith)
differ-lt (suc (suc a)) b h k = absurd (omega arith)

-- Whatever the fuel of the recursion on the digits.
digits-lt : (k n a b : ℕ) → a < 2 ^ k → b < 2 ^ k → digits (λ y. y) differ n a b < 2 ^ k
digits-lt k zero zero b h i = i
digits-lt k zero (suc a) b h i = i
digits-lt k (suc n) zero b h i = i
digits-lt zero (suc n) (suc a) b h i = absurd (omega arith)
digits-lt (suc k) (suc n) (suc a) b h i = omega (
  arith,
  digits-lt k n (suc a / 2) (b / 2) (omega (arith, pow-suc 2 k)) (omega (arith, pow-suc 2 k)),
  differ-lt (suc a % 2) (b % 2) (omega arith) (omega arith),
  pow-suc 2 k,
)

-- Numbers of `k` bits give a number of `k` bits.
pub bit_xor-lt : (k a b : ℕ) → a < 2 ^ k → b < 2 ^ k → bit_xor a b < 2 ^ k
bit_xor-lt k a b h i = omega (arith, bit_xor-bitwise a b, digits-lt k a a b h i)
