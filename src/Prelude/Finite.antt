-- ===== src/Prelude/Finite.antt =====
-- Functions that agree on all numbers below a bound, by evaluation.
use threader.Prelude.{ℕ, zero, suc, ◌<◌, ◌≡◌, Bool, true, false, ◌==◌, if◌then◌else◌, arith}

-- Whether two functions agree on all numbers below a bound.
unfoldable pub agrees : (ℕ → ℕ) → (ℕ → ℕ) → ℕ → Bool
agrees f g zero = true
agrees f g (suc bound) = if f bound == g bound then agrees f g bound else false

pub agrees-eq : (f g : ℕ → ℕ) (bound i : ℕ) → agrees f g bound ≡ true → i < bound → f i ≡ g i
unfolding agrees
agrees-eq f g zero i e k = absurd (omega arith)
agrees-eq f g (suc bound) i e k = grind (arith, agrees-eq f g bound i)
