-- ===== src/Common/Numbers.antt =====
-- Division by a number that is not known, powers of two, and the order on the numbers as `Acc`.
use Prim.Native.Nat.{ℕ, zero, suc, ◌+◌, ◌*◌, ◌/◌, ◌%◌, ◌^◌, ◌<◌}
use mathlib.Core.Path.{◌≡◌, sym, ◌∙◌, ap}
use mathlib.Core.Logic.{◌⊎◌, inl, inr}
use mathlib.Core.WellFounded.{Acc, WellFounded}
use native.Mathlib.Omega.{arith}
use native.Mathlib.Decide.{dec_lt}
use native.Mathlib.Nat.{div-add-mod, mod-lt, div-eq_of_lt-le, pow-suc, div-div-eq-div-mul}

-- Quotient and remainder are determined by the equation that they solve.
pub div_unique : (m i q r : ℕ) → m ≡ i * q + r → r < i → (m / i ≡ q) × (m % i ≡ r)
div_unique m i q r e h = (quotient, remainder)
  where
    quotient : m / i ≡ q
    quotient = div-eq_of_lt-le i (omega arith) (omega arith)

    remainder : m % i ≡ r
    remainder = omega (arith, div-add-mod m i, ap (λ (t : ℕ). i * t) quotient)

-- Counting on by one stays in the row of `i`, or begins the next.
pub div_suc :
    (n i : ℕ)
    → 0 < i
    → ((suc n / i ≡ n / i) × (suc n % i ≡ n % i + 1))
      ⊎ ((suc n / i ≡ n / i + 1) × (suc n % i ≡ 0) × (n % i + 1 ≡ i))
div_suc n i h = elim (dec_lt (n % i + 1) i) [
  | yes p ↦ inl (div_unique (suc n) i (n / i) (n % i + 1) (omega (arith, div-add-mod n i)) p)
  | no p ↦
      let full : n % i + 1 ≡ i = omega (arith, mod-lt n h) in
      let (q, r) = div_unique (suc n) i (n / i + 1) 0 (omega (arith, div-add-mod n i)) h in
      inr (q, r, full)
]

pub half_pow : (a k : ℕ) → a / 2 ^ suc k ≡ a / 2 ^ k / 2
half_pow a k = ap (λ t. a / t) (pow-suc 2 k) ∙ sym (div-div-eq-div-mul a (2 ^ k) 2)

acc_below : (k n : ℕ) → n < k → Acc ◌<◌ n
acc_below zero n h = absurd (omega arith)
acc_below (suc k) n h = Acc.intro n (λ m hm. acc_below k m (omega arith))

unfoldable pub lt_wf : WellFounded ◌<◌
unfolding acc_below
lt_wf = record { apply = λ n. acc_below (suc n) n (omega arith) }
