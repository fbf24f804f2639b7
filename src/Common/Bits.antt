-- ===== src/Common/Bits.antt =====
-- `&`, `|` and `^` of Python's non-negative integers as arithmetic, at every width.
use Prim.Native.Nat.{
  ℕ, zero, suc, ◌+◌, ◌-◌, ◌*◌, ◌/◌, ◌%◌, ◌^◌, ◌≤◌, ◌<◌, min, max, bit_and, bit_or, bit_xor, differ,
  digits, bitwise, bit_and-bitwise, bit_or-bitwise, bit_xor-bitwise,
}
use mathlib.Core.Path.{◌≡◌, refl, ap, sym, ◌∙◌}
use native.Mathlib.Omega.{arith}
use native.Mathlib.Nat.{pow-suc, pow-succ', one-le-pow, div-add-mod, mod-lt, div-div-eq-div-mul}
use wam_coin.Common.Numbers.{div_unique}

-- The fuel of the definition that the native operations stand for does not matter once it is enough.
module _ (keep : ℕ → ℕ) (digit : ℕ → ℕ → ℕ) where
  enough_fuel : (n m a b : ℕ) → a ≤ n → a ≤ m → digits keep digit n a b ≡ digits keep digit m a b
  enough_fuel zero zero a b p q = refl
  enough_fuel zero (suc m) zero b p q = refl
  enough_fuel zero (suc m) (suc a) b p q = absurd (omega arith)
  enough_fuel (suc n) zero zero b p q = refl
  enough_fuel (suc n) zero (suc a) b p q = absurd (omega arith)
  enough_fuel (suc n) (suc m) zero b p q = refl
  enough_fuel (suc n) (suc m) (suc a) b p q =
      omega (arith, enough_fuel n m (suc a / 2) (b / 2) (omega arith) (omega arith))

  lowest_digit :
      (a b : ℕ)
      → bitwise keep digit (suc a) b
        ≡ bitwise keep digit (suc a / 2) (b / 2) * 2 + digit (suc a % 2) (b % 2)
  lowest_digit a b =
      omega (arith, enough_fuel a (suc a / 2) (suc a / 2) (b / 2) (omega arith) (omega arith))

-- One binary digit at a time.
pub bit_and_digit : (a b : ℕ) → bit_and a b ≡ bit_and (a / 2) (b / 2) * 2 + min (a % 2) (b % 2)
bit_and_digit zero b = simp bit_and-bitwise (omega arith)
bit_and_digit (suc a) b = simp bit_and-bitwise (lowest_digit (λ c. 0) min a b)

pub bit_or_digit : (a b : ℕ) → bit_or a b ≡ bit_or (a / 2) (b / 2) * 2 + max (a % 2) (b % 2)
bit_or_digit zero b = simp bit_or-bitwise (omega arith)
bit_or_digit (suc a) b = simp bit_or-bitwise (lowest_digit (λ c. c) max a b)

pub bit_xor_digit : (a b : ℕ) → bit_xor a b ≡ bit_xor (a / 2) (b / 2) * 2 + differ (a % 2) (b % 2)
bit_xor_digit zero b = simp bit_xor-bitwise (omega (arith, differ_zero b))
  where
    differ_zero : (b : ℕ) → differ 0 (b % 2) ≡ b % 2
    differ_zero b = ground arith
bit_xor_digit (suc a) b = simp bit_xor-bitwise (lowest_digit (λ c. c) differ a b)

differ-le : (a b : ℕ) → a < 2 → b < 2 → differ a b < 2
differ-le zero b h g = g
differ-le (suc a) zero h g = h
differ-le (suc a) (suc b) h g = differ-le a b (omega arith) (omega arith)

-- No operation makes a number longer than its arguments.
half-lt : (k a : ℕ) → a < 2 ^ suc k → a / 2 < 2 ^ k
half-lt k a h = omega (arith, pow-suc 2 k)

below_one : (a : ℕ) → a < 2 ^ 0 → a ≡ 0
below_one a h = omega arith

pub bit_and-lt : (k a b : ℕ) → a < 2 ^ k → b < 2 ^ k → bit_and a b < 2 ^ k
bit_and-lt zero a b h g = rw (below_one a h, below_one b g) (omega arith)
bit_and-lt (suc k) a b h g = omega (
  arith,
  pow-suc 2 k,
  bit_and_digit a b,
  bit_and-lt k (a / 2) (b / 2) (half-lt k a h) (half-lt k b g),
)

pub bit_or-lt : (k a b : ℕ) → a < 2 ^ k → b < 2 ^ k → bit_or a b < 2 ^ k
bit_or-lt zero a b h g = rw (below_one a h, below_one b g) (omega arith)
bit_or-lt (suc k) a b h g = omega (
  arith,
  pow-suc 2 k,
  bit_or_digit a b,
  bit_or-lt k (a / 2) (b / 2) (half-lt k a h) (half-lt k b g),
)

pub bit_xor-lt : (k a b : ℕ) → a < 2 ^ k → b < 2 ^ k → bit_xor a b < 2 ^ k
bit_xor-lt zero a b h g = rw (below_one a h, below_one b g) (omega arith)
bit_xor-lt (suc k) a b h g = omega (
  arith,
  pow-suc 2 k,
  bit_xor_digit a b,
  differ-le (a % 2) (b % 2) (omega arith) (omega arith),
  bit_xor-lt k (a / 2) (b / 2) (half-lt k a h) (half-lt k b g),
)

bits_zero : (n a : ℕ) → a ≤ n → (bit_and a 0 ≡ 0) × (bit_or a 0 ≡ a)
bits_zero n zero h = (refl, refl)
bits_zero zero (suc a) h = absurd (omega arith)
bits_zero (suc n) (suc a) h =
    let (none, all) = bits_zero n (suc a / 2) (omega arith) in
    (omega (arith, bit_and_digit (suc a) 0, none), omega (arith, bit_or_digit (suc a) 0, all))

mod_half : (k a : ℕ) → a % 2 ^ suc k ≡ a / 2 % 2 ^ k * 2 + a % 2
mod_half k a =
    (div_unique a (2 ^ suc k) (a / 2 / 2 ^ k) (a / 2 % 2 ^ k * 2 + a % 2)
      (omega
        (arith, div-add-mod (a / 2) (2 ^ k), ap (λ (t : ℕ). t * (a / 2 / 2 ^ k)) (pow-suc 2 k)))
      (omega (arith, pow-suc 2 k, mod-lt (a / 2) {m = 2 ^ k} (one-le-pow k 2 (omega arith))))).1

-- `a & (2 ** k - 1)` is a remainder.
pub bit_and_mask : (k a : ℕ) → bit_and a (2 ^ k - 1) ≡ a % 2 ^ k
bit_and_mask zero a = (bits_zero a a (omega arith)).0 ∙ omega arith
bit_and_mask (suc k) a =
    let half_mask : (2 ^ suc k - 1) / 2 ≡ 2 ^ k - 1 =
      omega (arith, pow-suc 2 k, one-le-pow k 2 (omega arith)) in
    let odd_mask : (2 ^ suc k - 1) % 2 ≡ 1 =
      omega (arith, pow-suc 2 k, one-le-pow k 2 (omega arith)) in
    omega (
      arith,
      bit_and_digit a (2 ^ suc k - 1),
      ap (bit_and (a / 2)) half_mask,
      bit_and_mask k (a / 2),
      mod_half k a,
    )

-- `a & (1 << k)` is not zero exactly if the digit is set.
pub bit_and_single : (k a : ℕ) → bit_and a (2 ^ k) ≡ a / 2 ^ k % 2 * 2 ^ k
bit_and_single zero a =
    omega (arith, bit_and_digit a 1, (bits_zero (a / 2) (a / 2) (omega arith)).0)
bit_and_single (suc k) a =
    let half : 2 ^ suc k / 2 ≡ 2 ^ k = omega (arith, pow-suc 2 k) in
    let even : 2 ^ suc k % 2 ≡ 0 = omega (arith, pow-suc 2 k) in
    let shifted : a / 2 / 2 ^ k ≡ a / 2 ^ suc k =
      div-div-eq-div-mul a 2 (2 ^ k) ∙ ap (λ t. a / t) (sym (pow-succ' 2 k)) in
    omega (
      arith,
      bit_and_digit a (2 ^ suc k),
      ap (bit_and (a / 2)) half,
      bit_and_single k (a / 2),
      ap (λ (t : ℕ). t % 2 * 2 ^ k) shifted,
      ap (λ (t : ℕ). a / 2 ^ suc k % 2 * t) (pow-suc 2 k),
    )

-- `r | (q << k)` is a sum where `r` has at most `k` digits.
pub bit_or_sum : (k q r : ℕ) → r < 2 ^ k → bit_or r (q * 2 ^ k) ≡ r + q * 2 ^ k
bit_or_sum zero q r h = rw (below_one r h) (bit_or-bitwise 0 (q * 2 ^ 0) ∙ omega arith)
bit_or_sum (suc k) q r h =
    let half : q * 2 ^ suc k / 2 ≡ q * 2 ^ k = omega (arith, ap (λ (t : ℕ). q * t) (pow-suc 2 k)) in
    let even : q * 2 ^ suc k % 2 ≡ 0 = omega (arith, ap (λ (t : ℕ). q * t) (pow-suc 2 k)) in
    omega (
      arith,
      bit_or_digit r (q * 2 ^ suc k),
      ap (bit_or (r / 2)) half,
      bit_or_sum k q (r / 2) (half-lt k r h),
      ap (λ (t : ℕ). q * t) (pow-suc 2 k),
    )
