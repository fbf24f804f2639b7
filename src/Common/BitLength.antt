-- ===== src/Common/BitLength.antt =====
-- Python's `int.bit_length` on numbers that are not negative, and the byte count
-- `(n.bit_length() + 7) // 8` that the scripts make of it.
use Prim.Native.Nat.{ℕ, zero, suc, ◌+◌, ◌*◌, ◌/◌, ◌^◌, ◌≤◌, ◌<◌}
use mathlib.Core.Path.{◌≡◌, refl, ap, ◌∙◌}
use mathlib.Core.Logic.{inl, inr}
use mathlib.Core.Bool.{true, false}
use native.Mathlib.Omega.{arith}
use native.Mathlib.Nat.{pow-suc, one-le-pow}
use native.Mathlib.Decide.{dec_le, dec_lt}
use wam_coin.Common.Tests.{◌==◌, Bool-cases, ==_iff}

-- Halvings until 0; the number itself is more than enough fuel.
unfoldable pub bits : ℕ → ℕ → ℕ
bits zero n = 0
bits (suc fuel) n = elim (n == 0) [ true ↦ 0 | false ↦ suc (bits fuel (n / 2)) ]

unfoldable pub bit_length : ℕ → ℕ
unfolding bits
bit_length n = bits n n

abbrev pub byte_count : ℕ → ℕ
byte_count n = (bit_length n + 7) / 8

bits-le : (fuel n k : ℕ) → n ≤ fuel → n < 2 ^ k → bits fuel n ≤ k
unfolding bits
bits-le zero n k f h = omega arith
bits-le (suc fuel) n zero f h = ground arith
bits-le (suc fuel) n (suc k) f h =
    ground (arith, bits-le fuel (n / 2) k (omega arith) (omega (arith, pow-suc 2 k)))

lt-bits : (fuel n k : ℕ) → n ≤ fuel → bits fuel n ≤ k → n < 2 ^ k
unfolding bits
lt-bits zero n k f h = omega (arith, one-le-pow k 2 (omega arith))
lt-bits (suc fuel) n zero f h = ground arith
lt-bits (suc fuel) n (suc k) f h = elim (Bool-cases (n == 0)) [
  | inl z ↦ omega (arith, (==_iff n 0).0 z, one-le-pow (suc k) 2 (omega arith))
  | inr more ↦ omega (
    arith,
    pow-suc 2 k,
    lt-bits fuel (n / 2) k (omega arith) (omega (arith, rw (more, bits) at h)),
  )
]

-- A number fits `k` bytes exactly if its byte count is at most `k`.
pub byte_count-le : (n k : ℕ) → n < 2 ^ (8 * k) → byte_count n ≤ k
unfolding bit_length
byte_count-le n k h = omega (arith, bits-le n n (8 * k) (omega arith) h)

pub lt-byte_count : (n k : ℕ) → byte_count n ≤ k → n < 2 ^ (8 * k)
unfolding bit_length
lt-byte_count n k h = lt-bits n n (8 * k) (omega arith) (omega arith)

pub byte_count_fits : (n : ℕ) → n < 2 ^ (8 * byte_count n)
byte_count_fits n = lt-byte_count n (byte_count n) (omega arith)

-- The byte count is the only number that a number fits and does not fit one less of.
pub byte_count_unique : (n k : ℕ) → 2 ^ (8 * k) ≤ n → n < 2 ^ (8 * suc k) → byte_count n ≡ suc k
byte_count_unique n k low high = elim (dec_le (byte_count n) k) [
  | yes small ↦ absurd (omega (arith, lt-byte_count n k small))
  | no large ↦ omega (arith, byte_count-le n (suc k) high)
]

pub byte_count-zero : byte_count 0 ≡ 0
unfolding bit_length
byte_count-zero = refl

pub le-byte_count : (n k : ℕ) → byte_count n ≡ suc k → 2 ^ (8 * k) ≤ n
le-byte_count n k e = elim (dec_lt n (2 ^ (8 * k))) [
  | yes small ↦ absurd (omega (arith, byte_count-le n k small))
  | no large ↦ omega arith
]

pub pow_add : (a b : ℕ) → 2 ^ (a + b) ≡ 2 ^ a * 2 ^ b
pow_add a zero =
    let same : 2 ^ (a + 0) ≡ 2 ^ a = ap (λ t. 2 ^ t) (omega arith) in omega (arith, same)
pow_add a (suc b) =
    let next : 2 ^ (a + suc b) ≡ 2 ^ suc (a + b) = ap (λ t. 2 ^ t) (omega arith) in
    omega (arith, next, pow-suc 2 (a + b), pow_add a b, ap (λ (t : ℕ). 2 ^ a * t) (pow-suc 2 b))

pub byte_pow : (k : ℕ) → 2 ^ (8 * suc k) ≡ 256 * 2 ^ (8 * k)
byte_pow k =
    let split : 8 * suc k ≡ 8 + 8 * k = omega arith in ap (λ e. 2 ^ e) split ∙ pow_add 8 (8 * k)
