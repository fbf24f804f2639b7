-- ===== src/Compact/Spec.antt =====
-- Both directions of the compact encoding in plain arithmetic.
use wam_coin.Common.{
  ℕ, suc, ◌+◌, ◌-◌, ◌*◌, ◌/◌, ◌^◌, ◌≤◌, ◌<◌, ◌≡◌, refl, ap, sym, ◌∙◌, leb, if◌then◌else◌, le→leb,
  lt→leb, arith,
}
use wam_coin.Common.BitLength.{
  byte_count, byte_count-le, byte_count_fits, byte_count_unique, pow_add,
}
use wam_coin.Common.Bits.{bit_and_mask, bit_and_single, bit_or_sum}
use wam_coin.Compact.{compact_to_target, target_to_compact, normalise}
use Prim.Native.Nat.{bit_and}
use native.Mathlib.Decide.{dec_le, dec_lt}
use native.Mathlib.Nat.{
  mul-lt-mul_of_pos_right, one-le-pow, div-lt_iff_lt-mul, le-div_iff_mul-le, mul-le-mul_right,
  div-div-eq-div-mul,
}

-- The bytes of `t` from the third on, counted from a size of `s` bytes.
unfoldable pub mantissa : ℕ → ℕ → ℕ
mantissa s t = if leb s 3 then t * 2 ^ (8 * (3 - s)) else t / 2 ^ (8 * (s - 3))

-- The number that a mantissa stands for at size `s`.
unfoldable pub place : ℕ → ℕ → ℕ
place s m = if leb s 3 then m / 2 ^ (8 * (3 - s)) else m * 2 ^ (8 * (s - 3))

pub compact_to_target-place :
    (s m : ℕ) → m < 2 ^ 23 → compact_to_target (m + s * 2 ^ 24) ≡ place s m
unfolding compact_to_target place
compact_to_target-place s m h =
    let size : (m + s * 2 ^ 24) / 2 ^ 24 ≡ s = omega arith in
    let word : bit_and (m + s * 2 ^ 24) 0x007FFFFF ≡ m =
      bit_and_mask 23 (m + s * 2 ^ 24) ∙ omega arith in
    rw (size, word) refl

scale_small : (s : ℕ) → s ≤ 3 → 2 ^ (8 * s) * 2 ^ (8 * (3 - s)) ≡ 2 ^ 24
scale_small s h = sym (pow_add (8 * s) (8 * (3 - s))) ∙ ap (λ t. 2 ^ t) whole
  where
    whole : 8 * s + 8 * (3 - s) ≡ 24
    whole = omega arith

pub scale_large : (s : ℕ) → 3 ≤ s → 2 ^ 24 * 2 ^ (8 * (s - 3)) ≡ 2 ^ (8 * s)
scale_large s h = sym (pow_add 24 (8 * (s - 3))) ∙ ap (λ t. 2 ^ t) whole
  where
    whole : 24 + 8 * (s - 3) ≡ 8 * s
    whole = omega arith

pub positive : (k : ℕ) → 0 < 2 ^ k
positive k = one-le-pow k 2 (omega arith)

pub mantissa_small : (s t : ℕ) → s ≤ 3 → mantissa s t ≡ t * 2 ^ (8 * (3 - s))
unfolding mantissa
mantissa_small s t h = rw (le→leb s 3 h)

pub mantissa_large : (s t : ℕ) → 3 < s → mantissa s t ≡ t / 2 ^ (8 * (s - 3))
unfolding mantissa
mantissa_large s t h = rw (lt→leb s 3 h)

-- A size fits a number exactly if its mantissa fits three bytes, and with the sign bit to spare if
-- the size fits the double.
mantissa-lt : (s t : ℕ) → t < 2 ^ (8 * s) → mantissa s t < 2 ^ 24
mantissa-lt s t h = elim (dec_le s 3) [
  | yes p ↦
      let scaled : t * 2 ^ (8 * (3 - s)) < 2 ^ (8 * s) * 2 ^ (8 * (3 - s)) =
        mul-lt-mul_of_pos_right h (positive _) in
      omega (arith, scaled, scale_small s p, mantissa_small s t p)
  | no p ↦
      rw (mantissa_large s t (omega arith))
        ((div-lt_iff_lt-mul (positive _)).1 (omega (arith, h, scale_large s (omega arith))))
]

pub mantissa_low : (s t : ℕ) → 2 * t < 2 ^ (8 * s) → mantissa s t < 2 ^ 23
mantissa_low s t h = elim (dec_le s 3) [
  | yes p ↦
      let scaled : 2 * t * 2 ^ (8 * (3 - s)) < 2 ^ (8 * s) * 2 ^ (8 * (3 - s)) =
        mul-lt-mul_of_pos_right h (positive _) in
      omega (arith, scaled, scale_small s p, mantissa_small s t p)
  | no p ↦
      rw (mantissa_large s t (omega arith))
        ((div-lt_iff_lt-mul (positive _)).1 (omega (arith, h, scale_large s (omega arith))))
]

mantissa_high : (s t : ℕ) → 2 ^ (8 * s) ≤ 2 * t → 2 ^ 23 ≤ mantissa s t
mantissa_high s t h = elim (dec_le s 3) [
  | yes p ↦
      let scaled : 2 ^ (8 * s) * 2 ^ (8 * (3 - s)) ≤ 2 * t * 2 ^ (8 * (3 - s)) =
        mul-le-mul_right _ h in
      omega (arith, scaled, scale_small s p, mantissa_small s t p)
  | no p ↦
      rw (mantissa_large s t (omega arith))
        ((le-div_iff_mul-le (positive _)).1 (omega (arith, h, scale_large s (omega arith))))
]

mantissa_next : (s t : ℕ) → mantissa (s + 1) t ≡ mantissa s t / 2 ^ 8
mantissa_next s t = elim (dec_lt s 3) [
  | yes p ↦
      let shorter : 2 ^ (8 * (3 - s)) ≡ 2 ^ (8 * (3 - (s + 1))) * 256 =
        ap (λ k. 2 ^ k) (omega arith) ∙ pow_add (8 * (3 - (s + 1))) 8 in
      omega (
        arith,
        mantissa_small (s + 1) t (omega arith),
        mantissa_small s t (omega arith),
        ap (λ (k : ℕ). t * k) shorter,
      )
  | no p ↦ elim (dec_le s 3) [
    | yes q ↦
        let last_byte : s + 1 - 3 ≡ 1 = omega arith in
        let no_byte : 3 - s ≡ 0 = omega arith in
        let one_byte : t / 2 ^ (8 * (s + 1 - 3)) ≡ t / 256 = ap (λ k. t / 2 ^ (8 * k)) last_byte in
        let whole : t * 2 ^ (8 * (3 - s)) ≡ t * 1 = ap (λ k. t * 2 ^ (8 * k)) no_byte in
        mantissa_large (s + 1) t (omega arith)
        ∙ one_byte
        ∙ ap (λ k. k / 256) (omega (arith, mantissa_small s t q, whole))
    | no q ↦
        let longer : 2 ^ (8 * (s + 1 - 3)) ≡ 2 ^ (8 * (s - 3)) * 256 =
          ap (λ k. 2 ^ k) (omega arith) ∙ pow_add (8 * (s - 3)) 8 in
        mantissa_large (s + 1) t (omega arith)
        ∙ ap (λ k. t / k) longer
        ∙ sym (div-div-eq-div-mul t (2 ^ (8 * (s - 3))) 256)
        ∙ ap (λ k. k / 256) (sym (mantissa_large s t (omega arith)))
  ]
]

normalise_low :
    (size compact : ℕ) → compact < 2 ^ 23 → normalise size compact ≡ compact + size * 2 ^ 24
unfolding normalise
normalise_low size compact h =
    ground (arith, bit_and_single 23 compact, bit_or_sum 24 size compact (omega arith))

normalise_high :
    (size compact : ℕ)
    → 2 ^ 23 ≤ compact
    → compact < 2 ^ 24
    → normalise size compact ≡ compact / 2 ^ 8 + (size + 1) * 2 ^ 24
unfolding normalise
normalise_high size compact h g =
    ground
      (arith, bit_and_single 23 compact, bit_or_sum 24 (size + 1) (compact / 2 ^ 8) (omega arith))

target_to_compact-normalise :
    (t : ℕ) → target_to_compact t ≡ normalise (byte_count t) (mantissa (byte_count t) t)
unfolding target_to_compact mantissa
target_to_compact-normalise t = refl

size_low : (t : ℕ) → 2 * t < 2 ^ (8 * byte_count t) → byte_count (2 * t) ≡ byte_count t
size_low t h = omega (
  arith,
  byte_count-le (2 * t) (byte_count t) h,
  byte_count-le t (byte_count (2 * t)) (omega (arith, byte_count_fits (2 * t))),
)

size_high : (t : ℕ) → 2 ^ (8 * byte_count t) ≤ 2 * t → byte_count (2 * t) ≡ byte_count t + 1
size_high t h =
    let wider : 2 ^ (8 * suc (byte_count t)) ≡ 256 * 2 ^ (8 * byte_count t) =
      ap (λ k. 2 ^ k) (omega arith) ∙ pow_add 8 (8 * byte_count t) in
    omega
      (arith, byte_count_unique (2 * t) (byte_count t) h (omega (arith, wider, byte_count_fits t)))

-- `2 * t` has the byte more that the sign bit of the mantissa asks for.
pub target_to_compact-mantissa :
    (t : ℕ) → let s = byte_count (2 * t) in target_to_compact t ≡ mantissa s t + s * 2 ^ 24
target_to_compact-mantissa t =
    let s0 = byte_count t in
    elim (dec_lt (2 * t) (2 ^ (8 * byte_count t))) [
      | yes low ↦
          target_to_compact-normalise t
          ∙ normalise_low s0 (mantissa s0 t) (mantissa_low s0 t low)
          ∙ ap (λ s. mantissa s t + s * 2 ^ 24) (sym (size_low t low))
      | no high ↦
          let wide : 2 ^ (8 * s0) ≤ 2 * t = omega arith in
          target_to_compact-normalise t
          ∙ normalise_high s0 (mantissa s0 t) (mantissa_high s0 t wide)
              (mantissa-lt s0 t (byte_count_fits t))
          ∙ ap (λ m. m + (s0 + 1) * 2 ^ 24) (sym (mantissa_next s0 t))
          ∙ ap (λ s. mantissa s t + s * 2 ^ 24) (sym (size_high t wide))
    ]
