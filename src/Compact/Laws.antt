-- ===== src/Compact/Laws.antt =====
-- What the compact encoding keeps of a target.
use wam_coin.Common.{
  ℕ, suc, ◌+◌, ◌-◌, ◌*◌, ◌/◌, ◌^◌, ◌≤◌, ◌<◌, ◌≡◌, refl, ap, sym, ◌∙◌, subst, le→leb, lt→leb, arith,
  ◌⊎◌, inl, inr,
}
use wam_coin.Common.BitLength.{
  byte_count, byte_count_fits, byte_count_unique, le-byte_count, pow_add,
}
use wam_coin.Compact.{compact_to_target, target_to_compact}
use wam_coin.Compact.Spec.{
  mantissa, place, compact_to_target-place, target_to_compact-mantissa, mantissa_small,
  mantissa_large, mantissa_low, positive,
}
use native.Mathlib.Decide.{dec_le}
use native.Mathlib.Nat.{
  mul-div_cancel, div-one, le-div_iff_mul-le, mul-le-mul_right, div-mul-le_self, lt-div-mul-add,
}

-- The size that the encoding gives to a target, and the value of the lowest bit that it keeps.
unfoldable pub size_of : ℕ → ℕ
size_of t = byte_count (2 * t)

unfoldable pub unit : ℕ → ℕ
unit t = 2 ^ (8 * (size_of t - 3))

place_small : (s m : ℕ) → s ≤ 3 → place s m ≡ m / 2 ^ (8 * (3 - s))
unfolding place
place_small s m h = rw (le→leb s 3 h)

place_large : (s m : ℕ) → 3 < s → place s m ≡ m * 2 ^ (8 * (s - 3))
unfolding place
place_large s m h = rw (lt→leb s 3 h)

place-mantissa : (s t : ℕ) → place s (mantissa s t) ≡ t / 2 ^ (8 * (s - 3)) * 2 ^ (8 * (s - 3))
place-mantissa s t = elim (dec_le s 3) [
  | yes p ↦
      let none_cut : s - 3 ≡ 0 = omega arith in
      let whole : t / 2 ^ (8 * (s - 3)) * 2 ^ (8 * (s - 3)) ≡ t / 1 * 1 =
        ap (λ k. t / 2 ^ (8 * k) * 2 ^ (8 * k)) none_cut in
      place_small s (mantissa s t) p
      ∙ ap (λ m. m / 2 ^ (8 * (3 - s))) (mantissa_small s t p)
      ∙ mul-div_cancel t (positive (8 * (3 - s)))
      ∙ omega (arith, whole, div-one t)
  | no p ↦
      place_large s (mantissa s t) (omega arith)
      ∙ ap (λ m. m * 2 ^ (8 * (s - 3))) (mantissa_large s t (omega arith))
]

-- Encoding a target and decoding it again cuts it to a multiple of its unit, and changes nothing
-- else: the unit is 1 up to three bytes of the doubled target, and a power of 256 past that.
pub decode-encode : (t : ℕ) → compact_to_target (target_to_compact t) ≡ t / unit t * unit t
unfolding unit size_of
decode-encode t =
    let s = byte_count (2 * t) in
    ap compact_to_target (target_to_compact-mantissa t)
    ∙ compact_to_target-place s (mantissa s t) (mantissa_low s t (byte_count_fits (2 * t)))
    ∙ place-mantissa s t

unit_lem : (t : ℕ) → 2 ^ (8 * (size_of t - 3)) ≡ unit t
unfolding unit
unit_lem t = refl

unit_pos : (t : ℕ) → 0 < unit t
unfolding unit
unit_pos t = positive _

-- Either the unit is 1, or it is the value of a byte below a target of more than three bytes.
unit_cases :
    (t : ℕ)
    → (unit t ≡ 1)
      ⊎ ((k : ℕ) × (size_of t ≡ suc k)
          × (3 ≤ k)
          × (2 ^ (8 * k) ≡ unit t * 2 ^ 16)
          × (unit t * 2 ^ 15 ≤ t))
unfolding unit size_of
unit_cases t = elim (dec_le (byte_count (2 * t)) 3) [
  | yes p ↦
      inl
        (let none_cut : byte_count (2 * t) - 3 ≡ 0 = omega arith in ap (λ k. 2 ^ (8 * k)) none_cut)
  | no p ↦
      let k = byte_count (2 * t) - 1 in
      let size : byte_count (2 * t) ≡ suc k = omega arith in
      let whole : 8 * k ≡ 8 * (byte_count (2 * t) - 3) + 16 = omega arith in
      let power : 2 ^ (8 * k) ≡ 2 ^ (8 * (byte_count (2 * t) - 3)) * 2 ^ 16 =
        ap (λ e. 2 ^ e) whole ∙ pow_add (8 * (byte_count (2 * t) - 3)) 16 in
      inr (k, size, omega arith, power, omega (arith, power, le-byte_count (2 * t) k size))
]

cut-ge : (t : ℕ) → unit t * 2 ^ 15 ≤ t → 2 ^ 15 * unit t ≤ t / unit t * unit t
cut-ge t small =
    mul-le-mul_right (unit t) ((le-div_iff_mul-le (unit_pos t)).1 (omega (arith, small)))

cut_size :
    (t k : ℕ)
    → size_of t ≡ suc k
    → 2 ^ (8 * k) ≡ unit t * 2 ^ 16
    → unit t * 2 ^ 15 ≤ t
    → byte_count (2 * (t / unit t * unit t)) ≡ suc k
unfolding size_of
cut_size t k size power small =
    byte_count_unique (2 * (t / unit t * unit t)) k (omega (arith, power, cut-ge t small)) (
      subst (λ e. 2 * (t / unit t * unit t) < 2 ^ (8 * e)) size
        (omega (arith, div-mul-le_self t (unit t), byte_count_fits (2 * t))))

cut_mantissa :
    (t k : ℕ)
    → size_of t ≡ suc k
    → 3 ≤ k
    → mantissa (suc k) (t / unit t * unit t) ≡ mantissa (suc k) t
cut_mantissa t k size large =
    let same : 2 ^ (8 * (suc k - 3)) ≡ unit t =
      ap (λ e. 2 ^ (8 * (e - 3))) (sym size) ∙ unit_lem t in
    mantissa_large (suc k) (t / unit t * unit t) (omega arith)
    ∙ ap (λ u. t / unit t * unit t / u) same
    ∙ mul-div_cancel (t / unit t) (unit_pos t)
    ∙ sym (ap (λ u. t / u) same)
    ∙ sym (mantissa_large (suc k) t (omega arith))

-- The decoded target is at most the target, and less than one part in 2 ** 15 below it.
pub decode-encode_close :
    (t : ℕ)
    → (compact_to_target (target_to_compact t) ≤ t)
      × (t ≤ compact_to_target (target_to_compact t) + t / 2 ^ 15)
decode-encode_close t = rw (decode-encode t) (
  div-mul-le_self t (unit t),
  elim (unit_cases t) [
    | inl one ↦ omega (arith, ap (λ (u : ℕ). t / u * u) one, div-one t)
    | inr (k, _, _, _, small) ↦
        omega (arith, lt-div-mul-add {a = t} {b = unit t} (unit_pos t), small)
  ],
)

encoded : (t : ℕ) → target_to_compact t ≡ mantissa (size_of t) t + size_of t * 2 ^ 24
unfolding size_of
encoded t = target_to_compact-mantissa t

-- Encoding a decoded target gives the same code again.
pub encode-decode-encode :
    (t : ℕ) → target_to_compact (compact_to_target (target_to_compact t)) ≡ target_to_compact t
encode-decode-encode t = elim (unit_cases t) [
  | inl one ↦
      ap target_to_compact (decode-encode t ∙ ap (λ u. t / u * u) one ∙ omega (arith, div-one t))
  | inr (k, size, large, power, small) ↦
      ap target_to_compact (decode-encode t)
      ∙ target_to_compact-mantissa (t / unit t * unit t)
      ∙ ap (λ s. mantissa s (t / unit t * unit t) + s * 2 ^ 24) (cut_size t k size power small)
      ∙ ap (λ m. m + suc k * 2 ^ 24) (cut_mantissa t k size large)
      ∙ sym (ap (λ s. mantissa s t + s * 2 ^ 24) size)
      ∙ sym (encoded t)
]
