-- ===== src/Curve.antt =====
-- scripts/gen_founder_key.py: secp256k1, from `_inv` to `privkey_to_pubkey`. `none` is the point at
-- infinity. Coordinates stay below `field_p`, so a difference of two of them is written with
-- `field_p` added first, which changes nothing modulo it.
pub mod Power
pub mod Field
use wam_coin.Common.{
  ℕ, zero, suc, ◌+◌, ◌-◌, ◌*◌, ◌/◌, ◌%◌, List, ◌∷◌, ◌++◌, Option, none, some, Bool, true, false,
  ◌==◌, if◌then◌else◌,
}
use wam_coin.Common.Bytes.{to_be}

abbrev pub field_p : ℕ
field_p = 0xFFFFFFFFFFFFFFFFFFFFFFFFFFFFFFFFFFFFFFFFFFFFFFFFFFFFFFFEFFFFFC2F

abbrev pub generator_x : ℕ
generator_x = 0x79BE667EF9DCBBAC55A06295CE870B07029BFCDB2DCE28D959F2815B16F81798

abbrev pub generator_y : ℕ
generator_y = 0x483ADA7726A3C4655DA4FBFC0E1108A8FD17B448A68554199C47D08FFB10D4B8

-- Python's `pow(a, e, m)` for an exponent of at most `bits` bits.
unfoldable pub pow_mod : ℕ → ℕ → ℕ → ℕ → ℕ
pow_mod zero a e m = 1 % m
pow_mod (suc bits) a e m =
    let half = pow_mod bits (a * a % m) (e / 2) m in if e % 2 == 1 then a * half % m else half

unfoldable pub inverse : ℕ → ℕ
inverse a = pow_mod 256 a (field_p - 2) field_p

abbrev pub Point : Type 0
Point = Option (ℕ × ℕ)

-- The third point of a line of slope `lam` through `x1`, `y1` and a point at `x2`.
unfoldable pub third : ℕ → ℕ → ℕ → ℕ → Point
third lam x1 y1 x2 =
    let x3 = (lam * lam + (field_p - x1) + (field_p - x2)) % field_p in
    some (x3, (lam * (x1 + (field_p - x3)) + (field_p - y1)) % field_p)

unfoldable pub add : Point → Point → Point
add none q = q
add (some p) none = some p
add (some (x1, y1)) (some (x2, y2)) =
    if x1 == x2
    then if (y1 + y2) % field_p == 0
      then none
      else third (3 * x1 * x1 * inverse (2 * y1) % field_p) x1 y1 x2
    else third ((y2 + (field_p - y1)) * inverse (x2 + (field_p - x1)) % field_p) x1 y1 x2

-- `while k`, with a round of fuel for each; `k` itself is more than its bits.
unfoldable pub mul_loop : ℕ → ℕ → Point → Point → Point
mul_loop zero k result addend = result
mul_loop (suc fuel) k result addend = elim (k == 0) [
  | true ↦ result
  | false ↦
      mul_loop fuel (k / 2) (elim (k % 2 == 1) [ true ↦ add result addend | false ↦ result ])
        (add addend addend)
]

abbrev pub generator : Point
generator = some (generator_x, generator_y)

unfoldable pub mul : ℕ → Point
mul k = mul_loop k k none generator

-- `none` where the point at infinity cannot be unpacked.
unfoldable pub privkey_to_pubkey : ℕ → Bool → Option (List ℕ)
privkey_to_pubkey priv compressed = elim (mul priv) [
  | none ↦ none
  | some (x, y) ↦
      some (if compressed then (2 + y % 2) ∷ to_be 32 x else 0x04 ∷ (to_be 32 x ++ to_be 32 y))
]
