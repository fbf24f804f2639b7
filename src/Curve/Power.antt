-- ===== src/Curve/Power.antt =====
-- The modular power is the power modulo the modulus.
use wam_coin.Common.{
  ℕ, zero, suc, ◌+◌, ◌*◌, ◌/◌, ◌%◌, ◌^◌, ◌<◌, ◌≡◌, sym, ap, ◌∙◌, ◌==◌, Bool-cases, ==_iff, inl, inr,
  arith,
}
use wam_coin.Curve.{pow_mod}
use native.Mathlib.Nat.{pow-zero, pow-suc, mod-add-div', add-mul-mod_self_right, mul_comm}

-- A factor may be reduced first.
mul-mod_last : (a b m : ℕ) → a * (b % m) % m ≡ a * b % m
mul-mod_last a b m =
    let whole : a * (b % m) + a * (b / m) * m ≡ a * b =
      omega (arith, ap (λ (t : ℕ). a * t) (mod-add-div' b m)) in
    sym (add-mul-mod_self_right (a * (b % m)) (a * (b / m)) m) ∙ ap (λ t. t % m) whole

mul-mod_first : (a b m : ℕ) → a % m * b % m ≡ a * b % m
mul-mod_first a b m =
    ap (λ t. t % m) (mul_comm (a % m) b) ∙ mul-mod_last b a m ∙ ap (λ t. t % m) (mul_comm b a)

zeroth : (a : ℕ) → a ^ 0 ≡ 1
zeroth a = pow-zero a

pow-mod : (k a m : ℕ) → (a % m) ^ k % m ≡ a ^ k % m
pow-mod zero a m = ap (λ t. t % m) (zeroth (a % m) ∙ sym (zeroth a))
pow-mod (suc k) a m =
    ap (λ t. t % m) (pow-suc (a % m) k)
    ∙ mul-mod_last ((a % m) ^ k) a m
    ∙ sym (mul-mod_first ((a % m) ^ k) a m)
    ∙ ap (λ t. t * a % m) (pow-mod k a m)
    ∙ mul-mod_first (a ^ k) a m
    ∙ ap (λ t. t % m) (sym (pow-suc a k))

pow-square : (k a : ℕ) → (a * a) ^ k ≡ a ^ (2 * k)
pow-square zero a =
    let none_left : 0 ≡ 2 * 0 = omega arith in
    zeroth (a * a) ∙ sym (zeroth a) ∙ ap (λ t. a ^ t) none_left
pow-square (suc k) a =
    let twice : 2 * suc k ≡ suc (suc (2 * k)) = omega arith in
    pow-suc (a * a) k
    ∙ ap (λ t. t * (a * a)) (pow-square k a)
    ∙ omega (arith, pow-suc a (suc (2 * k)), ap (λ (t : ℕ). t * a) (pow-suc a (2 * k)))
    ∙ ap (λ t. a ^ t) (sym twice)

-- One halving of the exponent.
halved : (a e m : ℕ) → (a * a % m) ^ (e / 2) % m ≡ a ^ (2 * (e / 2)) % m
halved a e m = pow-mod (e / 2) (a * a) m ∙ ap (λ t. t % m) (pow-square (e / 2) a)

-- For an exponent that fits its bits, the loop returns the power modulo the modulus.
pub pow_mod_lem : (bits a e m : ℕ) → e < 2 ^ bits → pow_mod bits a e m ≡ a ^ e % m
unfolding pow_mod
pow_mod_lem zero a e m h =
    let none_left : e ≡ 0 = omega arith in
    sym (ap (λ t. a ^ t % m) none_left ∙ ap (λ t. t % m) (zeroth a))
pow_mod_lem (suc bits) a e m h =
    let rest : pow_mod bits (a * a % m) (e / 2) m ≡ a ^ (2 * (e / 2)) % m =
      pow_mod_lem bits (a * a % m) (e / 2) m (omega (arith, pow-suc 2 bits)) ∙ halved a e m in
    elim (Bool-cases (e % 2 == 1)) [
      | inl odd ↦
          let one : e % 2 ≡ 1 = (==_iff (e % 2) 1).0 odd in
          let whole : suc (2 * (e / 2)) ≡ e = omega arith in
          rw odd (
            ap (λ t. a * t % m) rest
            ∙ mul-mod_last a (a ^ (2 * (e / 2))) m
            ∙ ap (λ t. t % m) (mul_comm a (a ^ (2 * (e / 2))) ∙ sym (pow-suc a (2 * (e / 2))))
            ∙ ap (λ t. a ^ t % m) whole)
      | inr even ↦
          let whole : 2 * (e / 2) ≡ e = ground (arith, even) in
          rw even (rest ∙ ap (λ t. a ^ t % m) whole)
    ]
