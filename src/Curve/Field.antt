-- ===== src/Curve/Field.antt =====
-- Every point that the arithmetic makes has its coordinates below the field's prime, so a public key has
-- room for them.
use wam_coin.Common.{
  ℕ, zero, suc, ◌+◌, ◌/◌, ◌%◌, ◌≤◌, ◌<◌, ◌≡◌, refl, sym, ap, ◌∙◌, length, length-append, take, drop,
  take-append, drop-append, List, [], ◌∷◌, ◌++◌, none, some, some_inj, none-ne-some, Bool, true,
  false, ◌==◌, if◌then◌else◌, Bool-cases, Option-cases, inl, inr, arith, subst,
}
use wam_coin.Common.Bytes.{to_be, from_be, from_be-to_be, length-to_be}
use wam_coin.Curve.{field_p, Point, third, add, mul_loop, generator, mul, privkey_to_pubkey}
use native.Mathlib.Nat.{mod-lt}

abbrev pub InField : Point → Type 0
InField none = Unit
InField (some (x, y)) = (x < field_p) × (y < field_p)

third-InField : (lam x1 y1 x2 : ℕ) → InField (third lam x1 y1 x2)
unfolding third
third-InField lam x1 y1 x2 = (mod-lt _ (omega arith), mod-lt _ (omega arith))

add-InField : (p q : Point) → InField p → InField q → InField (add p q)
unfolding add
add-InField none q h k = k
add-InField (some p) none h k = h
add-InField (some (x1, y1)) (some (x2, y2)) h k = elim (Bool-cases (x1 == x2)) [
  | inr apart ↦ rw apart (third-InField _ x1 y1 x2)
  | inl level ↦ elim (Bool-cases ((y1 + y2) % field_p == 0)) [
    | inl opposite ↦ rw level (rw opposite tt)
    | inr tangent ↦ rw level (rw tangent (third-InField _ x1 y1 x2))
  ]
]

mul_loop-InField :
    (fuel k : ℕ) (result addend : Point)
    → InField result
    → InField addend
    → InField (mul_loop fuel k result addend)
unfolding mul_loop
mul_loop-InField zero k result addend h a = h
mul_loop-InField (suc fuel) k result addend h a = elim (Bool-cases (k == 0)) [
  | inl done ↦ rw (done, mul_loop) h
  | inr more ↦ elim (Bool-cases (k % 2 == 1)) [
    | inl odd ↦
        rw (more, mul_loop)
          (rw odd (
            mul_loop-InField fuel (k / 2) (add result addend) (add addend addend)
              (add-InField result addend h a) (add-InField addend addend a a)))
    | inr even ↦
        rw (more, mul_loop)
          (rw even (
            mul_loop-InField fuel (k / 2) result (add addend addend) h
              (add-InField addend addend a a)))
  ]
]

mul-InField : (k : ℕ) → InField (mul k)
unfolding mul
mul-InField k = mul_loop-InField k k none generator tt (omega arith, omega arith)

positive : (k : ℕ) → (k == 0) ≡ false → 0 < k
positive k h = ground (arith, h)

half-lt : (k : ℕ) → 0 < k → k / 2 < k
half-lt k h = omega arith

-- Fuel of at least the number is enough: more of it changes nothing.
mul_loop_enough :
    (f g k : ℕ) (result addend : Point)
    → k ≤ f
    → k ≤ g
    → mul_loop f k result addend ≡ mul_loop g k result addend
unfolding mul_loop
mul_loop_enough zero zero k result addend h i = refl
mul_loop_enough zero (suc g) k result addend h i =
    let done : (k == 0) ≡ true = ground (arith, h) in rw (done, mul_loop)
mul_loop_enough (suc f) zero k result addend h i =
    let done : (k == 0) ≡ true = ground (arith, i) in rw (done, mul_loop)
mul_loop_enough (suc f) (suc g) k result addend h i = elim (Bool-cases (k == 0)) [
  | inl done ↦ rw (done, mul_loop)
  | inr more ↦
      rw (more, mul_loop)
        (mul_loop_enough f g (k / 2) _ _ (omega (arith, half-lt k (positive k more), h))
          (omega (arith, half-lt k (positive k more), i)))
]

-- What a reader gets back of the bytes of a public key: the parity of the second coordinate and the first
-- coordinate, or both coordinates.
pub data IsEncoded (x y : ℕ) (pub_key : List ℕ) : Bool → Type 0 where
  compressed :
      length pub_key ≡ 33
      → take 1 pub_key ≡ (2 + y % 2) ∷ []
      → from_be 0 (drop 1 pub_key) ≡ x
      → IsEncoded x y pub_key true
  whole :
      length pub_key ≡ 65
      → take 1 pub_key ≡ 4 ∷ []
      → from_be 0 (take 32 (drop 1 pub_key)) ≡ x
      → from_be 0 (drop 33 pub_key) ≡ y
      → IsEncoded x y pub_key false

-- A public key of a private key: its point is the multiple of the generator, in the field.
pub record IsPubkey (priv : ℕ) (pub_key : List ℕ) (c : Bool) : Type 0 where
  pub x : ℕ
  pub y : ℕ
  pub point : mul priv ≡ some (x, y)
  pub x_in_field : x < field_p
  pub y_in_field : y < field_p
  pub encoded : IsEncoded x y pub_key c

read_back : (x : ℕ) → x < field_p → from_be 0 (to_be 32 x) ≡ x
read_back x h = omega (arith, from_be-to_be 32 x 0 (omega (arith, h)))

IsEncoded-of_point :
    (x y : ℕ) (c : Bool) (pub_key : List ℕ)
    → x < field_p
    → y < field_p
    → (if c then (2 + y % 2) ∷ to_be 32 x else 0x04 ∷ (to_be 32 x ++ to_be 32 y)) ≡ pub_key
    → IsEncoded x y pub_key c
IsEncoded-of_point x y true pub_key hx hy e =
    subst (λ k. IsEncoded x y k true) e
      (compressed (omega (arith, length-to_be 32 x)) refl (read_back x hx))
IsEncoded-of_point x y false pub_key hx hy e =
    let bx = to_be 32 x in
    let by = to_be 32 y in
    let width : 32 ≡ length bx = sym (length-to_be 32 x) in
    subst (λ k. IsEncoded x y k false) e
      (whole (omega (arith, length-append bx by, length-to_be 32 x, length-to_be 32 y)) refl
        (ap (from_be 0) (take-append bx by 32 width) ∙ read_back x hx)
        (ap (from_be 0) (drop-append bx by 32 width) ∙ read_back y hy))

-- Every public key that is made of a private key is read back as the point that `mul` gives for that key:
-- 33 bytes with 2 or 3 for the parity of the second coordinate and then the first coordinate, or 65
-- bytes with 4 and then both coordinates, as was asked for; and the coordinates are below the
-- field's prime.
pub privkey_to_pubkey-IsPubkey :
    (priv : ℕ) (c : Bool) (pub_key : List ℕ)
    → privkey_to_pubkey priv c ≡ some pub_key
    → IsPubkey priv pub_key c
unfolding privkey_to_pubkey
privkey_to_pubkey-IsPubkey priv c pub_key h = elim (Option-cases (mul priv)) [
  | inl gone ↦ absurd (none-ne-some (rw (gone, privkey_to_pubkey) at h))
  | inr ((x, y), made) ↦
      let (hx, hy) = subst InField made (mul-InField priv) in
      record {
        x = x;
        y = y;
        point = made;
        x_in_field = hx;
        y_in_field = hy;
        encoded =
            IsEncoded-of_point x y c pub_key hx hy (some_inj (rw (made, privkey_to_pubkey) at h));
      }
]
