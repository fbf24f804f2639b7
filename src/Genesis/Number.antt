-- ===== src/Genesis/Number.antt =====
-- `script_num` against a reader of the sign-and-magnitude numbers of scripts.
use wam_coin.Common.{
  ℕ, zero, suc, ◌+◌, ◌*◌, ◌/◌, ◌%◌, ◌≤◌, ◌<◌, ◌≡◌, ◌≢◌, refl, sym, ap, ◌∙◌, List, [], ◌∷◌, Bool,
  true, false, ◌==◌, leb, if◌then◌else◌, inl, inr, arith, Bool-cases, ==_iff,
}
use wam_coin.Common.Int.{ℤ, pos, negsuc}
use wam_coin.Common.Bits.{bit_and_single, bit_or_sum, bit_and_mask}
use wam_coin.Genesis.{magnitude, put_sign, script_num}
use Prim.Native.Nat.{bit_and, bit_or}

-- The reader: little-endian, the top bit of the last byte is the sign.
unfoldable pub read_parts : List ℕ → ℕ × Bool
read_parts [] = (0, false)
read_parts (b ∷ []) = (b % 128, leb 128 b)
read_parts (b ∷ c ∷ bs) = let r = read_parts (c ∷ bs) in (b + 256 * r.0, r.1)

abbrev pub signed : ℕ × Bool → ℤ
signed (m, false) = pos m
signed (zero, true) = pos zero
signed (suc m, true) = negsuc m

unfoldable pub read_num : List ℕ → ℤ
read_num bs = signed (read_parts bs)

top_bit : (b : ℕ) → b < 256 → bit_and b 0x80 ≡ (if leb 128 b then 128 else 0)
top_bit b h = ground (arith, bit_and_single 7 b)

set_top : (b : ℕ) → b < 128 → bit_or b 0x80 ≡ b + 128
set_top b h = bit_or_sum 7 1 b h

taken : (b : ℕ) → b < 256 → leb 128 b ≡ true → (bit_and b 0x80 == 0) ≡ false
taken b h e = ground (arith, top_bit b h)

free : (b : ℕ) → b < 256 → leb 128 b ≡ false → (bit_and b 0x80 == 0) ≡ true
free b h e = ground (arith, top_bit b h)

one_byte : (neg : Bool) (b : ℕ) → b < 256 → read_parts (put_sign neg (b ∷ [])) ≡ (b, neg)
unfolding read_parts put_sign
one_byte true b h = elim (Bool-cases (leb 128 b)) [
  | inl high ↦
      let same : b + 256 * 0 ≡ b = omega arith in rw (taken b h high) (ap (λ t. (t, true)) same)
  | inr low ↦
      let small : b < 128 = ground (arith, low) in
      let value : (b + 128) % 128 ≡ b = omega arith in
      let sign : leb 128 (b + 128) ≡ true = ground arith in
      rw (free b h low) (rw (set_top b small) (cc (value, sign)))
]
one_byte false b h = elim (Bool-cases (leb 128 b)) [
  | inl high ↦
      let same : b + 256 * 0 ≡ b = omega arith in rw (taken b h high) (ap (λ t. (t, false)) same)
  | inr low ↦ let value : b % 128 ≡ b = ground (arith, low) in rw (free b h low) (cc (value, low))
]

read_parts-cons :
    (b : ℕ) (bs : List ℕ)
    → bs ≢ []
    → read_parts (b ∷ bs) ≡ (b + 256 * (read_parts bs).0, (read_parts bs).1)
unfolding read_parts
read_parts-cons b [] ne = absurd (ne refl)
read_parts-cons b (c ∷ bs) ne = refl

put_sign-cons :
    (neg : Bool) (b : ℕ) (bs : List ℕ) → bs ≢ [] → put_sign neg (b ∷ bs) ≡ b ∷ put_sign neg bs
unfolding put_sign
put_sign-cons neg b [] ne = absurd (ne refl)
put_sign-cons neg b (c ∷ bs) ne = refl

if_list-ne-nil : (t : Bool) (a b : ℕ) (x y : List ℕ) → (if t then a ∷ x else b ∷ y) ≢ []
if_list-ne-nil true a b x y h = cc
if_list-ne-nil false a b x y h = cc

sign_list-ne-nil :
    (t u : Bool) (a b c : ℕ) (x y z : List ℕ)
    → (if t then (if u then a ∷ x else b ∷ y) else c ∷ z) ≢ []
sign_list-ne-nil true u a b c x y z h = if_list-ne-nil u a b x y h
sign_list-ne-nil false u a b c x y z h = cc

put_sign-ne-nil : (neg : Bool) (bs : List ℕ) → bs ≢ [] → put_sign neg bs ≢ []
unfolding put_sign
put_sign-ne-nil neg [] ne h = ne refl
put_sign-ne-nil neg (b ∷ []) ne h = sign_list-ne-nil (bit_and b 0x80 == 0) neg _ _ _ _ _ _ h
put_sign-ne-nil neg (b ∷ c ∷ bs) ne h = cc

more_bytes :
    (neg : Bool) (b m : ℕ) (tail : List ℕ)
    → tail ≢ []
    → read_parts (put_sign neg tail) ≡ (m, neg)
    → read_parts (put_sign neg (b ∷ tail)) ≡ (b + 256 * m, neg)
more_bytes neg b m tail ne h =
    ap read_parts (put_sign-cons neg b tail ne)
    ∙ read_parts-cons b (put_sign neg tail) (put_sign-ne-nil neg tail ne)
    ∙ ap (λ r. (b + 256 * r.0, r.1)) h

magnitude-zero : (fuel : ℕ) → magnitude fuel 0 ≡ []
unfolding magnitude
magnitude-zero zero = refl
magnitude-zero (suc fuel) = refl

magnitude-more : (fuel n : ℕ) → 0 < n → magnitude (suc fuel) n ≡ n % 256 ∷ magnitude fuel (n / 256)
unfolding magnitude
magnitude-more fuel n h =
    let more : (n == 0) ≡ false = ground arith in
    rw more (ap (λ t. t ∷ magnitude fuel (n / 256)) (bit_and_mask 8 n))

magnitude-ne-nil : (fuel n : ℕ) → 0 < n → n ≤ fuel → magnitude fuel n ≢ []
magnitude-ne-nil zero n p h e = absurd (omega arith)
magnitude-ne-nil (suc fuel) n p h e = nonempty (sym (magnitude-more fuel n p) ∙ e)
  where
    nonempty : {x : ℕ} {xs : List ℕ} → x ∷ xs ≢ []
    nonempty h = cc

read_parts-magnitude :
    (neg : Bool) (fuel n : ℕ)
    → 0 < n
    → n ≤ fuel
    → read_parts (put_sign neg (magnitude fuel n)) ≡ (n, neg)
read_parts-magnitude neg zero n p h = absurd (omega arith)
read_parts-magnitude neg (suc fuel) n p h =
    ap (λ t. read_parts (put_sign neg t)) (magnitude-more fuel n p)
    ∙ elim (Bool-cases (n / 256 == 0)) [
      | inl last ↦
          let q : n / 256 ≡ 0 = (==_iff (n / 256) 0).0 last in
          let whole : n % 256 ≡ n = omega arith in
          ap (λ t. read_parts (put_sign neg (n % 256 ∷ magnitude fuel t))) q
          ∙ ap (λ t. read_parts (put_sign neg (n % 256 ∷ t))) (magnitude-zero fuel)
          ∙ one_byte neg (n % 256) (omega arith)
          ∙ ap (λ t. (t, neg)) whole
      | inr more ↦
          let q : 0 < n / 256 = ground arith in
          let whole : n % 256 + 256 * (n / 256) ≡ n = omega arith in
          more_bytes neg (n % 256) (n / 256) (magnitude fuel (n / 256))
            (magnitude-ne-nil fuel (n / 256) q (omega arith))
            (read_parts-magnitude neg fuel (n / 256) q (omega arith))
          ∙ ap (λ t. (t, neg)) whole
    ]

-- Every integer, negative ones included, is read back from the bytes that `script_num` makes of it.
pub read_num-script_num : (n : ℤ) → read_num (script_num n) ≡ n
unfolding read_num script_num read_parts
read_num-script_num (pos zero) = refl
read_num-script_num (pos (suc n)) =
    ap signed (read_parts-magnitude false (suc n) (suc n) (omega arith) (omega arith))
read_num-script_num (negsuc n) =
    ap signed (read_parts-magnitude true (suc n) (suc n) (omega arith) (omega arith))
