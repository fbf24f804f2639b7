-- ===== src/Base58/Text.antt =====
-- The text that `b58check` writes for some bytes is read back as these bytes.
use wam_coin.Common.{
  ℕ, zero, suc, ◌+◌, ◌*◌, ◌/◌, ◌%◌, ◌≤◌, ◌<◌, ◌≡◌, refl, ap, ◌∙◌, List, [], ◌∷◌, ◌++◌, some, false,
  ◌==◌, if◌then◌else◌, get_or, All, Bool-cases, ==_iff, length, inl, inr, arith, replicate,
}
use wam_coin.Common.Bytes.{IsByte, from_be, to_be, byte_count-from_be, to_be-from_be, from_be-cons}
use wam_coin.Common.BitLength.{byte_count, byte_count-zero}
use wam_coin.Base58.{
  alphabet, one, find, number_of, leading_ones, raw_of, write_digits, write_ones, text_of,
}
use wam_coin.Base58.Digits.{find-digit, digit-ne-one}

number_of-found :
    (n ch i : ℕ) (s : List ℕ)
    → find ch alphabet ≡ some i
    → number_of n (ch ∷ s) ≡ number_of (n * 58 + i) s
unfolding number_of
number_of-found n ch i s e = rw (e, number_of)

write_digits-more :
    (fuel n : ℕ) (out : List ℕ)
    → 0 < n
    → write_digits (suc fuel) n out ≡ write_digits fuel (n / 58) (get_or alphabet (n % 58) 0 ∷ out)
unfolding write_digits
write_digits-more fuel n out h = let more : (n == 0) ≡ false = ground arith in rw more

write_digits-zero : (fuel : ℕ) (out : List ℕ) → write_digits fuel 0 out ≡ out
unfolding write_digits
write_digits-zero zero out = refl
write_digits-zero (suc fuel) out = refl

number_of-write :
    (fuel n : ℕ) (out : List ℕ) → n ≤ fuel → number_of 0 (write_digits fuel n out) ≡ number_of n out
number_of-write fuel zero out h = ap (number_of 0) (write_digits-zero fuel out)
number_of-write zero (suc n) out h = absurd (omega arith)
number_of-write (suc fuel) (suc n) out h =
    let m : ℕ = suc n in
    let whole : m / 58 * 58 + m % 58 ≡ m = omega arith in
    ap (number_of 0) (write_digits-more fuel m out (omega arith))
    ∙ number_of-write fuel (m / 58) (get_or alphabet (m % 58) 0 ∷ out) (omega arith)
    ∙ number_of-found (m / 58) (get_or alphabet (m % 58) 0) (m % 58) out
        (find-digit (m % 58) (omega arith))
    ∙ ap (λ t. number_of t out) whole

leading_ones-other : (ch : ℕ) (s : List ℕ) → (ch == one) ≡ false → leading_ones (ch ∷ s) ≡ 0
unfolding leading_ones
leading_ones-other ch s e = rw e

leading_ones-write :
    (fuel n : ℕ) (out : List ℕ) → 0 < n → n ≤ fuel → leading_ones (write_digits fuel n out) ≡ 0
leading_ones-write zero n out p h = absurd (omega arith)
leading_ones-write (suc fuel) n out p h = elim (Bool-cases (n / 58 == 0)) [
  | inl last ↦
      let z : n / 58 ≡ 0 = (==_iff (n / 58) 0).0 last in
      ap leading_ones (write_digits-more fuel n out p)
      ∙ ap (λ q. leading_ones (write_digits fuel q (get_or alphabet (n % 58) 0 ∷ out))) z
      ∙ ap leading_ones (write_digits-zero fuel (get_or alphabet (n % 58) 0 ∷ out))
      ∙ leading_ones-other (get_or alphabet (n % 58) 0) out
          (digit-ne-one (n % 58) (omega arith) (omega arith))
  | inr more ↦
      let q : 0 < n / 58 = ground arith in
      ap leading_ones (write_digits-more fuel n out p)
      ∙ leading_ones-write fuel (n / 58) (get_or alphabet (n % 58) 0 ∷ out) q (omega arith)
]

-- The zero bytes that some bytes begin with.
unfoldable pub zeros : List ℕ → ℕ
zeros [] = 0
zeros (b ∷ bs) = if b == 0 then suc (zeros bs) else 0

number_of-one : (out : List ℕ) → number_of 0 (one ∷ out) ≡ number_of 0 out
unfolding number_of find
number_of-one out = refl

leading_ones-one : (out : List ℕ) → leading_ones (one ∷ out) ≡ suc (leading_ones out)
unfolding leading_ones
leading_ones-one out = refl

number_of-ones : (raw out : List ℕ) → number_of 0 (write_ones raw out) ≡ number_of 0 out
unfolding write_ones
number_of-ones [] out = refl
number_of-ones (b ∷ raw) out = elim (Bool-cases (b == 0)) [
  | inl z ↦ rw z (number_of-ones raw (one ∷ out) ∙ number_of-one out)
  | inr more ↦ rw more
]

leading_ones-ones :
    (raw out : List ℕ) → leading_ones (write_ones raw out) ≡ zeros raw + leading_ones out
unfolding write_ones zeros
leading_ones-ones [] out = omega arith
leading_ones-ones (b ∷ raw) out = elim (Bool-cases (b == 0)) [
  | inl z ↦ rw z (omega (arith, leading_ones-ones raw (one ∷ out), leading_ones-one out))
  | inr more ↦ rw more (omega arith)
]

one_byte : (b : ℕ) → to_be 1 b ≡ b % 256 ∷ []
unfolding to_be
one_byte b = refl

nonzero_parts :
    (b : ℕ) (bs : List ℕ)
    → IsByte b
    → 0 < b
    → All IsByte bs
    → to_be (byte_count (from_be b bs)) (from_be b bs) ≡ b ∷ bs
nonzero_parts b bs hb pos h =
    let count : byte_count (from_be b bs) ≡ 1 + length bs =
      omega (arith, byte_count-from_be b bs hb pos h) in
    let low : b % 256 ≡ b = omega arith in
    ap (λ k. to_be k (from_be b bs)) count
    ∙ to_be-from_be bs 1 b h
    ∙ ap (λ t. t ++ bs) (one_byte b)
    ∙ ap (λ t. t ∷ bs) low

zero_parts :
    (bs : List ℕ)
    → replicate (zeros bs) 0 ++ to_be (byte_count (from_be 0 bs)) (from_be 0 bs) ≡ bs
    → replicate (zeros (0 ∷ bs)) 0 ++ to_be (byte_count (from_be 0 (0 ∷ bs))) (from_be 0 (0 ∷ bs))
      ≡ 0 ∷ bs
unfolding zeros from_be
zero_parts bs ih = ap (λ t. 0 ∷ t) ih

zeros-other : (b : ℕ) (bs : List ℕ) → 0 < b → zeros (b ∷ bs) ≡ 0
unfolding zeros
zeros-other b bs h = let nonzero : (b == 0) ≡ false = ground arith in rw nonzero

from_be-start : (b : ℕ) (bs : List ℕ) → from_be 0 (b ∷ bs) ≡ from_be b bs
from_be-start b bs =
    let same : 0 * 256 + b ≡ b = omega arith in from_be-cons 0 b bs ∙ ap (λ t. from_be t bs) same

raw_parts :
    (raw : List ℕ)
    → All IsByte raw
    → replicate (zeros raw) 0 ++ to_be (byte_count (from_be 0 raw)) (from_be 0 raw) ≡ raw
raw_parts [] h = unfold zeros from_be to_be in ap (λ k. to_be k 0) byte_count-zero
raw_parts (zero ∷ bs) (hb, h) = zero_parts bs (raw_parts bs h)
raw_parts (suc b ∷ bs) (hb, h) =
    rw (zeros-other (suc b) bs (omega arith), from_be-start (suc b) bs)
      (nonzero_parts (suc b) bs hb (omega arith) h)

no_digits : (n : ℕ) → leading_ones (write_digits n n []) ≡ 0
no_digits zero = unfold write_digits leading_ones in refl
no_digits (suc n) = leading_ones-write (suc n) (suc n) [] (omega arith) (omega arith)

number_of-text : (raw : List ℕ) → number_of 0 (text_of raw) ≡ some (from_be 0 raw)
unfolding text_of number_of
number_of-text raw =
    number_of-ones raw (write_digits (from_be 0 raw) (from_be 0 raw) [])
    ∙ number_of-write (from_be 0 raw) (from_be 0 raw) [] (omega arith)

leading_ones-text : (raw : List ℕ) → leading_ones (text_of raw) ≡ zeros raw
unfolding text_of
leading_ones-text raw =
    let n : ℕ = from_be 0 raw in
    omega (arith, leading_ones-ones raw (write_digits n n []), no_digits n)

-- Every byte string is the reading of the text that is written for it: no byte is lost, leading
-- zero bytes included.
pub raw_of-text_of : (raw : List ℕ) → All IsByte raw → raw_of (text_of raw) ≡ some raw
unfolding raw_of
raw_of-text_of raw h =
    rw (number_of-text raw, raw_of) (rw (leading_ones-text raw) (ap some (raw_parts raw h)))
