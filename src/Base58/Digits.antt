-- ===== src/Base58/Digits.antt =====
-- The table of the 58 digits: each is found at its place, and only the first is `1`.
use wam_coin.Common.{
  ℕ, zero, suc, ◌<◌, ◌≡◌, refl, ap, Option, none, some, Bool, true, false, ◌==◌, ◌&&◌, not,
  if◌then◌else◌, get_or, ==_iff, &&_split, not-true, arith,
}
use wam_coin.Base58.{alphabet, one, find}

-- The character of a digit is found at its place, and is `1` for no digit but 0.
digit_good : ℕ → Bool
digit_good r =
    elim (find (get_or alphabet r 0) alphabet) [ none ↦ false | some i ↦ i == r ]
    && (if r == 0 then true else not (get_or alphabet r 0 == one))

all_good : ℕ → Bool
all_good zero = true
all_good (suc r) = digit_good r && all_good r

all_good_sound : (k r : ℕ) → all_good k ≡ true → r < k → digit_good r ≡ true
unfolding all_good
all_good_sound zero r h lt = absurd (omega arith)
all_good_sound (suc k) r h lt = ground (arith, all_good_sound k r)

all_digits : all_good 58 ≡ true
unfolding all_good digit_good find
all_digits = refl

find_of_test :
    (o : Option ℕ) (r : ℕ) → elim o [ none ↦ false | some i ↦ i == r ] ≡ true → o ≡ some r
find_of_test none r h = cc
find_of_test (some i) r h = ap some ((==_iff i r).0 h)

digit_split :
    (r : ℕ)
    → r < 58
    → (elim (find (get_or alphabet r 0) alphabet) [ none ↦ false | some i ↦ i == r ] ≡ true)
      × ((if r == 0 then true else not (get_or alphabet r 0 == one)) ≡ true)
unfolding digit_good
digit_split r h = &&_split _ _ (all_good_sound 58 r all_digits h)

pub find-digit : (r : ℕ) → r < 58 → find (get_or alphabet r 0) alphabet ≡ some r
find-digit r h = find_of_test (find (get_or alphabet r 0) alphabet) r (digit_split r h).0

pub digit-ne-one : (r : ℕ) → r < 58 → 0 < r → (get_or alphabet r 0 == one) ≡ false
digit-ne-one r h p =
    let positive : (r == 0) ≡ false = ground arith in
    not-true _ (rw positive at (digit_split r h).1)
