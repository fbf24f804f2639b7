-- ===== src/Emission/Supply.antt =====
-- What the blocks of scripts/verify_supply.py mint one by one, in closed form.
use wam_coin.Common.{
  ℕ, zero, suc, ◌+◌, ◌*◌, ◌/◌, ◌%◌, ◌^◌, ◌≤◌, ◌<◌, ◌≡◌, ◌∙◌, ap, refl, inl, inr, leb, if◌then◌else◌,
  arith, subst,
}
use wam_coin.Common.Int.{pos}
use wam_coin.Common.Numbers.{div_suc, half_pow}
use wam_coin.Emission.{block_subsidy}
use native.Mathlib.Nat.{zero-div, zero-mod, div-one, le_of_eq}
use native.Mathlib.Numerals.{add-one}

module _ (interval initial max_halvings : ℕ) where
  -- The subsidy of each block of epoch `e`.
  unfoldable pub reward : ℕ → ℕ
  reward e = if leb max_halvings e then 0 else initial / 2 ^ e

  -- What the blocks 1 to `n` mint.
  unfoldable pub mined : ℕ → ℕ
  mined zero = 0
  mined (suc n) = mined n + block_subsidy (pos (suc n)) interval initial 0 max_halvings

  -- The rewards of the first `e` epochs, one block of each.
  unfoldable pub epoch_sum : ℕ → ℕ
  epoch_sum zero = 0
  epoch_sum (suc e) = epoch_sum e + reward e

  mined_step : (n : ℕ) → mined (suc n) ≡ mined n + reward (n / interval)
  unfolding mined reward block_subsidy
  mined_step n = refl

  pub epoch_sum_step : (e : ℕ) → epoch_sum (e + 1) ≡ epoch_sum e + reward e
  epoch_sum_step e = rw (add-one e) (unfold epoch_sum in refl)

  -- The last block of an epoch completes it.
  mined_turn :
      (n : ℕ)
      → n % interval + 1 ≡ interval
      → mined n ≡ interval * epoch_sum (n / interval) + n % interval * reward (n / interval)
      → mined (suc n) ≡ interval * epoch_sum (n / interval + 1) + 0 * reward (n / interval + 1)
  mined_turn n full ih = omega (
    arith,
    mined_step n,
    ih,
    ap (λ (t : ℕ). interval * t) (epoch_sum_step (n / interval)),
    ap (λ (t : ℕ). t * reward (n / interval)) full,
  )

  -- Whole epochs, and the part of the running one.
  pub mined_closed :
      (n : ℕ)
      → 0 < interval
      → mined n ≡ interval * epoch_sum (n / interval) + n % interval * reward (n / interval)
  mined_closed zero h = rw (zero-div, zero-mod) (unfold mined epoch_sum in omega arith)
  mined_closed (suc n) h = elim (div_suc n interval h) [
    | inl (q, r) ↦ rw (q, r) (omega (arith, mined_step n, mined_closed n h))
    | inr (q, r, full) ↦ rw (q, r) (mined_turn n full (mined_closed n h))
  ]

  pub reward_past : (e : ℕ) → max_halvings ≤ e → reward e ≡ 0
  unfolding reward
  reward_past e h = ground arith

  reward-le : (e : ℕ) → reward e ≤ initial / 2 ^ e
  unfolding reward
  reward-le e = ground arith

  -- Past the last halving an epoch adds nothing.
  pub epoch_sum-past : (k : ℕ) → epoch_sum (max_halvings + k) ≡ epoch_sum max_halvings
  epoch_sum-past zero = ap epoch_sum (omega arith)
  epoch_sum-past (suc k) =
      ap epoch_sum (omega arith)
      ∙ epoch_sum_step (max_halvings + k)
      ∙ omega (arith, epoch_sum-past k, reward_past (max_halvings + k) (omega arith))

  epoch_sum_mono : (e k : ℕ) → epoch_sum e ≤ epoch_sum (e + k)
  epoch_sum_mono e zero = le_of_eq (ap epoch_sum (omega arith))
  epoch_sum_mono e (suc k) =
      let next : epoch_sum (e + suc k) ≡ epoch_sum (e + k) + reward (e + k) =
        ap epoch_sum (omega arith) ∙ epoch_sum_step (e + k) in
      omega (arith, next, epoch_sum_mono e k)

  pub epoch_sum-le : (e : ℕ) → epoch_sum e ≤ epoch_sum max_halvings
  epoch_sum-le e =
      subst (λ t. epoch_sum e ≤ t) (epoch_sum-past e)
        (subst (λ t. epoch_sum e ≤ epoch_sum t) (omega arith) (epoch_sum_mono e max_halvings))

  -- A halving schedule sums to less than twice its first reward.
  epoch_sum_room : (e : ℕ) → epoch_sum e + 2 * (initial / 2 ^ e) ≤ 2 * initial
  unfolding epoch_sum
  epoch_sum_room zero = omega (arith, room_zero)
    where
      room_zero : initial / 2 ^ 0 ≡ initial
      room_zero = div-one initial
  epoch_sum_room (suc e) = omega (arith, epoch_sum_room e, half_pow initial e, reward-le e)

  pub epoch_sum-le-double : (e : ℕ) → epoch_sum e ≤ 2 * initial
  epoch_sum-le-double e = omega (arith, epoch_sum_room e)
