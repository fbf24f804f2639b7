-- ===== src/Emission/Bounds.antt =====
-- The supply at every height against the table that the audit adds up.
use wam_coin.Common.{
  ℕ, zero, suc, ◌+◌, ◌*◌, ◌/◌, ◌^◌, ◌%◌, ◌-◌, ◌≤◌, ◌<◌, ◌≡◌, ◌∙◌, ap, inl, inr, ◌==◌, arith,
  Bool-cases, ==_iff,
}
use wam_coin.Common.Int.{pos}
use wam_coin.Common.Numbers.{half_pow}
use wam_coin.Emission.{block_subsidy, emission_rows, emission_table, add_epochs}
use wam_coin.Emission.Supply.{
  reward, mined, epoch_sum, epoch_sum_step, mined_closed, epoch_sum-le, epoch_sum-le-double,
  epoch_sum-past, reward_past,
}
use native.Mathlib.Nat.{mod-lt, mul-le-mul, mul-le-mul_left, le_refl, le-div_iff_mul-le}

module _ (interval initial premine max_halvings : ℕ) where
  -- All that the blocks 0 to `n` mint.
  unfoldable pub supply : ℕ → ℕ
  supply zero = block_subsidy (pos 0) interval initial premine max_halvings
  supply (suc n) = supply n + block_subsidy (pos (suc n)) interval initial premine max_halvings

  pub supply-mined : (n : ℕ) → supply n ≡ premine + mined interval initial max_halvings n
  unfolding supply mined block_subsidy
  supply-mined zero = omega arith
  supply-mined (suc n) = omega (arith, supply-mined n)

module _ (interval initial max_halvings : ℕ) where
  abbrev sum_to : ℕ → ℕ
  sum_to = epoch_sum interval initial max_halvings

  pub nothing_after : (e k : ℕ) → initial / 2 ^ e ≡ 0 → initial / 2 ^ (e + k) ≡ 0
  nothing_after e zero h = ap (λ t. initial / 2 ^ t) (omega arith) ∙ h
  nothing_after e (suc k) h =
      ap (λ t. initial / 2 ^ t) (omega arith)
      ∙ half_pow initial (e + k)
      ∙ omega (arith, nothing_after e k h)

  reward-zero : (e : ℕ) → initial / 2 ^ e ≡ 0 → reward interval initial max_halvings e ≡ 0
  unfolding reward
  reward-zero e h = ground arith

  sum_to-flat : (e k : ℕ) → initial / 2 ^ e ≡ 0 → sum_to (e + k) ≡ sum_to e
  sum_to-flat e zero h = ap sum_to (omega arith)
  sum_to-flat e (suc k) h =
      ap sum_to (omega arith)
      ∙ epoch_sum_step interval initial max_halvings (e + k)
      ∙ omega (arith, sum_to-flat e k h, reward-zero (e + k) (nothing_after e k h))

  reward_before :
      (e : ℕ) → e < max_halvings → reward interval initial max_halvings e ≡ initial / 2 ^ e
  unfolding reward
  reward_before e h = ground arith

  -- `e` rounds are done and `rounds` are left.
  add_rows :
      (rounds e total : ℕ)
      → e + rounds ≡ max_halvings
      → add_epochs total (emission_rows interval initial rounds e) + interval * sum_to e
        ≡ total + interval * sum_to max_halvings
  unfolding emission_rows add_epochs
  add_rows zero e total h = omega (arith, ap (λ t. interval * sum_to t) same)
    where
      same : e ≡ max_halvings
      same = omega arith
  add_rows (suc rounds) e total h = elim (Bool-cases (initial / 2 ^ e == 0)) [
    | inl z ↦
        let flat : sum_to max_halvings ≡ sum_to e =
          ap sum_to (omega arith) ∙ sum_to-flat e (suc rounds) ((==_iff _ 0).0 z) in
        rw z (omega (arith, ap (λ (t : ℕ). interval * t) flat))
    | inr more ↦ rw more (
        omega (
          arith,
          add_rows rounds (e + 1) (total + initial / 2 ^ e * interval) (omega arith),
          ap (λ (t : ℕ). interval * t) (epoch_sum_step interval initial max_halvings e),
          ap (λ (t : ℕ). interval * t) (reward_before e (omega arith)),
        ))
  ]

  pub table_total :
      (premine : ℕ)
      → add_epochs premine (emission_table interval initial max_halvings)
        ≡ premine + interval * sum_to max_halvings
  unfolding emission_table epoch_sum
  table_total premine = omega (arith, add_rows max_halvings 0 premine (omega arith))

  mined-le :
      (n : ℕ)
      → 0 < interval
      → mined interval initial max_halvings n ≤ interval * sum_to max_halvings
  mined-le n h = omega (
    arith,
    mined_closed interval initial max_halvings n h,
    mul-le-mul (mod-lt n h) (le_refl (reward interval initial max_halvings (n / interval))),
    mul-le-mul_left interval (epoch_sum-le interval initial max_halvings (n / interval + 1)),
    ap (λ (t : ℕ). interval * t) (epoch_sum_step interval initial max_halvings (n / interval)),
  )

  mined_end :
      (n : ℕ)
      → 0 < interval
      → max_halvings * interval ≤ n
      → mined interval initial max_halvings n ≡ interval * sum_to max_halvings
  mined_end n h past =
      let q = n / interval in
      let beyond : max_halvings ≤ q = (le-div_iff_mul-le h).1 past in
      let same : sum_to q ≡ sum_to max_halvings =
        ap sum_to (omega arith) ∙ epoch_sum-past interval initial max_halvings (q - max_halvings) in
      omega (
        arith,
        mined_closed interval initial max_halvings n h,
        ap (λ (t : ℕ). interval * t) same,
        ap (λ (t : ℕ). n % interval * t) (reward_past interval initial max_halvings q beyond),
      )

module _ (interval initial premine max_halvings : ℕ) where
  -- At no height has the chain minted more than the total that the epoch table adds up to: the
  -- premine and every block subsidy up to any height, for a positive halving interval.
  pub supply-le-table :
      (n : ℕ)
      → 0 < interval
      → supply interval initial premine max_halvings n
        ≤ add_epochs premine (emission_table interval initial max_halvings)
  supply-le-table n h = omega (
    arith,
    supply-mined interval initial premine max_halvings n,
    table_total interval initial max_halvings premine,
    mined-le interval initial max_halvings n h,
  )

  -- From the end of the last epoch on, the supply summed block by block is exactly the total of the
  -- epoch table, for a positive halving interval.
  pub supply_reaches_table :
      (n : ℕ)
      → 0 < interval
      → max_halvings * interval ≤ n
      → supply interval initial premine max_halvings n
        ≡ add_epochs premine (emission_table interval initial max_halvings)
  supply_reaches_table n h past = omega (
    arith,
    supply-mined interval initial premine max_halvings n,
    table_total interval initial max_halvings premine,
    mined_end interval initial max_halvings n h past,
  )

  -- The table never adds up to more than the premine and the ideal geometric series
  -- `interval * initial * 2`, whatever the truncating shifts lose.
  pub table-le-series :
      add_epochs premine (emission_table interval initial max_halvings)
      ≤ premine + interval * initial * 2
  table-le-series = omega (
    arith,
    table_total interval initial max_halvings premine,
    mul-le-mul_left interval (epoch_sum-le-double interval initial max_halvings max_halvings),
  )
