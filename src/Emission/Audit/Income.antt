-- ===== src/Emission/Audit/Income.antt =====
-- The treasury loop of scripts/verify_supply.py against the accrual of
-- scripts/check_treasury_ledger.py: two programs, one income.
use wam_coin.Common.{
  ℕ, zero, suc, ◌+◌, ◌-◌, ◌*◌, ◌/◌, ◌^◌, ◌≤◌, ◌<◌, ◌≡◌, ◌∙◌, sym, ap, min, some, ltb, ◌==◌, false,
  Bool-cases, ==_iff, ltb→lt, inl, inr, arith,
}
use wam_coin.Emission.Bounds.{nothing_after}
use wam_coin.Emission.Audit.{Params, dev_loop, dev_total}
use wam_coin.Ledger.{Constants, atom, treasury_at, accrued_through}
use wam_coin.Ledger.Accrual.{paid, paid_span, paid_flat, accrued_through-paid}
use native.Mathlib.Decide.{dec_lt}
use native.Mathlib.Nat.{mul-div_cancel, le-div_iff_mul-le}

-- The constants that the ledger's check reads from the same header; it reads the subsidy in coins and the
-- first height of the fee, which the audit does not read.
abbrev pub constants : Params → ℕ → ℕ → Constants
constants p coins start = record {
  subsidy = coins;
  interval = p.interval;
  percent = p.devfee;
  start = start;
  last = p.sunset;
  max_halvings = p.halvings;
}

module _ (p : Params) (coins : ℕ) (same : p.initial ≡ coins * atom) (i : 0 < p.interval) where
  abbrev k : Constants
  k = constants p coins 1

  abbrev paid_to : ℕ → ℕ
  paid_to = paid k

  treasury_past : (j : ℕ) → p.halvings ≤ (j - 1) / p.interval → treasury_at j k ≡ 0
  unfolding treasury_at
  treasury_past j h = ground arith

  treasury_dry : (j : ℕ) → p.initial / 2 ^ ((j - 1) / p.interval) ≡ 0 → treasury_at j k ≡ 0
  unfolding treasury_at
  treasury_dry j h = ground (
    arith,
    same,
    h,
    ap (λ (t : ℕ). t * p.devfee / 100) (sym (ap (λ t. t / 2 ^ ((j - 1) / p.interval)) same) ∙ h),
  )

  treasury_first :
      (e : ℕ)
      → e < p.halvings
      → e * p.interval < p.sunset
      → treasury_at (e * p.interval + 1) k ≡ p.initial / 2 ^ e * p.devfee / 100
  unfolding treasury_at
  treasury_first e h s =
      let epoch : (e * p.interval + 1 - 1) / p.interval ≡ e =
        ap (λ t. t / p.interval) (omega arith) ∙ mul-div_cancel e i in
      ground (arith, epoch, same)

  after_epoch : (e j : ℕ) → e * p.interval < j → p.halvings ≤ e → p.halvings ≤ (j - 1) / p.interval
  after_epoch e j past h =
      let later : e ≤ (j - 1) / p.interval = (le-div_iff_mul-le i).1 (omega arith) in omega arith

  dry_after :
      (e j : ℕ)
      → p.initial / 2 ^ e ≡ 0
      → e * p.interval < j
      → p.initial / 2 ^ ((j - 1) / p.interval) ≡ 0
  dry_after e j dry past =
      let q = (j - 1) / p.interval in
      let later : e ≤ q = (le-div_iff_mul-le i).1 (omega arith) in
      let whole : q ≡ e + (q - e) = omega arith in
      ap (λ t. p.initial / 2 ^ t) whole
      ∙ nothing_after p.interval p.initial p.halvings e (q - e) dry

  ltb-false : (a b : ℕ) → ltb a (b + 1) ≡ false → b < a
  ltb-false a b h = ground arith

  -- One round pays the blocks of its epoch, up to the sunset.
  epoch_paid :
      (e total : ℕ)
      → e < p.halvings
      → e * p.interval < p.sunset
      → total ≡ paid_to (min (e * p.interval) p.sunset)
      → total
          + (min ((e + 1) * p.interval) p.sunset + 1 - (e * p.interval + 1))
            * (p.initial / 2 ^ e * p.devfee / 100)
        ≡ paid_to (min ((e + 1) * p.interval) p.sunset)
  epoch_paid e total h s t =
      let n = e * p.interval in
      let m = min ((e + 1) * p.interval) p.sunset in
      let q : n / p.interval ≡ e = mul-div_cancel e i in
      let c = m - n in
      let whole : n + c ≡ m = omega arith in
      let begin : paid_to (min n p.sunset) ≡ paid_to n = ap paid_to (omega arith) in
      let limit : n + c ≤ (n / p.interval + 1) * p.interval = rw q (omega arith) in
      let span : paid_to (n + c) ≡ paid_to n + treasury_at (n + 1) k * c =
        paid_span k c n i (omega arith) (omega arith) limit in
      let reward = p.initial / 2 ^ e * p.devfee / 100 in
      let rounds : m + 1 - (n + 1) ≡ c = omega arith in
      omega (
        arith,
        t,
        begin,
        ap (λ (t : ℕ). t * reward) rounds,
        span,
        ap paid_to whole,
        ap (λ (t : ℕ). t * c) (treasury_first e h s),
      )

  -- Everything past the start of epoch `e` is unpaid.
  rest_unpaid :
      (e : ℕ)
      → ((j : ℕ) → e * p.interval < j → treasury_at j k ≡ 0)
      → paid_to (min (e * p.interval) p.sunset) ≡ paid_to p.sunset
  rest_unpaid e h = elim (dec_lt p.sunset (e * p.interval)) [
    | yes s ↦ ap paid_to (omega arith)
    | no s ↦
        let n = e * p.interval in
        let whole : n + (p.sunset - n) ≡ p.sunset = omega arith in
        ap paid_to (omega arith) ∙ sym (paid_flat k (p.sunset - n) n h) ∙ ap paid_to whole
  ]

  dev_loop-paid :
      (rounds e total : ℕ)
      → e + rounds ≡ p.halvings
      → total ≡ paid_to (min (e * p.interval) p.sunset)
      → dev_loop p rounds e total ≡ paid_to p.sunset
  unfolding dev_loop
  dev_loop-paid zero e total h t =
      t ∙ rest_unpaid e (λ j past. treasury_past j (after_epoch e j past (omega arith)))
  dev_loop-paid (suc rounds) e total h t = elim (Bool-cases (p.initial / 2 ^ e == 0)) [
    | inl dry ↦
        rw dry
          (t ∙ rest_unpaid e (λ j past. treasury_dry j (dry_after e j ((==_iff _ 0).0 dry) past)))
    | inr wet ↦ elim (Bool-cases (ltb p.sunset (e * p.interval + 1))) [
      | inl over ↦
          rw (wet, over) (t ∙ ap paid_to (omega (arith, ltb→lt p.sunset (e * p.interval + 1) over)))
      | inr more ↦
          rw (wet, more)
            (dev_loop-paid rounds (e + 1) _ (omega arith)
              (epoch_paid e total (omega arith) (ltb-false p.sunset (e * p.interval) more) t))
    ]
  ]

paid_none :
    (p : Params) (coins : ℕ) (same : p.initial ≡ coins * atom) (i : 0 < p.interval)
    → 0 ≡ paid (constants p coins 1) (min (0 * p.interval) p.sunset)
unfolding paid
paid_none p coins same i =
    let nothing : min (0 * p.interval) p.sunset ≡ 0 = omega arith in
    sym (ap (paid (constants p coins 1)) nothing)

dev_total_from_first :
    (p : Params) (coins : ℕ)
    → p.initial ≡ coins * atom
    → 0 < p.interval
    → accrued_through p.sunset (constants p coins 1) ≡ some (dev_total p)
unfolding dev_total
dev_total_from_first p coins same i =
    accrued_through-paid (constants p coins 1) p.sunset i
    ∙ ap some
        (sym (dev_loop-paid p coins same i p.halvings 0 0 (omega arith) (paid_none p coins same i)))

-- If the first height of the fee is 1, the lifetime treasury income that the supply audit computes, which
-- does not read that height, is what the ledger's check accrues through the sunset height, read from
-- the same constants, for a positive halving interval.
pub dev_total-accrued :
    (p : Params) (coins start : ℕ)
    → start ≡ 1
    → p.initial ≡ coins * atom
    → 0 < p.interval
    → accrued_through p.sunset (constants p coins start) ≡ some (dev_total p)
dev_total-accrued p coins start first same i =
    ap (λ n. accrued_through p.sunset (constants p coins n)) first
    ∙ dev_total_from_first p coins same i
