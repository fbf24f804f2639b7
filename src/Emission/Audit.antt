-- ===== src/Emission/Audit.antt =====
-- `main` of scripts/verify_supply.py without the options that print the schedule or read other
-- files: the checks in the order in which it makes them, and its exit code.
pub mod Sound
pub mod Income
use wam_coin.Common.{
  ℕ, zero, suc, ◌+◌, ◌-◌, ◌*◌, ◌/◌, ◌^◌, min, Bool, true, false, ◌&&◌, Option, none, some, List, [],
  ◌∷◌, ◌++◌, ltb, leb, ◌==◌, if◌then◌else◌, length,
}
use wam_coin.Common.Int.{pos}
use wam_coin.Emission.{Row, block_subsidy, emission_table, add_epochs}

-- What `parse_params_header` read out of wam-params.h, by the names of `main`.
pub record Params : Type 0 where
  pub coin : ℕ
  pub max_money : ℕ
  pub premine : ℕ
  pub mining : ℕ
  pub initial : ℕ
  pub interval : ℕ
  pub halvings : ℕ
  pub devfee : ℕ
  pub spacing : ℕ
  pub sunset : ℕ
  pub tranches : ℕ
  pub tranche_amt : ℕ
  pub unlocks : List ℕ
  pub gtime : ℕ

-- The two results that Python computes in floating point: `100 * a / b < 15.0`, and
-- `round((unlock - genesis) / 86400 / 365.25)`.
pub record Floats : Type 0 where
  pub percent_below_15 : ℕ → ℕ → Bool
  pub years : ℕ → ℕ → ℕ

-- The names that `check` is called with.
pub data Check : Type 0 where
  series cap_sum cap_22m premine_2m : Check
  never_exceeds exhausted past_final small_loss : Check
  fee_carved fee_share fee_sunsets income_inside founder_below_15 after_sunset : Check
  tranche_count tranche_sum none_at_genesis timestamps after_launch increasing five_years : Check
  nothing_liquid block_spacing : Check
  spot : ℕ → Check

-- `epochs[-1][2] if epochs else 0`
unfoldable pub last_height : List Row → ℕ
last_height [] = 0
last_height (r ∷ []) = r.last
last_height (r ∷ (s ∷ rs)) = last_height (s ∷ rs)

-- The treasury loop, from epoch `e` on with `rounds` left; both of its `break`s end it.
unfoldable pub dev_loop : Params → ℕ → ℕ → ℕ → ℕ
dev_loop p zero e dev_total = dev_total
dev_loop p (suc rounds) e dev_total =
    let subsidy = p.initial / 2 ^ e in
    let first = e * p.interval + 1 in
    let last = min ((e + 1) * p.interval) p.sunset in
    let rest =
      dev_loop p rounds (e + 1) (dev_total + (last + 1 - first) * (subsidy * p.devfee / 100)) in
    if subsidy == 0 then dev_total else if ltb p.sunset first then dev_total else rest

unfoldable pub dev_total : Params → ℕ
unfolding dev_loop
dev_total p = dev_loop p p.halvings 0 0

-- `all(t > bound for t in UNLOCKS)`
unfoldable pub all_after : ℕ → List ℕ → Bool
all_after bound [] = true
all_after bound (t ∷ ts) = ltb bound t && all_after bound ts

unfoldable pub any_zero : List ℕ → Bool
any_zero [] = false
any_zero (t ∷ ts) = if t == 0 then true else any_zero ts

unfoldable pub is_increasing : List ℕ → Bool
is_increasing [] = true
is_increasing (t ∷ []) = true
is_increasing (t ∷ (u ∷ ts)) = ltb t u && is_increasing (u ∷ ts)

-- `sum(TRANCHE_AMT for t in UNLOCKS if t <= GTIME)`
unfoldable pub liquid : ℕ → ℕ → List ℕ → ℕ
liquid amount gtime [] = 0
liquid amount gtime (t ∷ ts) = (if leb t gtime then amount else 0) + liquid amount gtime ts

-- `UNLOCKS[-1]`; `none` is Python's IndexError.
unfoldable pub get_last? : List ℕ → Option ℕ
get_last? [] = none
get_last? (t ∷ []) = some t
get_last? (t ∷ (u ∷ ts)) = get_last? (u ∷ ts)

-- Sections 2 and 3. `truncation_loss` may be negative, so `loss < COIN` is written as a sum.
unfoldable pub supply_checks : Params → List (Check × Bool)
unfolding last_height
supply_checks p =
    let epochs = emission_table p.interval p.initial p.halvings in
    let total = add_epochs p.premine epochs in
    let final = last_height epochs in
    (series, p.interval * p.initial * 2 == p.mining)
    ∷ (cap_sum, p.premine + p.mining == p.max_money)
    ∷ (cap_22m, p.max_money == 22_000_000 * p.coin)
    ∷ (premine_2m, p.premine == 2_000_000 * p.coin)
    ∷ (never_exceeds, leb total p.max_money)
    ∷ (exhausted, p.initial / 2 ^ p.halvings == 0)
    ∷ (past_final, block_subsidy (pos (final + 1)) p.interval p.initial p.premine p.halvings == 0)
    ∷ (small_loss, ltb p.max_money (total + p.coin))
    ∷ []

-- Section 4. `(INITIAL - dev0) + dev0` is the sum of integers that may be negative, so it is
-- written with the addition first.
unfoldable pub fee_checks : Floats → Params → List (Check × Bool)
unfolding dev_total
fee_checks fl p =
    let dev0 = p.initial * p.devfee / 100 in
    let income = dev_total p in
    let after = p.sunset + 1 in
    let share = p.initial / 2 ^ ((after - 1) / p.interval) * p.devfee / 100 in
    (fee_carved, p.initial + dev0 - dev0 == p.initial)
    ∷ (fee_share, dev0 == 250_000_000)
    ∷ (fee_sunsets, ltb p.sunset (p.halvings * p.interval))
    ∷ (income_inside, ltb income p.mining)
    ∷ (founder_below_15, fl.percent_below_15 (income + p.premine) p.max_money)
    ∷ (after_sunset, (if ltb p.sunset after then 0 else share) == 0)
    ∷ []

-- Section 4b, with the last unlock time.
unfoldable pub vesting_checks : Floats → Params → ℕ → List (Check × Bool)
unfolding all_after any_zero is_increasing liquid
vesting_checks fl p final =
    (tranche_count, length p.unlocks == p.tranches)
    ∷ (tranche_sum, p.tranches * p.tranche_amt == p.premine)
    ∷ (none_at_genesis, (if any_zero p.unlocks then false else true))
    ∷ (timestamps, all_after 500_000_000 p.unlocks)
    ∷ (after_launch, all_after p.gtime p.unlocks)
    ∷ (increasing, is_increasing p.unlocks)
    ∷ (five_years, fl.years final p.gtime == 5)
    ∷ (nothing_liquid, liquid p.tranche_amt p.gtime p.unlocks == 0)
    ∷ []

-- Sections 5 and 6: the block spacing, and `block_subsidy` at the ends of the first epochs.
unfoldable pub spot_checks : Params → List (Check × Bool)
spot_checks p =
    let paid_at = λ (h : ℕ). block_subsidy (pos h) p.interval p.initial p.premine p.halvings in
    let at = λ (h : ℕ) (want : ℕ). (let c : Check × Bool = (spot h, paid_at h == want) in c) in
    (block_spacing, p.spacing == 120)
    ∷ at 0 p.premine
    ∷ at 1 (50 * p.coin)
    ∷ at p.interval (50 * p.coin)
    ∷ at (p.interval + 1) (25 * p.coin)
    ∷ at (2 * p.interval) (25 * p.coin)
    ∷ at (2 * p.interval + 1) 12_50000000
    ∷ at (p.halvings * p.interval + 1) 0
    ∷ []

-- FAILURES after a row of calls of `check`: the names of those that did not pass.
unfoldable pub failures : List Check → List (Check × Bool) → List Check
failures failed [] = failed
failures failed ((name, ok) ∷ cs) = failures (if ok then failed else failed ++ (name ∷ [])) cs

unfoldable pub exit_code : List Check → ℕ
exit_code [] = 0
exit_code (c ∷ cs) = 1

unfoldable pub all_checks : Floats → Params → ℕ → List (Check × Bool)
all_checks fl p final =
    supply_checks p ++ (fee_checks fl p ++ (vesting_checks fl p final ++ spot_checks p))

-- The exit code; `none` is the IndexError on an empty table of unlock times.
unfoldable pub main : Floats → Params → Option ℕ
main fl p = elim (get_last? p.unlocks) [
  | none ↦ none
  | some final ↦ some (exit_code (failures [] (all_checks fl p final)))
]
