-- ===== src/Tests/Chain.antt =====
-- The emission, ledger and difficulty modules at concrete inputs; the constants are those of wam-params.h.
use wam_coin.Common.{
  ℕ, zero, suc, suc, ◌+◌, ◌-◌, ◌*◌, ◌/◌, ◌^◌, ◌≤◌, ◌<◌, ◌≡◌, refl, min, Option, some, List, [], ◌∷◌,
  replicate, All, All-replicate, arith, ltb,
}
use wam_coin.Common.Int.{pos}
use wam_coin.Emission.{block_subsidy, emission_rows, emission_table, add_epochs}
use wam_coin.Emission.Bounds.{supply, supply_reaches_table}
use wam_coin.Emission.Audit.{
  Params, Floats, last_height, dev_loop, dev_total, all_after, any_zero, is_increasing, liquid,
  get_last?, supply_checks, fee_checks, vesting_checks, spot_checks, failures, exit_code,
  all_checks, main,
}
use wam_coin.Emission.Audit.Sound.{main_caps}
use wam_coin.Emission.Audit.Income.{constants, dev_total-accrued}
use wam_coin.Ledger.{accrued_through}
use wam_coin.Ledger.Accrual.{paid, accrued_through-paid}
use wam_coin.Compact.{compact_to_target, target_to_compact}
use wam_coin.Dgw.{Block, newest_first, dgw}
use wam_coin.Dgw.Bounds.{InRange, dgw_bounds}
use wam_coin.Dgw.Pace.{HasBits, IsSpaced, dgw_spaced}
use wam_coin.Dgw.Chain.{Header}

abbrev wam_params : Params
wam_params = record {
  coin = 100000000;
  max_money = 2200000000000000;
  premine = 200000000000000;
  mining = 2000000000000000;
  initial = 5000000000;
  interval = 200000;
  halvings = 33;
  devfee = 5;
  spacing = 120;
  sunset = 400000;
  tranches = 5;
  tranche_amt = 40000000000000;
  unlocks = 1820966400 ∷ 1852588800 ∷ 1884124800 ∷ 1915660800 ∷ 1947196800 ∷ [];
  gtime = 1789430400;
}

abbrev exact : Floats
exact = record {
  percent_below_15 = λ a b. ltb (100 * a) (15 * b);
  years = λ unlock genesis. (unlock - genesis + 15778800) / 31557600;
}

audit_passes : main exact wam_params ≡ some 0
unfolding main all_checks supply_checks fee_checks vesting_checks spot_checks failures exit_code
    get_last? last_height dev_loop dev_total all_after any_zero is_increasing liquid emission_rows
    emission_table add_epochs block_subsidy
audit_passes = refl

second_epoch : block_subsidy (pos 200001) 200000 5000000000 200000000000000 33 ≡ 2500000000
unfolding block_subsidy
second_epoch = refl

lowest_difficulty : target_to_compact (compact_to_target 0x1E0FFFF0) ≡ 0x1E0FFFF0
unfolding wam_coin.Compact.compact_to_target wam_coin.Compact.target_to_compact
    wam_coin.Compact.normalise wam_coin.Common.BitLength.bit_length wam_coin.Common.BitLength.bits
lowest_difficulty = refl

supply_reaches_table_example : supply 10 8 5 4 45 ≡ add_epochs 5 (emission_table 10 8 4)
supply_reaches_table_example = supply_reaches_table 10 8 5 4 45 (omega arith) (omega arith)

main_caps_example :
    (supply 200000 5000000000 200000000000000 33 1000000 ≤ 22_000_000 * 100000000)
    × (33 * 200000 ≤ 1000000
        → 22_000_000 * 100000000 < supply 200000 5000000000 200000000000000 33 1000000 + 100000000)
main_caps_example = main_caps exact wam_params 1000000 audit_passes

dev_total-accrued_example :
    accrued_through 400000 (constants wam_params 50 1) ≡ some (dev_total wam_params)
dev_total-accrued_example = dev_total-accrued wam_params 50 1 refl refl (omega arith)

accrued_through-paid_example :
    accrued_through 250000 (constants wam_params 50 1)
    ≡ some (paid (constants wam_params 50 1) 250000)
accrued_through-paid_example = accrued_through-paid (constants wam_params 50 1) 250000 (omega arith)

abbrev easy : Block
easy = record { nbits = 0x1E0FFFF0; time = 1789430400 }

dgw_bounds_example :
    let window = replicate 24 easy in
    let t = compact_to_target 0x1E0FFFF0 in
    (compact_to_target (dgw window t) ≤ min (3 * t) t)
    × (min (t / 3) t ≤ compact_to_target (dgw window t) + min (t / 3) t / 2 ^ 15)
dgw_bounds_example =
    let t : ℕ = compact_to_target 0x1E0FFFF0 in
    dgw_bounds t t (replicate 24 easy) t (omega arith)
      (All-replicate (InRange t t) 24 easy (omega arith, omega arith))

-- Blocks that come every 120 seconds, oldest first.
abbrev every_two_minutes : ℕ → ℕ → List Block
every_two_minutes zero time = []
every_two_minutes (suc n) time =
    record { nbits = 0x1C100000; time = time } ∷ every_two_minutes n (time + 120)

every_two_minutes-HasBits : (n time : ℕ) → All (HasBits 0x1C100000) (every_two_minutes n time)
every_two_minutes-HasBits zero time = tt
every_two_minutes-HasBits (suc n) time = (refl, every_two_minutes-HasBits n (time + 120))

evenly : IsSpaced 120 (newest_first (every_two_minutes 24 1000))
unfolding newest_first
evenly = (
  refl,
  (
    refl,
    (
      refl,
      (
        refl,
        (
          refl,
          (
            refl,
            (
              refl,
              (
                refl,
                (
                  refl,
                  (
                    refl,
                    (
                      refl,
                      (
                        refl,
                        (
                          refl,
                          (
                            refl,
                            (
                              refl,
                              (refl, (refl, (refl, (refl, (refl, (refl, (refl, (refl, tt)))))))),
                            ),
                          ),
                        ),
                      ),
                    ),
                  ),
                ),
              ),
            ),
          ),
        ),
      ),
    ),
  ),
)

dgw_spaced_example :
    dgw (every_two_minutes 24 1000) (2 ^ 240)
    ≡ target_to_compact (min (compact_to_target 0x1C100000 * (23 * 120) / 2880) (2 ^ 240))
dgw_spaced_example =
    dgw_spaced (every_two_minutes 24 1000) (2 ^ 240) 0x1C100000 120 (omega arith)
      (every_two_minutes-HasBits 24 1000) evenly (omega arith) (omega arith)

abbrev quiet_chain : List Header
quiet_chain = replicate 25 (record { height = 0; time = 0; nbits = 0x1E0FFFF0 })
