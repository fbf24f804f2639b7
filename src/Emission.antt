-- ===== src/Emission.antt =====
-- scripts/verify_supply.py: the emission schedule that the supply audit replays. `>>` is a
-- division by a power of two, amounts are whole atoms.
pub mod Supply
pub mod Bounds
pub mod Audit
use wam_coin.Common.{ℕ, zero, suc, ◌+◌, ◌*◌, ◌/◌, ◌^◌, List, [], ◌∷◌, leb, ◌==◌, if◌then◌else◌}
use wam_coin.Common.Int.{ℤ, pos, negsuc}

-- `height` is any Python int. The interval is positive wherever the script calls this.
unfoldable pub block_subsidy : ℤ → ℕ → ℕ → ℕ → ℕ → ℕ
block_subsidy (negsuc n) interval initial premine max_halvings = 0
block_subsidy (pos zero) interval initial premine max_halvings = premine
block_subsidy (pos (suc n)) interval initial premine max_halvings =
    let halvings = n / interval in if leb max_halvings halvings then 0 else initial / 2 ^ halvings

-- One tuple that `emission_table` yields.
pub record Row : Type 0 where
  pub epoch : ℕ
  pub first : ℕ
  pub last : ℕ
  pub subsidy : ℕ
  pub epoch_total : ℕ

-- `for e in range(max_halvings)`, from `e` on with `rounds` rounds left; the `break` ends it.
unfoldable pub emission_rows : ℕ → ℕ → ℕ → ℕ → List Row
emission_rows interval initial zero e = []
emission_rows interval initial (suc rounds) e =
    let subsidy = initial / 2 ^ e in
    let row : Row = record {
      epoch = e;
      first = e * interval + 1;
      last = (e + 1) * interval;
      subsidy = subsidy;
      epoch_total = subsidy * interval;
    } in
    let rest = emission_rows interval initial rounds (e + 1) in
    if subsidy == 0 then [] else row ∷ rest

unfoldable pub emission_table : ℕ → ℕ → ℕ → List Row
unfolding emission_rows
emission_table interval initial max_halvings = emission_rows interval initial max_halvings 0

-- `total = PREMINE`, then `total += epoch_total` for each row.
unfoldable pub add_epochs : ℕ → List Row → ℕ
add_epochs total [] = total
add_epochs total (r ∷ rs) = add_epochs (total + r.epoch_total) rs
