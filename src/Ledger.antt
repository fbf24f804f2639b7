-- ===== src/Ledger.antt =====
-- scripts/check_treasury_ledger.py: what consensus rule WAM-1 pays the treasury.
pub mod Accrual
pub mod Check
use wam_coin.Common.{
  ℕ, zero, suc, ◌+◌, ◌-◌, ◌*◌, ◌/◌, ◌^◌, min, max, Option, none, some, ltb, leb, if◌then◌else◌,
  ◌||◌,
}

-- The dictionary `k` that `consensus_constants` reads out of wam-params.h.
pub record Constants : Type 0 where
  pub subsidy : ℕ
  pub interval : ℕ
  pub percent : ℕ
  pub start : ℕ
  pub last : ℕ
  pub max_halvings : ℕ

abbrev pub atom : ℕ
atom = 100_000_000

-- `(height - 1) // interval` is only reached from the first height of the fee on, and that is
-- positive wherever the script calls this, so the subtraction does not stop at 0.
unfoldable pub treasury_at : ℕ → Constants → ℕ
treasury_at height k =
    if ltb height k.start || ltb k.last height
    then 0
    else let halvings = (height - 1) / k.interval in
      if leb k.max_halvings halvings
      then 0
      else let subsidy = k.subsidy * atom / 2 ^ halvings in subsidy * k.percent / 100

-- The `while` loop, on fuel; `none` means that the fuel ran out.
unfoldable pub accrue : ℕ → ℕ → Constants → ℕ → ℕ → Option ℕ
accrue zero height k h total = none
accrue (suc fuel) height k h total =
    let epoch_end = min (min height k.last) (((h - 1) / k.interval + 1) * k.interval) in
    let rest =
      accrue fuel height k (epoch_end + 1) (total + treasury_at h k * (epoch_end + 1 - h)) in
    if leb h (min height k.last) then rest else some total

-- Each round passes a height at least, so one round for each height and one to stop are enough.
unfoldable pub accrued_through : ℕ → Constants → Option ℕ
unfolding accrue
accrued_through height k = accrue (height + 1) height k (max k.start 1) 0
