-- ===== src/Dgw.antt =====
-- scripts/dgw_model.py: DarkGravityWave v3 and the comparison of the model with a chain.
pub mod Bounds
pub mod Pace
pub mod Chain
use wam_coin.Common.{
  ℕ, zero, suc, ◌+◌, ◌-◌, ◌*◌, ◌/◌, ◌%◌, List, [], ◌∷◌, ◌++◌, Option, none, some, ltb, leb, ◌==◌,
  if◌then◌else◌, length, take, drop, get_elem?,
}
use wam_coin.Compact.{compact_to_target, target_to_compact}
use mathlib.Core.List.{reverse}

abbrev pub past_blocks : ℕ
past_blocks = 24

abbrev pub target_spacing : ℕ
target_spacing = 120

abbrev pub clamp : ℕ
clamp = 3

abbrev pub target_timespan : ℕ
target_timespan = past_blocks * target_spacing

-- The dictionary with `nbits` and `time` that stands for a block.
pub record Block : Type 0 where
  pub nbits : ℕ
  pub time : ℕ

-- `for n, blk in enumerate(newest_first, start=1)`
unfoldable pub average : ℕ → ℕ → List Block → ℕ
average n avg [] = avg
average n avg (b ∷ bs) =
    let t = compact_to_target b.nbits in
    average (n + 1) (if n == 1 then t else (avg * n + t) / (n + 1)) bs

-- The time of `newest_first[-1]`, for a list that begins with a block of this time.
unfoldable pub last_time : ℕ → List Block → ℕ
last_time time [] = time
last_time time (b ∷ bs) = last_time b.time bs

-- `actual = newest - oldest`, which may be negative, between its two clamps.
unfoldable pub clamped_timespan : ℕ → ℕ → ℕ
clamped_timespan newest oldest =
    let low = target_timespan / clamp in
    let high = target_timespan * clamp in
    if ltb newest (oldest + low)
    then low
    else if ltb high (newest - oldest)
    then high
    else newest - oldest

-- The target before it is encoded. The window holds 24 blocks here, so the first clause is not met.
unfoldable pub next_target : List Block → ℕ → ℕ
unfolding average last_time clamped_timespan
next_target [] pow_limit = pow_limit
next_target (b ∷ bs) pow_limit =
    let avg = average 1 0 (b ∷ bs) in
    let actual = clamped_timespan b.time (last_time b.time bs) in
    let new = avg * actual / target_timespan in if ltb pow_limit new then pow_limit else new

-- `list(reversed(window[-PAST_BLOCKS:]))`
unfoldable pub newest_first : List Block → List Block
newest_first window = reverse (drop (length window - past_blocks) window)

unfoldable pub dgw : List Block → ℕ → ℕ
dgw window pow_limit =
    if ltb (length window) past_blocks
    then target_to_compact pow_limit
    else target_to_compact (next_target (newest_first window) pow_limit)
