-- ===== src/Compact.antt =====
-- scripts/dgw_model.py: the compact encoding of a target, as `arith_uint256` does it. An exponent
-- byte counts bytes, and 23 bits of mantissa follow.
pub mod Spec
pub mod Laws
use wam_coin.Common.{ℕ, ◌+◌, ◌-◌, ◌*◌, ◌/◌, ◌^◌, leb, ◌==◌, if◌then◌else◌}
use wam_coin.Common.BitLength.{byte_count}
use Prim.Native.Nat.{bit_and, bit_or}

unfoldable pub compact_to_target : ℕ → ℕ
compact_to_target nbits =
    let size = nbits / 2 ^ 24 in
    let word = bit_and nbits 0x007FFFFF in
    if leb size 3 then word / 2 ^ (8 * (3 - size)) else word * 2 ^ (8 * (size - 3))

-- A mantissa whose top bit is set would read as negative: it gives up its lowest byte.
unfoldable pub normalise : ℕ → ℕ → ℕ
normalise size compact =
    if bit_and compact 0x00800000 == 0
    then bit_or compact (size * 2 ^ 24)
    else bit_or (compact / 2 ^ 8) ((size + 1) * 2 ^ 24)

unfoldable pub target_to_compact : ℕ → ℕ
target_to_compact target =
    let size = byte_count target in
    let compact =
      if leb size 3 then target * 2 ^ (8 * (3 - size)) else target / 2 ^ (8 * (size - 3)) in
    normalise size compact
