-- ===== src/Dgw/Bounds.antt =====
-- How far one retarget can move.
use wam_coin.Common.{
  ℕ, suc, ◌+◌, ◌-◌, ◌*◌, ◌/◌, ◌^◌, ◌≤◌, ◌<◌, ◌≡◌, min, List, [], ◌∷◌, All, All-drop, All-reverse,
  length, length-drop, length-reverse, le→ltb, drop, ltb, ◌==◌, false, if◌then◌else◌, arith,
}
use wam_coin.Compact.{compact_to_target, target_to_compact}
use wam_coin.Compact.Laws.{decode-encode_close}
use wam_coin.Dgw.{
  Block, past_blocks, average, clamped_timespan, last_time, next_target, newest_first, dgw,
}
use native.Mathlib.Nat.{le-div_iff_mul-le, div-le_of_le-mul, mul-le-mul_right, mul-le-mul}
use native.Mathlib.Numerals.{add-one}

not_first : (n : ℕ) → (suc (suc n) == 1) ≡ false
not_first n = ground arith

capped :
    (x limit a b : ℕ)
    → a ≤ x
    → x ≤ b
    → (min a limit ≤ (if ltb limit x then limit else x))
      × ((if ltb limit x then limit else x) ≤ min b limit)
capped x limit a b h g = ground arith

pub dgw_long :
    (window : List Block) (pow_limit : ℕ)
    → 24 ≤ length window
    → dgw window pow_limit ≡ target_to_compact (next_target (newest_first window) pow_limit)
unfolding dgw
dgw_long window pow_limit h = rw (le→ltb (length window) 24 h)

pub newest_first-pos : (window : List Block) → 24 ≤ length window → 0 < length (newest_first window)
unfolding newest_first
newest_first-pos window h = omega (
  arith,
  length-reverse (drop (length window - past_blocks) window),
  length-drop (length window - past_blocks) window,
)

module _ (lo hi : ℕ) where
  -- The target that the block's bits stand for lies in the range.
  abbrev pub InRange : Block → Type 0
  InRange b = (lo ≤ compact_to_target b.nbits) × (compact_to_target b.nbits ≤ hi)

  mean_bounds :
      (n avg t : ℕ)
      → lo ≤ avg
      → avg ≤ hi
      → lo ≤ t
      → t ≤ hi
      → (lo ≤ (avg * n + t) / (n + 1)) × ((avg * n + t) / (n + 1) ≤ hi)
  mean_bounds n avg t a b c d = (
    (le-div_iff_mul-le (omega arith)).1 (omega (arith, c, mul-le-mul_right n a)),
    div-le_of_le-mul (n + 1) (omega (arith, d, mul-le-mul_right n b)),
  )

  average_next :
      (n avg : ℕ) (b : Block) (bs : List Block)
      → average (suc (suc n)) avg (b ∷ bs)
        ≡ average
            (suc (suc (suc n)))
            ((avg * suc (suc n) + compact_to_target b.nbits) / (suc (suc n) + 1))
            bs
  unfolding average
  average_next n avg b bs = rw (not_first n) (rw (add-one (suc (suc n))))

  pub average_bounds :
      (bs : List Block) (n avg : ℕ)
      → lo ≤ avg
      → avg ≤ hi
      → All InRange bs
      → (lo ≤ average (suc (suc n)) avg bs) × (average (suc (suc n)) avg bs ≤ hi)
  average_bounds [] n avg a b h = unfold average in (a, b)
  average_bounds (blk ∷ bs) n avg a b ((c, d), h) =
      let t = compact_to_target blk.nbits in
      let mean = (avg * suc (suc n) + t) / (suc (suc n) + 1) in
      let (low, high) = mean_bounds (suc (suc n)) avg t a b c d in
      rw (average_next n avg blk bs) (average_bounds bs (suc n) mean low high h)

  clamped_bounds :
      (newest oldest : ℕ)
      → (960 ≤ clamped_timespan newest oldest) × (clamped_timespan newest oldest ≤ 8640)
  unfolding clamped_timespan
  clamped_bounds newest oldest = ground arith

  pub next_target_bounds :
      (bs : List Block) (pow_limit : ℕ)
      → 0 < length bs
      → All InRange bs
      → (min (lo / 3) pow_limit ≤ next_target bs pow_limit)
        × (next_target bs pow_limit ≤ min (3 * hi) pow_limit)
  unfolding next_target
  next_target_bounds [] pow_limit s h = absurd (omega arith)
  next_target_bounds (b ∷ bs) pow_limit s (r, h) =
      let avg = average 2 (compact_to_target b.nbits) bs in
      let span = clamped_timespan b.time (last_time b.time bs) in
      let (low, high) = average_bounds bs 0 (compact_to_target b.nbits) r.0 r.1 h in
      let (short, long) = clamped_bounds b.time (last_time b.time bs) in
      capped (avg * span / 2880) pow_limit (lo / 3) (3 * hi) (omega (arith, mul-le-mul low short))
        (omega (arith, mul-le-mul high long))

  newest_first-InRange :
      (window : List Block) → All InRange window → All InRange (newest_first window)
  unfolding newest_first
  newest_first-InRange window h =
      let n = length window - past_blocks in
      All-reverse InRange (drop n window) (All-drop InRange n window h)

  -- One retarget on at least 24 blocks whose targets all lie between `lo` and `hi` gives a target
  -- that decodes to at most the limit and at most three times `hi`, and to at least `lo / 3` or the
  -- limit, less the one part in 2 ** 15 that the encoding may cut.
  pub dgw_bounds :
      (window : List Block) (pow_limit : ℕ)
      → 24 ≤ length window
      → All InRange window
      → (compact_to_target (dgw window pow_limit) ≤ min (3 * hi) pow_limit)
        × (min (lo / 3) pow_limit
            ≤ compact_to_target (dgw window pow_limit) + min (lo / 3) pow_limit / 2 ^ 15)
  dgw_bounds window pow_limit long h =
      let bs = newest_first window in
      let (low, high) =
        next_target_bounds bs pow_limit (newest_first-pos window long)
          (newest_first-InRange window h) in
      let (down, close) = decode-encode_close (next_target bs pow_limit) in
      rw (dgw_long window pow_limit long) (omega arith, omega arith)
