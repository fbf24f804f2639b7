-- ===== src/Dgw/Pace.antt =====
-- Where the target goes when blocks of one difficulty come at an even pace.
use wam_coin.Common.{
  ℕ, ◌+◌, ◌*◌, ◌/◌, ◌≤◌, ◌≡◌, ap, ◌∙◌, List, [], ◌∷◌, All, All-drop, All-reverse, length,
  length-drop, length-reverse, min, drop, arith, ltb, if◌then◌else◌, ◌-◌,
}
use wam_coin.Compact.{compact_to_target, target_to_compact}
use wam_coin.Dgw.{
  Block, past_blocks, average, clamped_timespan, last_time, next_target, newest_first, dgw,
}
use wam_coin.Dgw.Bounds.{average_bounds, dgw_long}

abbrev pub HasBits : ℕ → Block → Type 0
HasBits nbits b = b.nbits ≡ nbits

-- Newest first, each block came this many seconds after the one before it.
abbrev pub IsSpaced : ℕ → List Block → Type 0
IsSpaced spacing [] = Unit
IsSpaced spacing (b ∷ []) = Unit
IsSpaced spacing (b ∷ c ∷ bs) = (b.time ≡ c.time + spacing) × IsSpaced spacing (c ∷ bs)

last_time_spaced :
    (spacing : ℕ) (b : Block) (bs : List Block)
    → IsSpaced spacing (b ∷ bs)
    → b.time ≡ last_time b.time bs + length bs * spacing
unfolding last_time
last_time_spaced spacing b [] h = omega arith
last_time_spaced spacing b (c ∷ bs) (e, h) = omega (arith, e, last_time_spaced spacing c bs h)

in_range :
    (nbits : ℕ) (bs : List Block)
    → All (HasBits nbits) bs
    → All
        (λ (b : Block).
          (compact_to_target nbits ≤ compact_to_target b.nbits)
          × (compact_to_target b.nbits ≤ compact_to_target nbits))
        bs
in_range nbits [] h = tt
in_range nbits (b ∷ bs) (e, h) =
    let same : compact_to_target b.nbits ≡ compact_to_target nbits = ap compact_to_target e in
    ((omega (arith, same), omega (arith, same)), in_range nbits bs h)

timespan_kept :
    (newest oldest span : ℕ)
    → newest ≡ oldest + span
    → 960 ≤ span
    → span ≤ 8640
    → clamped_timespan newest oldest ≡ span
unfolding clamped_timespan
timespan_kept newest oldest span h low high = ground arith

capped_min : (limit x : ℕ) → (if ltb limit x then limit else x) ≡ min x limit
capped_min limit x = ground arith

moved_target :
    (avg span limit t s : ℕ)
    → avg ≡ t
    → span ≡ s
    → (if ltb limit (avg * span / 2880) then limit else avg * span / 2880)
      ≡ min (t * s / 2880) limit
moved_target avg span limit t s a e =
    let exact : avg * span / 2880 ≡ t * s / 2880 =
      ap (λ (k : ℕ). k * span / 2880) a ∙ ap (λ (k : ℕ). t * k / 2880) e in
    rw exact (capped_min limit (t * s / 2880))

next_target_spaced :
    (bs : List Block) (limit nbits spacing : ℕ)
    → length bs ≡ 24
    → All (HasBits nbits) bs
    → IsSpaced spacing bs
    → 42 ≤ spacing
    → spacing ≤ 375
    → next_target bs limit ≡ min (compact_to_target nbits * (23 * spacing) / 2880) limit
unfolding next_target
next_target_spaced [] limit nbits spacing n h o low high = absurd (omega (arith, n))
next_target_spaced (b ∷ bs) limit nbits spacing n (e, h) o low high =
    let t = compact_to_target nbits in
    let same : compact_to_target b.nbits ≡ t = ap compact_to_target e in
    let bounds =
      average_bounds t t bs 0 (compact_to_target b.nbits) (omega (arith, same))
        (omega (arith, same)) (in_range nbits bs h) in
    let others : length bs ≡ 23 = omega (arith, n) in
    let span : b.time ≡ last_time b.time bs + 23 * spacing =
      last_time_spaced spacing b bs o ∙ ap (λ (k : ℕ). last_time b.time bs + k * spacing) others in
    moved_target (average 2 (compact_to_target b.nbits) bs) _ limit t (23 * spacing)
      (omega (arith, bounds))
      (timespan_kept b.time (last_time b.time bs) (23 * spacing) span (omega (arith, low))
        (omega (arith, high)))

newest_first-length : (window : List Block) → 24 ≤ length window → length (newest_first window) ≡ 24
unfolding newest_first
newest_first-length window h = omega (
  arith,
  length-reverse (drop (length window - past_blocks) window),
  length-drop (length window - past_blocks) window,
)

newest_first-HasBits :
    (nbits : ℕ) (window : List Block)
    → All (HasBits nbits) window
    → All (HasBits nbits) (newest_first window)
unfolding newest_first
newest_first-HasBits nbits window h =
    let n = length window - past_blocks in
    All-reverse (HasBits nbits) (drop n window) (All-drop (HasBits nbits) n window h)

-- If at least 24 blocks all carry one code, and the newest 24 came at an even pace of 42 to 375 seconds,
-- then the next block carries the code of the target times 23 paces over the target timespan of 2880
-- seconds, or of the limit if that is less. A pace of 120 seconds lowers the target by a
-- twenty-fourth, since 24 blocks have 23 intervals.
pub dgw_spaced :
    (window : List Block) (limit nbits spacing : ℕ)
    → 24 ≤ length window
    → All (HasBits nbits) window
    → IsSpaced spacing (newest_first window)
    → 42 ≤ spacing
    → spacing ≤ 375
    → dgw window limit
      ≡ target_to_compact (min (compact_to_target nbits * (23 * spacing) / 2880) limit)
dgw_spaced window limit nbits spacing long h o low high =
    dgw_long window limit long
    ∙ ap target_to_compact (
        next_target_spaced (newest_first window) limit nbits spacing
          (newest_first-length window long) (newest_first-HasBits nbits window h) o low high)
