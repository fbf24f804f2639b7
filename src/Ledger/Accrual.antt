-- ===== src/Ledger/Accrual.antt =====
-- The sum over halving epochs is the sum over blocks.
use wam_coin.Common.{
  ℕ, zero, suc, ◌+◌, ◌-◌, ◌*◌, ◌/◌, ◌≤◌, ◌<◌, ◌≡◌, ◌⊎◌, ◌∙◌, sym, refl, ap, min, max, some, inl,
  inr, le→leb, lt→leb, arith,
}
use wam_coin.Ledger.{Constants, treasury_at, accrue, accrued_through}
use native.Mathlib.Decide.{dec_lt}
use native.Mathlib.Nat.{add-suc, div-eq_of_lt-le, div-mul-le_self, lt-div-mul-add}

module _ (k : Constants) where
  -- What the blocks 1 to `n` pay the treasury.
  unfoldable pub paid : ℕ → ℕ
  paid zero = 0
  paid (suc n) = paid n + treasury_at (suc n) k

  -- Two heights of one halving epoch, both in the range of the fee, are paid alike.
  treasury_at_same :
      (h j : ℕ)
      → k.start ≤ h
      → h ≤ j
      → j ≤ k.last
      → (h - 1) / k.interval ≡ (j - 1) / k.interval
      → treasury_at j k ≡ treasury_at h k
  unfolding treasury_at
  treasury_at_same h j a b c e = rw (← e) (ground arith)

  paid_step : (n c : ℕ) → paid (n + suc c) ≡ paid (n + c) + treasury_at (suc (n + c)) k
  paid_step n c = rw (add-suc n c) (unfold paid in refl)

  pub paid_span :
      (c n : ℕ)
      → 0 < k.interval
      → k.start ≤ n + 1
      → n + c ≤ k.last
      → n + c ≤ (n / k.interval + 1) * k.interval
      → paid (n + c) ≡ paid n + treasury_at (n + 1) k * c
  paid_span zero n h a b d =
      let same : paid (n + 0) ≡ paid n = ap paid (omega arith) in omega (arith, same)
  paid_span (suc c) n h a b d =
      let i = k.interval in
      let q : (n + c) / i ≡ n / i =
        div-eq_of_lt-le i (omega (arith, div-mul-le_self n i)) (omega arith) in
      let last_step : paid (n + suc c) ≡ paid (n + c) + treasury_at (suc (n + c)) k =
        paid_step n c in
      let alike : treasury_at (suc (n + c)) k ≡ treasury_at (n + 1) k =
        treasury_at_same (n + 1) (suc (n + c)) a (omega arith) (omega arith)
          (ap (λ t. t / i) (omega arith) ∙ sym q ∙ ap (λ t. t / i) (omega arith)) in
      omega (arith, last_step, alike, paid_span c n h a (omega arith) (omega arith))

  outside : (j : ℕ) → (j < k.start) ⊎ (k.last < j) → treasury_at j k ≡ 0
  unfolding treasury_at
  outside j h = ground arith

  paid_before : (m : ℕ) → m < k.start → paid m ≡ 0
  unfolding paid
  paid_before zero h = refl
  paid_before (suc m) h = omega (arith, paid_before m (omega arith), outside (suc m) (inl h))

  paid_past : (c n : ℕ) → k.last ≤ n → paid (n + c) ≡ paid n
  paid_past zero n h = ap paid (omega arith)
  paid_past (suc c) n h =
      let last_step : paid (n + suc c) ≡ paid (n + c) + treasury_at (suc (n + c)) k =
        paid_step n c in
      omega (arith, last_step, paid_past c n h, outside (suc (n + c)) (inr (omega arith)))

  pub paid_flat : (c n : ℕ) → ((j : ℕ) → n < j → treasury_at j k ≡ 0) → paid (n + c) ≡ paid n
  paid_flat zero n h = ap paid (omega arith)
  paid_flat (suc c) n h =
      omega (arith, paid_step n c, paid_flat c n h, h (suc (n + c)) (omega arith))

  paid_never : (m : ℕ) → k.last < k.start → paid m ≡ 0
  unfolding paid
  paid_never zero h = refl
  paid_never (suc m) h = elim (dec_lt (suc m) k.start) [
    | yes p ↦ omega (arith, paid_never m h, outside (suc m) (inl p))
    | no p ↦ omega (arith, paid_never m h, outside (suc m) (inr (omega arith)))
  ]

  sub_one : (n : ℕ) → n + 1 - 1 ≡ n
  sub_one n = omega arith

  -- The last height of the round that begins at `n + 1`.
  abbrev round_end : ℕ → ℕ → ℕ
  round_end height n = min (min height k.last) ((n / k.interval + 1) * k.interval)

  accrue_round :
      (fuel height n : ℕ)
      → n < min height k.last
      → accrue (suc fuel) height k (n + 1) (paid n)
        ≡ accrue fuel height k
            (round_end height n + 1)
            (paid n + treasury_at (n + 1) k * (round_end height n - n))
  unfolding accrue
  accrue_round fuel height n h =
      rw (le→leb (n + 1) (min height k.last) (omega arith), sub_one n)
        (ap
          (λ t. accrue fuel height k (round_end height n + 1) (paid n + treasury_at (n + 1) k * t))
          (omega arith))

  accrue_stop :
      (fuel height n total : ℕ)
      → min height k.last ≤ n
      → accrue (suc fuel) height k (n + 1) total ≡ some total
  unfolding accrue
  accrue_stop fuel height n total h = rw (lt→leb (n + 1) (min height k.last) (omega arith))

  round_grows : (height n : ℕ) → 0 < k.interval → n < min height k.last → n < round_end height n
  round_grows height n i h = omega (arith, lt-div-mul-add {a = n} i)

  paid_round :
      (height n : ℕ)
      → 0 < k.interval
      → k.start ≤ n + 1
      → n < min height k.last
      → paid n + treasury_at (n + 1) k * (round_end height n - n) ≡ paid (round_end height n)
  paid_round height n i s h =
      let grows : n < round_end height n = round_grows height n i h in
      let whole : n + (round_end height n - n) ≡ round_end height n = omega arith in
      sym (paid_span (round_end height n - n) n i s (omega arith) (omega arith)) ∙ ap paid whole

  accrue-paid :
      (fuel height n : ℕ)
      → 0 < k.interval
      → k.start ≤ n + 1
      → 0 < fuel
      → min height k.last < n + fuel
      → accrue fuel height k (n + 1) (paid n) ≡ some (paid (max n (min height k.last)))
  accrue-paid zero height n i s f enough = absurd (omega arith)
  accrue-paid (suc fuel) height n i s f enough = elim (dec_lt n (min height k.last)) [
    | yes p ↦
        let r = round_end height n in
        let grows : n < r = round_grows height n i p in
        accrue_round fuel height n p
        ∙ ap (accrue fuel height k (r + 1)) (paid_round height n i s p)
        ∙ accrue-paid fuel height r i (omega arith) (omega arith) (omega arith)
        ∙ ap (λ t. some (paid t)) (omega arith)
    | no p ↦
        accrue_stop fuel height n (paid n) (omega arith) ∙ ap (λ t. some (paid t)) (omega arith)
  ]

  -- Heights outside the range of the fee add nothing.
  paid-max :
      (height n : ℕ)
      → k.start ≤ n + 1
      → (n ≡ 0) ⊎ (n < k.start)
      → paid (max n (min height k.last)) ≡ paid height
  paid-max height n s b = elim (dec_lt k.last height) [
    | yes past ↦ elim (dec_lt k.last n) [
      | yes q ↦ paid_never _ (omega arith) ∙ sym (paid_never height (omega arith))
      | no q ↦
          let top : max n (min height k.last) ≡ k.last = omega arith in
          let whole : k.last + (height - k.last) ≡ height = omega arith in
          ap paid top ∙ sym (paid_past (height - k.last) k.last (omega arith)) ∙ ap paid whole
    ]
    | no within ↦ elim (dec_lt height n) [
      | yes q ↦ paid_before _ (omega arith) ∙ sym (paid_before height (omega arith))
      | no q ↦ ap paid (omega arith)
    ]
  ]

  paid_begin : paid (max k.start 1 - 1) ≡ 0
  paid_begin = elim (dec_lt 1 k.start) [
    | yes p ↦ paid_before _ (omega arith)
    | no p ↦
        let none_yet : max k.start 1 - 1 ≡ 0 = omega arith in ap paid none_yet ∙ unfold paid in refl
  ]

  -- The epoch-by-epoch loop ends and returns the sum over every block up to the height, for any
  -- height and any positive halving interval.
  pub accrued_through-paid :
      (height : ℕ) → 0 < k.interval → accrued_through height k ≡ some (paid height)
  unfolding accrued_through
  accrued_through-paid height i =
      let n = max k.start 1 - 1 in
      let first : max k.start 1 ≡ n + 1 = omega arith in
      ap (λ t. accrue (height + 1) height k t 0) first
      ∙ ap (accrue (height + 1) height k (n + 1)) (sym paid_begin)
      ∙ accrue-paid (height + 1) height n i (omega arith) (omega arith) (omega arith)
      ∙ ap some (paid-max height n (omega arith) (omega arith))
