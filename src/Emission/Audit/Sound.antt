-- ===== src/Emission/Audit/Sound.antt =====
-- What an audit that exits with 0 has established about the chain's supply.
use wam_coin.Common.{
  ℕ, ◌+◌, ◌*◌, ◌≤◌, ◌<◌, ◌≡◌, refl, Bool, true, false, some, none, List, [], ◌∷◌, ◌++◌, All,
  Option-cases, inl, inr, arith, ap,
}
use wam_coin.Emission.{emission_table, add_epochs}
use wam_coin.Emission.Bounds.{supply, supply-le-table, supply_reaches_table}
use wam_coin.Emission.Audit.{
  Params, Floats, Check, get_last?, supply_checks, failures, exit_code, all_checks, main,
}
use mathlib.Core.List.{concat-ne-nil}
use native.Mathlib.Nat.{eq-zero-or-pos}

abbrev Passed : Check × Bool → Type 0
Passed c = c.1 ≡ true

failures_none :
    (failed : List Check) (cs : List (Check × Bool))
    → failures failed cs ≡ []
    → (failed ≡ []) × All Passed cs
unfolding failures
failures_none failed [] h = (h, tt)
failures_none failed ((name, true) ∷ cs) h =
    let (nothing, rest) = failures_none failed cs h in (nothing, (refl, rest))
failures_none failed ((name, false) ∷ cs) h =
    absurd (concat-ne-nil name failed (failures_none (failed ++ (name ∷ [])) cs h).0)

exit_code_zero : (fs : List Check) → exit_code fs ≡ 0 → fs ≡ []
unfolding exit_code
exit_code_zero [] h = ground arith
exit_code_zero (f ∷ fs) h = absurd (omega arith)

All-front : (xs ys : List (Check × Bool)) → All Passed (xs ++ ys) → All Passed xs × All Passed ys
All-front [] ys h = (tt, h)
All-front (x ∷ xs) ys (p, h) = let (front, back) = All-front xs ys h in ((p, front), back)

main-none : (fl : Floats) (p : Params) → get_last? p.unlocks ≡ none → main fl p ≡ none
unfolding main
main-none fl p e = rw (e, main)

main-some :
    (fl : Floats) (p : Params) (final : ℕ)
    → get_last? p.unlocks ≡ some final
    → main fl p ≡ some (exit_code (failures [] (all_checks fl p final)))
unfolding main
main-some fl p final e = rw (e, main)

-- An exit code of 0 means that the table of unlock times is not empty and every check passed.
pub All-Passed :
    (fl : Floats) (p : Params)
    → main fl p ≡ some 0
    → (final : ℕ) × (get_last? p.unlocks ≡ some final) × All Passed (all_checks fl p final)
All-Passed fl p h = elim (Option-cases (get_last? p.unlocks)) [
  | inl e ↦ cc (main-none fl p e)
  | inr (final, e) ↦
      (final, e, (failures_none [] _ (exit_code_zero _ (cc (main-some fl p final e)))).1)
]

pub Passed-supply : (fl : Floats) (p : Params) → main fl p ≡ some 0 → All Passed (supply_checks p)
unfolding all_checks
Passed-supply fl p h =
    let (final, e, passed) = All-Passed fl p h in (All-front (supply_checks p) _ passed).0

-- What the checks of sections 2 and 3 say as equations and orders.
pub record IsSound (p : Params) : Type 0 where
  pub is_capped : p.max_money ≡ 22_000_000 * p.coin
  pub is_bounded :
      add_epochs p.premine (emission_table p.interval p.initial p.halvings) ≤ p.max_money
  pub is_close :
      p.max_money < add_epochs p.premine (emission_table p.interval p.initial p.halvings) + p.coin
  pub has_series : p.interval * p.initial * 2 ≡ p.mining
  pub has_sum : p.premine + p.mining ≡ p.max_money
  pub has_premine : p.premine ≡ 2_000_000 * p.coin

pub main-IsSound : (fl : Floats) (p : Params) → main fl p ≡ some 0 → IsSound p
unfolding supply_checks
main-IsSound fl p h = let passed = Passed-supply fl p h in ground (arith, passed)

-- Without an interval nothing but the premine would be minted.
interval_pos : (p : Params) → IsSound p → 0 < p.interval
interval_pos p s = elim (eq-zero-or-pos p.interval) [
  | inl z ↦ absurd (omega (arith, s, ap (λ (t : ℕ). t * p.initial * 2) z))
  | inr h ↦ h
]

-- If the audit of some constants exits with 0, then by no height has the chain minted more than
-- 22,000,000 whole coins, premine included, and from the end of the last epoch on it has minted
-- less than one coin short of that.
pub main_caps :
    (fl : Floats) (p : Params) (n : ℕ)
    → main fl p ≡ some 0
    → (supply p.interval p.initial p.premine p.halvings n ≤ 22_000_000 * p.coin)
      × (p.halvings * p.interval ≤ n
          → 22_000_000 * p.coin < supply p.interval p.initial p.premine p.halvings n + p.coin)
main_caps fl p n h =
    let s = main-IsSound fl p h in
    let i = interval_pos p s in
    (
      omega (arith, s, supply-le-table p.interval p.initial p.premine p.halvings n i),
      λ past.
          omega (arith, s, supply_reaches_table p.interval p.initial p.premine p.halvings n i past),
    )
