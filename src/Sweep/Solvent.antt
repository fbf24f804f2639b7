-- ===== src/Sweep/Solvent.antt =====
-- What a sweep does to the wallet, the counter and the operator, however it ends.
use wam_coin.Common.{
  ℕ, ◌+◌, ◌-◌, ◌≤◌, ◌<◌, ◌≡◌, ◌≢◌, ◌⊎◌, List, [], ◌∷◌, some, Bool, true, false, length,
}
use wam_coin.Sweep.{
  Answers, Ending, api_silent, no_destination, node_failed, invalid_destination, own_wallet,
  nothing_accrued, below_floor, unaffordable, plan_only, send_failed, not_a_txid, decrement_failed,
  sent, Action, pay, decrement,
}

-- What the pool's wallet can spend, its counter of the fee, and what the operator has been paid.
pub record Books : Type 0 where
  pub wallet : ℕ
  pub counter : ℕ
  pub paid : ℕ

-- What the actions do to the books, where the network takes a fee for a payment from the wallet too.
unfoldable pub carry_out : ℕ → List Action → Books → Books
carry_out network_fee [] b = b
carry_out network_fee (pay dest n ∷ rest) b =
    carry_out network_fee rest
      (record b { wallet = b.wallet - (n + network_fee); paid = b.paid + n })
carry_out network_fee (decrement n ∷ rest) b =
    carry_out network_fee rest (record b { counter = b.counter - n })

-- The ways to move coin: the fee is paid and taken off the counter, or it is paid only, where the counter
-- could not be reached or what came back is no transaction id.
abbrev pub Moved : Answers → ℕ → Ending × List Action → Type 0
Moved q n r =
    ((r.0 ≡ sent) × (r.1 ≡ pay q.dest n ∷ decrement n ∷ []))
    ⊎ (((r.0 ≡ decrement_failed) ⊎ (r.0 ≡ not_a_txid)) × (r.1 ≡ pay q.dest n ∷ []))

abbrev is_sent : Ending → Bool
is_sent api_silent = false
is_sent no_destination = false
is_sent node_failed = false
is_sent invalid_destination = false
is_sent own_wallet = false
is_sent nothing_accrued = false
is_sent below_floor = false
is_sent unaffordable = false
is_sent plan_only = false
is_sent send_failed = false
is_sent not_a_txid = false
is_sent decrement_failed = false
is_sent sent = true

-- Nothing was done, and the sweep does not say otherwise.
abbrev IsIdle : Ending × List Action → Type 0
IsIdle r = (r.1 ≡ []) × (is_sent r.0 ≡ false)

-- What a sweep that moved coin had made sure of.
pub record IsAllowed (q : Answers) (spendable counter : ℕ) : Type 0 where
  pub is_some : 0 < counter
  pub reaches_floor : q.floor ≤ counter
  pub leaves_owed : q.owed + counter ≤ spendable
  pub asked : q.send ≡ true
  pub has_destination : 0 < length q.dest
  pub valid : q.is_valid ≡ some true
  pub foreign : q.is_mine ≡ some false

abbrev Judged : Answers → ℕ → ℕ → Ending × List Action → Type 0
Judged q spendable n r = (q.floor ≤ n) × (q.owed + n ≤ spendable) × (q.send ≡ true) × Moved q n r

-- How the books stand after a sweep.
pub record IsSettled (q : Answers) (network_fee : ℕ) (b after : Books) (ending : Ending)
    : Type 0 where
  pub kept : b.paid + b.counter ≤ after.paid + after.counter
  pub if_sent : ending ≡ sent → (after.counter ≡ 0) × (after.paid ≡ b.paid + b.counter)
  pub if_not_sent : ending ≢ sent → after.counter ≡ b.counter
  pub wallet :
      ((after.wallet ≡ b.wallet) × (after.paid ≡ b.paid))
      ⊎ (IsAllowed q b.wallet b.counter
          × (after.paid ≡ b.paid + b.counter)
          × (after.wallet ≡ b.wallet - (b.counter + network_fee))
          × (q.owed ≤ after.wallet + network_fee))
