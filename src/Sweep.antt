-- ===== src/Sweep.antt =====
-- scripts/sweep_pool_fee.py: `main` as the questions' answers, the way it ends, and what it does on the way.
-- Amounts are whole atoms; `round` and the printing of an amount with eight decimals are exact below 2^53.
pub mod Solvent
use wam_coin.Common.{
  ℕ, zero, suc, ◌+◌, List, [], ◌∷◌, Option, none, some, Bool, true, false, ◌==◌, ltb, if◌then◌else◌,
  length,
}
use wam_coin.Common.Int.{ℤ, pos, negsuc}

-- What the pool, the node and the arguments answer. An address that is missing is the empty text. Of a
-- command to the node or to redis that fails, where the script dies, the answer is `none`.
pub record Answers : Type 0 where
  pub api_answers : Bool
  pub owed : ℕ
  pub accrued : ℤ
  pub dest : List ℕ
  pub is_valid : Option Bool
  pub is_mine : Option Bool
  pub spendable : Option ℕ
  pub floor : ℕ
  pub send : Bool
  -- The output of `sendtoaddress`, and whether `DECRBY` succeeds.
  pub txid : Option (List ℕ)
  pub decrements : Bool

pub data Ending : Type 0 where
  api_silent no_destination node_failed invalid_destination own_wallet : Ending
  nothing_accrued below_floor unaffordable plan_only : Ending
  send_failed not_a_txid decrement_failed sent : Ending

-- `sendtoaddress` and `DECRBY`, where they succeed.
pub data Action : Type 0 where
  pay : List ℕ → ℕ → Action
  decrement : ℕ → Action

unfoldable pub move : Answers → ℕ → Ending × List Action
move q accrued = elim q.txid [
  | none ↦ (send_failed, [])
  | some txid ↦ elim (length txid == 64) [
    | false ↦ (not_a_txid, pay q.dest accrued ∷ [])
    | true ↦
        if q.decrements
        then (sent, pay q.dest accrued ∷ decrement accrued ∷ [])
        else (decrement_failed, pay q.dest accrued ∷ [])
  ]
]

-- From the balance on, for a fee that is positive.
unfoldable pub judge : Answers → ℕ → ℕ → Ending × List Action
judge q spendable accrued =
    if ltb accrued q.floor
    then (below_floor, [])
    else if ltb spendable (accrued + q.owed)
    then (unaffordable, [])
    else if q.send
    then move q accrued
    else (plan_only, [])

unfoldable pub weigh : Answers → ℕ → ℤ → Ending × List Action
weigh q spendable (negsuc n) = (nothing_accrued, [])
weigh q spendable (pos zero) = (nothing_accrued, [])
weigh q spendable (pos (suc n)) = judge q spendable (suc n)

-- From the destination on, which is there: `validateaddress`, `getaddressinfo` and `getbalances` in turn.
unfoldable pub ask_node : Option Bool → Option Bool → Option ℕ → Answers → Ending × List Action
ask_node none is_mine spendable q = (node_failed, [])
ask_node (some false) is_mine spendable q = (invalid_destination, [])
ask_node (some true) none spendable q = (node_failed, [])
ask_node (some true) (some true) spendable q = (own_wallet, [])
ask_node (some true) (some false) none q = (node_failed, [])
ask_node (some true) (some false) (some n) q = weigh q n q.accrued

unfoldable pub main : Answers → Ending × List Action
main q =
    if q.api_answers
    then if length q.dest == 0
      then (no_destination, [])
      else ask_node q.is_valid q.is_mine q.spendable q
    else (api_silent, [])
