-- ===== src/Treasury/Select.antt =====
-- `cmd_plan`: which outputs of the treasury the parts of a payment spend. What the node answers is a
-- parameter. How many outputs a part takes off the front of the pool is decided in floating point by
-- `_plan_part` and is a parameter too: `none` where it dies.
pub mod Disjoint
pub mod Spendable
use wam_coin.Common.{
  ℕ, zero, suc, ◌+◌, ◌<◌, ◌≡◌, ◌≢◌, refl, map, false-ne-true, sym, ap, ◌∙◌, List, [], ◌∷◌, ◌++◌,
  take, drop, Option, none, some, some_inj, none-ne-some, Bool, true, false, ltb, ltb→lt, leb, All,
  All-take, All-drop, Bool-cases, Option-cases, inl, inr, subst,
}
use wam_coin.Treasury.{Outpoint, is_seen}
use wam_coin.Treasury.Distinct.{IsApartFrom, NoRepeat, is_seen-IsApartFrom}

abbrev pub coinbase_maturity : ℕ
coinbase_maturity = 100

-- An unspent output as `scantxoutset` names it.
pub record Utxo : Type 0 where
  pub point : Outpoint
  pub height : ℕ

-- `[u for u in utxos if tip - u["height"] + 1 > COINBASE_MATURITY]`; no output is above the tip.
unfoldable pub mature_only : ℕ → List Utxo → List Utxo
mature_only tip [] = []
mature_only tip (u ∷ us) = elim (ltb (u.height + coinbase_maturity) (tip + 1)) [
  | true ↦ u ∷ mature_only tip us
  | false ↦ mature_only tip us
]

-- An input of a transaction in the mempool: `none` where it has no txid or vout.
pub data PoolInput : Type 0 where
  from_coinbase unnamed : PoolInput
  from_point : Outpoint → PoolInput

-- The outpoints that one transaction spends; `none` where the plan dies.
unfoldable pub spent_by : List PoolInput → Option (List Outpoint)
spent_by [] = some []
spent_by (from_coinbase ∷ vs) = spent_by vs
spent_by (unnamed ∷ vs) = none
spent_by (from_point p ∷ vs) = elim (spent_by vs) [ none ↦ none | some ps ↦ some (p ∷ ps) ]

-- The whole mempool; a transaction that cannot be read, or has no list of inputs, is `none` and ends it.
unfoldable pub mempool_spent : List (Option (List PoolInput)) → Option (List Outpoint)
mempool_spent [] = some []
mempool_spent (none ∷ txs) = none
mempool_spent (some vin ∷ txs) = elim (spent_by vin) [
  | none ↦ none
  | some ps ↦ elim (mempool_spent txs) [ none ↦ none | some qs ↦ some (ps ++ qs) ]
]

unfoldable pub unspent_only : List Outpoint → List Utxo → List Utxo
unspent_only spent [] = []
unspent_only spent (u ∷ us) = elim (is_seen u.point spent) [
  | true ↦ unspent_only spent us
  | false ↦ u ∷ unspent_only spent us
]

-- `mature.sort(key=lambda u: u["height"])`, which is stable.
unfoldable pub insert : Utxo → List Utxo → List Utxo
insert u [] = u ∷ []
insert u (v ∷ vs) = elim (leb u.height v.height) [ true ↦ u ∷ v ∷ vs | false ↦ v ∷ insert u vs ]

unfoldable pub sort_by_height : List Utxo → List Utxo
sort_by_height [] = []
sort_by_height (u ∷ us) = insert u (sort_by_height us)

-- The check that no two inputs of the parts are one, over the points seen so far; `none` where it dies.
unfoldable pub note_points : List Outpoint → List Utxo → Option (List Outpoint)
note_points seen [] = some seen
note_points seen (u ∷ us) = elim (is_seen u.point seen) [
  | true ↦ none
  | false ↦ note_points (u.point ∷ seen) us
]

unfoldable pub disjoint : List Outpoint → List (List Utxo) → Bool
disjoint seen [] = true
disjoint seen (part ∷ parts) = elim (note_points seen part) [
  | none ↦ false
  | some seen2 ↦ disjoint seen2 parts
]

unfoldable pub checked : List (List Utxo) → Option (List (List Utxo))
checked parts = elim (disjoint [] parts) [ true ↦ some parts | false ↦ none ]

module _ (chosen : ℕ → List Utxo → Option ℕ) where
  -- The parts from number `i` on, each with the front of the pool, which it consumes.
  unfoldable pub cut_parts : ℕ → ℕ → List Utxo → Option (List (List Utxo))
  cut_parts zero i pool = some []
  cut_parts (suc parts) i pool = elim (chosen i pool) [
    | none ↦ none
    | some n ↦ elim (cut_parts parts (i + 1) (drop n pool)) [
      | none ↦ none
      | some rest ↦ some (take n pool ∷ rest)
    ]
  ]

  -- From the scan and the mempool to the inputs of each part; `none` where the command dies.
  unfoldable pub select :
      ℕ → List Utxo → List (Option (List PoolInput)) → ℕ → Option (List (List Utxo))
  select tip utxos mempool parts = elim (mempool_spent mempool) [
    | none ↦ none
    | some spent ↦
        elim (cut_parts parts 1 (sort_by_height (unspent_only spent (mature_only tip utxos)))) [
          | none ↦ none
          | some built ↦ checked built
        ]
  ]
