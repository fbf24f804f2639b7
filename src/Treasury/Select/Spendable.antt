-- ===== src/Treasury/Select/Spendable.antt =====
-- What holds of the outputs that `cmd_plan` takes.
use wam_coin.Common.{
  ℕ, zero, suc, ◌+◌, ◌<◌, ◌≡◌, ◌≢◌, refl, sym, ap, ◌∙◌, List, [], ◌∷◌, ◌++◌, drop, Option, none,
  some, some_inj, none-ne-some, true, ltb, ltb→lt, leb, All, All-take, All-drop, Bool-cases,
  Option-cases, inl, inr, subst,
}
use wam_coin.Treasury.{Outpoint, is_seen}
use wam_coin.Treasury.Distinct.{IsApartFrom, NoRepeat, is_seen-IsApartFrom}
use wam_coin.Treasury.Select.Disjoint.{all_points, disjoint-NoneTwice}
use wam_coin.Treasury.Select.{
  coinbase_maturity, Utxo, mature_only, PoolInput, from_coinbase, unnamed, from_point, spent_by,
  mempool_spent, unspent_only, insert, sort_by_height, disjoint, checked, cut_parts, select,
}

-- The outpoint is none that the transaction's inputs spend.
abbrev pub IsUnspentBy : Outpoint → List PoolInput → Type 0
IsUnspentBy p [] = Unit
IsUnspentBy p (from_coinbase ∷ vs) = IsUnspentBy p vs
IsUnspentBy p (unnamed ∷ vs) = IsUnspentBy p vs
IsUnspentBy p (from_point q ∷ vs) = (p ≢ q) × IsUnspentBy p vs

-- The transaction was read, each of its inputs has a name, and it does not spend the outpoint.
abbrev pub IsReadAndApart : Outpoint → Option (List PoolInput) → Type 0
IsReadAndApart p tx =
    (vin : List PoolInput) × (tx ≡ some vin) × All (λ v. v ≢ unnamed) vin × IsUnspentBy p vin

-- What the plan promises of every output that it spends.
abbrev pub IsSpendable : ℕ → List (Option (List PoolInput)) → Utxo → Type 0
IsSpendable tip mempool u = (u.height + 100 < tip + 1) × All (IsReadAndApart u.point) mempool

abbrev IsLeft : ℕ → List Outpoint → Utxo → Type 0
IsLeft tip spent u = (u.height + 100 < tip + 1) × IsApartFrom spent u.point

apart_left : (p : Outpoint) (ps qs : List Outpoint) → IsApartFrom (ps ++ qs) p → IsApartFrom ps p
apart_left p [] qs h = tt
apart_left p (q ∷ ps) qs (e, h) = (e, apart_left p ps qs h)

apart_right : (p : Outpoint) (ps qs : List Outpoint) → IsApartFrom (ps ++ qs) p → IsApartFrom qs p
apart_right p [] qs h = h
apart_right p (q ∷ ps) qs (e, h) = apart_right p ps qs h

coinbase-ne-unnamed : from_coinbase ≢ unnamed
coinbase-ne-unnamed h = cc

point-ne-unnamed : {p : Outpoint} → from_point p ≢ unnamed
point-ne-unnamed h = cc

spent_by-IsUnspentBy :
    (p : Outpoint) (vin : List PoolInput) (ps : List Outpoint)
    → spent_by vin ≡ some ps
    → IsApartFrom ps p
    → All (λ v. v ≢ unnamed) vin × IsUnspentBy p vin
unfolding spent_by
spent_by-IsUnspentBy p [] ps h new = (tt, tt)
spent_by-IsUnspentBy p (from_coinbase ∷ vs) ps h new =
    let (named, rest) = spent_by-IsUnspentBy p vs ps h new in ((coinbase-ne-unnamed, named), rest)
spent_by-IsUnspentBy p (unnamed ∷ vs) ps h new = absurd (none-ne-some h)
spent_by-IsUnspentBy p (from_point q ∷ vs) ps h new = elim (Option-cases (spent_by vs)) [
  | inl gone ↦ absurd (none-ne-some (rw (gone, spent_by) at h))
  | inr (qs, read) ↦
      let same : q ∷ qs ≡ ps = some_inj (rw (read, spent_by) at h) in
      let (first, others) = subst (λ t. IsApartFrom t p) (sym same) new in
      let (named, rest) = spent_by-IsUnspentBy p vs qs read others in
      ((point-ne-unnamed, named), (first, rest))
]

mempool_spent-IsReadAndApart :
    (p : Outpoint) (mempool : List (Option (List PoolInput))) (spent : List Outpoint)
    → mempool_spent mempool ≡ some spent
    → IsApartFrom spent p
    → All (IsReadAndApart p) mempool
unfolding mempool_spent
mempool_spent-IsReadAndApart p [] spent h new = tt
mempool_spent-IsReadAndApart p (none ∷ txs) spent h new = absurd (none-ne-some h)
mempool_spent-IsReadAndApart p (some vin ∷ txs) spent h new = elim (Option-cases (spent_by vin)) [
  | inl gone ↦ absurd (none-ne-some (rw (gone, mempool_spent) at h))
  | inr (ps, read) ↦ elim (Option-cases (mempool_spent txs)) [
    | inl gone ↦ absurd (none-ne-some (rw gone at (rw (read, mempool_spent) at h)))
    | inr (qs, others) ↦
        let same : ps ++ qs ≡ spent = some_inj (rw others at (rw (read, mempool_spent) at h)) in
        let apart = subst (λ t. IsApartFrom t p) (sym same) new in
        let (named, unspent) = spent_by-IsUnspentBy p vin ps read (apart_left p ps qs apart) in
        (
          (vin, refl, named, unspent),
          mempool_spent-IsReadAndApart p txs qs others (apart_right p ps qs apart),
        )
  ]
]

mempool_read :
    (mempool : List (Option (List PoolInput))) (spent : List Outpoint)
    → mempool_spent mempool ≡ some spent
    → All (λ tx. (vin : List PoolInput) × (tx ≡ some vin)) mempool
unfolding mempool_spent
mempool_read [] spent h = tt
mempool_read (none ∷ txs) spent h = absurd (none-ne-some h)
mempool_read (some vin ∷ txs) spent h = elim (Option-cases (spent_by vin)) [
  | inl gone ↦ absurd (none-ne-some (rw (gone, mempool_spent) at h))
  | inr (ps, read) ↦ elim (Option-cases (mempool_spent txs)) [
    | inl gone ↦ absurd (none-ne-some (rw gone at (rw (read, mempool_spent) at h)))
    | inr (qs, others) ↦ ((vin, refl), mempool_read txs qs others)
  ]
]

IsLeft-IsSpendable :
    (tip : ℕ) (mempool : List (Option (List PoolInput))) (spent : List Outpoint)
    → mempool_spent mempool ≡ some spent
    → (us : List Utxo) → All (IsLeft tip spent) us
    → All (IsSpendable tip mempool) us
IsLeft-IsSpendable tip mempool spent read [] h = tt
IsLeft-IsSpendable tip mempool spent read (u ∷ us) ((old, new), h) = (
  (old, mempool_spent-IsReadAndApart u.point mempool spent read new),
  IsLeft-IsSpendable tip mempool spent read us h,
)

mature_only-All :
    (tip : ℕ) (us : List Utxo) → All (λ (u : Utxo). u.height + 100 < tip + 1) (mature_only tip us)
unfolding mature_only
mature_only-All tip [] = tt
mature_only-All tip (u ∷ us) = elim (Bool-cases (ltb (u.height + coinbase_maturity) (tip + 1))) [
  | inl old ↦ rw (old, mature_only) (ltb→lt (u.height + 100) (tip + 1) old, mature_only-All tip us)
  | inr young ↦ rw (young, mature_only) (mature_only-All tip us)
]

unspent_only-All :
    (tip : ℕ) (spent : List Outpoint) (us : List Utxo)
    → All (λ (u : Utxo). u.height + 100 < tip + 1) us
    → All (IsLeft tip spent) (unspent_only spent us)
unfolding unspent_only
unspent_only-All tip spent [] h = tt
unspent_only-All tip spent (u ∷ us) (old, h) = elim (Bool-cases (is_seen u.point spent)) [
  | inl gone ↦ rw (gone, unspent_only) (unspent_only-All tip spent us h)
  | inr left ↦
      rw (left, unspent_only)
        ((old, is_seen-IsApartFrom u.point spent left), unspent_only-All tip spent us h)
]

module _ (P : Utxo → Type 0) where
  insert-All : (u : Utxo) (us : List Utxo) → P u → All P us → All P (insert u us)
  unfolding insert
  insert-All u [] p h = (p, tt)
  insert-All u (v ∷ vs) p (q, h) = elim (Bool-cases (leb u.height v.height)) [
    | inl first ↦ rw (first, insert) (p, (q, h))
    | inr later ↦ rw (later, insert) (q, insert-All u vs p h)
  ]

  sort_by_height-All : (us : List Utxo) → All P us → All P (sort_by_height us)
  unfolding sort_by_height
  sort_by_height-All [] h = tt
  sort_by_height-All (u ∷ us) (p, h) = insert-All u (sort_by_height us) p (sort_by_height-All us h)

  cut_parts-All :
      (chosen : ℕ → List Utxo → Option ℕ) (parts i : ℕ) (pool : List Utxo)
      (built : List (List Utxo))
      → cut_parts chosen parts i pool ≡ some built
      → All P pool
      → All (All P) built
  unfolding cut_parts
  cut_parts-All chosen zero i pool built e h = subst (All (All P)) (some_inj e) tt
  cut_parts-All chosen (suc parts) i pool built e h = elim (Option-cases (chosen i pool)) [
    | inl gone ↦ absurd (none-ne-some (rw (gone, cut_parts) at e))
    | inr (n, took) ↦ elim (Option-cases (cut_parts chosen parts (i + 1) (drop n pool))) [
      | inl gone ↦ absurd (none-ne-some (rw gone at (rw (took, cut_parts) at e)))
      | inr (rest, cut) ↦ subst (All (All P)) (some_inj (rw cut at (rw (took, cut_parts) at e))) (
        All-take P n pool h,
        cut_parts-All chosen parts (i + 1) (drop n pool) rest cut (All-drop P n pool h),
      )
    ]
  ]

checked_sound :
    (built parts : List (List Utxo))
    → checked built ≡ some parts
    → (built ≡ parts) × (disjoint [] parts ≡ true)
unfolding checked
checked_sound built parts h = elim (Bool-cases (disjoint [] built)) [
  | inr twice ↦ absurd (none-ne-some (rw (twice, checked) at h))
  | inl once ↦
      let same : built ≡ parts = some_inj (rw (once, checked) at h) in
      (same, sym (ap (disjoint []) same) ∙ once)
]

-- If the command plans some parts, every transaction of the mempool was read with all its inputs, every
-- output that a part spends is more than 100 blocks deep and an input of no transaction of the
-- mempool, and no output is spent twice, in one part or in two. This holds whatever decides how
-- many outputs a part takes.
pub select-IsSpendable :
    (chosen : ℕ → List Utxo → Option ℕ) (tip : ℕ) (utxos : List Utxo)
    (mempool : List (Option (List PoolInput))) (n : ℕ) (parts : List (List Utxo))
    → select chosen tip utxos mempool n ≡ some parts
    → All (λ tx. (vin : List PoolInput) × (tx ≡ some vin)) mempool
      × All (All (IsSpendable tip mempool)) parts
      × NoRepeat (all_points parts)
unfolding select
select-IsSpendable chosen tip utxos mempool n parts h =
    elim (Option-cases (mempool_spent mempool)) [
      | inl gone ↦ absurd (none-ne-some (rw (gone, select) at h))
      | inr (spent, read) ↦
          let pool : List Utxo = sort_by_height (unspent_only spent (mature_only tip utxos)) in
          elim (Option-cases (cut_parts chosen n 1 pool)) [
            | inl gone ↦ absurd (none-ne-some (rw gone at (rw (read, select) at h)))
            | inr (built, cut) ↦
                let (same, once) = checked_sound built parts (rw cut at (rw (read, select) at h)) in
                let left : All (IsLeft tip spent) pool =
                  sort_by_height-All (IsLeft tip spent) (unspent_only spent (mature_only tip utxos))
                    (unspent_only-All tip spent (mature_only tip utxos)
                      (mature_only-All tip utxos)) in
                (
                  mempool_read mempool spent read,
                  subst (All (All (IsSpendable tip mempool))) same (
                      cut_parts-All (IsSpendable tip mempool) chosen n 1 pool built cut
                        (IsLeft-IsSpendable tip mempool spent read pool left)),
                  (disjoint-NoneTwice parts [] once).1,
                )
          ]
    ]
