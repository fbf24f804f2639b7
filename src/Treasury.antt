-- ===== src/Treasury.antt =====
-- scripts/treasury_spend.py: the check of a transaction against the plan, which signer and sender both
-- make. A transaction and a plan are JSON; what cannot be read of them is a case of its own, and an
-- amount is what `_atoms` makes of it, `none` where that dies.
pub mod Distinct
pub mod Verified
pub mod Batch
pub mod Select
pub mod Send
pub mod Sign
use wam_coin.Common.{
  ℕ, ◌+◌, List, [], ◌∷◌, ◌++◌, map, sum, Option, none, some, Bool, true, false, ◌==◌, ◌&&◌,
  if◌then◌else◌,
}
use wam_coin.Common.Bytes.{codes, bytes_eq}
use wam_coin.Common.Result.{Result, ok, err}

abbrev pub treasury : List ℕ
treasury = codes "WdMMqW1DcgWZ6HtyJuEMdce6QkKg4raGmE"

pub record Outpoint : Type 0 where
  pub txid : List ℕ
  pub vout : ℕ

abbrev pub same_outpoint : Outpoint → Outpoint → Bool
same_outpoint p q = p.vout == q.vout && bytes_eq p.txid q.txid

unfoldable pub is_seen : Outpoint → List Outpoint → Bool
is_seen p [] = false
is_seen p (q ∷ qs) = if same_outpoint p q then true else is_seen p qs

-- `len(set(points)) != len(points)`
unfoldable pub has_repeat : List Outpoint → Bool
has_repeat [] = false
has_repeat (p ∷ ps) = elim (is_seen p ps) [ true ↦ true | false ↦ has_repeat ps ]

-- An input that names an output: `key` is the pair `(txid, vout)` as it stands in the JSON, which Python
-- compares without a conversion (1 and "1" are apart), and `point` is what `str` and `int` make of it.
pub record Named : Type 0 where
  pub key : List ℕ
  pub point : Outpoint

-- One element of `vin`. One whose `vout` is no number for `int`, which raises, is unreadable too.
pub data Vin : Type 0 where
  unreadable coinbase : Vin
  spends : Named → Vin

pub data Death : Type 0 where
  unreadable_input spends_coinbase spends_twice : Death
  unreadable_output unnamed_recipient bad_amount : Death
  no_inputs other_inputs other_payments not_conserved : Death

unfoldable pub read_points : List Vin → Result Death (List Outpoint)
read_points [] = ok []
read_points (unreadable ∷ vs) = err unreadable_input
read_points (coinbase ∷ vs) = err spends_coinbase
read_points (spends v ∷ vs) = elim (read_points vs) [ err e ↦ err e | ok ps ↦ ok (v.point ∷ ps) ]

unfoldable pub outpoints : List Vin → Result Death (List Outpoint)
outpoints vs = elim (read_points vs) [
  | err e ↦ err e
  | ok ps ↦ if has_repeat ps then err spends_twice else ok ps
]

pub data Recipient : Type 0 where
  no_script no_address : Recipient
  address : List ℕ → Recipient

-- One element of `vout`.
pub record TxOut : Type 0 where
  pub recipient : Recipient
  pub amount : Option ℕ

pub record Payment : Type 0 where
  pub to : List ℕ
  pub atoms : ℕ

unfoldable pub outputs : List TxOut → Result Death (List Payment)
outputs [] = ok []
outputs (o ∷ os) = elim o.recipient [
  | no_script ↦ err unreadable_output
  | no_address ↦ err unnamed_recipient
  | address a ↦ elim o.amount [
    | none ↦ err bad_amount
    | some n ↦ elim (outputs os) [ err e ↦ err e | ok ps ↦ ok (record { to = a; atoms = n } ∷ ps) ]
  ]
]

-- What the check reads of a plan.
pub record Plan : Type 0 where
  pub input_set : List Vin
  pub to : List ℕ
  pub amount : Option ℕ
  pub change : Option ℕ
  pub fee : Option ℕ
  pub input_total : Option ℕ

pub record Tx : Type 0 where
  pub vin : List Vin
  pub vout : List TxOut

pub record Money : Type 0 where
  pub paid : ℕ
  pub back : ℕ
  pub cost : ℕ
  pub total_in : ℕ

unfoldable pub read_money : Plan → Option Money
read_money plan = elim plan.amount [
  | none ↦ none
  | some a ↦ elim plan.change [
    | none ↦ none
    | some c ↦ elim plan.fee [
      | none ↦ none
      | some f ↦ elim plan.input_total [
        | none ↦ none
        | some t ↦ some (record { paid = a; back = c; cost = f; total_in = t })
      ]
    ]
  ]
]

unfoldable pub remove_one : Payment → List Payment → Option (List Payment)
remove_one p [] = none
remove_one p (q ∷ qs) = elim (p.atoms == q.atoms && bytes_eq p.to q.to) [
  | true ↦ some qs
  | false ↦ elim (remove_one p qs) [ none ↦ none | some rest ↦ some (q ∷ rest) ]
]

-- `sorted(got) == sorted(want)`: the same payments, each as often.
unfoldable pub same_payments : List Payment → List Payment → Bool
same_payments [] [] = true
same_payments [] (q ∷ qs) = false
same_payments (p ∷ ps) qs = elim (remove_one p qs) [
  | none ↦ false
  | some rest ↦ same_payments ps rest
]

unfoldable pub same_points : List Outpoint → List Outpoint → Bool
same_points [] [] = true
same_points [] (q ∷ qs) = false
same_points (p ∷ ps) [] = false
same_points (p ∷ ps) (q ∷ qs) = same_outpoint p q && same_points ps qs

abbrev pub paid_out : List Payment → ℕ
paid_out ps = sum (map (λ (p : Payment). p.atoms) ps)

abbrev pub wanted : List ℕ → Money → List Payment
wanted to m =
    record { to = to; atoms = m.paid }
    ∷ (if m.back == 0 then [] else record { to = treasury; atoms = m.back } ∷ [])

unfoldable pub verify_payments : Plan → Tx → Result Death Bool
verify_payments plan tx = elim (read_money plan) [
  | none ↦ err bad_amount
  | some m ↦ elim (outputs tx.vout) [
    | err e ↦ err e
    | ok got ↦ elim (same_payments got (wanted plan.to m)) [
      | false ↦ err other_payments
      | true ↦ if paid_out got + m.cost == m.total_in then ok true else err not_conserved
    ]
  ]
]

unfoldable pub verify_inputs : Plan → Tx → List Outpoint → Result Death Bool
verify_inputs plan tx [] = err no_inputs
verify_inputs plan tx (p ∷ ps) = elim (outpoints tx.vin) [
  | err e ↦ err e
  | ok got ↦ elim (same_points got (p ∷ ps)) [
    | false ↦ err other_inputs
    | true ↦ verify_payments plan tx
  ]
]

-- `ok true` where `_verify_against_plan` returns.
unfoldable pub verify_against_plan : Plan → Tx → Result Death Bool
verify_against_plan plan tx = elim (outpoints plan.input_set) [
  | err e ↦ err e
  | ok want ↦ verify_inputs plan tx want
]
