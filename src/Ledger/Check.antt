-- ===== src/Ledger/Check.antt =====
-- `main` of scripts/check_treasury_ledger.py, from what the ledger and the node say to the exit code. The
-- texts that the regular expressions find, and the numbers that `atoms` makes of them, are the input.
pub mod Rows
pub mod Honest
use wam_coin.Common.{
  ℕ, ◌+◌, List, [], ◌∷◌, ◌++◌, map, sum, max, Option, none, some, Bool, true, false, ◌==◌, ◌||◌,
  ltb, leb, if◌then◌else◌, not, ◌&&◌,
}
use wam_coin.Common.Bytes.{bytes_eq}
use wam_coin.Treasury.{treasury}
use wam_coin.Ledger.{Constants, accrued_through}

-- A row of the table; its date is only printed.
pub record LedgerRow : Type 0 where
  pub amount : ℕ
  pub fee : ℕ
  pub to : List ℕ
  pub txid : List ℕ

pub record RowOutput : Type 0 where
  pub value : ℕ
  pub address : Option (List ℕ)

-- What `getrawtransaction` answers.
pub record RowTx : Type 0 where
  pub vout : List RowOutput
  pub fee : Option ℕ
  pub blockhash : Option (List ℕ)

-- The node: `none` where the call fails.
pub record Node : Type 0 where
  pub get_transaction : List ℕ → Option RowTx
  pub get_height : List ℕ → Option ℕ

-- The stated balance and its height.
pub record Stated : Type 0 where
  pub said : ℕ
  pub at_height : ℕ

-- The five numbers of the worked example.
pub record Example : Type 0 where
  pub at_height : ℕ
  pub blocks : ℕ
  pub amounts : ℕ
  pub fees : ℕ
  pub result : ℕ

-- A completed scan.
pub record ChainScan : Type 0 where
  pub tip : ℕ
  pub held : ℕ

pub record Ledger : Type 0 where
  pub rows : List LedgerRow
  pub balance : Option Stated
  pub example : Option Example

-- The entries of `bad` and `stale`.
pub data Complaint : Type 0 where
  not_on_chain other_amount other_fee also_pays : LedgerRow → Complaint
  identity_fails : Complaint
  no_balance old_balance wrong_balance : Complaint
  no_example two_heights wrong_sums wrong_result : Complaint

abbrev pub complain : Bool → Complaint → List Complaint
complain true c = c ∷ []
complain false c = []

abbrev pub is_nil {ℓ} : {A : Type ℓ} → List A → Bool
is_nil [] = true
is_nil (x ∷ xs) = false

-- `tx.get("fee", 0)`
abbrev pub get_fee : Option ℕ → ℕ
get_fee none = 0
get_fee (some fee) = fee

abbrev pub is_to : List ℕ → Option (List ℕ) → Bool
is_to to none = false
is_to to (some a) = bytes_eq a to

unfoldable pub paid_to : List ℕ → List RowOutput → ℕ
paid_to to [] = 0
paid_to to (o ∷ os) = if is_to to o.address then o.value + paid_to to os else paid_to to os

-- An address that is neither the row's nor the treasury's; an output without an address is none.
abbrev pub is_stray : List ℕ → Option (List ℕ) → Bool
is_stray to none = false
is_stray to (some a) = if bytes_eq a to then false else if bytes_eq a treasury then false else true

unfoldable pub has_stray : List ℕ → List RowOutput → Bool
has_stray to [] = false
has_stray to (o ∷ os) = is_stray to o.address || has_stray to os

-- What one round of the loop adds: complaints, what left the treasury, and the block's height with it.
pub record RowReport : Type 0 where
  pub problems : List Complaint
  pub spent : ℕ
  pub settled : Option (ℕ × ℕ)

abbrev pub settled_at : Option ℕ → ℕ → Option (ℕ × ℕ)
settled_at none value = none
settled_at (some height) value = some (height, value)

unfoldable pub block_height : Node → Option (List ℕ) → Option ℕ
block_height node none = none
block_height node (some hash) = node.get_height hash

unfoldable pub report_tx : Node → LedgerRow → RowTx → RowReport
report_tx node r tx =
    let fee = get_fee tx.fee in
    record {
      problems =
          complain (not (paid_to r.to tx.vout == r.amount)) (other_amount r)
          ++ (complain (not (fee == r.fee)) (other_fee r)
              ++ complain (has_stray r.to tx.vout) (also_pays r));
      spent = r.amount + fee;
      settled = settled_at (block_height node tx.blockhash) (r.amount + fee);
    }

unfoldable pub report_row : Node → LedgerRow → RowReport
report_row node r = elim (node.get_transaction r.txid) [
  | none ↦ record { problems = not_on_chain r ∷ []; spent = 0; settled = none }
  | some tx ↦ report_tx node r tx
]

unfoldable pub row_problems : List RowReport → List Complaint
row_problems [] = []
row_problems (p ∷ ps) = p.problems ++ row_problems ps

abbrev pub total_spent : List RowReport → ℕ
total_spent ps = sum (map (λ (p : RowReport). p.spent) ps)

-- `by_height`
unfoldable pub by_height : List RowReport → List (ℕ × ℕ)
by_height [] = []
by_height (p ∷ ps) = elim p.settled [ none ↦ by_height ps | some entry ↦ entry ∷ by_height ps ]

-- `newest_row_height`
unfoldable pub newest : List (ℕ × ℕ) → ℕ
newest [] = 0
newest ((h, v) ∷ es) = max h (newest es)

-- `sum(v for h, v in by_height if h <= at_h)`
unfoldable pub settled_by : ℕ → List (ℕ × ℕ) → ℕ
settled_by at_h [] = 0
settled_by at_h ((h, v) ∷ es) = if leb h at_h then v + settled_by at_h es else settled_by at_h es

-- `accrued_through(height, k) - less == want`, on integers. The accrual is a number where the halving interval
-- is positive; where it is 0 the script raises, and here nothing comes out.
abbrev pub comes_to : Option ℕ → ℕ → ℕ → Bool
comes_to none less want = false
comes_to (some accrued) less want = accrued == want + less

unfoldable pub balance_complaints : Constants → List (ℕ × ℕ) → Option Stated → List Complaint
balance_complaints k entries none = no_balance ∷ []
balance_complaints k entries (some b) =
    if ltb b.at_height (newest entries)
    then old_balance ∷ []
    else complain
        (not (comes_to (accrued_through b.at_height k) (settled_by b.at_height entries) b.said))
        wrong_balance

unfoldable pub example_complaints : Constants → List LedgerRow → Option Example → List Complaint
example_complaints k rows none = no_example ∷ []
example_complaints k rows (some e) =
    let amounts = sum (map (λ (r : LedgerRow). r.amount) rows) in
    let fees = sum (map (λ (r : LedgerRow). r.fee) rows) in
    complain (not (e.blocks == e.at_height)) two_heights
    ++ (if e.amounts == amounts && e.fees == fees
        then complain (not (comes_to (accrued_through e.at_height k) (amounts + fees) e.result))
            wrong_result
        else wrong_sums ∷ [])

-- Every complaint, in the order of the script.
unfoldable pub complaints : Constants → Node → ChainScan → Ledger → List Complaint
complaints k node scan l =
    let reports = map (report_row node) l.rows in
    row_problems reports
    ++ (complain (not (comes_to (accrued_through scan.tip k) (total_spent reports) scan.held))
          identity_fails
        ++ (balance_complaints k (by_height reports) l.balance
            ++ example_complaints k l.rows l.example))

-- The exit code. `none` stands for sources that cannot be read, and for a scan that did not complete.
unfoldable pub main : Option (Constants × Ledger) → Node → Option ChainScan → ℕ
main none node scan = 2
main (some (k, l)) node scan =
    if is_nil l.rows
    then 2
    else elim scan [ none ↦ 2 | some s ↦ if is_nil (complaints k node s l) then 0 else 1 ]
