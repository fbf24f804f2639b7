-- ===== src/Ledger/Check/Honest.antt =====
-- What a ledger is that the check passes.
use wam_coin.Common.{
  ℕ, ◌+◌, ◌≤◌, ◌<◌, ◌≡◌, refl, ap, ◌∙◌, List, [], ◌∷◌, ◌++◌, map, Option, none, some, true, not,
  ◌==◌, ◌&&◌, ltb, if◌then◌else◌, All, Bool-cases, ==_iff, &&_split, inl, inr, arith, false-ne-true,
}
use wam_coin.Ledger.{Constants, accrued_through}
use wam_coin.Ledger.Accrual.{paid}
use wam_coin.Ledger.Check.{
  LedgerRow, Node, Stated, Example, ChainScan, Ledger, complain, identity_fails, two_heights,
  wrong_sums, wrong_result, is_nil, report_row, row_problems, total_spent, by_height, newest,
  settled_by, comes_to, balance_complaints, example_complaints, complaints, main,
}
use wam_coin.Ledger.Check.Rows.{
  nil-ne-cons, append-nil_split, complain-nil, comes_to-paid, IsPaid, amounts_of, fees_of,
  rows-IsPaid,
}

-- The balance: what the blocks have paid up to its height is the balance and what the rows of the blocks up to
-- it took, and no row is younger.
pub record IsBalanced (k : Constants) (entries : List (ℕ × ℕ)) (balance : Option Stated)
    : Type 0 where
  pub stated : Stated
  pub there : balance ≡ some stated
  pub covers : newest entries ≤ stated.at_height
  pub adds_up : paid k stated.at_height ≡ stated.said + settled_by stated.at_height entries

balance-IsBalanced :
    (k : Constants) (entries : List (ℕ × ℕ)) (balance : Option Stated)
    → 0 < k.interval
    → balance_complaints k entries balance ≡ []
    → IsBalanced k entries balance
unfolding balance_complaints
balance-IsBalanced k entries none i h = absurd (nil-ne-cons h)
balance-IsBalanced k entries (some b) i h = elim (Bool-cases (ltb b.at_height (newest entries))) [
  | inl old ↦ absurd (nil-ne-cons (rw (old, balance_complaints) at h))
  | inr young ↦ record {
    stated = b;
    there = refl;
    covers = ground (arith, young);
    adds_up =
        comes_to-paid k b.at_height (settled_by b.at_height entries) b.said i
          (complain-nil _ _ (rw (young, balance_complaints) at h));
  }
]

-- The worked example: its height on both sides, the table's totals, and the number that they leave.
pub record IsWorked (k : Constants) (rows : List LedgerRow) (example : Option Example)
    : Type 0 where
  pub shown : Example
  pub there : example ≡ some shown
  pub one_height : shown.blocks ≡ shown.at_height
  pub amounts : shown.amounts ≡ amounts_of rows
  pub fees : shown.fees ≡ fees_of rows
  pub adds_up : paid k shown.at_height ≡ shown.result + (amounts_of rows + fees_of rows)

example-IsWorked :
    (k : Constants) (rows : List LedgerRow) (example : Option Example)
    → 0 < k.interval
    → example_complaints k rows example ≡ []
    → IsWorked k rows example
unfolding example_complaints
example-IsWorked k rows none i h = absurd (nil-ne-cons h)
example-IsWorked k rows (some e) i h =
    let heights = complain (not (e.blocks == e.at_height)) two_heights in
    let sums =
      if e.amounts == amounts_of rows && e.fees == fees_of rows
      then complain
          (not (comes_to (accrued_through e.at_height k) (amounts_of rows + fees_of rows) e.result))
          wrong_result
      else wrong_sums ∷ [] in
    let (one, rest) = append-nil_split heights sums h in
    elim (Bool-cases (e.amounts == amounts_of rows && e.fees == fees_of rows)) [
      | inr other ↦ absurd (nil-ne-cons (rw other at rest))
      | inl both ↦
          let (a, f) = &&_split (e.amounts == amounts_of rows) (e.fees == fees_of rows) both in
          record {
            shown = e;
            there = refl;
            one_height = (==_iff e.blocks e.at_height).0 (complain-nil _ _ one);
            amounts = (==_iff e.amounts (amounts_of rows)).0 a;
            fees = (==_iff e.fees (fees_of rows)).0 f;
            adds_up =
                comes_to-paid k e.at_height (amounts_of rows + fees_of rows) e.result i
                  (complain-nil _ _ (rw both at rest));
          }
    ]

pub record IsHonest (k : Constants) (node : Node) (scan : ChainScan) (l : Ledger) : Type 0 where
  pub each_paid : All (IsPaid node) l.rows
  pub identity : paid k scan.tip ≡ scan.held + (amounts_of l.rows + fees_of l.rows)
  pub balanced : IsBalanced k (by_height (map (report_row node) l.rows)) l.balance
  pub worked : IsWorked k l.rows l.example

complaints-IsHonest :
    (k : Constants) (node : Node) (scan : ChainScan) (l : Ledger)
    → 0 < k.interval
    → complaints k node scan l ≡ []
    → IsHonest k node scan l
unfolding complaints
complaints-IsHonest k node scan l i h =
    let reports = map (report_row node) l.rows in
    let identity =
      complain (not (comes_to (accrued_through scan.tip k) (total_spent reports) scan.held))
        identity_fails in
    let balance = balance_complaints k (by_height reports) l.balance in
    let example = example_complaints k l.rows l.example in
    let (rows, h1) = append-nil_split (row_problems reports) (identity ++ (balance ++ example)) h in
    let (id, h2) = append-nil_split identity (balance ++ example) h1 in
    let (bal, ex) = append-nil_split balance example h2 in
    let (each, total) = rows-IsPaid node l.rows rows in
    record {
      each_paid = each;
      identity =
          comes_to-paid k scan.tip (total_spent reports) scan.held i (complain-nil _ _ id)
          ∙ ap (λ t. scan.held + t) total;
      balanced = balance-IsBalanced k (by_height reports) l.balance i bal;
      worked = example-IsWorked k l.rows l.example i ex;
    }

is_nil-nil {ℓ} : {A : Type ℓ} (xs : List A) → is_nil xs ≡ true → xs ≡ []
is_nil-nil [] h = refl
is_nil-nil (x ∷ xs) h = absurd (false-ne-true h)

-- If the check exits with 0, for a positive halving interval: there was a scan; each row is a transaction
-- that pays the row's address the row's amount, for the row's fee, and of whose outputs each goes to
-- that address, to the treasury or to no single address, which the check lets pass; what the blocks up to the scan's height have paid the treasury is what the chain holds and
-- all amounts and fees of the table together; and the stated balance and the worked example come out.
pub main-IsHonest :
    (k : Constants) (node : Node) (scan : Option ChainScan) (l : Ledger)
    → 0 < k.interval
    → main (some (k, l)) node scan ≡ 0
    → (s : ChainScan) × (scan ≡ some s) × IsHonest k node s l
unfolding main
main-IsHonest k node none l i h = elim (Bool-cases (is_nil l.rows)) [
  | inl empty ↦ absurd (omega (arith, rw (empty, main) at h))
  | inr rows ↦ absurd (omega (arith, rw (rows, main) at h))
]
main-IsHonest k node (some s) l i h = elim (Bool-cases (is_nil l.rows)) [
  | inl empty ↦ absurd (omega (arith, rw (empty, main) at h))
  | inr rows ↦ elim (Bool-cases (is_nil (complaints k node s l))) [
    | inr some_bad ↦ absurd (omega (arith, rw some_bad at (rw (rows, main) at h)))
    | inl clean ↦
        (s, refl, complaints-IsHonest k node s l i (is_nil-nil (complaints k node s l) clean))
  ]
]
