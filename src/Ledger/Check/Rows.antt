-- ===== src/Ledger/Check/Rows.antt =====
-- What a row of the ledger is that the check has no complaint about.
use wam_coin.Common.{
  ℕ, ◌+◌, ◌<◌, ◌≡◌, ◌≢◌, ◌⊎◌, refl, sym, subst, List, [], ◌∷◌, ◌++◌, map, sum, none, some, Bool,
  true, false, not, ◌==◌, All, Bool-cases, Option-cases, ==_iff, inl, inr, arith, false-ne-true,
}
use wam_coin.Common.Bytes.{bytes_eq, eq_of_bytes_eq}
use wam_coin.Treasury.{treasury}
use wam_coin.Ledger.{Constants, accrued_through}
use wam_coin.Ledger.Accrual.{paid, accrued_through-paid}
use wam_coin.Ledger.Check.{
  LedgerRow, RowOutput, RowTx, Node, Complaint, complain, other_amount, other_fee, also_pays,
  get_fee, paid_to, is_stray, has_stray, report_tx, report_row, row_problems, total_spent, comes_to,
}

pub nil-ne-cons {ℓ} : {A : Type ℓ} {x : A} {xs : List A} → x ∷ xs ≢ []
nil-ne-cons h = cc

pub append-nil_split {ℓ} : {A : Type ℓ} (xs ys : List A) → xs ++ ys ≡ [] → (xs ≡ []) × (ys ≡ [])
append-nil_split [] ys h = (refl, h)
append-nil_split (x ∷ xs) ys h = absurd (nil-ne-cons h)

pub complain-nil : (b : Bool) (c : Complaint) → complain (not b) c ≡ [] → b ≡ true
complain-nil true c h = refl
complain-nil false c h = absurd (nil-ne-cons h)

pub comes_to-paid :
    (k : Constants) (height less want : ℕ)
    → 0 < k.interval
    → comes_to (accrued_through height k) less want ≡ true
    → paid k height ≡ want + less
comes_to-paid k height less want i h =
    (==_iff (paid k height) (want + less)).0
      (subst (λ a. comes_to a less want ≡ true) (accrued_through-paid k height i) h)

-- An output to the row's address, to the treasury, or to none.
abbrev pub IsExpected : List ℕ → RowOutput → Type 0
IsExpected to o =
    (o.address ≡ none) ⊎ ((a : List ℕ) × (o.address ≡ some a) × ((a ≡ to) ⊎ (a ≡ treasury)))

is_stray-IsExpected :
    (to : List ℕ) (o : RowOutput) → is_stray to o.address ≡ false → IsExpected to o
is_stray-IsExpected to o h = elim (Option-cases o.address) [
  | inl nobody ↦ inl nobody
  | inr (a, named) ↦ elim (Bool-cases (bytes_eq a to)) [
    | inl own ↦ inr (a, named, inl (eq_of_bytes_eq a to own))
    | inr other ↦ elim (Bool-cases (bytes_eq a treasury)) [
      | inl change ↦ inr (a, named, inr (eq_of_bytes_eq a treasury change))
      | inr stray ↦ absurd (false-ne-true (sym (rw stray at (rw other at (rw named at h)))))
    ]
  ]
]

has_stray-IsExpected :
    (to : List ℕ) (os : List RowOutput) → has_stray to os ≡ false → All (IsExpected to) os
unfolding has_stray
has_stray-IsExpected to [] h = tt
has_stray-IsExpected to (o ∷ os) h = elim (Bool-cases (is_stray to o.address)) [
  | inl stray ↦ absurd (false-ne-true (sym (rw (stray, has_stray) at h)))
  | inr fine ↦
      (is_stray-IsExpected to o fine, has_stray-IsExpected to os (rw (fine, has_stray) at h))
]

-- A row that is the transaction it says it is.
pub record IsPaid (node : Node) (r : LedgerRow) : Type 0 where
  pub tx : RowTx
  pub on_chain : node.get_transaction r.txid ≡ some tx
  pub amount : paid_to r.to tx.vout ≡ r.amount
  pub fee : get_fee tx.fee ≡ r.fee
  pub expected : All (IsExpected r.to) tx.vout

report_tx-IsPaid :
    (node : Node) (r : LedgerRow) (tx : RowTx)
    → node.get_transaction r.txid ≡ some tx
    → (report_tx node r tx).problems ≡ []
    → IsPaid node r × ((report_tx node r tx).spent ≡ r.amount + r.fee)
unfolding report_tx
report_tx-IsPaid node r tx e h =
    let wrong_amount = complain (not (paid_to r.to tx.vout == r.amount)) (other_amount r) in
    let wrong_fee = complain (not (get_fee tx.fee == r.fee)) (other_fee r) in
    let strays = complain (has_stray r.to tx.vout) (also_pays r) in
    let (p, h1) = append-nil_split wrong_amount (wrong_fee ++ strays) h in
    let (f, h2) = append-nil_split wrong_fee strays h1 in
    let amount = (==_iff (paid_to r.to tx.vout) r.amount).0 (complain-nil _ _ p) in
    let fee = (==_iff (get_fee tx.fee) r.fee).0 (complain-nil _ _ f) in
    let clean : has_stray r.to tx.vout ≡ false = elim (Bool-cases (has_stray r.to tx.vout)) [
      | inl stray ↦ absurd (nil-ne-cons (rw stray at h2))
      | inr fine ↦ fine
    ] in
    (
      record {
        tx = tx;
        on_chain = e;
        amount = amount;
        fee = fee;
        expected = has_stray-IsExpected r.to tx.vout clean;
      },
      omega (arith, fee),
    )

report_row-IsPaid :
    (node : Node) (r : LedgerRow)
    → (report_row node r).problems ≡ []
    → IsPaid node r × ((report_row node r).spent ≡ r.amount + r.fee)
unfolding report_row
report_row-IsPaid node r h = elim (Option-cases (node.get_transaction r.txid)) [
  | inl gone ↦ absurd (nil-ne-cons (rw (gone, report_row) at h))
  | inr (tx, found) ↦
      rw (found, report_row) (report_tx-IsPaid node r tx found (rw (found, report_row) at h))
]

abbrev pub amounts_of : List LedgerRow → ℕ
amounts_of rows = sum (map (λ (r : LedgerRow). r.amount) rows)

abbrev pub fees_of : List LedgerRow → ℕ
fees_of rows = sum (map (λ (r : LedgerRow). r.fee) rows)

pub rows-IsPaid :
    (node : Node) (rows : List LedgerRow)
    → row_problems (map (report_row node) rows) ≡ []
    → All (IsPaid node) rows
      × (total_spent (map (report_row node) rows) ≡ amounts_of rows + fees_of rows)
unfolding row_problems
rows-IsPaid node [] h = (tt, refl)
rows-IsPaid node (r ∷ rows) h =
    let (first, later) =
      append-nil_split (report_row node r).problems (row_problems (map (report_row node) rows)) h in
    let (is_paid, spent) = report_row-IsPaid node r first in
    let (others, total) = rows-IsPaid node rows later in
    ((is_paid, others), omega (arith, spent, total))
