-- ===== src/Tests/Books.antt =====
-- The ledger check at a concrete ledger.
use wam_coin.Common.{◌≡◌, refl, [], ◌∷◌, none, some, arith}
use wam_coin.Common.Bytes.{codes, bytes_eq}
use wam_coin.Treasury.{treasury}
use wam_coin.Ledger.{Constants, treasury_at, accrue, accrued_through}
use wam_coin.Ledger.Check.{
  Node, ChainScan, Ledger, paid_to, has_stray, block_height, report_tx, report_row, row_problems,
  by_height, newest, settled_by, balance_complaints, example_complaints, complaints, main,
}
use wam_coin.Ledger.Check.Honest.{IsHonest, main-IsHonest}

abbrev constants : Constants
constants = record {
  subsidy = 50;
  interval = 100;
  percent = 5;
  start = 1;
  last = 1000;
  max_halvings = 64;
}

abbrev node : Node
node = record {
  get_transaction = λ txid. some (record {
    vout =
        record { value = 300000000; address = some (codes "Wa") }
        ∷ record { value = 700000000; address = some treasury }
        ∷ record { value = 0; address = none }
        ∷ [];
    fee = some 10000;
    blockhash = some (codes "00");
  });
  get_height = λ hash. some 3;
}

abbrev ledger : Ledger
ledger = record {
  rows = record { amount = 300000000; fee = 10000; to = codes "Wa"; txid = codes "ab" } ∷ [];
  balance = some (record { said = 699990000; at_height = 4 });
  example =
      some (record {
        at_height = 4;
        blocks = 4;
        amounts = 300000000;
        fees = 10000;
        result = 699990000;
      });
}

abbrev scanned : ChainScan
scanned = record { tip = 4; held = 699990000 }

ledger_passes : main (some (constants, ledger)) node (some scanned) ≡ 0
unfolding main complaints row_problems report_row report_tx paid_to has_stray block_height by_height
    newest settled_by balance_complaints example_complaints accrued_through accrue treasury_at
    bytes_eq
ledger_passes = refl

main-IsHonest_example : (s : ChainScan) × (some scanned ≡ some s) × IsHonest constants node s ledger
main-IsHonest_example =
    main-IsHonest constants node (some scanned) ledger (omega arith) ledger_passes
