-- ===== src/Tests/Treasury.antt =====
-- The treasury and hashing modules at concrete inputs.
use wam_coin.Common.{
  ℕ, List, [], ◌∷◌, ◌++◌, ◌≡◌, refl, ◌+◌, ◌*◌, ◌%◌, length, map, replicate, All, Option, none, some,
}
use wam_coin.Common.Bytes.{codes, to_be, from_le, to_le, bytes_eq}
use wam_coin.Ripemd.{
  rol, rmd_f, rmd_step, left_step, right_step, left_line, right_line, block_words, compress, pad,
  padded, absorb, ripemd160,
}
use wam_coin.Ripemd.Shape.{length-padded}
use wam_coin.Treasury.{treasury, Outpoint, Named, is_seen, spends, address, Plan, Tx}
use wam_coin.Treasury.Sign.{PlanFile, part_of, complete, Session, cmd_sign}
use wam_coin.Treasury.Sign.Written.{WrittenAfter, cmd_sign-WrittenAfter}
use wam_coin.Tests.Texts.{toy}
use wam_coin.Treasury.Batch.{
  Part, is_known, one_dest, scan, scan_parts, batch_problem, AllNew, all_inputs, HasInputs,
  batch_problem-none,
}
use wam_coin.Treasury.Select.{
  Utxo, mature_only, PoolInput, from_coinbase, from_point, spent_by, mempool_spent, unspent_only,
  insert, sort_by_height, note_points, disjoint, checked, cut_parts, select,
}
use wam_coin.Treasury.Select.Spendable.{IsSpendable, select-IsSpendable}
use wam_coin.Treasury.Select.Disjoint.{all_points}
use wam_coin.Treasury.Distinct.{NoRepeat}
use wam_coin.Treasury.Send.{Signed}

ripemd160_abc : ripemd160 (codes "abc") ≡ to_be 20 0x8EB208F7E05D987A9B044A8E98C6B087F15A0BFC
unfolding rol rmd_f rmd_step left_step right_step left_line right_line block_words compress pad
    padded absorb ripemd160 to_be from_le to_le
ripemd160_abc = refl

length-padded_example : length (padded (replicate 60 7)) % 64 ≡ 0
length-padded_example = length-padded (replicate 60 7)

abbrev point : ℕ → Outpoint
point n = record { txid = codes "ab"; vout = n }

-- The key is the pair as it stands in the file.
abbrev named : ℕ → Named
named n = record { key = codes "ab:" ++ n ∷ []; point = point n }

abbrev plan : Plan
plan = record {
  input_set = spends (named 0) ∷ spends (named 1) ∷ [];
  to = codes "W1";
  amount = some 5;
  change = some 3;
  fee = some 2;
  input_total = some 10;
}

abbrev tx : Tx
tx = record {
  vin = spends (named 0) ∷ spends (named 1) ∷ [];
  vout =
      record { recipient = address treasury; amount = some 3 }
      ∷ record { recipient = address (codes "W1"); amount = some 5 }
      ∷ [];
}

abbrev part : ℕ → Part
part n = record { to = some (codes "W1"); inputs = some ((named n).key ∷ (named (n + 1)).key ∷ []) }

parts_pass : batch_problem (part 0 ∷ part 2 ∷ []) ≡ none
unfolding batch_problem one_dest scan_parts scan is_known bytes_eq
parts_pass = refl

abbrev plan_file : PlanFile
plan_file = record {
  to = some (codes "W1");
  input_set = some plan.input_set;
  amount = plan.amount;
  change = plan.change;
  fee = plan.fee;
  input_total = plan.input_total;
  unsigned_hex = 1 ∷ 2 ∷ [];
}

-- Two parts that spend one output, the index written as a number in one file and as text in the other.
abbrev same_output_parts : List PlanFile
same_output_parts =
    (record plan_file { input_set = some (spends (named 0) ∷ []) })
    ∷ (record plan_file {
      input_set = some (spends (record { key = codes "ab:'0'"; point = point 0 }) ∷ []);
    })
    ∷ []

spelled_apart : batch_problem (map part_of same_output_parts) ≡ none
unfolding batch_problem one_dest scan_parts scan is_known bytes_eq
spelled_apart = refl

batch_problem-none_example :
    (to : List ℕ) × All (λ (r : Part). r.to ≡ some to) (part 0 ∷ part 2 ∷ [])
    × All HasInputs (part 0 ∷ part 2 ∷ [])
    × AllNew [] (all_inputs (part 0 ∷ part 2 ∷ []))
batch_problem-none_example = batch_problem-none (part 0) (part 2) [] parts_pass

abbrev utxo : ℕ → Utxo
utxo n = record { point = point n; height = 10 * n }

abbrev scanned : List Utxo
scanned = utxo 3 ∷ utxo 1 ∷ utxo 2 ∷ utxo 15 ∷ []

abbrev mempool : List (Option (List PoolInput))
mempool = some (from_coinbase ∷ from_point (point 1) ∷ []) ∷ []

parts_planned :
    select (λ i pool. some 1) 200 scanned mempool 2 ≡ some ((utxo 2 ∷ []) ∷ (utxo 3 ∷ []) ∷ [])
unfolding select checked disjoint note_points cut_parts sort_by_height insert unspent_only
    mempool_spent spent_by mature_only is_seen bytes_eq
parts_planned = refl

select-IsSpendable_example :
    All (λ tx. (vin : List PoolInput) × (tx ≡ some vin)) mempool
    × All (All (IsSpendable 200 mempool)) ((utxo 2 ∷ []) ∷ (utxo 3 ∷ []) ∷ [])
    × NoRepeat (all_points ((utxo 2 ∷ []) ∷ (utxo 3 ∷ []) ∷ []))
select-IsSpendable_example =
    select-IsSpendable (λ i pool. some 1) 200 scanned mempool 2 ((utxo 2 ∷ []) ∷ (utxo 3 ∷ []) ∷ [])
      parts_planned

abbrev signed : Signed
signed = record { plan = plan; tx = tx; hex = 1 ∷ 2 ∷ [] }

abbrev entries : List (List ℕ)
entries = codes "V7" ∷ codes "V7AodfTvGD589KWx5PzgG4yYHZAwcWX7vwMmKJpzHvCEWPnoQ7eo" ∷ []

abbrev signing : Session
signing =
    cmd_sign (λ f w. complete (9 ∷ [])) toy (λ h. some tx) (some plan_file ∷ [])
      (some (codes " W1 ")) entries

abbrev written : List (List ℕ)
written = (9 ∷ []) ∷ []

cmd_sign-WrittenAfter_example : WrittenAfter signing.ending 1 (length signing.written)
cmd_sign-WrittenAfter_example =
    cmd_sign-WrittenAfter (λ f w. complete (9 ∷ [])) toy (λ h. some tx) (some plan_file ∷ [])
      (some (codes " W1 ")) entries
