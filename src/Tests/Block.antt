-- ===== src/Tests/Block.antt =====
-- The genesis modules at concrete inputs.
use wam_coin.Common.{
  ℕ, ◌^◌, ◌<◌, ◌≡◌, refl, map, some, List, [], ◌∷◌, ◌++◌, length, replicate, arith, false,
}
use wam_coin.Common.Int.{pos, negsuc}
use wam_coin.Common.Bytes.{to_le}
use wam_coin.Base58.{dsha256}
use wam_coin.Genesis.{
  genesis_premine, genesis_phrase, premine_tranche_amount, premine_unlock_times, script_num, Output,
  total, build_genesis_outputs, build_coinbase_scriptsig, build_coinbase_tx, serialize_header,
  header_prefix,
}
use wam_coin.Genesis.Number.{read_num, read_num-script_num}
use wam_coin.Genesis.Coinbase.{read_tx, genesis_transaction, read_tx-build_coinbase_tx}
use wam_coin.Genesis.Vesting.{pay_to, lock_and_amount, build_genesis_outputs-locked}
use wam_coin.Genesis.Header.{header_prefix-serialize_header}
use wam_coin.Tests.Texts.{toy, toy-IsDigest}

read_num-script_num_example : read_num (script_num (negsuc 254)) ≡ negsuc 254
read_num-script_num_example = read_num-script_num (negsuc 254)

abbrev one_output : Output
one_output = record { value = 50; script = 0x51 ∷ [] }

read_tx-build_coinbase_tx_example :
    (script_sig : List ℕ) × (tx : List ℕ) × (build_coinbase_scriptsig genesis_phrase
      ≡ some script_sig)
    × (build_coinbase_tx (one_output ∷ []) genesis_phrase ≡ some tx)
    × (read_tx tx ≡ some (genesis_transaction script_sig (one_output ∷ []), []))
read_tx-build_coinbase_tx_example =
    read_tx-build_coinbase_tx (one_output ∷ []) (omega arith)
      (record { amount = omega arith; script_size = omega arith }, tt)

build_genesis_outputs-locked_example :
    (outputs : List Output) × (build_genesis_outputs (replicate 20 7) false false ≡ some outputs)
    × (map lock_and_amount outputs
        ≡ map
            (λ t. (some (pos t, pay_to (replicate 20 7)), premine_tranche_amount))
            premine_unlock_times)
    × (total outputs ≡ genesis_premine)
build_genesis_outputs-locked_example = build_genesis_outputs-locked (replicate 20 7) refl

header_prefix-serialize_header_example :
    (outputs : List Output) × (coinbase : List ℕ) × (prefix : List ℕ) × (build_genesis_outputs
        (replicate 20 7)
        false
        false
      ≡ some outputs)
    × (total outputs ≡ genesis_premine)
    × (build_coinbase_tx outputs genesis_phrase ≡ some coinbase)
    × (header_prefix toy (replicate 20 7) 1789430400 0x1E0FFFF0 false false ≡ some prefix)
    × (length prefix ≡ 76)
    × ((nonce : ℕ)
        → nonce < 2 ^ 32
        → serialize_header 1 (replicate 32 0) (dsha256 toy coinbase) 1789430400 0x1E0FFFF0 nonce
          ≡ some (prefix ++ to_le 4 nonce))
header_prefix-serialize_header_example =
    header_prefix-serialize_header toy toy-IsDigest (replicate 20 7) 1789430400 0x1E0FFFF0 false
      false refl (omega arith) (omega arith)
