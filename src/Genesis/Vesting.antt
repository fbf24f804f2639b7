-- ===== src/Genesis/Vesting.antt =====
-- The outputs of the genesis block: what they pay and when they unlock.
use wam_coin.Common.{
  ℕ, suc, ◌*◌, ◌^◌, ◌<◌, ◌≡◌, refl, sym, ap, ◌∙◌, List, [], ◌∷◌, ◌++◌, map, Option, none, some,
  some_inj, Bool, true, false, ◌==◌, ◌&&◌, ltb→lt, if◌then◌else◌, length, All, arith, length-append,
}
use wam_coin.Common.Int.{ℤ, pos}
use wam_coin.Common.Bytes.{to_le}
use wam_coin.Genesis.{
  genesis_premine, premine_tranche_amount, premine_unlock_times, pack, push_data, magnitude,
  put_sign, script_num, p2pkh_script, timelocked_script, Output, tranches, total,
  build_genesis_outputs,
}
use wam_coin.Genesis.Wire.{read_push, read_push-push_data}
use wam_coin.Genesis.Number.{read_num, read_num-script_num}
use wam_coin.Genesis.Coinbase.{Fits}

-- A reader of a locked script: the number that it pushes, if OP_CHECKLOCKTIMEVERIFY and OP_DROP
-- follow, and the script behind them.
unfoldable pub after_push : Option (List ℕ × List ℕ) → Option (ℤ × List ℕ)
after_push none = none
after_push (some (number, [])) = none
after_push (some (number, op ∷ [])) = none
after_push (some (number, op ∷ op2 ∷ rest)) =
    if op == 0xB1 && op2 == 0x75 then some (read_num number, rest) else none

unfoldable pub read_lock : List ℕ → Option (ℤ × List ℕ)
read_lock script = after_push (read_push script)

-- OP_DUP OP_HASH160 <20 bytes> OP_EQUALVERIFY OP_CHECKSIG
abbrev pub pay_to : List ℕ → List ℕ
pay_to hash = (0x76 ∷ 0xA9 ∷ 0x14 ∷ []) ++ hash ++ (0x88 ∷ 0xAC ∷ [])

pub p2pkh_built : (hash : List ℕ) → length hash ≡ 20 → p2pkh_script hash ≡ some (pay_to hash)
unfolding p2pkh_script
p2pkh_built hash h = let size : (length hash == 20) ≡ true = ground (arith, h) in rw size

pub length-pay_to : (hash : List ℕ) → length hash ≡ 20 → length (pay_to hash) ≡ 25
length-pay_to hash h = omega (arith, h, length-append hash (0x88 ∷ 0xAC ∷ []))

locked :
    (hash bs : List ℕ) (t : ℕ)
    → length hash ≡ 20
    → (t == 0) ≡ false
    → length (script_num (pos t)) < 2 ^ 32
    → push_data (script_num (pos t)) ≡ some bs
    → (timelocked_script hash t ≡ some (bs ++ (0xB1 ∷ 0x75 ∷ pay_to hash)))
      × (read_lock (bs ++ (0xB1 ∷ 0x75 ∷ pay_to hash)) ≡ some (pos t, pay_to hash))
unfolding timelocked_script read_lock after_push
locked hash bs t h nonzero short built =
    let (pushed, built_too, reads) = read_push-push_data (script_num (pos t)) short in
    let same : pushed ≡ bs = some_inj (sym built_too ∙ built) in
    (
      rw (nonzero, timelocked_script) (rw (built, p2pkh_built hash h)),
      ap (λ b. after_push (read_push (b ++ (0xB1 ∷ 0x75 ∷ pay_to hash)))) (sym same)
          ∙ ap after_push (reads (0xB1 ∷ 0x75 ∷ pay_to hash))
          ∙ ap (λ n. some (n, pay_to hash)) (read_num-script_num (pos t)),
    )

-- The push of one unlock time, and the conditions of `locked` on it.
unfoldable pushed : ℕ → List ℕ
pushed t = 0x04 ∷ script_num (pos t)

record IsTime (t : ℕ) : Type 0 where
  nonzero : (t == 0) ≡ false
  short : length (script_num (pos t)) < 2 ^ 32
  built : push_data (script_num (pos t)) ≡ some (pushed t)
  size : length (pushed t) ≡ 5

times : All IsTime premine_unlock_times
unfolding pushed push_data pack script_num put_sign magnitude to_le
times = (
  record { nonzero = refl; short = ltb→lt 4 (2 ^ 32) refl; built = refl; size = refl },
  (
    record { nonzero = refl; short = ltb→lt 4 (2 ^ 32) refl; built = refl; size = refl },
    (
      record { nonzero = refl; short = ltb→lt 4 (2 ^ 32) refl; built = refl; size = refl },
      (
        record { nonzero = refl; short = ltb→lt 4 (2 ^ 32) refl; built = refl; size = refl },
        (record { nonzero = refl; short = ltb→lt 4 (2 ^ 32) refl; built = refl; size = refl }, tt),
      ),
    ),
  ),
)

-- What one tranche is read as.
abbrev pub lock_and_amount : Output → Option (ℤ × List ℕ) × ℕ
lock_and_amount o = (read_lock o.script, o.value)

abbrev Reading : Type 0
Reading = Option (ℤ × List ℕ) × ℕ

abbrev reading : Option (ℤ × List ℕ) → Reading
reading r = (r, premine_tranche_amount)

abbrev expected : List ℕ → ℕ → Reading
expected hash t = (some (pos t, pay_to hash), premine_tranche_amount)

abbrev first_amount : List Reading → ℕ
first_amount [] = 0
first_amount (r ∷ rs) = r.1

abbrev others : List Reading → List Reading
others [] = []
others (r ∷ rs) = rs

locked_tranches :
    (hash ts : List ℕ)
    → length hash ≡ 20
    → All IsTime ts
    → (outputs : List Output) × (tranches hash ts ≡ some outputs)
      × (map lock_and_amount outputs
          ≡ map (λ t. (some (pos t, pay_to hash), premine_tranche_amount)) ts)
      × All Fits outputs
      × (length outputs ≡ length ts)
unfolding tranches
locked_tranches hash [] h ok = ([], refl, refl, tt, refl)
locked_tranches hash (t ∷ ts) h (time, ok) =
    let (script_built, script_read) =
      locked hash (pushed t) t h time.nonzero time.short time.built in
    let (rest, rest_built, rest_read, rest_fits, count) = locked_tranches hash ts h ok in
    let script : List ℕ = pushed t ++ (0xB1 ∷ 0x75 ∷ pay_to hash) in
    let size : length script ≡ 32 = omega (
      arith,
      length-append (pushed t) (0xB1 ∷ 0x75 ∷ pay_to hash),
      time.size,
      length-pay_to hash h,
    ) in
    let o : Output = record { value = premine_tranche_amount; script = script } in
    (
      o ∷ rest,
      rw (script_built, tranches) (rw rest_built),
      ap (λ r. reading r ∷ map lock_and_amount rest) script_read
          ∙ ap (λ rs. expected hash t ∷ rs) rest_read,
      (
        record {
          amount = ltb→lt (2 * premine_tranche_amount) (2 ^ 64) refl;
          script_size = omega (arith, size);
        },
        rest_fits,
      ),
      ap suc count,
    )

total_of_map :
    (outputs : List Output) (hash ts : List ℕ)
    → map lock_and_amount outputs
      ≡ map (λ t. (some (pos t, pay_to hash), premine_tranche_amount)) ts
    → total outputs ≡ premine_tranche_amount * length ts
total_of_map [] hash [] e = refl
total_of_map [] hash (t ∷ ts) e = cc
total_of_map (o ∷ outputs) hash [] e = cc
total_of_map (o ∷ outputs) hash (t ∷ ts) e =
    let amount : o.value ≡ premine_tranche_amount = ap first_amount e in
    omega (arith, amount, total_of_map outputs hash ts (ap others e))

-- For a hash of 20 bytes the default outputs are five, one for each unlock time: each pays 400,000
-- WAM to a script that is read as a lock until that time in front of a payment to the hash, and
-- together they pay exactly the premine.
pub build_genesis_outputs-locked :
    (hash : List ℕ)
    → length hash ≡ 20
    → (outputs : List Output) × (build_genesis_outputs hash false false ≡ some outputs)
      × (map lock_and_amount outputs
          ≡ map (λ t. (some (pos t, pay_to hash), premine_tranche_amount)) premine_unlock_times)
      × (total outputs ≡ genesis_premine)
unfolding build_genesis_outputs
build_genesis_outputs-locked hash h =
    let (outputs, built, read, fits, count) = locked_tranches hash premine_unlock_times h times in
    let sum_up : total outputs ≡ genesis_premine =
      total_of_map outputs hash premine_unlock_times read in
    let asserted : (total outputs == genesis_premine) ≡ true = ground (arith, sum_up) in
    (outputs, rw (built, build_genesis_outputs) (rw asserted), read, sum_up)

-- Each choice of outputs is made for a hash of 20 bytes, pays the premine and fits its fields.
pub genesis_outputs_fit :
    (hash : List ℕ) (single op_true : Bool)
    → length hash ≡ 20
    → (outputs : List Output) × (build_genesis_outputs hash single op_true ≡ some outputs)
      × (total outputs ≡ genesis_premine)
      × (length outputs < 2 ^ 64)
      × All Fits outputs
unfolding build_genesis_outputs
genesis_outputs_fit hash single true h =
    let o : Output = record { value = genesis_premine; script = 0x51 ∷ [] } in
    (
      o ∷ [],
      refl,
      refl,
      ltb→lt 1 (2 ^ 64) refl,
      (
        record {
          amount = ltb→lt (2 * genesis_premine) (2 ^ 64) refl;
          script_size = ltb→lt 1 (2 ^ 64) refl;
        },
        tt,
      ),
    )
genesis_outputs_fit hash true false h =
    let o : Output = record { value = genesis_premine; script = pay_to hash } in
    (
      o ∷ [],
      rw (p2pkh_built hash h, build_genesis_outputs),
      refl,
      ltb→lt 1 (2 ^ 64) refl,
      (
        record {
          amount = ltb→lt (2 * genesis_premine) (2 ^ 64) refl;
          script_size = omega (arith, length-pay_to hash h);
        },
        tt,
      ),
    )
genesis_outputs_fit hash false false h =
    let (outputs, built, read, fits, count) = locked_tranches hash premine_unlock_times h times in
    let sum_up : total outputs ≡ genesis_premine =
      total_of_map outputs hash premine_unlock_times read in
    let asserted : (total outputs == genesis_premine) ≡ true = ground (arith, sum_up) in
    (outputs, rw (built, build_genesis_outputs) (rw asserted), sum_up, omega (arith, count), fits)
