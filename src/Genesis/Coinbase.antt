-- ===== src/Genesis/Coinbase.antt =====
-- The coinbase transaction of the genesis block against a reader of transactions, and what its outputs
-- pay and when they unlock.
use wam_coin.Common.{
  ℕ, zero, suc, ◌*◌, ◌^◌, ◌<◌, ◌≡◌, refl, sym, ap, ◌∙◌, List, [], ◌∷◌, ◌++◌, append_assoc, Option,
  none, some, lt→ltb, ltb→lt, length, replicate, All, arith,
}
use wam_coin.Common.Bytes.{to_le, from_le}
use wam_coin.Genesis.{
  genesis_premine, genesis_phrase, premine_tranche_amount, premine_unlock_times, ◌+?◌, pack,
  pack_signed, varint, push_data, script_num, build_coinbase_scriptsig, p2pkh_script,
  timelocked_script, Output, tranches, total, build_genesis_outputs, output_bytes,
  build_coinbase_tx,
}
use wam_coin.Genesis.Wire.{
  read_bytes, read_le, read_varint, read_bytes-append, read_le-append, pack_fits,
  read_varint-varint,
}

pub record Transaction : Type 0 where
  pub version : ℕ
  pub inputs : ℕ
  pub previous : List ℕ
  pub index : ℕ
  pub script_sig : List ℕ
  pub sequence : ℕ
  pub outputs : List Output
  pub lock_time : ℕ

-- One step of a reader and then the rest of it.
abbrev step {ℓ} :
    {A : Type ℓ} {B : Type ℓ} → Option (A × List ℕ) → (A → List ℕ → Option B) → Option B
step none f = none
step (some r) f = f r.0 r.1

unfoldable pub read_outputs : ℕ → List ℕ → Option (List Output × List ℕ)
read_outputs zero bs = some ([], bs)
read_outputs (suc n) bs = step (read_le 8 bs) (λ amount r. step (read_varint r) (λ size r1.
    step (read_bytes size r1) (λ script r2.
      step (read_outputs n r2)
        (λ outputs r3. some (record { value = amount; script = script } ∷ outputs, r3)))))

-- A transaction with one input, and what follows it.
unfoldable pub read_tx : List ℕ → Option (Transaction × List ℕ)
read_tx bs = step (read_le 4 bs) (λ version r. step (read_varint r) (λ inputs r1.
    step (read_bytes 32 r1) (λ previous r2. step (read_le 4 r2) (λ index r3.
      step (read_varint r3) (λ size r4. step (read_bytes size r4) (λ script_sig r5.
        step (read_le 4 r5) (λ sequence r6. step (read_varint r6) (λ count r7.
          step (read_outputs count r7) (λ outputs r8. step (read_le 4 r8) (λ lock_time r9. some (
            record {
              version = version;
              inputs = inputs;
              previous = previous;
              index = index;
              script_sig = script_sig;
              sequence = sequence;
              outputs = outputs;
              lock_time = lock_time;
            },
            r9,
          )))))))))))

-- An output that fits its fields.
pub record Fits (o : Output) : Type 0 where
  pub amount : 2 * o.value < 2 ^ 64
  pub script_size : length o.script < 2 ^ 64

append3 : (a b c d : List ℕ) → (a ++ (b ++ c)) ++ d ≡ a ++ (b ++ (c ++ d))
append3 a b c d = append_assoc a (b ++ c) d ∙ ap (λ t. a ++ t) (append_assoc b c d)

plus3 : (a b c d : Option (List ℕ)) → a +? b +? c +? d ≡ (a +? b +? c) +? d
plus3 none b c d = refl
plus3 (some a) none c d = refl
plus3 (some a) (some b) none d = refl
plus3 (some a) (some b) (some c) none = refl
plus3 (some a) (some b) (some c) (some d) = ap some (sym (append3 a b c d))

one_output :
    (o : Output)
    → Fits o
    → (bs : List ℕ) × (pack_signed 8 o.value +? varint (length o.script) +? some o.script ≡ some bs)
      × ((rest : List ℕ) (n : ℕ)
          → read_outputs (suc n) (bs ++ rest)
            ≡ step (read_outputs n rest) (λ outputs r3. some (o ∷ outputs, r3)))
unfolding pack_signed read_outputs
one_output o h =
    let amount_fits : o.value < 2 ^ (8 * 8) = omega (arith, h.amount) in
    let (size, packed, reads) = read_varint-varint (length o.script) h.script_size in
    (
      to_le 8 o.value ++ (size ++ o.script),
      rw (lt→ltb (2 * o.value) (2 ^ (8 * 8)) h.amount, pack_signed) (rw packed),
      λ rest n. rw (append3 (to_le 8 o.value) size o.script rest) (
          rw (read_le-append 8 o.value (size ++ (o.script ++ rest)) amount_fits) (
            rw (reads (o.script ++ rest))
              (rw (read_bytes-append o.script rest (length o.script) refl)))),
    )

All-outputs :
    (outputs : List Output)
    → All Fits outputs
    → (bs : List ℕ) × (output_bytes outputs ≡ some bs)
      × ((rest : List ℕ) → read_outputs (length outputs) (bs ++ rest) ≡ some (outputs, rest))
unfolding output_bytes read_outputs
All-outputs [] h = ([], refl, λ rest. refl)
All-outputs (o ∷ outputs) (fits, h) =
    let (first, built, reads) = one_output o fits in
    let (others, rest_built, rest_reads) = All-outputs outputs h in
    (
      first ++ others,
      plus3 (pack_signed 8 o.value) (varint (length o.script)) (some o.script)
            (output_bytes outputs)
          ∙ ap (λ t. t +? output_bytes outputs) built
          ∙ ap (λ t. some first +? t) rest_built,
      λ rest.
          ap (read_outputs (suc (length outputs))) (append_assoc first others rest)
          ∙ reads (others ++ rest) (length outputs)
          ∙ rw (rest_reads rest),
    )

pub pack_signed_fits : (k n : ℕ) → 2 * n < 2 ^ (8 * k) → pack_signed k n ≡ some (to_le k n)
unfolding pack_signed
pack_signed_fits k n h = rw (lt→ltb (2 * n) (2 ^ (8 * k)) h)

lock_time_read : read_le 4 (to_le 4 0) ≡ some (0, [])
unfolding to_le read_le read_bytes from_le
lock_time_read = refl

-- The transaction that is read back.
abbrev pub genesis_transaction : List ℕ → List Output → Transaction
genesis_transaction script_sig outputs = record {
  version = 1;
  inputs = 1;
  previous = replicate 32 0;
  index = 0xFFFFFFFF;
  script_sig = script_sig;
  sequence = 0xFFFFFFFF;
  outputs = outputs;
  lock_time = 0;
}

tx_reads :
    (phrase script_sig : List ℕ) (outputs : List Output)
    → build_coinbase_scriptsig phrase ≡ some script_sig
    → length script_sig < 2 ^ 64
    → length outputs < 2 ^ 64
    → All Fits outputs
    → (tx : List ℕ) × (build_coinbase_tx outputs phrase ≡ some tx)
      × (read_tx tx ≡ some (genesis_transaction script_sig outputs, []))
unfolding build_coinbase_tx read_tx
tx_reads phrase sig outputs built long many fits =
    let (one, one_built, one_reads) = read_varint-varint 1 (omega arith) in
    let (size, size_built, size_reads) = read_varint-varint (length sig) long in
    let (count, count_built, count_reads) = read_varint-varint (length outputs) many in
    let (body, body_built, body_reads) = All-outputs outputs fits in
    let zeros : List ℕ = replicate 32 0 in
    let end : List ℕ = to_le 4 0 in
    let mark : List ℕ = to_le 4 0xFFFFFFFF in
    let tail : List ℕ = count ++ (body ++ end) in
    (
      to_le 4 1 ++ (one ++ (zeros ++ (mark ++ (size ++ (sig ++ (mark ++ tail)))))),
      rw (built, build_coinbase_tx)
          (rw (pack_signed_fits 4 1 (omega arith), one_built, pack_fits 4 0xFFFFFFFF (omega arith))
            (rw (size_built, count_built) (rw (body_built, pack_fits 4 0 (omega arith))))),
      rw
          (
            read_le-append 4 1 (one ++ (zeros ++ (mark ++ (size ++ (sig ++ (mark ++ tail))))))
                (omega arith),
            read_tx,
          )
          (rw (one_reads (zeros ++ (mark ++ (size ++ (sig ++ (mark ++ tail)))))) (
            rw (read_bytes-append zeros (mark ++ (size ++ (sig ++ (mark ++ tail)))) 32 refl) (
              rw (read_le-append 4 0xFFFFFFFF (size ++ (sig ++ (mark ++ tail))) (omega arith)) (
                rw (size_reads (sig ++ (mark ++ tail))) (
                  rw (read_bytes-append sig (mark ++ tail) (length sig) refl) (
                    rw (read_le-append 4 0xFFFFFFFF tail (omega arith)) (
                      rw (count_reads (body ++ end))
                        (rw (body_reads end) (rw lock_time_read))))))))),
    )

script_sig_bytes : List ℕ
script_sig_bytes = elim (build_coinbase_scriptsig genesis_phrase) [ none ↦ [] | some bs ↦ bs ]

script_sig_built : build_coinbase_scriptsig genesis_phrase ≡ some script_sig_bytes
unfolding build_coinbase_scriptsig script_sig_bytes push_data pack script_num
    wam_coin.Genesis.put_sign wam_coin.Genesis.magnitude to_le
script_sig_built = refl

script_sig_short : length script_sig_bytes < 2 ^ 64
unfolding build_coinbase_scriptsig script_sig_bytes push_data pack script_num
    wam_coin.Genesis.put_sign wam_coin.Genesis.magnitude to_le
script_sig_short = ltb→lt (length script_sig_bytes) (2 ^ 64) refl

-- The generator serializes a coinbase with any outputs whose amounts are below 2^63 and whose scripts
-- and number are below 2^64, and a reader gets from its bytes exactly these outputs, the one null
-- input, version 1 and lock time 0, with nothing left over.
pub read_tx-build_coinbase_tx :
    (outputs : List Output)
    → length outputs < 2 ^ 64
    → All Fits outputs
    → (script_sig : List ℕ) × (tx : List ℕ) × (build_coinbase_scriptsig genesis_phrase
        ≡ some script_sig)
      × (build_coinbase_tx outputs genesis_phrase ≡ some tx)
      × (read_tx tx ≡ some (genesis_transaction script_sig outputs, []))
read_tx-build_coinbase_tx outputs many fits =
    let (tx, built, reads) =
      tx_reads genesis_phrase script_sig_bytes outputs script_sig_built script_sig_short many
        fits in
    (script_sig_bytes, tx, script_sig_built, built, reads)
