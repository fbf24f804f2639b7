-- ===== src/Genesis/Header.antt =====
-- The header that the generator mines: its fields, its size, and where the nonce stands.
use wam_coin.Common.{
  ℕ, ◌^◌, ◌<◌, ◌≡◌, sym, ap, ◌∙◌, List, ◌++◌, append_assoc, some, Bool, length, replicate, arith,
  length-append, take-append,
}
use wam_coin.Common.Bytes.{to_le, length-to_le}
use wam_coin.Base58.{dsha256}
use wam_coin.Base58.RoundTrip.{IsDigest}
use wam_coin.Genesis.{
  genesis_premine, genesis_phrase, Output, total, build_genesis_outputs, build_coinbase_tx,
  serialize_header, header_prefix,
}
use wam_coin.Genesis.Wire.{pack_fits}
use wam_coin.Genesis.Coinbase.{read_tx-build_coinbase_tx, pack_signed_fits}
use wam_coin.Genesis.Vesting.{genesis_outputs_fit}

append5 :
    (a b c d e f : List ℕ) → a ++ (b ++ (c ++ (d ++ (e ++ f)))) ≡ (a ++ (b ++ (c ++ (d ++ e)))) ++ f
append5 a b c d e f = sym (
    append_assoc a (b ++ (c ++ (d ++ e))) f
    ∙ ap (λ t. a ++ t) (append_assoc b (c ++ (d ++ e)) f)
    ∙ ap (λ t. a ++ (b ++ t)) (append_assoc c (d ++ e) f)
    ∙ ap (λ t. a ++ (b ++ (c ++ t))) (append_assoc d e f))

-- The five fields in front of the nonce.
abbrev front : List ℕ → ℕ → ℕ → List ℕ
front merkle n_time n_bits =
    to_le 4 1 ++ (replicate 32 0 ++ (merkle ++ (to_le 4 n_time ++ to_le 4 n_bits)))

header_built :
    (merkle : List ℕ) (n_time n_bits nonce : ℕ)
    → n_time < 2 ^ 32
    → n_bits < 2 ^ 32
    → nonce < 2 ^ 32
    → serialize_header 1 (replicate 32 0) merkle n_time n_bits nonce
      ≡ some (front merkle n_time n_bits ++ to_le 4 nonce)
unfolding serialize_header
header_built merkle n_time n_bits nonce ht hb hn =
    rw (pack_signed_fits 4 1 (omega arith), serialize_header)
      (rw (pack_fits 4 n_time ht, pack_fits 4 n_bits hb)
        (rw (pack_fits 4 nonce hn) (
          ap some (
            append5 (to_le 4 1) (replicate 32 0) merkle (to_le 4 n_time) (to_le 4 n_bits)
              (to_le 4 nonce)))))

length-front :
    (merkle : List ℕ) (n_time n_bits : ℕ)
    → length merkle ≡ 32
    → length (front merkle n_time n_bits) ≡ 76
length-front merkle n_time n_bits h = omega (
  arith,
  h,
  length-append (to_le 4 1) (replicate 32 0 ++ (merkle ++ (to_le 4 n_time ++ to_le 4 n_bits))),
  length-append (replicate 32 0) (merkle ++ (to_le 4 n_time ++ to_le 4 n_bits)),
  length-append merkle (to_le 4 n_time ++ to_le 4 n_bits),
  length-append (to_le 4 n_time) (to_le 4 n_bits),
  length-to_le 4 1,
  length-to_le 4 n_time,
  length-to_le 4 n_bits,
)

module _ (sha256 : List ℕ → List ℕ) (digest : IsDigest sha256) where
  -- For a hash of 20 bytes, a time and bits below 2^32 and each choice of outputs, the generator makes a
  -- 76-byte prefix. Its outputs pay exactly the premine, and the prefix with the four bytes of a
  -- nonce is the header that `serialize_header` makes of the coinbase's double hash and that nonce.
  -- The hash is any function whose digests are 32 bytes.
  pub header_prefix-serialize_header :
      (hash : List ℕ) (n_time n_bits : ℕ) (single op_true : Bool)
      → length hash ≡ 20
      → n_time < 2 ^ 32
      → n_bits < 2 ^ 32
      → (outputs : List Output) × (coinbase : List ℕ) × (prefix : List ℕ) × (build_genesis_outputs
            hash single op_true
          ≡ some outputs)
        × (total outputs ≡ genesis_premine)
        × (build_coinbase_tx outputs genesis_phrase ≡ some coinbase)
        × (header_prefix sha256 hash n_time n_bits single op_true ≡ some prefix)
        × (length prefix ≡ 76)
        × ((nonce : ℕ)
            → nonce < 2 ^ 32
            → serialize_header 1 (replicate 32 0) (dsha256 sha256 coinbase) n_time n_bits nonce
              ≡ some (prefix ++ to_le 4 nonce))
  unfolding header_prefix
  header_prefix-serialize_header hash n_time n_bits single op_true h ht hb =
      let (outputs, outputs_built, paid, many, fits) = genesis_outputs_fit hash single op_true h in
      let (sig, coinbase, sig_built, built, reads) = read_tx-build_coinbase_tx outputs many fits in
      let merkle : List ℕ = dsha256 sha256 coinbase in
      let prefix : List ℕ = front merkle n_time n_bits in
      let size : length prefix ≡ 76 =
        length-front merkle n_time n_bits (digest.length_32 (sha256 coinbase)) in
      (
        outputs,
        coinbase,
        prefix,
        outputs_built,
        paid,
        built,
        rw (outputs_built, header_prefix)
            (rw built (
              rw (header_built merkle n_time n_bits 0 ht hb (omega arith))
                (ap some (take-append prefix (to_le 4 0) 76 (sym size))))),
        size,
        λ nonce hn. header_built merkle n_time n_bits nonce ht hb hn,
      )
