-- ===== src/Genesis.antt =====
-- genesis/genesis_generator.py: the bytes of the genesis block. `none` stands for a `struct.error` or
-- an `AssertionError`. SHA-256 is hashlib's and is a parameter; the proof-of-work hash is RandomX's.
pub mod Wire
pub mod Number
pub mod Coinbase
pub mod Vesting
pub mod Header
pub mod Mine
use wam_coin.Common.{
  ℕ, zero, suc, ◌+◌, ◌*◌, ◌/◌, ◌%◌, ◌^◌, List, [], ◌∷◌, ◌++◌, map, Option, none, some, Bool, true,
  false, ◌==◌, ltb, leb, if◌then◌else◌, length, take, drop, replicate, get_or, sum,
}
use wam_coin.Common.Int.{ℤ, pos, negsuc}
use wam_coin.Common.Bytes.{codes, to_le}
use wam_coin.Common.Result.{Result, ok, err}
use wam_coin.Base58.{dsha256, base58_decode_check}
use Prim.Native.Nat.{bit_and, bit_or}

abbrev pub coin : ℕ
coin = 100000000

abbrev pub genesis_premine : ℕ
genesis_premine = 2000000 * coin

abbrev pub genesis_phrase : List ℕ
genesis_phrase = codes "WAM Network Launching Next Generation Decentralized Economy 2026"

abbrev pub premine_tranche_amount : ℕ
premine_tranche_amount = 400000 * coin

abbrev pub premine_unlock_times : List ℕ
premine_unlock_times = 1820966400 ∷ 1852588800 ∷ 1884124800 ∷ 1915660800 ∷ 1947196800 ∷ []

-- `a + b` of two byte strings that may have raised.
infixr 40 ◌+?◌
abbrev pub ◌+?◌ : Option (List ℕ) → Option (List ℕ) → Option (List ℕ)
some a +? some b = some (a ++ b)
some a +? none = none
none +? b = none

-- `struct.pack` of an unsigned and of a signed field of `k` bytes, little-endian; the generator packs
-- no negative number.
unfoldable pub pack : ℕ → ℕ → Option (List ℕ)
pack k n = if ltb n (2 ^ (8 * k)) then some (to_le k n) else none

unfoldable pub pack_signed : ℕ → ℕ → Option (List ℕ)
pack_signed k n = if ltb (2 * n) (2 ^ (8 * k)) then some (to_le k n) else none

unfoldable pub varint : ℕ → Option (List ℕ)
varint n =
    if ltb n 0xFD
    then pack 1 n
    else if leb n 0xFFFF
    then some (0xFD ∷ []) +? pack 2 n
    else if leb n 0xFFFFFFFF
    then some (0xFE ∷ []) +? pack 4 n
    else some (0xFF ∷ []) +? pack 8 n

unfoldable pub push_data : List ℕ → Option (List ℕ)
push_data payload =
    let n = length payload in
    if ltb n 0x4C
    then pack 1 n +? some payload
    else if leb n 0xFF
    then some (0x4C ∷ []) +? pack 1 n +? some payload
    else if leb n 0xFFFF
    then some (0x4D ∷ []) +? pack 2 n +? some payload
    else some (0x4E ∷ []) +? pack 4 n +? some payload

-- `while absn: out.append(absn & 0xFF); absn >>= 8`. The number itself is enough fuel.
unfoldable pub magnitude : ℕ → ℕ → List ℕ
magnitude zero n = []
magnitude (suc fuel) n =
    let rest = magnitude fuel (n / 256) in if n == 0 then [] else bit_and n 0xFF ∷ rest

-- The sign goes into the top bit of the last byte, or into a byte of its own if that bit is taken.
unfoldable pub put_sign : Bool → List ℕ → List ℕ
put_sign neg [] = []
put_sign neg (b ∷ []) =
    if bit_and b 0x80 == 0
    then if neg then bit_or b 0x80 ∷ [] else b ∷ []
    else b ∷ (if neg then 0x80 else 0x00) ∷ []
put_sign neg (b ∷ c ∷ bs) = b ∷ put_sign neg (c ∷ bs)

unfoldable pub script_num : ℤ → List ℕ
script_num (pos zero) = 0x00 ∷ []
script_num (pos (suc n)) = put_sign false (magnitude (suc n) (suc n))
script_num (negsuc n) = put_sign true (magnitude (suc n) (suc n))

unfoldable pub build_coinbase_scriptsig : List ℕ → Option (List ℕ)
build_coinbase_scriptsig phrase =
    push_data (script_num (pos 486604799)) +? push_data (script_num (pos 4)) +? push_data phrase

unfoldable pub p2pkh_script : List ℕ → Option (List ℕ)
p2pkh_script pubkey_hash =
    if length pubkey_hash == 20
    then some ((0x76 ∷ 0xA9 ∷ 0x14 ∷ []) ++ pubkey_hash ++ (0x88 ∷ 0xAC ∷ []))
    else none

unfoldable pub timelocked_script : List ℕ → ℕ → Option (List ℕ)
timelocked_script pubkey_hash locktime =
    if locktime == 0
    then p2pkh_script pubkey_hash
    else push_data (script_num (pos locktime))
      +? some (0xB1 ∷ 0x75 ∷ [])
      +? p2pkh_script pubkey_hash

pub record Output : Type 0 where
  pub value : ℕ
  pub script : List ℕ

-- `[(amount, timelocked_script(pubkey_hash, t)) for t in times]`
unfoldable pub tranches : List ℕ → List ℕ → Option (List Output)
tranches pubkey_hash [] = some []
tranches pubkey_hash (t ∷ times) = elim (timelocked_script pubkey_hash t) [
  | none ↦ none
  | some s ↦ elim (tranches pubkey_hash times) [
    | none ↦ none
    | some rest ↦ some (record { value = premine_tranche_amount; script = s } ∷ rest)
  ]
]

-- `sum(v for v, _ in outputs)`
abbrev pub total : List Output → ℕ
total outputs = sum (map (λ (o : Output). o.value) outputs)

unfoldable pub build_genesis_outputs : List ℕ → Bool → Bool → Option (List Output)
build_genesis_outputs pubkey_hash single op_true =
    if op_true
    then some (record { value = genesis_premine; script = 0x51 ∷ [] } ∷ [])
    else if single
    then elim (p2pkh_script pubkey_hash) [
      | none ↦ none
      | some s ↦ some (record { value = genesis_premine; script = s } ∷ [])
    ]
    else elim (tranches pubkey_hash premine_unlock_times) [
      | none ↦ none
      | some outputs ↦ if total outputs == genesis_premine then some outputs else none
    ]

-- What the loop over the outputs appends.
unfoldable pub output_bytes : List Output → Option (List ℕ)
output_bytes [] = some []
output_bytes (o ∷ outputs) =
    pack_signed 8 o.value +? varint (length o.script) +? some o.script +? output_bytes outputs

unfoldable pub build_coinbase_tx : List Output → List ℕ → Option (List ℕ)
build_coinbase_tx outputs phrase = elim (build_coinbase_scriptsig phrase) [
  | none ↦ none
  | some script_sig ↦
      pack_signed 4 1
      +? varint 1
      +? some (replicate 32 0)
      +? pack 4 0xFFFFFFFF
      +? varint (length script_sig)
      +? some script_sig
      +? pack 4 0xFFFFFFFF
      +? varint (length outputs)
      +? output_bytes outputs
      +? pack 4 0
]

unfoldable pub serialize_header : ℕ → List ℕ → List ℕ → ℕ → ℕ → ℕ → Option (List ℕ)
serialize_header version prev merkle n_time n_bits nonce =
    pack_signed 4 version
    +? some prev
    +? some merkle
    +? pack 4 n_time
    +? pack 4 n_bits
    +? pack 4 nonce

-- How `main` ends before it mines.
pub data GenesisError : Type 0 where
  invalid_address : GenesisError
  hash_size : ℕ → GenesisError
  wrong_network : ℕ → GenesisError
  raised : GenesisError

module _ (sha256 : List ℕ → List ℕ) where
  -- From the founder's hash to the 76 bytes in front of the nonce.
  unfoldable pub header_prefix : List ℕ → ℕ → ℕ → Bool → Bool → Option (List ℕ)
  header_prefix pubkey_hash n_time n_bits single op_true =
      elim (build_genesis_outputs pubkey_hash single op_true) [
        | none ↦ none
        | some outputs ↦ elim (build_coinbase_tx outputs genesis_phrase) [
          | none ↦ none
          | some coinbase ↦
              elim (serialize_header 1 (replicate 32 0) (dsha256 sha256 coinbase) n_time n_bits 0) [
                | none ↦ none
                | some header ↦ some (take 76 header)
              ]
        ]
      ]

  -- `main` up to the search: `version_byte` is the network's `pubkey`.
  unfoldable pub prepare : ℕ → List ℕ → ℕ → ℕ → Bool → Bool → Result GenesisError (List ℕ)
  prepare version_byte address n_time n_bits single_output op_true =
      elim (base58_decode_check sha256 address) [
        | err e ↦ err invalid_address
        | ok payload ↦
            if length (drop 1 payload) == 20
            then if get_or payload 0 0 == version_byte
              then elim (header_prefix (drop 1 payload) n_time n_bits
                  (if single_output then true else op_true) op_true) [
                    | none ↦ err raised
                    | some prefix ↦ ok prefix
                  ]
              else err (wrong_network (get_or payload 0 0))
            else err (hash_size (length (drop 1 payload)))
      ]
