-- ===== src/Keys/Wif.antt =====
-- `wif_to_privkey` of scripts/gen_founder_key.py and `_wif_problem` of scripts/treasury_spend.py.
pub mod Laws
pub mod Usable
use wam_coin.Common.{
  ℕ, List, ◌∷◌, [], Option, none, some, Bool, ◌==◌, ◌&&◌, ◌||◌, leb, ltb, if◌then◌else◌, length,
  take, drop, get_or,
}
use wam_coin.Common.Bytes.{from_be, bytes_eq}
use wam_coin.Common.Result.{Result, ok, err}
use wam_coin.Base58.{raw_of, payload_of, checksum_of, dsha256}
use wam_coin.Keys.{strip}

-- The order of the group of secp256k1.
abbrev pub secp256k1_n : ℕ
secp256k1_n = 115792089237316195423570985008687907852837564279074904382605163141518161494337

abbrev pub wam_wif_version : ℕ
wam_wif_version = 190

-- The `ValueError`s of `wif_to_privkey`.
pub data WifError : Type 0 where
  not_base58 bad_length checksum_failed : WifError

-- The complaints of `_wif_problem`.
pub data WifProblem : Type 0 where
  bad_character too_short mistyped : WifProblem
  other_network : ℕ → WifProblem
  bad_marker : WifProblem
  payload_size : ℕ → WifProblem
  not_a_scalar : WifProblem

unfoldable pub scalar_problem : List ℕ → Option WifProblem
scalar_problem payload =
    let scalar = from_be 0 payload in
    if leb 1 scalar && ltb scalar secp256k1_n then none else some not_a_scalar

unfoldable pub payload_problem : List ℕ → Option WifProblem
payload_problem payload =
    if length payload == 33
    then if get_or payload 32 0 == 1 then scalar_problem (take 32 payload) else some bad_marker
    else if length payload == 32
    then scalar_problem payload
    else some (payload_size (length payload))

unfoldable pub body_problem : List ℕ → Option WifProblem
body_problem body =
    if get_or body 0 0 == wam_wif_version
    then payload_problem (drop 1 body)
    else some (other_network (get_or body 0 0))

module _ (sha256 : List ℕ → List ℕ) where
  unfoldable pub read_wif : List ℕ → Result WifError (ℕ × ℕ × Bool)
  read_wif raw =
      let payload = payload_of raw in
      let compressed = length payload == 34 && get_or payload 33 0 == 1 in
      if length raw == 37 || length raw == 38
      then if bytes_eq (take 4 (dsha256 sha256 payload)) (checksum_of raw)
        then ok (from_be 0 (take 32 (drop 1 payload)), get_or payload 0 0, compressed)
        else err checksum_failed
      else err bad_length

  unfoldable pub wif_to_privkey : List ℕ → Result WifError (ℕ × ℕ × Bool)
  wif_to_privkey wif = elim (raw_of (strip wif)) [ none ↦ err not_base58 | some raw ↦ read_wif raw ]

  unfoldable pub raw_problem : List ℕ → Option WifProblem
  raw_problem raw =
      if ltb (length raw) 5
      then some too_short
      else if bytes_eq (take 4 (dsha256 sha256 (payload_of raw))) (checksum_of raw)
      then body_problem (payload_of raw)
      else some mistyped

  unfoldable pub wif_problem : List ℕ → Option WifProblem
  wif_problem s = elim (raw_of s) [ none ↦ some bad_character | some raw ↦ raw_problem raw ]
