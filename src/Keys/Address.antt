-- ===== src/Keys/Address.antt =====
-- scripts/verify_address.py: `decode`, the search for a single mistyped character, and the verdict.
pub mod Fixes
pub mod Verdicts
use wam_coin.Common.{
  ℕ, zero, suc, ◌+◌, ◌-◌, List, [], ◌∷◌, ◌++◌, Option, none, some, Bool, true, false, ◌==◌,
  if◌then◌else◌, length, take, drop, get_or, replicate,
}
use wam_coin.Common.Bytes.{bytes_eq}
use wam_coin.Common.Result.{Result, ok, err}
use wam_coin.Base58.{alphabet, raw_of, payload_of, checksum_of, dsha256}
use wam_coin.Keys.{strip}

-- What `decode` raises.
pub data AddressError : Type 0 where
  bad_character : AddressError
  bad_size : ℕ → AddressError

pub data Network : Type 0 where
  mainnet testnet : Network

pub data Kind : Type 0 where
  p2pkh p2sh : Kind

abbrev pub networks : ℕ → Option (Network × Kind)
networks version =
    if version == 73
    then some (mainnet, p2pkh)
    else if version == 135
    then some (mainnet, p2sh)
    else if version == 65
    then some (testnet, p2pkh)
    else if version == 128
    then some (testnet, p2sh)
    else none

pub data AddressProblem : Type 0 where
  checksum_mismatch : AddressProblem
  unknown_version : ℕ → AddressProblem
  burn_placeholder : AddressProblem

-- A suggested correction: position from 1, the character there, the one to put, the whole text.
pub record Fix : Type 0 where
  pub position : ℕ
  pub was : ℕ
  pub now : ℕ
  pub candidate : List ℕ

-- What `main` concludes: exit code 1 with `decode`'s complaint, 1 with the problems and the
-- corrections offered, or 0 with the network, the kind and the scriptPubKey.
pub data Verdict : Type 0 where
  undecodable : AddressError → Verdict
  rejected : List AddressProblem → List Fix → Verdict
  accepted : Network → Kind → List ℕ → Verdict

-- `bad[:i] + c + bad[i + 1:]`
abbrev pub replace_at : List ℕ → ℕ → ℕ → List ℕ
replace_at bad i c = take i bad ++ (c ∷ drop (suc i) bad)

-- 76a914 .. 88ac for a key's hash and a914 .. 87 for a script's.
abbrev pub script_pub_key : Kind → List ℕ → List ℕ
script_pub_key p2pkh hash = 118 ∷ 169 ∷ 20 ∷ (hash ++ (136 ∷ 172 ∷ []))
script_pub_key p2sh hash = 169 ∷ 20 ∷ (hash ++ (135 ∷ []))

-- The list `problems`.
unfoldable pub problems_of : List ℕ → Bool → List AddressProblem
problems_of payload good =
    let version = get_or payload 0 0 in
    (if good then [] else checksum_mismatch ∷ [])
    ++ elim (networks version) [ none ↦ unknown_version version ∷ [] | some net ↦ [] ]
    ++ (if bytes_eq (drop 1 payload) (replicate 20 0) then burn_placeholder ∷ [] else [])

module _ (sha256 : List ℕ → List ℕ) where
  unfoldable pub decode_raw : List ℕ → Result AddressError (List ℕ × Bool)
  decode_raw raw =
      let payload = payload_of raw in
      if length raw == 25
      then ok (payload, bytes_eq (checksum_of raw) (take 4 (dsha256 sha256 payload)))
      else err (bad_size (length raw))

  unfoldable pub decode : List ℕ → Result AddressError (List ℕ × Bool)
  decode address = elim (raw_of address) [ none ↦ err bad_character | some raw ↦ decode_raw raw ]

  -- `_, ok = decode(cand)` with a `ValueError` passed over.
  unfoldable pub checks_out : List ℕ → Bool
  checks_out cand = elim (decode cand) [ ok r ↦ r.1 | err e ↦ false ]

  -- The inner loop, over the characters that may stand at position `i`.
  unfoldable pub fixes_at : List ℕ → ℕ → List ℕ → List Fix
  fixes_at bad i [] = []
  fixes_at bad i (c ∷ cs) =
      let rest = fixes_at bad i cs in
      let cand = replace_at bad i c in
      let fix : Fix = record {
        position = i + 1;
        was = get_or bad i 0;
        now = c;
        candidate = cand;
      } in
      if c == get_or bad i 0 then rest else if checks_out cand then fix ∷ rest else rest

  -- The outer loop, over the positions below `k`.
  unfoldable pub fixes_below : List ℕ → ℕ → List Fix
  fixes_below bad zero = []
  fixes_below bad (suc k) = fixes_below bad k ++ fixes_at bad k alphabet

  unfoldable pub find_single_char_fix : List ℕ → List Fix
  find_single_char_fix bad = fixes_below bad (length bad)

  -- A version that is of no network is among the problems, so `net` is there when there are none.
  unfoldable pub verdict :
      List ℕ → List AddressProblem → Bool → Option (Network × Kind) → List ℕ → Verdict
  verdict payload [] good none address = rejected [] []
  verdict payload [] good (some net) address =
      accepted net.0 net.1 (script_pub_key net.1 (drop 1 payload))
  verdict payload (p ∷ ps) good net address =
      rejected (p ∷ ps) (if good then [] else find_single_char_fix address)

  unfoldable pub check_address : List ℕ → Verdict
  check_address argument =
      let address = strip argument in
      elim (decode address) [
        | err e ↦ undecodable e
        | ok (payload, good) ↦
            verdict payload (problems_of payload good) good (networks (get_or payload 0 0)) address
      ]
