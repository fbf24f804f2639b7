-- ===== src/Base58.antt =====
-- Base58Check, as scripts/gen_founder_key.py writes it (`b58check`) and as
-- genesis/genesis_generator.py, scripts/verify_address.py and scripts/gen_founder_key.py read it.
-- Texts are lists of code points. SHA-256 is hashlib's and is a parameter.
mod Digits
pub mod Text
pub mod RoundTrip
use wam_coin.Common.{
  ℕ, zero, suc, ◌+◌, ◌-◌, ◌*◌, ◌/◌, ◌%◌, List, [], ◌∷◌, ◌++◌, Option, none, some, true, false, ◌==◌,
  ltb, if◌then◌else◌, length, take, drop, replicate, get_or,
}
use wam_coin.Common.Bytes.{codes, from_be, to_be, bytes_eq}
use wam_coin.Common.BitLength.{byte_count}
use wam_coin.Common.Result.{Result, ok, err}

abbrev pub alphabet : List ℕ
alphabet = codes "123456789ABCDEFGHJKLMNPQRSTUVWXYZabcdefghijkmnopqrstuvwxyz"

abbrev pub one : ℕ
one = b'1'

-- `B58.find(ch)`; `none` is Python's -1.
unfoldable pub find : ℕ → List ℕ → Option ℕ
find ch [] = none
find ch (c ∷ cs) = elim (ch == c) [
  | true ↦ some 0
  | false ↦ elim (find ch cs) [ none ↦ none | some i ↦ some (i + 1) ]
]

-- `n = n * 58 + idx` for each character; `none` at the first character that is not base58.
unfoldable pub number_of : ℕ → List ℕ → Option ℕ
number_of n [] = some n
number_of n (ch ∷ s) = elim (find ch alphabet) [
  | none ↦ none
  | some idx ↦ number_of (n * 58 + idx) s
]

-- `len(s) - len(s.lstrip("1"))`
unfoldable pub leading_ones : List ℕ → ℕ
leading_ones [] = 0
leading_ones (ch ∷ s) = if ch == one then suc (leading_ones s) else 0

-- The bytes that a text stands for: those of the number behind a zero byte for each leading `1`.
-- `byte_count 0` is 0, so the scripts' test of `n` for zero changes nothing.
unfoldable pub raw_of : List ℕ → Option (List ℕ)
raw_of s = elim (number_of 0 s) [
  | none ↦ none
  | some n ↦ some (replicate (leading_ones s) 0 ++ to_be (byte_count n) n)
]

-- `raw[:-4]` and `raw[-4:]`
abbrev pub payload_of : List ℕ → List ℕ
payload_of raw = take (length raw - 4) raw

abbrev pub checksum_of : List ℕ → List ℕ
checksum_of raw = drop (length raw - 4) raw

-- `while n: n, r = divmod(n, 58); out = B58[r] + out`. The number itself is enough fuel.
unfoldable pub write_digits : ℕ → ℕ → List ℕ → List ℕ
write_digits zero n out = out
write_digits (suc fuel) n out =
    let rest = write_digits fuel (n / 58) (get_or alphabet (n % 58) 0 ∷ out) in
    if n == 0 then out else rest

-- `for byte in raw: if byte: break; out = "1" + out`
unfoldable pub write_ones : List ℕ → List ℕ → List ℕ
write_ones [] out = out
write_ones (byte ∷ raw) out =
    let rest = write_ones raw (one ∷ out) in if byte == 0 then rest else out

unfoldable pub text_of : List ℕ → List ℕ
text_of raw = let n = from_be 0 raw in write_ones raw (write_digits n n [])

-- The `ValueError`s of `base58_decode_check`.
pub data DecodeError : Type 0 where
  invalid_character too_short checksum_mismatch : DecodeError

module _ (sha256 : List ℕ → List ℕ) where
  abbrev pub dsha256 : List ℕ → List ℕ
  dsha256 b = sha256 (sha256 b)

  unfoldable pub b58check : List ℕ → List ℕ
  b58check payload = text_of (payload ++ take 4 (dsha256 payload))

  -- genesis/genesis_generator.py
  unfoldable pub base58_decode_check : List ℕ → Result DecodeError (List ℕ)
  base58_decode_check s = elim (raw_of s) [
    | none ↦ err invalid_character
    | some raw ↦
        if ltb (length raw) 5
        then err too_short
        else if bytes_eq (take 4 (dsha256 (payload_of raw))) (checksum_of raw)
        then ok (payload_of raw)
        else err checksum_mismatch
  ]
