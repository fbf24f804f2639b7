-- ===== src/Tests/Texts.antt =====
-- The text modules at concrete inputs. A hash of 32 bytes that is easy to compute stands for SHA-256.
use wam_coin.Common.{
  ℕ, ◌≤◌, ◌≡◌, ◌≢◌, ◌↔◌, refl, ap, none, some, List, [], ◌∷◌, ◌++◌, length, take, replicate, get_or,
  Any, All-replicate, arith, Bool, true,
}
use wam_coin.Common.Bytes.{
  IsByte, codes, from_be, from_le, to_le, to_be, length-to_be, to_be-IsByte, bytes_eq,
}
use wam_coin.Common.BitLength.{bits, bit_length}
use wam_coin.Common.Result.{ok}
use wam_coin.Base58.{number_of, find, leading_ones, raw_of, dsha256, b58check, base58_decode_check}
use wam_coin.Base58.RoundTrip.{IsDigest, base58_decode_check-b58check, base58_decode_check_iff}
use wam_coin.Keys.{to_wif, hash160, to_address}
use wam_coin.Ripemd.{
  rol, rmd_f, rmd_step, left_step, right_step, left_line, right_line, block_words, compress, pad,
  padded, absorb, ripemd160,
}
use wam_coin.Keys.Wif.{
  wam_wif_version, scalar_problem, payload_problem, body_problem, raw_problem, wif_problem,
  wif_to_privkey,
}
use wam_coin.Keys.Wif.Laws.{wif_payload, wif_to_privkey-to_wif}
use wam_coin.Keys.Wif.Usable.{IsScalar, wif_problem_iff}
use wam_coin.Keys.Address.{
  mainnet, p2pkh, Fix, replace_at, script_pub_key, accepted, decode_raw, decode, checks_out,
  find_single_char_fix, check_address,
}
use wam_coin.Keys.Address.Fixes.{find_single_char_fix_complete}
use wam_coin.Keys.Address.Verdicts.{check_address-to_address}

abbrev pub toy : List ℕ → List ℕ
toy b = to_be 32 (from_be 1 b)

pub toy-IsDigest : IsDigest toy
toy-IsDigest = record {
  length_32 = λ b. length-to_be 32 (from_be 1 b);
  all_bytes = λ b. to_be-IsByte 32 (from_be 1 b);
}

abbrev key_text : List ℕ
key_text = codes "V7AodfTvGD589KWx5PzgG4yYHZAwcWX7vwMmKJpzHvE4VLyZPeab"

abbrev address_text : List ℕ
address_text = codes "WPKC2YeECzsyQyX7BsB9rdN4ueEqSXZkum"

abbrev hash : List ℕ
hash = replicate 20 7

abbrev payload : List ℕ
payload = 73 ∷ hash

key_text_usable : wif_problem toy key_text ≡ none
unfolding wif_problem raw_problem body_problem payload_problem scalar_problem raw_of number_of find
    leading_ones bits bit_length to_be from_be bytes_eq
key_text_usable = refl

address_text_valid : checks_out toy address_text ≡ true
unfolding checks_out decode decode_raw raw_of number_of find leading_ones bits bit_length to_be
    from_be bytes_eq
address_text_valid = refl

base58_decode_check-b58check_example : base58_decode_check toy (b58check toy payload) ≡ ok payload
base58_decode_check-b58check_example =
    base58_decode_check-b58check toy toy-IsDigest payload
      (omega arith, All-replicate IsByte 20 7 (omega arith)) (omega arith)

base58_decode_check_iff_example : (base58_decode_check toy address_text ≡ ok payload) ↔ (
    (raw_of address_text ≡ some (payload ++ take 4 (dsha256 toy payload))) × (1 ≤ length payload))
base58_decode_check_iff_example = base58_decode_check_iff toy toy-IsDigest address_text payload

wif_to_privkey-to_wif_example :
    (text : List ℕ) × (to_wif toy 12345 190 true ≡ some text)
    × (wif_to_privkey toy text ≡ ok (12345, 190, true))
wif_to_privkey-to_wif_example =
    wif_to_privkey-to_wif toy toy-IsDigest 12345 190 true (omega arith) (omega arith)

wif_problem_iff_example : (wif_problem toy key_text ≡ none) ↔ (
    (priv : ℕ) × (compressed : Bool) × IsScalar priv
    × (let p = wif_payload priv wam_wif_version compressed in
        raw_of key_text ≡ some (p ++ take 4 (dsha256 toy p))))
wif_problem_iff_example = wif_problem_iff toy toy-IsDigest key_text

find_single_char_fix_complete_example :
    let intended : Fix = record {
      position = 4;
      was = b'z';
      now = b'C';
      candidate = address_text;
    } in
    Any (λ f. f ≡ intended) (find_single_char_fix toy (replace_at address_text 3 b'z'))
find_single_char_fix_complete_example =
    find_single_char_fix_complete toy address_text 3 b'z' address_text_valid (omega arith)
      (omega arith)

key_hash_not_burn : hash160 toy (2 ∷ 5 ∷ []) ≢ replicate 20 0
unfolding rol rmd_f rmd_step left_step right_step left_line right_line block_words compress pad
    padded absorb ripemd160 to_be from_be from_le to_le
key_hash_not_burn h =
    let same : get_or (hash160 toy (2 ∷ 5 ∷ [])) 0 1 ≡ 0 = ap (λ xs. get_or xs 0 1) h in
    absurd (omega (arith, same))

check_address-to_address_example :
    (address : List ℕ) × (to_address toy (2 ∷ 5 ∷ []) 73 ≡ some address)
    × (check_address toy address
        ≡ accepted mainnet p2pkh (script_pub_key p2pkh (hash160 toy (2 ∷ 5 ∷ []))))
check_address-to_address_example =
    check_address-to_address toy toy-IsDigest (2 ∷ 5 ∷ []) 73 mainnet p2pkh refl (omega arith)
      key_hash_not_burn
