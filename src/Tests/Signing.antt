-- ===== src/Tests/Signing.antt =====
-- The curve and the tools of a key's life at concrete inputs.
use wam_coin.Common.{ℕ, List, [], ◌∷◌, ◌≡◌, ◌⊎◌, refl, some, true, false}
use wam_coin.Common.Bytes.{codes, to_be, from_be, from_le, to_le}
use wam_coin.Common.BitLength.{bit_length}
use wam_coin.Base58.{text_of, write_digits, write_ones, b58check}
use wam_coin.Ripemd.{
  rol, rmd_f, rmd_step, left_step, right_step, left_line, right_line, block_words, compress, pad,
  padded, absorb, ripemd160,
}
use wam_coin.Curve.{pow_mod, inverse, third, add, mul_loop, mul, privkey_to_pubkey}
use wam_coin.Curve.Field.{IsPubkey, privkey_to_pubkey-IsPubkey}
use wam_coin.Keys.{to_wif, to_address}
use wam_coin.Keys.Wif.Usable.{IsScalar}
use wam_coin.Founder.{
  mainnet, testnet, offline_gate, draw, Keypair, minted, matches, mint, write_key, generate,
  verify_backup,
}
use wam_coin.Founder.Minted.{verify_backup-generate}
use wam_coin.Tests.Texts.{toy, toy-IsDigest}

abbrev two_g_key : List ℕ
two_g_key = 2 ∷ to_be 32 0xC6047F9441ED7D6D3045406E95C07CD85C778E4B8CEF3CA7ABAC09B95C709EE5

two_g : privkey_to_pubkey 2 true ≡ some two_g_key
unfolding pow_mod inverse third add mul_loop mul privkey_to_pubkey to_be
two_g = refl

privkey_to_pubkey-IsPubkey_example : IsPubkey 2 two_g_key true
privkey_to_pubkey-IsPubkey_example = privkey_to_pubkey-IsPubkey 2 true two_g_key two_g

abbrev key_pair : Keypair
key_pair = record {
  priv = 1;
  address = codes "WYd2h4v6UNG1T33pReHgdKzJ76mDnm9vLX";
  wif = codes "V7AodfTvGD589KWx5PzgG4yYHZAwcWX7vwMmKJpzHvCEWPnoQ7eo";
}

made : generate toy mainnet false false (0 ∷ 1 ∷ []) ≡ minted key_pair
unfolding generate offline_gate draw write_key mint pow_mod inverse third add mul_loop mul
    privkey_to_pubkey to_be to_wif to_address b58check text_of write_digits write_ones from_be
    bit_length rol rmd_f rmd_step left_step right_step left_line right_line block_words compress pad
    padded absorb ripemd160 from_le to_le
made = refl

verify_backup-generate_example :
    IsScalar 1
    × (false ≡ false ⊎ (mainnet ≡ testnet ⊎ false ≡ true))
    × (verify_backup toy key_pair.address (some key_pair.wif) ≡ matches mainnet true)
verify_backup-generate_example =
    verify_backup-generate toy toy-IsDigest mainnet false false (0 ∷ 1 ∷ []) key_pair made
