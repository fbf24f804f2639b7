-- ===== src/Keys.antt =====
-- Private keys and addresses as texts: `to_address` and `to_wif` of scripts/gen_founder_key.py and
-- Python's `str.strip`, which the readers in the modules below apply to what a person typed.
pub mod Strip
pub mod Wif
pub mod Address
use wam_coin.Common.{
  ℕ, ◌^◌, List, [], ◌∷◌, ◌++◌, Option, none, some, Bool, ◌==◌, ◌&&◌, ◌||◌, ltb, leb, if◌then◌else◌,
  reverse,
}
use wam_coin.Common.Bytes.{to_be}
use wam_coin.Base58.{b58check}
use wam_coin.Ripemd.{ripemd160}

-- The characters that `str.strip` removes: Python's Unicode white space.
abbrev pub is_space : ℕ → Bool
is_space c =
    (leb 9 c && leb c 13)
    || (leb 28 c && leb c 32)
    || c == 133
    || c == 160
    || c == 5760
    || (leb 8192 c && leb c 8202)
    || c == 8232
    || c == 8233
    || c == 8239
    || c == 8287
    || c == 12288

unfoldable pub lstrip : List ℕ → List ℕ
lstrip [] = []
lstrip (c ∷ s) = if is_space c then lstrip s else c ∷ s

unfoldable pub strip : List ℕ → List ℕ
strip s = reverse (lstrip (reverse (lstrip s)))

module _ (sha256 : List ℕ → List ℕ) where
  -- `bytes([version])` raises above 255 and `priv.to_bytes(32, "big")` above 2^256 - 1.
  unfoldable pub to_wif : ℕ → ℕ → Bool → Option (List ℕ)
  to_wif priv version compressed =
      let body = version ∷ to_be 32 priv in
      if ltb version 256 && ltb priv (2 ^ 256)
      then some (b58check sha256 (if compressed then body ++ (1 ∷ []) else body))
      else none

  abbrev pub hash160 : List ℕ → List ℕ
  hash160 b = ripemd160 (sha256 b)

  unfoldable pub to_address : List ℕ → ℕ → Option (List ℕ)
  to_address pubkey version =
      if ltb version 256 then some (b58check sha256 (version ∷ hash160 pubkey)) else none
