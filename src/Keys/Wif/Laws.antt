-- ===== src/Keys/Wif/Laws.antt =====
-- What the two readers of a private key's text promise. Of SHA-256 only the shape of a digest is used.
use wam_coin.Common.{
  ℕ, zero, suc, ◌+◌, ◌^◌, ◌<◌, ◌≡◌, refl, sym, ap, ◌∙◌, List, [], ◌∷◌, ◌++◌, some, Bool, true,
  false, ◌==◌, ◌&&◌, ◌||◌, ltb, if◌then◌else◌, length, take, drop, All, All-append, get_or, arith,
  length-append, take-append, some_inj, subst,
}
use wam_coin.Common.Bytes.{
  IsByte, from_be, to_be, length-to_be, to_be-IsByte, from_be-to_be, bytes_eq_self,
}
use wam_coin.Common.Result.{ok}
use wam_coin.Base58.{raw_of, b58check}
use wam_coin.Base58.RoundTrip.{
  IsDigest, checksum, length-checksum, payload_of-append, checksum_of-append, raw_of-b58check,
}
use wam_coin.Keys.{to_wif}
use wam_coin.Keys.Strip.{strip_base58}
use wam_coin.Keys.Wif.{read_wif, wif_to_privkey}

-- The payload of a key's text.
abbrev pub wif_payload : ℕ → ℕ → Bool → List ℕ
wif_payload priv version compressed =
    if compressed then (version ∷ to_be 32 priv) ++ (1 ∷ []) else version ∷ to_be 32 priv

wif_payload-IsByte :
    (priv version : ℕ) (compressed : Bool)
    → version < 256
    → All IsByte (wif_payload priv version compressed)
wif_payload-IsByte priv version true h =
    (h, All-append IsByte (to_be 32 priv) (1 ∷ []) (to_be-IsByte 32 priv) (omega arith, tt))
wif_payload-IsByte priv version false h = (h, to_be-IsByte 32 priv)

pub length-wif_payload :
    (priv version : ℕ) (compressed : Bool)
    → length (wif_payload priv version compressed) ≡ (if compressed then 34 else 33)
length-wif_payload priv version true =
    omega (arith, length-append (to_be 32 priv) (1 ∷ []), length-to_be 32 priv)
length-wif_payload priv version false = omega (arith, length-to_be 32 priv)

pub get_or-last : (xs : List ℕ) (x d n : ℕ) → n ≡ length xs → get_or (xs ++ (x ∷ [])) n d ≡ x
get_or-last [] x d zero e = refl
get_or-last [] x d (suc n) e = absurd (omega arith)
get_or-last (y ∷ ys) x d zero e = absurd (omega arith)
get_or-last (y ∷ ys) x d (suc n) e = get_or-last ys x d n (omega arith)

pub take_all : (xs : List ℕ) (n : ℕ) → n ≡ length xs → take n xs ≡ xs
take_all [] zero e = refl
take_all [] (suc n) e = absurd (omega arith)
take_all (x ∷ xs) zero e = absurd (omega arith)
take_all (x ∷ xs) (suc n) e = ap (λ t. x ∷ t) (take_all xs n (omega arith))

pub scalar_of_payload :
    (priv version : ℕ) (compressed : Bool)
    → priv < 2 ^ 256
    → from_be 0 (take 32 (drop 1 (wif_payload priv version compressed))) ≡ priv
scalar_of_payload priv version true h =
    ap (from_be 0) (take-append (to_be 32 priv) (1 ∷ []) 32 (sym (length-to_be 32 priv)))
    ∙ from_be-to_be 32 priv 0 h
    ∙ omega arith
scalar_of_payload priv version false h =
    ap (from_be 0) (take_all (to_be 32 priv) 32 (sym (length-to_be 32 priv)))
    ∙ from_be-to_be 32 priv 0 h
    ∙ omega arith

flag_of_payload :
    (priv version : ℕ) (compressed : Bool)
    → (length (wif_payload priv version compressed) == 34
        && get_or (wif_payload priv version compressed) 33 0 == 1)
      ≡ compressed
flag_of_payload priv version true = ground (
  arith,
  length-wif_payload priv version true,
  get_or-last (version ∷ to_be 32 priv) 1 0 33 (omega (arith, length-to_be 32 priv)),
)
flag_of_payload priv version false = ground (arith, length-wif_payload priv version false)

version_of_payload :
    (priv version : ℕ) (compressed : Bool)
    → get_or (wif_payload priv version compressed) 0 0 ≡ version
version_of_payload priv version true = refl
version_of_payload priv version false = refl

right_size :
    (n : ℕ) (compressed : Bool)
    → n ≡ (if compressed then 34 else 33) + 4
    → (n == 37 || n == 38) ≡ true
right_size n true e = ground arith
right_size n false e = ground arith

module _ (sha256 : List ℕ → List ℕ) (digest : IsDigest sha256) where
  pub read_wif-payload :
      (priv version : ℕ) (compressed : Bool)
      → priv < 2 ^ 256
      → let p = wif_payload priv version compressed in
        read_wif sha256 (p ++ checksum sha256 digest p) ≡ ok (priv, version, compressed)
  unfolding read_wif
  read_wif-payload priv version compressed h =
      let p : List ℕ = wif_payload priv version compressed in
      let c : List ℕ = checksum sha256 digest p in
      let size : (length (p ++ c) == 37 || length (p ++ c) == 38) ≡ true =
        right_size (length (p ++ c)) compressed (
          length-append p c
          ∙ ap (λ t. length p + t) (length-checksum sha256 digest p)
          ∙ ap (λ t. t + 4) (length-wif_payload priv version compressed)) in
      rw size (
        rw (payload_of-append sha256 digest p, checksum_of-append sha256 digest p)
          (rw (bytes_eq_self c) (
            rw
              (scalar_of_payload priv version compressed h, flag_of_payload priv version compressed)
              (rw (version_of_payload priv version compressed)))))

  pub raw_of-to_wif :
      (priv version : ℕ) (compressed : Bool) (text : List ℕ)
      → to_wif sha256 priv version compressed ≡ some text
      → version < 256
      → priv < 2 ^ 256
      → let p = wif_payload priv version compressed in
        raw_of text ≡ some (p ++ checksum sha256 digest p)
  unfolding to_wif
  raw_of-to_wif priv version compressed text e v h =
      let p : List ℕ = wif_payload priv version compressed in
      let bytes : (ltb version 256 && ltb priv (2 ^ 256)) ≡ true = ground (arith, h, v) in
      let same : b58check sha256 p ≡ text = some_inj (rw (bytes, to_wif) at e) in
      subst (λ t. raw_of t ≡ some (p ++ checksum sha256 digest p)) same
        (raw_of-b58check sha256 digest p (wif_payload-IsByte priv version compressed v))

  -- `to_wif` writes a text for every scalar below 2^256 and every version byte, and
  -- `wif_to_privkey` reads it as that scalar, that version and that compression flag.
  -- The hash is any function whose digests are 32 bytes.
  pub wif_to_privkey-to_wif :
      (priv version : ℕ) (compressed : Bool)
      → priv < 2 ^ 256
      → version < 256
      → (text : List ℕ) × (to_wif sha256 priv version compressed ≡ some text)
        × (wif_to_privkey sha256 text ≡ ok (priv, version, compressed))
  unfolding to_wif wif_to_privkey
  wif_to_privkey-to_wif priv version compressed h v =
      let p : List ℕ = wif_payload priv version compressed in
      let text : List ℕ = b58check sha256 p in
      let bytes : (ltb version 256 && ltb priv (2 ^ 256)) ≡ true = ground (arith, h, v) in
      let read : raw_of text ≡ some (p ++ checksum sha256 digest p) =
        raw_of-b58check sha256 digest p (wif_payload-IsByte priv version compressed v) in
      (
        text,
        rw (bytes, to_wif),
        rw (strip_base58 text _ read, wif_to_privkey)
            (rw read (read_wif-payload priv version compressed h)),
      )
