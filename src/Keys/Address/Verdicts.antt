-- ===== src/Keys/Address/Verdicts.antt =====
-- Which addresses scripts/verify_address.py accepts, and what it accepts of scripts/gen_founder_key.py.
use wam_coin.Common.{
  ℕ, ◌<◌, ◌≡◌, ◌≢◌, ap, ◌∙◌, List, [], ◌∷◌, ◌++◌, some, true, false, ◌==◌, length, take, replicate,
  Bool-cases, lt→ltb, inl, inr, arith, length-append,
}
use wam_coin.Common.Bytes.{bytes_eq, bytes_eq_self, eq_of_bytes_eq}
use wam_coin.Common.Result.{ok}
use wam_coin.Base58.{raw_of, dsha256, b58check}
use wam_coin.Base58.RoundTrip.{
  IsDigest, checksum, length-checksum, payload_of-append, checksum_of-append, raw_of-b58check,
}
use wam_coin.Keys.{strip, hash160, to_address}
use wam_coin.Ripemd.Shape.{length-ripemd160, ripemd160-IsByte}
use wam_coin.Keys.Strip.{strip_base58}
use wam_coin.Keys.Address.{
  Network, Kind, networks, accepted, script_pub_key, decode_raw, decode, problems_of, verdict,
  check_address,
}

-- The bytes of an address that is accepted.
pub record IsAddress (sha256 : List ℕ → List ℕ) (s : List ℕ) (net : Network) (kind : Kind)
    (hash : List ℕ) : Type 0 where
  pub version : ℕ
  pub bytes : raw_of s ≡ some ((version ∷ hash) ++ take 4 (dsha256 sha256 (version ∷ hash)))
  pub size : length hash ≡ 20
  pub known : networks version ≡ some (net, kind)
  pub not_burn : hash ≢ replicate 20 0

bytes_ne : (xs ys : List ℕ) → xs ≢ ys → bytes_eq xs ys ≡ false
bytes_ne xs ys ne = elim (Bool-cases (bytes_eq xs ys)) [
  | inl same ↦ absurd (ne (eq_of_bytes_eq xs ys same))
  | inr other ↦ other
]

module _ (sha256 : List ℕ → List ℕ) (digest : IsDigest sha256) where
  decode-address :
      (s hash : List ℕ) (version : ℕ)
      → raw_of s ≡ some ((version ∷ hash) ++ checksum sha256 digest (version ∷ hash))
      → length hash ≡ 20
      → decode sha256 s ≡ ok (version ∷ hash, true)
  unfolding decode decode_raw
  decode-address s hash version read size =
      let p : List ℕ = version ∷ hash in
      let c : List ℕ = checksum sha256 digest p in
      let whole : (length (p ++ c) == 25) ≡ true =
        ground (arith, length-append p c, length-checksum sha256 digest p, size) in
      rw (read, decode)
        (rw whole (
          rw (payload_of-append sha256 digest p, checksum_of-append sha256 digest p)
            (rw (bytes_eq_self c))))

  no_problems :
      (version : ℕ) (hash : List ℕ) (net : Network) (kind : Kind)
      → networks version ≡ some (net, kind)
      → hash ≢ replicate 20 0
      → problems_of (version ∷ hash) true ≡ []
  unfolding problems_of
  no_problems version hash net kind known ne =
      rw (known, problems_of) (rw (bytes_ne hash (replicate 20 0) ne))

  of_address :
      (s hash : List ℕ) (net : Network) (kind : Kind)
      → IsAddress sha256 (strip s) net kind hash
      → check_address sha256 s ≡ accepted net kind (script_pub_key kind hash)
  unfolding check_address verdict
  of_address s hash net kind a =
      rw (decode-address (strip s) hash a.version a.bytes a.size, check_address)
        (rw (no_problems a.version hash net kind a.known a.not_burn) (rw a.known))

  -- The address that the key generator makes for a version byte of a network is accepted, for that
  -- network and kind and paying to the key's hash, unless that hash is the 20 zero bytes that nobody
  -- holds a key for.
  -- The hash is any function whose digests are 32 bytes.
  pub check_address-to_address :
      (pubkey : List ℕ) (version : ℕ) (net : Network) (kind : Kind)
      → networks version ≡ some (net, kind)
      → version < 256
      → hash160 sha256 pubkey ≢ replicate 20 0
      → (address : List ℕ) × (to_address sha256 pubkey version ≡ some address)
        × (check_address sha256 address
            ≡ accepted net kind (script_pub_key kind (hash160 sha256 pubkey)))
  unfolding to_address
  check_address-to_address pubkey version net kind known low ne =
      let hash : List ℕ = hash160 sha256 pubkey in
      let text : List ℕ = b58check sha256 (version ∷ hash) in
      let read : raw_of text ≡ some ((version ∷ hash) ++ checksum sha256 digest (version ∷ hash)) =
        raw_of-b58check sha256 digest (version ∷ hash) (low, ripemd160-IsByte (sha256 pubkey)) in
      let address : IsAddress sha256 (strip text) net kind hash = record {
        version = version;
        bytes = ap raw_of (strip_base58 text _ read) ∙ read;
        size = length-ripemd160 (sha256 pubkey);
        known = known;
        not_burn = ne;
      } in
      (text, rw (lt→ltb version 256 low, to_address), of_address text hash net kind address)
