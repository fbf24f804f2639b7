-- ===== src/Base58/RoundTrip.antt =====
-- `base58_decode_check` against `b58check`. Of SHA-256 only the shape of a digest is used.
use wam_coin.Common.{
  ℕ, ◌-◌, ◌≤◌, ◌≡◌, ◌↔◌, sym, ap, ◌∙◌, List, ◌++◌, some, false, ltb, if◌then◌else◌, length, take,
  All, All-append, All-take, Bool-cases, Option-cases, inl, inr, arith, length-append, length-take,
  take-append, drop-append, take-append-drop,
}
use wam_coin.Common.Bytes.{IsByte, bytes_eq, bytes_eq_self, eq_of_bytes_eq}
use wam_coin.Common.Result.{ok, err, ok_inj, err-ne-ok}
use wam_coin.Base58.{
  raw_of, payload_of, checksum_of, too_short, checksum_mismatch, dsha256, b58check,
  base58_decode_check,
}
use wam_coin.Base58.Text.{raw_of-text_of}

-- hashlib's `sha256(b).digest()` is always 32 bytes.
pub record IsDigest (sha256 : List ℕ → List ℕ) : Type 0 where
  pub length_32 : (b : List ℕ) → length (sha256 b) ≡ 32
  pub all_bytes : (b : List ℕ) → All IsByte (sha256 b)

module _ (sha256 : List ℕ → List ℕ) (digest : IsDigest sha256) where
  abbrev pub checksum : List ℕ → List ℕ
  checksum payload = take 4 (dsha256 sha256 payload)

  pub length-checksum : (payload : List ℕ) → length (checksum payload) ≡ 4
  length-checksum payload =
      omega (arith, length-take 4 (dsha256 sha256 payload), digest.length_32 (sha256 payload))

  pub checksum-IsByte : (payload : List ℕ) → All IsByte (checksum payload)
  checksum-IsByte payload =
      All-take IsByte 4 (dsha256 sha256 payload) (digest.all_bytes (sha256 payload))

  pub cut : (payload : List ℕ) → length payload ≡ length (payload ++ checksum payload) - 4
  cut payload = omega (arith, length-append payload (checksum payload), length-checksum payload)

  pub payload_of-append : (payload : List ℕ) → payload_of (payload ++ checksum payload) ≡ payload
  payload_of-append payload = take-append payload (checksum payload) _ (sym (cut payload))

  pub checksum_of-append :
      (payload : List ℕ) → checksum_of (payload ++ checksum payload) ≡ checksum payload
  checksum_of-append payload = drop-append payload (checksum payload) _ (sym (cut payload))

  pub append-IsByte :
      (payload : List ℕ) → All IsByte payload → All IsByte (payload ++ checksum payload)
  append-IsByte payload h = All-append IsByte payload (checksum payload) h (checksum-IsByte payload)

  -- The text of a payload is read as the payload and its checksum.
  pub raw_of-b58check :
      (payload : List ℕ)
      → All IsByte payload
      → raw_of (b58check sha256 payload) ≡ some (payload ++ checksum payload)
  unfolding b58check
  raw_of-b58check payload h = raw_of-text_of (payload ++ checksum payload) (append-IsByte payload h)

  of_raw :
      (s payload : List ℕ)
      → raw_of s ≡ some (payload ++ checksum payload)
      → 1 ≤ length payload
      → base58_decode_check sha256 s ≡ ok payload
  unfolding base58_decode_check
  of_raw s payload e long =
      let enough : ltb (length (payload ++ checksum payload)) 5 ≡ false =
        ground (arith, length-append payload (checksum payload), length-checksum payload) in
      rw (e, base58_decode_check)
        (rw enough (
          rw (payload_of-append payload, checksum_of-append payload)
            (rw (bytes_eq_self (checksum payload)))))

  -- Reading the text of a payload of at least one byte gives that payload back.
  -- The hash is any function whose digests are 32 bytes.
  pub base58_decode_check-b58check :
      (payload : List ℕ)
      → All IsByte payload
      → 1 ≤ length payload
      → base58_decode_check sha256 (b58check sha256 payload) ≡ ok payload
  base58_decode_check-b58check payload h long =
      of_raw (b58check sha256 payload) payload (raw_of-b58check payload h) long

  passed :
      (raw payload : List ℕ)
      → (if ltb (length raw) 5
          then err too_short
          else if bytes_eq (checksum (payload_of raw)) (checksum_of raw)
          then ok (payload_of raw)
          else err checksum_mismatch)
        ≡ ok payload
      → (raw ≡ payload ++ checksum payload) × (1 ≤ length payload)
  passed raw payload h = elim (Bool-cases (ltb (length raw) 5)) [
    | inl short ↦ absurd (err-ne-ok (rw short at h))
    | inr long ↦ elim (Bool-cases (bytes_eq (checksum (payload_of raw)) (checksum_of raw))) [
      | inl good ↦
          let e : payload_of raw ≡ payload = ok_inj (rw good at (rw long at h)) in
          let c : checksum payload ≡ checksum_of raw =
            ap checksum (sym e)
            ∙ eq_of_bytes_eq (checksum (payload_of raw)) (checksum_of raw) good in
          (
            sym (take-append-drop (length raw - 4) raw)
                ∙ ap (λ t. t ++ checksum_of raw) e
                ∙ ap (λ t. payload ++ t) (sym c),
            ground (arith, length-take (length raw - 4) raw, ap length e),
          )
      | inr bad ↦ absurd (err-ne-ok (rw bad at (rw long at h)))
    ]
  ]

  -- A text is accepted, with a payload, exactly if its bytes are that payload, of at least one
  -- byte, and the first four bytes of the payload's double hash.
  -- The hash is any function whose digests are 32 bytes.
  pub base58_decode_check_iff :
      (s payload : List ℕ)
      → (base58_decode_check sha256 s ≡ ok payload)
        ↔ ((raw_of s ≡ some (payload ++ take 4 (dsha256 sha256 payload))) × (1 ≤ length payload))
  unfolding base58_decode_check
  base58_decode_check_iff s payload = (
    λ h. elim (Option-cases (raw_of s)) [
      | inl none_read ↦ absurd (err-ne-ok (rw (none_read, base58_decode_check) at h))
      | inr (raw, read) ↦
          let (e, long) = passed raw payload (rw (read, base58_decode_check) at h) in
          (read ∙ ap some e, long)
    ],
    λ h. of_raw s payload h.0 h.1,
  )
