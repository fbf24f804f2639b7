-- ===== src/Keys/Wif/Usable.antt =====
-- `_wif_problem`: which texts it passes.
use wam_coin.Common.{
  ℕ, subst, zero, suc, ◌+◌, ◌-◌, ◌≤◌, ◌<◌, ◌≡◌, ◌↔◌, refl, sym, ap, ◌∙◌, List, [], ◌∷◌, ◌++◌, none,
  some, Bool, true, false, ◌==◌, ◌&&◌, ltb, leb, if◌then◌else◌, length, take, drop, All, All-append,
  All-take, get_or, Bool-cases, Option-cases, inl, inr, arith, length-append, length-take,
  take-append-drop, none-ne-some, some_inj, some-ne-none, le→ltb, replicate, ==_iff,
}
use wam_coin.Common.Bytes.{
  IsByte, from_be, to_be, length-to_be, to_be-IsByte, to_be-from_be, bytes_eq_self, bytes_eq,
  eq_of_bytes_eq,
}
use wam_coin.Common.BitLength.{byte_count}
use wam_coin.Common.Result.{ok}
use wam_coin.Base58.{number_of, leading_ones, raw_of, payload_of, checksum_of, dsha256}
use wam_coin.Base58.RoundTrip.{
  IsDigest, checksum, length-checksum, payload_of-append, checksum_of-append,
}
use wam_coin.Keys.Strip.{strip_base58}
use wam_coin.Keys.Wif.{
  secp256k1_n, wam_wif_version, scalar_problem, payload_problem, body_problem, wif_to_privkey,
  raw_problem, wif_problem,
}
use wam_coin.Keys.Wif.Laws.{
  wif_payload, length-wif_payload, scalar_of_payload, read_wif-payload, take_all, get_or-last,
}

no_bytes : (bs : List ℕ) → to_be 0 0 ++ bs ≡ bs
unfolding to_be
no_bytes bs = refl

-- A byte string of 32 is the one that its number is written as.
to_be_32 : (bs : List ℕ) → All IsByte bs → length bs ≡ 32 → to_be 32 (from_be 0 bs) ≡ bs
to_be_32 bs h e =
    ap (λ k. to_be k (from_be 0 bs)) (sym e ∙ omega arith) ∙ to_be-from_be bs 0 0 h ∙ no_bytes bs

replicate-IsByte : (k : ℕ) → All IsByte (replicate k 0)
replicate-IsByte zero = tt
replicate-IsByte (suc k) = (omega arith, replicate-IsByte k)

pub raw_of-IsByte : (s raw : List ℕ) → raw_of s ≡ some raw → All IsByte raw
unfolding raw_of
raw_of-IsByte s raw e = elim (Option-cases (number_of 0 s)) [
  | inl gone ↦ absurd (none-ne-some (rw (gone, raw_of) at e))
  | inr (n, read) ↦ subst (All IsByte) (some_inj (rw (read, raw_of) at e)) (
      All-append IsByte (replicate (leading_ones s) 0) (to_be (byte_count n) n)
        (replicate-IsByte (leading_ones s)) (to_be-IsByte (byte_count n) n))
]

-- The scalars of the curve.
unfoldable pub IsScalar : ℕ → Type 0
IsScalar priv = (1 ≤ priv) × (priv < secp256k1_n)

scalar_problem-IsScalar :
    (payload : List ℕ) → scalar_problem payload ≡ none → IsScalar (from_be 0 payload)
unfolding scalar_problem IsScalar
scalar_problem-IsScalar payload h =
    elim (Bool-cases (leb 1 (from_be 0 payload) && ltb (from_be 0 payload) secp256k1_n)) [
      | inl good ↦ ground (arith, good)
      | inr bad ↦ absurd (some-ne-none (rw bad at h))
    ]

in_range_scalar : (payload : List ℕ) → IsScalar (from_be 0 payload) → scalar_problem payload ≡ none
unfolding scalar_problem IsScalar
in_range_scalar payload h =
    let good : (leb 1 (from_be 0 payload) && ltb (from_be 0 payload) secp256k1_n) ≡ true =
      ground (arith, h.0, h.1) in
    rw good

-- The payload behind the version byte: 32 bytes of the scalar, and a 1 if it is for a compressed key.
abbrev key_bytes : ℕ → Bool → List ℕ
key_bytes priv compressed = drop 1 (wif_payload priv wam_wif_version compressed)

split_last : (xs : List ℕ) (n : ℕ) → length xs ≡ suc n → xs ≡ take n xs ++ (get_or xs n 0 ∷ [])
split_last [] n h = absurd (omega arith)
split_last (x ∷ []) zero h = refl
split_last (x ∷ y ∷ xs) zero h = absurd (omega arith)
split_last (x ∷ xs) (suc n) h = ap (λ t. x ∷ t) (split_last xs n (omega arith))

of_IsScalar :
    (payload : List ℕ)
    → All IsByte payload
    → length payload ≡ 32
    → scalar_problem payload ≡ none
    → (priv : ℕ) × IsScalar priv × (payload ≡ to_be 32 priv)
of_IsScalar payload bytes size h =
    (from_be 0 payload, scalar_problem-IsScalar payload h, sym (to_be_32 payload bytes size))

of_payload :
    (payload : List ℕ)
    → All IsByte payload
    → payload_problem payload ≡ none
    → (priv : ℕ) × (compressed : Bool) × IsScalar priv × (payload ≡ key_bytes priv compressed)
unfolding payload_problem
of_payload payload bytes h = elim (Bool-cases (length payload == 33)) [
  | inl long ↦ elim (Bool-cases (get_or payload 32 0 == 1)) [
    | inl marked ↦
        let size : length (take 32 payload) ≡ 32 =
          ground (arith, length-take 32 payload, (==_iff (length payload) 33).0 long) in
        let (priv, range, same) =
          of_IsScalar (take 32 payload) (All-take IsByte 32 payload bytes) size
            (rw marked at (rw long at h)) in
        (
          priv,
          true,
          range,
          split_last payload 32 ((==_iff (length payload) 33).0 long)
              ∙ ap (λ t. t ++ (get_or payload 32 0 ∷ [])) same
              ∙ ap (λ x. to_be 32 priv ++ (x ∷ [])) ((==_iff (get_or payload 32 0) 1).0 marked),
        )
    | inr other ↦ absurd (some-ne-none (rw other at (rw long at h)))
  ]
  | inr short ↦ elim (Bool-cases (length payload == 32)) [
    | inl plain ↦
        let (priv, range, same) =
          of_IsScalar payload bytes ((==_iff (length payload) 32).0 plain)
            (rw plain at (rw short at h)) in
        (priv, false, range, same)
    | inr odd ↦ absurd (some-ne-none (rw odd at (rw short at h)))
  ]
]

cons_body :
    (v : ℕ) (payload : List ℕ) (priv : ℕ) (compressed : Bool)
    → v ≡ wam_wif_version
    → payload ≡ key_bytes priv compressed
    → v ∷ payload ≡ wif_payload priv wam_wif_version compressed
cons_body v payload priv true e f = cc
cons_body v payload priv false e f = cc

of_body :
    (body : List ℕ)
    → All IsByte body
    → body_problem body ≡ none
    → (priv : ℕ) × (compressed : Bool) × IsScalar priv
      × (body ≡ wif_payload priv wam_wif_version compressed)
unfolding body_problem
of_body [] bytes h = absurd (some-ne-none h)
of_body (v ∷ payload) (hv, bytes) h = elim (Bool-cases (v == wam_wif_version)) [
  | inl right ↦
      let (priv, compressed, range, same) =
        of_payload payload bytes (rw (right, body_problem) at h) in
      (
        priv,
        compressed,
        range,
        cons_body v payload priv compressed ((==_iff v wam_wif_version).0 right) same,
      )
  | inr wrong ↦ absurd (some-ne-none (rw (wrong, body_problem) at h))
]

key_scalar_ok :
    (priv : ℕ) (compressed : Bool)
    → IsScalar priv
    → scalar_problem (take 32 (key_bytes priv compressed)) ≡ none
unfolding IsScalar
key_scalar_ok priv compressed range = in_range_scalar (take 32 (key_bytes priv compressed)) (
    subst IsScalar
      (sym (scalar_of_payload priv wam_wif_version compressed (omega (arith, range.1)))) range)

key_payload_ok :
    (priv : ℕ) (compressed : Bool)
    → IsScalar priv
    → payload_problem (key_bytes priv compressed) ≡ none
unfolding payload_problem
key_payload_ok priv true range =
    let bs : List ℕ = key_bytes priv true in
    let size : (length bs == 33) ≡ true =
      ground (arith, length-wif_payload priv wam_wif_version true) in
    let mark : (get_or bs 32 0 == 1) ≡ true =
      ground (arith, get_or-last (to_be 32 priv) 1 0 32 (omega (arith, length-to_be 32 priv))) in
    rw size (rw mark (key_scalar_ok priv true range))
key_payload_ok priv false range =
    let bs : List ℕ = key_bytes priv false in
    let long : (length bs == 33) ≡ false =
      ground (arith, length-wif_payload priv wam_wif_version false) in
    let size : (length bs == 32) ≡ true =
      ground (arith, length-wif_payload priv wam_wif_version false) in
    rw long (
      rw size (
        ap scalar_problem (sym (take_all bs 32 (sym (length-to_be 32 priv))))
        ∙ key_scalar_ok priv false range))

key_body_ok :
    (priv : ℕ) (compressed : Bool)
    → IsScalar priv
    → body_problem (wif_payload priv wam_wif_version compressed) ≡ none
unfolding body_problem
key_body_ok priv true range = key_payload_ok priv true range
key_body_ok priv false range = key_payload_ok priv false range

at_least_5 :
    (compressed : Bool) (n : ℕ) → n ≡ (if compressed then 34 else 33) → (m : ℕ) → m ≡ n + 4 → 5 ≤ m
at_least_5 true n e m f = omega arith
at_least_5 false n e m f = omega arith

module _ (sha256 : List ℕ → List ℕ) (digest : IsDigest sha256) where
  passed :
      (raw : List ℕ)
      → raw_problem sha256 raw ≡ none
      → (raw ≡ payload_of raw ++ checksum sha256 digest (payload_of raw))
        × (body_problem (payload_of raw) ≡ none)
  unfolding raw_problem
  passed raw h = elim (Bool-cases (ltb (length raw) 5)) [
    | inl short ↦ absurd (some-ne-none (rw (short, raw_problem) at h))
    | inr long ↦
        elim (Bool-cases (bytes_eq (checksum sha256 digest (payload_of raw)) (checksum_of raw))) [
          | inl good ↦ (
            sym (take-append-drop (length raw - 4) raw)
                ∙ ap (λ t. payload_of raw ++ t)
                    (sym (
                      eq_of_bytes_eq (checksum sha256 digest (payload_of raw)) (checksum_of raw)
                        good)),
            rw good at (rw (long, raw_problem) at h),
          )
          | inr bad ↦ absurd (some-ne-none (rw bad at (rw (long, raw_problem) at h)))
        ]
  ]

  raw_passes :
      (priv : ℕ) (compressed : Bool)
      → IsScalar priv
      → let p = wif_payload priv wam_wif_version compressed in
        raw_problem sha256 (p ++ checksum sha256 digest p) ≡ none
  unfolding raw_problem
  raw_passes priv compressed range =
      let p : List ℕ = wif_payload priv wam_wif_version compressed in
      let c : List ℕ = checksum sha256 digest p in
      let long : ltb (length (p ++ c)) 5 ≡ false = le→ltb (length (p ++ c)) 5 (
        at_least_5 compressed (length p) (length-wif_payload priv wam_wif_version compressed)
          (length (p ++ c))
          (length-append p c ∙ ap (λ t. length p + t) (length-checksum sha256 digest p))) in
      rw long (
        rw (payload_of-append sha256 digest p, checksum_of-append sha256 digest p)
          (rw (bytes_eq_self c) (key_body_ok priv compressed range)))

  of_passed :
      (s raw : List ℕ)
      → raw_of s ≡ some raw
      → raw_problem sha256 raw ≡ none
      → (priv : ℕ) × (compressed : Bool) × IsScalar priv
        × (let p = wif_payload priv wam_wif_version compressed in
            raw_of s ≡ some (p ++ take 4 (dsha256 sha256 p)))
  of_passed s raw read h =
      let (whole, good) = passed raw h in
      let bytes : All IsByte (payload_of raw) =
        All-take IsByte (length raw - 4) raw (raw_of-IsByte s raw read) in
      let (priv, compressed, range, same) = of_body (payload_of raw) bytes good in
      (
        priv,
        compressed,
        range,
        read ∙ ap some (whole ∙ ap (λ t. t ++ checksum sha256 digest t) same),
      )

  -- `_wif_problem` passes a text exactly if it stands for the bytes of a mainnet key, for a
  -- compressed public key or not, whose scalar is at least 1 and below the order of secp256k1, and
  -- the first four bytes of their double hash.
  -- The hash is any function whose digests are 32 bytes.
  pub wif_problem_iff :
      (s : List ℕ)
      → (wif_problem sha256 s ≡ none) ↔ (
          (priv : ℕ) × (compressed : Bool) × IsScalar priv
          × (let p = wif_payload priv wam_wif_version compressed in
              raw_of s ≡ some (p ++ take 4 (dsha256 sha256 p))))
  unfolding wif_problem
  wif_problem_iff s = (
    λ h. elim (Option-cases (raw_of s)) [
      | inl gone ↦ absurd (some-ne-none (rw (gone, wif_problem) at h))
      | inr (raw, read) ↦ of_passed s raw read (rw (read, wif_problem) at h)
    ],
    λ (priv, compressed, range, read). rw (read, wif_problem) (raw_passes priv compressed range),
  )

  -- A text that `_wif_problem` passes is read by `wif_to_privkey` as a mainnet key whose scalar is
  -- at least 1 and below the order of secp256k1.
  -- The hash is any function whose digests are 32 bytes.
  pub usable_key_read :
      (s : List ℕ)
      → wif_problem sha256 s ≡ none
      → (priv : ℕ) × (compressed : Bool) × IsScalar priv
        × (wif_to_privkey sha256 s ≡ ok (priv, wam_wif_version, compressed))
  unfolding wif_to_privkey IsScalar
  usable_key_read s h =
      let (priv, compressed, range, read) = (wif_problem_iff s).0 h in
      (
        priv,
        compressed,
        range,
        rw (strip_base58 s _ read, wif_to_privkey)
            (rw read (
              read_wif-payload sha256 digest priv wam_wif_version compressed
                (omega (arith, range.1)))),
      )
