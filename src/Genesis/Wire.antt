-- ===== src/Genesis/Wire.antt =====
-- The fields of a serialized transaction, against a reader of the format. A field is read from in
-- front of any bytes that follow it.
use wam_coin.Common.{
  ℕ, ◌*◌, ◌%◌, ◌^◌, ◌<◌, ◌≡◌, refl, sym, ap, ◌∙◌, List, [], ◌∷◌, ◌++◌, append_assoc, Option, none,
  some, true, ◌==◌, ltb, leb, lt→ltb, le→leb, if◌then◌else◌, length, take, drop, inl, inr, arith,
  Bool-cases, length-append, take-append, drop-append,
}
use wam_coin.Common.Bytes.{to_le, from_le, from_le-to_le, length-to_le}
use wam_coin.Genesis.{◌+?◌, pack, varint, push_data}

-- The reader: `k` bytes, a little-endian number of `k` bytes, a CompactSize, a push of a script.
unfoldable pub read_bytes : ℕ → List ℕ → Option (List ℕ × List ℕ)
read_bytes k bs = if leb k (length bs) then some (take k bs, drop k bs) else none

unfoldable pub read_le : ℕ → List ℕ → Option (ℕ × List ℕ)
read_le k bs = elim (read_bytes k bs) [ none ↦ none | some r ↦ some (from_le r.0, r.1) ]

unfoldable pub read_varint : List ℕ → Option (ℕ × List ℕ)
read_varint [] = none
read_varint (b ∷ bs) =
    if ltb b 0xFD
    then some (b, bs)
    else if b == 0xFD
    then read_le 2 bs
    else if b == 0xFE
    then read_le 4 bs
    else read_le 8 bs

unfoldable pub read_counted : Option (ℕ × List ℕ) → Option (List ℕ × List ℕ)
read_counted none = none
read_counted (some r) = read_bytes r.0 r.1

unfoldable pub read_push : List ℕ → Option (List ℕ × List ℕ)
read_push [] = none
read_push (b ∷ bs) =
    if ltb b 0x4C
    then read_bytes b bs
    else if b == 0x4C
    then read_counted (read_le 1 bs)
    else if b == 0x4D
    then read_counted (read_le 2 bs)
    else if b == 0x4E
    then read_counted (read_le 4 bs)
    else none

pub read_bytes-append :
    (xs rest : List ℕ) (k : ℕ) → k ≡ length xs → read_bytes k (xs ++ rest) ≡ some (xs, rest)
unfolding read_bytes
read_bytes-append xs rest k e =
    let enough : leb k (length (xs ++ rest)) ≡ true =
      le→leb k (length (xs ++ rest)) (omega (arith, length-append xs rest)) in
    rw enough (rw (take-append xs rest k e, drop-append xs rest k e))

pub read_le-append :
    (k n : ℕ) (rest : List ℕ) → n < 2 ^ (8 * k) → read_le k (to_le k n ++ rest) ≡ some (n, rest)
unfolding read_le
read_le-append k n rest h =
    rw (read_bytes-append (to_le k n) rest k (sym (length-to_le k n)), read_le)
      (rw (from_le-to_le k n h))

pub pack_fits : (k n : ℕ) → n < 2 ^ (8 * k) → pack k n ≡ some (to_le k n)
unfolding pack
pack_fits k n h = rw (lt→ltb n (2 ^ (8 * k)) h)

to_le_one : (n : ℕ) → n < 256 → to_le 1 n ≡ n ∷ []
unfolding to_le
to_le_one n h = let low : n % 256 ≡ n = omega arith in ap (λ t. t ∷ []) low

pack_one : (n : ℕ) → n < 256 → pack 1 n ≡ some (n ∷ [])
pack_one n h = pack_fits 1 n h ∙ ap some (to_le_one n h)

-- A CompactSize behind each of the three tags.
tagged : (t k n : ℕ) → n < 2 ^ (8 * k) → some (t ∷ []) +? pack k n ≡ some (t ∷ to_le k n)
tagged t k n h = rw (pack_fits k n h)

-- A count below 2^64 has a CompactSize, which is read as that count.
pub read_varint-varint :
    (n : ℕ)
    → n < 2 ^ 64
    → (bs : List ℕ) × (varint n ≡ some bs)
      × ((rest : List ℕ) → read_varint (bs ++ rest) ≡ some (n, rest))
unfolding varint read_varint
read_varint-varint n h = elim (Bool-cases (ltb n 0xFD)) [
  | inl small ↦
      let low : n < 256 = ground (arith, small) in
      (n ∷ [], rw (small, varint) (pack_one n low), λ rest. rw (small, read_varint))
  | inr large ↦ elim (Bool-cases (leb n 0xFFFF)) [
    | inl two ↦
        let fits : n < 2 ^ (8 * 2) = ground (arith, two) in
        (
          0xFD ∷ to_le 2 n,
          rw (large, varint) (rw two (tagged 0xFD 2 n fits)),
          λ rest. read_le-append 2 n rest fits,
        )
    | inr more ↦ elim (Bool-cases (leb n 0xFFFFFFFF)) [
      | inl four ↦
          let fits : n < 2 ^ (8 * 4) = ground (arith, four) in
          (
            0xFE ∷ to_le 4 n,
            rw (large, varint) (rw more (rw four (tagged 0xFE 4 n fits))),
            λ rest. read_le-append 4 n rest fits,
          )
      | inr eight ↦ (
        0xFF ∷ to_le 8 n,
        rw (large, varint) (rw more (rw eight (tagged 0xFF 8 n h))),
        λ rest. read_le-append 8 n rest h,
      )
    ]
  ]
]

tagged_push :
    (t k : ℕ) (payload : List ℕ)
    → length payload < 2 ^ (8 * k)
    → some (t ∷ []) +? pack k (length payload) +? some payload
      ≡ some (t ∷ (to_le k (length payload) ++ payload))
tagged_push t k payload h = rw (pack_fits k (length payload) h)

counted :
    (k : ℕ) (payload rest : List ℕ)
    → length payload < 2 ^ (8 * k)
    → read_counted (read_le k ((to_le k (length payload) ++ payload) ++ rest))
      ≡ some (payload, rest)
unfolding read_counted
counted k payload rest h =
    ap (λ t. read_counted (read_le k t)) (append_assoc (to_le k (length payload)) payload rest)
    ∙ ap read_counted (read_le-append k (length payload) (payload ++ rest) h)
    ∙ read_bytes-append payload rest (length payload) refl

-- A byte string of less than 2^32 bytes has a push, which is read as that byte string.
pub read_push-push_data :
    (payload : List ℕ)
    → length payload < 2 ^ 32
    → (bs : List ℕ) × (push_data payload ≡ some bs)
      × ((rest : List ℕ) → read_push (bs ++ rest) ≡ some (payload, rest))
unfolding push_data read_push
read_push-push_data payload h =
    let n : ℕ = length payload in
    elim (Bool-cases (ltb n 0x4C)) [
      | inl small ↦
          let low : n < 256 = ground (arith, small) in
          (
            n ∷ payload,
            rw (small, push_data) (rw (pack_one n low)),
            λ rest. rw (small, read_push) (read_bytes-append payload rest n refl),
          )
      | inr large ↦ elim (Bool-cases (leb n 0xFF)) [
        | inl one ↦
            let fits : n < 2 ^ (8 * 1) = ground (arith, one) in
            (
              0x4C ∷ (to_le 1 n ++ payload),
              rw (large, push_data) (rw one (tagged_push 0x4C 1 payload fits)),
              λ rest. counted 1 payload rest fits,
            )
        | inr more ↦ elim (Bool-cases (leb n 0xFFFF)) [
          | inl two ↦
              let fits : n < 2 ^ (8 * 2) = ground (arith, two) in
              (
                0x4D ∷ (to_le 2 n ++ payload),
                rw (large, push_data) (rw more (rw two (tagged_push 0x4D 2 payload fits))),
                λ rest. counted 2 payload rest fits,
              )
          | inr four ↦ (
            0x4E ∷ (to_le 4 n ++ payload),
            rw (large, push_data) (rw more (rw four (tagged_push 0x4E 4 payload h))),
            λ rest. counted 4 payload rest h,
          )
        ]
      ]
    ]
