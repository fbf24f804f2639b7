-- ===== src/Founder/Minted.antt =====
-- A key that `main` of scripts/gen_founder_key.py has made, and the check of its paper copy.
use wam_coin.Common.{
  ℕ, ◌≤◌, ◌<◌, ◌≡◌, ◌≢◌, ◌⊎◌, refl, sym, ap, ◌∙◌, List, [], ◌∷◌, some, some_inj, none-ne-some, Bool,
  true, false, ◌==◌, ◌&&◌, leb, ltb, get_or, length, length-append, Bool-cases, Option-cases, inl,
  inr, arith, subst,
}
use wam_coin.Common.Bytes.{to_be, bytes_eq_self}
use wam_coin.Common.Result.{ok}
use wam_coin.Base58.{raw_of, number_of, leading_ones}
use wam_coin.Common.BitLength.{bit_length}
use wam_coin.Base58.RoundTrip.{IsDigest, checksum, length-checksum}
use wam_coin.Curve.{privkey_to_pubkey}
use wam_coin.Keys.{strip, to_wif, to_address}
use wam_coin.Keys.Strip.{strip_base58}
use wam_coin.Keys.Wif.{secp256k1_n, wif_to_privkey}
use wam_coin.Keys.Wif.Laws.{wif_payload, raw_of-to_wif, wif_to_privkey-to_wif}
use wam_coin.Keys.Wif.Usable.{IsScalar}
use wam_coin.Founder.{
  Net, mainnet, testnet, row, offline_gate, draw, Keypair, Minting, refused, waiting,
  bad_address_char, bad_wif_char, minted, matches, net_of_secret, mint, write_key, generate,
  compare_key, judge_key, judge_text, verify_backup,
}

draw-IsScalar : (numbers : List ℕ) (priv : ℕ) → draw numbers ≡ some priv → IsScalar priv
unfolding draw IsScalar
draw-IsScalar [] priv h = absurd (none-ne-some h)
draw-IsScalar (n ∷ more) priv h = elim (Bool-cases (leb 1 n && ltb n secp256k1_n)) [
  | inl good ↦ let same : n ≡ priv = some_inj (rw (good, draw) at h) in ground (arith, good, same)
  | inr bad ↦ draw-IsScalar more priv (rw (bad, draw) at h)
]

minted_inj : {j k : Keypair} → minted j ≡ minted k → j ≡ k
minted_inj h = cc

refused-ne-minted : {k : Keypair} → refused ≢ minted k
refused-ne-minted h = cc

waiting-ne-minted : {k : Keypair} → waiting ≢ minted k
waiting-ne-minted h = cc

bad_address-ne-minted : {k : Keypair} → bad_address_char ≢ minted k
bad_address-ne-minted h = cc

bad_wif-ne-minted : {k : Keypair} → bad_wif_char ≢ minted k
bad_wif-ne-minted h = cc

raised-ne-minted : {k : Keypair} → Minting.raised ≢ minted k
raised-ne-minted h = cc

offline_gate-cases :
    (network : Net) (online override : Bool)
    → offline_gate network online override ≡ true
    → online ≡ false ⊎ (network ≡ testnet ⊎ override ≡ true)
unfolding offline_gate
offline_gate-cases network false override h = inl refl
offline_gate-cases testnet true override h = inr (inl refl)
offline_gate-cases mainnet true override h = inr (inr h)

empty_text : raw_of [] ≡ some []
unfolding raw_of number_of leading_ones to_be bit_length
empty_text = refl

no_room : (raw : List ℕ) → [] ≡ raw → 1 ≤ length raw → ⊥
no_room raw e size =
    let sizes : length {A = ℕ} [] ≡ length raw = ap (length {A = ℕ}) e in omega (arith, size, sizes)

raw_of-nonempty : (s raw : List ℕ) → raw_of s ≡ some raw → 1 ≤ length raw → length s ≢ 0
raw_of-nonempty [] raw e size = λ none_left.
    let same : [] ≡ raw = some_inj (sym empty_text ∙ e) in absurd (no_room raw same size)
raw_of-nonempty (c ∷ s) raw e size = λ none_left. absurd (omega (arith, none_left))

module _ (sha256 : List ℕ → List ℕ) (digest : IsDigest sha256) where
  mint-minted :
      (network : Net) (priv : ℕ) (address wif : List ℕ) (k : Keypair)
      → mint sha256 network priv address wif ≡ minted k
      → record { priv = priv; address = address; wif = wif } ≡ k
  unfolding mint
  mint-minted network priv address wif k h =
      elim (Bool-cases (get_or address 0 0 == (row network).addr_char)) [
        | inr differs ↦ absurd (bad_address-ne-minted (rw (differs, mint) at h))
        | inl a ↦ elim (Bool-cases (get_or wif 0 0 == (row network).wif_char)) [
          | inr differs ↦ absurd (bad_wif-ne-minted (rw differs at (rw (a, mint) at h)))
          | inl w ↦ minted_inj (rw w at (rw (a, mint) at h))
        ]
      ]

  net_of_row : (network : Net) → net_of_secret (row network).secret ≡ some network
  net_of_row mainnet = refl
  net_of_row testnet = refl

  row_bound : (network : Net) → (row network).secret < 256
  row_bound mainnet = omega arith
  row_bound testnet = omega arith

  compare_key-own :
      (network : Net) (priv : ℕ) (key address : List ℕ)
      → privkey_to_pubkey priv true ≡ some key
      → to_address sha256 key (row network).pubkey ≡ some address
      → compare_key sha256 address priv true network ≡ matches network true
  unfolding compare_key
  compare_key-own network priv key address e f =
      rw (e, compare_key) (rw f (rw (bytes_eq_self address)))

  judge_text-some :
      (expected s : List ℕ) (key : ℕ × ℕ × Bool)
      → wif_to_privkey sha256 s ≡ ok key
      → length s ≢ 0
      → judge_text sha256 expected s ≡ judge_key sha256 expected key
  unfolding judge_text
  judge_text-some expected [] key e n = absurd (n refl)
  judge_text-some expected (c ∷ s) key e n = rw (e, judge_text)

  judge_key-own :
      (network : Net) (priv : ℕ) (key address : List ℕ)
      → IsScalar priv
      → privkey_to_pubkey priv true ≡ some key
      → to_address sha256 key (row network).pubkey ≡ some address
      → judge_key sha256 address (priv, (row network).secret, true) ≡ matches network true
  unfolding judge_key IsScalar
  judge_key-own network priv key address good e f =
      let inside : (leb 1 priv && ltb priv secp256k1_n) ≡ true = ground (arith, good) in
      rw (inside, judge_key)
        (rw (net_of_row network) (compare_key-own network priv key address e f))

  key_text :
      (network : Net) (priv : ℕ) (wif : List ℕ)
      → IsScalar priv
      → to_wif sha256 priv (row network).secret true ≡ some wif
      → (strip wif ≡ wif)
        × (length wif ≢ 0)
        × (wif_to_privkey sha256 wif ≡ ok (priv, (row network).secret, true))
  unfolding IsScalar
  key_text network priv wif good e =
      let (text, written, back) =
        wif_to_privkey-to_wif sha256 digest priv (row network).secret true (omega (arith, good))
          (row_bound network) in
      let read =
        raw_of-to_wif sha256 digest priv (row network).secret true wif e (row_bound network)
          (omega (arith, good)) in
      (
        strip_base58 wif _ read,
        raw_of-nonempty wif _ read (
            omega (
              arith,
              length-append (wif_payload priv (row network).secret true)
                  (checksum sha256 digest (wif_payload priv (row network).secret true)),
              length-checksum sha256 digest (wif_payload priv (row network).secret true),
            )),
        subst (λ t. wif_to_privkey sha256 t ≡ ok (priv, (row network).secret, true))
            (some_inj (sym written ∙ e)) back,
      )

  write_key-own :
      (network : Net) (priv : ℕ) (k : Keypair)
      → IsScalar priv
      → write_key sha256 network priv ≡ minted k
      → (k.priv ≡ priv) × (verify_backup sha256 k.address (some k.wif) ≡ matches network true)
  unfolding write_key verify_backup
  write_key-own network priv k good h = elim (Option-cases (privkey_to_pubkey priv true)) [
    | inl gone ↦ absurd (raised-ne-minted (rw (gone, write_key) at h))
    | inr (key, made) ↦ elim (Option-cases (to_address sha256 key (row network).pubkey)) [
      | inl gone ↦ absurd (raised-ne-minted (rw gone at (rw (made, write_key) at h)))
      | inr (address, paid) ↦ elim (Option-cases (to_wif sha256 priv (row network).secret true)) [
        | inl gone ↦ absurd (raised-ne-minted (rw gone at (rw paid at (rw (made, write_key) at h))))
        | inr (wif, written) ↦
            let same =
              mint-minted network priv address wif k
                (rw written at (rw paid at (rw (made, write_key) at h))) in
            let (stripped, size, back) = key_text network priv wif good written in
            subst
              (λ j.
                (j.priv ≡ priv)
                × (verify_backup sha256 j.address (some j.wif) ≡ matches network true))
              same
              (
                refl,
                rw (stripped, verify_backup)
                    (judge_text-some address wif _ back size
                      ∙ judge_key-own network priv key address good made paid),
              )
      ]
    ]
  ]

  -- A key that was made is a scalar of the curve. It was made with no network route, or for the test
  -- network, or because the risk was accepted. The check of its paper copy against its address, with the
  -- text of the key typed in as it was written, ends in a match that names its network. The hash is any
  -- function whose digests are 32 bytes.
  pub verify_backup-generate :
      (network : Net) (online override : Bool) (numbers : List ℕ) (k : Keypair)
      → generate sha256 network online override numbers ≡ minted k
      → IsScalar k.priv
        × (online ≡ false ⊎ (network ≡ testnet ⊎ override ≡ true))
        × (verify_backup sha256 k.address (some k.wif) ≡ matches network true)
  unfolding generate
  verify_backup-generate network online override numbers k h =
      elim (Bool-cases (offline_gate network online override)) [
        | inr closed ↦ absurd (refused-ne-minted (rw (closed, generate) at h))
        | inl open_gate ↦ elim (Option-cases (draw numbers)) [
          | inl waits ↦ absurd (waiting-ne-minted (rw waits at (rw (open_gate, generate) at h)))
          | inr (priv, drawn) ↦
              let good = draw-IsScalar numbers priv drawn in
              let (same, checked) =
                write_key-own network priv k good (rw drawn at (rw (open_gate, generate) at h)) in
              (
                subst IsScalar (sym same) good,
                offline_gate-cases network online override open_gate,
                checked,
              )
        ]
      ]
