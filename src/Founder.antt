-- ===== src/Founder.antt =====
-- scripts/gen_founder_key.py: the gate in front of a key (`offline_gate`), the making of one (`main`) and
-- the check of its paper copy (`verify_backup`). The random numbers, the probe of the network and the
-- typed text are parameters.
pub mod Minted
use wam_coin.Common.{
  ℕ, List, [], ◌∷◌, Option, none, some, Bool, true, false, ◌==◌, ◌&&◌, leb, ltb, if◌then◌else◌,
  get_or,
}
use wam_coin.Common.Bytes.{bytes_eq}
use wam_coin.Common.Result.{Result, ok, err}
use wam_coin.Curve.{privkey_to_pubkey}
use wam_coin.Keys.{strip, to_wif, to_address}
use wam_coin.Keys.Wif.{secp256k1_n, WifError, wif_to_privkey}

-- A row of the table NETWORKS; the fields that nothing reads are left out.
pub record NetworkRow : Type 0 where
  pub pubkey : ℕ
  pub secret : ℕ
  pub addr_char : ℕ
  pub wif_char : ℕ

pub data Net : Type 0 where
  mainnet testnet : Net

abbrev pub row : Net → NetworkRow
row mainnet = record { pubkey = 73; secret = 190; addr_char = b'W'; wif_char = b'V' }
row testnet = record { pubkey = 65; secret = 239; addr_char = b'T'; wif_char = b'c' }

abbrev is_mainnet : Net → Bool
is_mainnet mainnet = true
is_mainnet testnet = false

unfoldable pub offline_gate : Net → Bool → Bool → Bool
offline_gate network online override =
    if online then if is_mainnet network then override else true else true

-- `while True: priv = secrets.randbits(256); if 1 <= priv < N: break`, on the numbers that come; `none`
-- is a loop that still waits for one.
unfoldable pub draw : List ℕ → Option ℕ
draw [] = none
draw (priv ∷ more) = elim (leb 1 priv && ltb priv secp256k1_n) [
  | true ↦ some priv
  | false ↦ draw more
]

pub record Keypair : Type 0 where
  pub priv : ℕ
  pub address : List ℕ
  pub wif : List ℕ

-- How `main` ends when it is asked for a key. `raised` is a TypeError or an OverflowError.
pub data Minting : Type 0 where
  refused waiting raised bad_address_char bad_wif_char : Minting
  minted : Keypair → Minting

-- How `verify_backup` ends.
pub data BackupVerdict : Type 0 where
  cancelled nothing_entered : BackupVerdict
  malformed : WifError → BackupVerdict
  out_of_range raised : BackupVerdict
  not_a_wam_key : ℕ → BackupVerdict
  no_match : List ℕ → BackupVerdict
  matches : Net → Bool → BackupVerdict

-- `next((k for k, v in NETWORKS.items() if v["secret"] == version), None)`
abbrev pub net_of_secret : ℕ → Option Net
net_of_secret version =
    if version == 190 then some mainnet else if version == 239 then some testnet else none

module _ (sha256 : List ℕ → List ℕ) where
  -- The assertions on the texts; that `hash160` has 20 bytes is asserted too, and always holds.
  unfoldable pub mint : Net → ℕ → List ℕ → List ℕ → Minting
  mint network priv address wif =
      if get_or address 0 0 == (row network).addr_char
      then if get_or wif 0 0 == (row network).wif_char
        then minted (record { priv = priv; address = address; wif = wif })
        else bad_wif_char
      else bad_address_char

  -- From a scalar to the texts.
  unfoldable pub write_key : Net → ℕ → Minting
  write_key network priv = elim (privkey_to_pubkey priv true) [
    | none ↦ raised
    | some key ↦ elim (to_address sha256 key (row network).pubkey) [
      | none ↦ raised
      | some address ↦ elim (to_wif sha256 priv (row network).secret true) [
        | none ↦ raised
        | some wif ↦ mint network priv address wif
      ]
    ]
  ]

  unfoldable pub generate : Net → Bool → Bool → List ℕ → Minting
  generate network online override numbers = elim (offline_gate network online override) [
    | false ↦ refused
    | true ↦ elim (draw numbers) [ none ↦ waiting | some priv ↦ write_key network priv ]
  ]

  -- From the decoded key on, for a network.
  unfoldable pub compare_key : List ℕ → ℕ → Bool → Net → BackupVerdict
  compare_key expected priv compressed network = elim (privkey_to_pubkey priv compressed) [
    | none ↦ raised
    | some key ↦ elim (to_address sha256 key (row network).pubkey) [
      | none ↦ raised
      | some derived ↦
          if bytes_eq derived expected then matches network compressed else no_match derived
    ]
  ]

  unfoldable pub judge_key : List ℕ → ℕ × ℕ × Bool → BackupVerdict
  judge_key expected (priv, version, compressed) =
      if leb 1 priv && ltb priv secp256k1_n
      then elim (net_of_secret version) [
        | none ↦ not_a_wam_key version
        | some network ↦ compare_key expected priv compressed network
      ]
      else out_of_range

  unfoldable pub judge_text : List ℕ → List ℕ → BackupVerdict
  judge_text expected [] = nothing_entered
  judge_text expected (c ∷ s) = elim (wif_to_privkey sha256 (c ∷ s)) [
    | err e ↦ malformed e
    | ok key ↦ judge_key expected key
  ]

  -- `none` is an end of file or an interrupt instead of a text.
  unfoldable pub verify_backup : List ℕ → Option (List ℕ) → BackupVerdict
  verify_backup expected none = cancelled
  verify_backup expected (some typed) = judge_text expected (strip typed)

-- The exit code of `verify_backup`.
unfoldable pub backup_code : BackupVerdict → ℕ
backup_code cancelled = 2
backup_code nothing_entered = 2
backup_code (matches n c) = 0
backup_code _ = 1
