-- ===== src/Treasury/Sign.antt =====
-- `cmd_sign` of scripts/treasury_spend.py and what it calls: what is read, checked and asked before a
-- signature exists, and what is signed. The node of the offline machine is two parameters, `decode` and
-- `sign`; what is typed comes as lists, an input that ends early as `none` or as a list that is used up.
pub mod Entered
pub mod Approved
pub mod Written
use wam_coin.Common.{
  ℕ, zero, suc, List, [], ◌∷◌, map, Option, none, some, Bool, true, false, if◌then◌else◌,
}
use wam_coin.Common.Bytes.{bytes_eq}
use wam_coin.Common.Result.{Result, ok, err, ◌>>=◌}
use wam_coin.Keys.{strip}
use wam_coin.Keys.Wif.{wif_problem}
use wam_coin.Treasury.{Vin, unreadable, coinbase, spends, Plan, Tx, verify_against_plan}
use wam_coin.Treasury.Batch.{Part, Key, batch_problem}

-- A plan as it stands in its file: `none` for a destination that is not there and for an input set that
-- is no list.
pub record PlanFile : Type 0 where
  pub to : Option (List ℕ)
  pub input_set : Option (List Vin)
  pub amount : Option ℕ
  pub change : Option ℕ
  pub fee : Option ℕ
  pub input_total : Option ℕ
  pub unsigned_hex : List ℕ

-- Why nothing is signed. The complaints of `_batch_problem` and those of `_verify_against_plan` are one
-- case, and a missing field that raises is counted with them.
pub data Refusal : Type 0 where
  unreadable_plan refused_plan undecodable other_address no_key unusable_keys interrupted : Refusal

-- The keys that `_batch_problem` makes of an input set, without a conversion. An entry that names no output has none: whether it
-- collides or not, `_verify_against_plan` refuses it later.
abbrev pub named_points : List Vin → List Key
named_points [] = []
named_points (spends v ∷ vs) = v.key ∷ named_points vs
named_points (unreadable ∷ vs) = named_points vs
named_points (coinbase ∷ vs) = named_points vs

abbrev pub named_inputs : Option (List Vin) → Option (List Key)
named_inputs none = none
named_inputs (some vs) = some (named_points vs)

abbrev pub part_of : PlanFile → Part
part_of f = record { to = f.to; inputs = named_inputs f.input_set }

-- What `_verify_against_plan` reads of the file.
unfoldable pub plan_of : PlanFile → Option Plan
plan_of f = elim f.to [
  | none ↦ none
  | some to ↦ elim f.input_set [
    | none ↦ none
    | some vs ↦ some (record {
      input_set = vs;
      to = to;
      amount = f.amount;
      change = f.change;
      fee = f.fee;
      input_total = f.input_total;
    })
  ]
]

unfoldable pub read_plans : List (Option PlanFile) → Result Refusal (List PlanFile)
read_plans [] = ok []
read_plans (none ∷ fs) = err unreadable_plan
read_plans (some f ∷ fs) = do rest ← read_plans fs; ok (f ∷ rest)

unfoldable pub check_batch : List PlanFile → Result Refusal (List PlanFile)
check_batch files = elim (batch_problem (map part_of files)) [
  | some why ↦ err refused_plan
  | none ↦ ok files
]

-- What the operator types when asked for the destination: `strip` and a comparison. There is always a first
-- plan, because `parts` is at least 1.
unfoldable pub confirm : Option (List ℕ) → List PlanFile → Result Refusal (List ℕ)
confirm none files = err interrupted
confirm (some typed) [] = err interrupted
confirm (some typed) (f ∷ fs) = elim f.to [
  | none ↦ err refused_plan
  | some to ↦ if bytes_eq (strip typed) to then ok to else err other_address
]

-- The answer of `signrawtransactionwithkey`.
pub data SignReply : Type 0 where
  failed incomplete : SignReply
  complete : List ℕ → SignReply

-- How far `cmd_sign` came: the bytes of the signed files that it wrote, in order, and how it ended.
pub data SigningEnd : Type 0 where
  finished not_signed : SigningEnd
  refused : Refusal → SigningEnd

pub record Session : Type 0 where
  pub written : List (List ℕ)
  pub ending : SigningEnd

module _ (sha256 : List ℕ → List ℕ) where
  -- One round of the prompt, with what the rounds that are left give.
  unfoldable pub judge_entry : List ℕ → Result Refusal (List ℕ) → Result Refusal (List ℕ)
  judge_entry [] rest = err no_key
  judge_entry (c ∷ s) rest = elim (wif_problem sha256 (c ∷ s)) [
    | none ↦ ok (c ∷ s)
    | some why ↦ rest
  ]

  -- `for attempt in range(3)`, called with 3.
  unfoldable pub ask_for_key : ℕ → List (List ℕ) → Result Refusal (List ℕ)
  ask_for_key zero typed = err unusable_keys
  ask_for_key (suc left) [] = err interrupted
  ask_for_key (suc left) (entry ∷ typed) = judge_entry (strip entry) (ask_for_key left typed)

module _ (decode : List ℕ → Option Tx) where
  unfoldable pub sign_preflight : PlanFile → Result Refusal (List ℕ)
  sign_preflight f = elim (decode f.unsigned_hex) [
    | none ↦ err undecodable
    | some tx ↦ elim (plan_of f) [
      | none ↦ err refused_plan
      | some plan ↦ elim (verify_against_plan plan tx) [
        | err why ↦ err refused_plan
        | ok b ↦ if b then ok f.unsigned_hex else err refused_plan
      ]
    ]
  ]

  unfoldable pub preflight_all : List PlanFile → Result Refusal (List (List ℕ))
  preflight_all [] = ok []
  preflight_all (f ∷ fs) = do hex ← sign_preflight f; rest ← preflight_all fs; ok (hex ∷ rest)

  -- Everything that stands before the first signature.
  unfoldable pub approve :
      (List ℕ → List ℕ)
      → List (Option PlanFile)
      → Option (List ℕ)
      → List (List ℕ)
      → Result Refusal (List PlanFile × List ℕ)
  approve sha256 found typed keys = do
    files ← read_plans found
    batch ← check_batch files
    checked ← preflight_all files
    to ← confirm typed files
    wif ← ask_for_key sha256 3 keys
    ok (files, wif)

module _ (sign : PlanFile → List ℕ → SignReply) where
  -- The loop over the plans, each signed and written before the next.
  unfoldable pub sign_all : List PlanFile → List ℕ → Session
  sign_all [] wif = record { written = []; ending = finished }
  sign_all (f ∷ fs) wif = elim (sign f wif) [
    | failed ↦ record { written = []; ending = not_signed }
    | incomplete ↦ record { written = []; ending = not_signed }
    | complete hex ↦
        let rest = sign_all fs wif in record { written = hex ∷ rest.written; ending = rest.ending }
  ]

  unfoldable pub cmd_sign :
      (List ℕ → List ℕ)
      → (List ℕ → Option Tx)
      → List (Option PlanFile)
      → Option (List ℕ)
      → List (List ℕ)
      → Session
  cmd_sign sha256 decode found typed keys = elim (approve decode sha256 found typed keys) [
    | err why ↦ record { written = []; ending = refused why }
    | ok (files, wif) ↦ sign_all files wif
  ]
