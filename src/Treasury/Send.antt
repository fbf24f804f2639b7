-- ===== src/Treasury/Send.antt =====
-- `cmd_broadcast` and `_broadcast_one`: what is checked, asked and sent, and in which order. The node is a
-- parameter of two questions, and what it is told to send is a trace. The report in floating point
-- that stands between the checks and the question only ever refuses, and is a parameter.
use wam_coin.Common.{
  ℕ, ◌+◌, List, [], ◌∷◌, map, Option, none, some, Bool, true, false, ◌==◌, ◌&&◌, ◌||◌,
  if◌then◌else◌,
}
use wam_coin.Common.Result.{Result, ok, err}
use wam_coin.Treasury.{Outpoint, outpoints, Plan, Tx, verify_against_plan}

-- A signed file: its plan, its transaction as the node decodes it, and the bytes to send.
pub record Signed : Type 0 where
  pub plan : Plan
  pub tx : Tx
  pub hex : List ℕ

-- `gettxout` with the mempool: the value of an output that is unspent, as `_atoms` makes of it.
pub data Live : Type 0 where
  gone unreadable : Live
  worth : ℕ → Live

-- The loop over the inputs: whether none is missing, and what they are worth; `none` where `_atoms` dies.
unfoldable pub live_total : (Outpoint → Live) → List Outpoint → Option (Bool × ℕ)
live_total gettxout [] = some (true, 0)
live_total gettxout (p ∷ ps) = elim (gettxout p) [
  | unreadable ↦ none
  | gone ↦ elim (live_total gettxout ps) [ none ↦ none | some r ↦ some (false, r.1) ]
  | worth n ↦ elim (live_total gettxout ps) [ none ↦ none | some r ↦ some (r.0, n + r.1) ]
]

-- The inputs are all there and worth what the plan says.
unfoldable pub inputs_live : (Outpoint → Live) → Plan → Bool
inputs_live gettxout plan = elim (outpoints plan.input_set) [
  | err e ↦ false
  | ok ps ↦ elim (live_total gettxout ps) [
    | none ↦ false
    | some (all_there, total) ↦ elim plan.input_total [
      | none ↦ false
      | some t ↦ all_there && total == t
    ]
  ]
]

-- `_broadcast_one` up to its question, with what the node answers at that time: false where it dies.
unfoldable pub is_checked : (Signed → Bool) → (Outpoint → Live) → Signed → Bool
is_checked report gettxout s = elim (verify_against_plan s.plan s.tx) [
  | err e ↦ false
  | ok b ↦ b && (inputs_live gettxout s.plan && report s)
]

unfoldable pub check_all : (Signed → Bool) → (Outpoint → Live) → List Signed → Bool
check_all report gettxout [] = true
check_all report gettxout (s ∷ ss) = elim (is_checked report gettxout s) [
  | false ↦ false
  | true ↦ check_all report gettxout ss
]

-- The transactions that the node is told to send, part `i` and on. Each is checked again with what the
-- node answers at its turn (`later i`), and the first that fails or that the node refuses ends it.
unfoldable pub send_all :
    (Signed → Bool) → (ℕ → Outpoint → Live) → (List ℕ → Bool) → ℕ → List Signed → List (List ℕ)
send_all report later accepts i [] = []
send_all report later accepts i (s ∷ ss) =
    let rest = send_all report later accepts (i + 1) ss in
    elim (is_checked report (later i) s) [
      | false ↦ []
      | true ↦ s.hex ∷ (if accepts s.hex then rest else [])
    ]

-- What is sent once all is checked. One part alone is checked once, several are checked again.
unfoldable pub send_parts :
    (Signed → Bool) → (ℕ → Outpoint → Live) → (List ℕ → Bool) → List Signed → List (List ℕ)
send_parts report later accepts [] = []
send_parts report later accepts (s ∷ []) = s.hex ∷ []
send_parts report later accepts (s ∷ t ∷ ss) = send_all report later accepts 0 (s ∷ t ∷ ss)

-- `cmd_broadcast`: all parts are checked, then one question is asked unless `--yes` is given, then they are
-- sent. `unasked` is `--yes`, and `answer` is whether SEND is typed.
unfoldable pub cmd_broadcast :
    (Signed → Bool)
    → (Outpoint → Live)
    → (ℕ → Outpoint → Live)
    → (List ℕ → Bool)
    → Bool
    → Bool
    → List Signed
    → List (List ℕ)
cmd_broadcast report gettxout later accepts unasked answer parts =
    elim (check_all report gettxout parts) [
      | false ↦ []
      | true ↦ if unasked || answer then send_parts report later accepts parts else []
    ]

abbrev pub hexes : List Signed → List (List ℕ)
hexes ss = map (λ (s : Signed). s.hex) ss
