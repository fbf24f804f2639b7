-- ===== src/Reorg/Watch.antt =====
-- `check` and `main` of scripts/check_reorg.py. The node is a parameter: its tip with the branches it knows, the
-- hashes of the heights that are read, and its answers while the fork is narrowed down.
use wam_coin.Common.{
  ℕ, zero, suc, ◌+◌, List, [], ◌∷◌, ◌++◌, map, length, Option, none, some, Bool, true, false, ◌==◌,
  ◌&&◌, leb, ltb, if◌then◌else◌,
}
use wam_coin.Common.Int.{ℤ, pos, sub_ℕ}
use wam_coin.Reorg.{
  forget_after, Heights, lookup, update, sort_heights, heights_to_check, is_same, fork_bracket,
}

abbrev pub keys : Heights → List ℕ
keys es = map (λ (e : ℕ × ℕ). e.0) es

pub record Change : Type 0 where
  pub height : ℕ
  pub was : ℕ
  pub is_now : ℕ

abbrev pub change_at : ℕ → Option ℕ → Option ℕ → List Change → List Change
change_at h none now rest = rest
change_at h (some v) none rest = rest
change_at h (some v) (some w) rest =
    if v == w then rest else record { height = h; was = v; is_now = w } ∷ rest

-- The heights, in ascending order, that hold another hash than the one recorded.
unfoldable pub changed_of : Heights → Heights → List ℕ → List Change
changed_of known now [] = []
changed_of known now (h ∷ hs) =
    change_at h (lookup h known) (lookup h now) (changed_of known now hs)

-- `still_good[-1]`, with the last one found so far.
unfoldable pub last_good : Heights → Heights → ℕ → Option ℕ → List ℕ → Option ℕ
last_good known now shallowest found [] = found
last_good known now shallowest found (h ∷ hs) =
    elim (ltb h shallowest && is_same (lookup h known) (lookup h now)) [
      | true ↦ last_good known now shallowest (some h) hs
      | false ↦ last_good known now shallowest found hs
    ]

-- The file that `raise_alarm` writes.
pub record Alarm : Type 0 where
  pub depth : ℤ
  pub worst : Option ℤ
  pub from : ℕ
  pub from_floor : Option ℕ
  pub tip : ℕ
  pub previous : Option ℕ
  pub changed : List Change

-- A branch of `getchaintips` that is not the active one.
pub record BranchTip : Type 0 where
  pub is_valid_fork : Bool
  pub branch_length : ℕ

pub data Finding : Type 0 where
  earlier_alarm unanswered not_narrowed : Finding
  fork_found branch_found : BranchTip → Finding
  reorganisation : Alarm → Finding

-- The state file.
pub record Saved : Type 0 where
  pub heights : Heights
  pub tip : Option ℕ
  pub cursor : ℕ

pub record Host : Type 0 where
  pub chain : Option (ℕ × List BranchTip)
  pub read : List ℕ → Option Heights
  pub probe : ℕ → Option (Option ℕ)

pub record Run : Type 0 where
  pub findings : List Finding
  pub saved : Saved

unfoldable pub branch_findings : ℕ → List BranchTip → List Finding
branch_findings depth_alarm [] = []
branch_findings depth_alarm (t ∷ ts) =
    let rest = branch_findings depth_alarm ts in
    if leb depth_alarm t.branch_length
    then (if t.is_valid_fork then fork_found t else branch_found t) ∷ rest
    else rest

-- `if prev_tip`
abbrev pub if_positive : Option ℕ → Option ℕ
if_positive none = none
if_positive (some zero) = none
if_positive (some (suc n)) = some (suc n)

abbrev pub depth_of : Option ℕ → ℕ → List Change → ℤ
depth_of none shallowest changed = pos (length changed)
depth_of (some prev) shallowest changed = sub_ℕ (prev + 1) shallowest

abbrev pub worst_of : Option ℕ → Option ℕ → Option ℤ
worst_of none floor = none
worst_of (some prev) none = none
worst_of (some prev) (some floor) = some (sub_ℕ prev floor)

unfoldable pub alarm_of : Saved → ℕ → List Change → ℕ → Option ℕ → Alarm
alarm_of prev tip changed shallowest floor = record {
  depth = depth_of (if_positive prev.tip) shallowest changed;
  worst = worst_of (if_positive prev.tip) floor;
  from = shallowest;
  from_floor = floor;
  tip = tip;
  previous = prev.tip;
  changed = changed;
}

unfoldable pub narrow : Host → Saved → ℕ → List Change → ℕ → Option ℕ → List Finding
narrow host prev tip changed shallowest none =
    reorganisation (alarm_of prev tip changed shallowest none) ∷ []
narrow host prev tip changed shallowest (some good) =
    elim (fork_bracket host.probe prev.heights good shallowest) [
      | none ↦ not_narrowed ∷ reorganisation (alarm_of prev tip changed shallowest none) ∷ []
      | some (lo, hi) ↦ reorganisation (alarm_of prev tip changed hi (some lo)) ∷ []
    ]

-- Part 2 of `check`, for the hashes that were read.
unfoldable pub compare_hashes : Host → Saved → ℕ → Heights → List Change → List Finding
compare_hashes host prev tip now [] = []
compare_hashes host prev tip now (c ∷ cs) =
    narrow host prev tip (c ∷ cs) c.height
      (last_good prev.heights now c.height none (sort_heights (keys now)))

unfoldable pub recent : ℕ → Heights → Heights
recent tip [] = []
recent tip ((h, v) ∷ es) = elim (ltb tip (h + forget_after)) [
  | true ↦ (h, v) ∷ recent tip es
  | false ↦ recent tip es
]

unfoldable pub check_heights : Host → Saved → ℕ → List Finding → List ℕ × ℕ → Run
check_heights host prev tip found ([], cursor) = record {
  findings = found;
  saved = record { heights = []; tip = some tip; cursor = 0 };
}
check_heights host prev tip found (h ∷ hs, cursor) = elim (host.read (h ∷ hs)) [
  | none ↦ record { findings = found ++ unanswered ∷ []; saved = prev }
  | some now ↦ record {
    findings =
        found
        ++ compare_hashes host prev tip now
            (changed_of prev.heights now (sort_heights (keys prev.heights)));
    saved = record {
      heights = update (recent tip prev.heights) now;
      tip = some tip;
      cursor = cursor;
    };
  }
]

unfoldable pub check : ℕ → Host → Saved → Run
check depth_alarm host prev = elim host.chain [
  | none ↦ record { findings = unanswered ∷ []; saved = prev }
  | some (tip, tips) ↦
      check_heights host prev tip (branch_findings depth_alarm tips)
        (heights_to_check tip prev.heights prev.cursor)
]

abbrev pub is_fail : Finding → Bool
is_fail earlier_alarm = true
is_fail unanswered = false
is_fail not_narrowed = false
is_fail (fork_found t) = true
is_fail (branch_found t) = false
is_fail (reorganisation a) = true

abbrev pub is_unknown : Finding → Bool
is_unknown earlier_alarm = false
is_unknown unanswered = true
is_unknown not_narrowed = false
is_unknown (fork_found t) = false
is_unknown (branch_found t) = false
is_unknown (reorganisation a) = false

unfoldable pub any_finding : (Finding → Bool) → List Finding → Bool
any_finding p [] = false
any_finding p (f ∷ fs) = elim (p f) [ true ↦ true | false ↦ any_finding p fs ]

-- The findings of all hosts, each with its own state file.
unfoldable pub check_hosts : ℕ → List (Host × Saved) → List Finding
check_hosts depth_alarm [] = []
check_hosts depth_alarm ((host, prev) ∷ hosts) =
    (check depth_alarm host prev).findings ++ check_hosts depth_alarm hosts

abbrev pub exit_status : Bool → Bool → ℕ
exit_status failing unknown = if failing then 1 else if unknown then 2 else 0

-- The exit code, with the alarm files that earlier runs have left.
unfoldable pub main : ℕ → List Finding → List (Host × Saved) → ℕ
main depth_alarm left hosts =
    let all = left ++ check_hosts depth_alarm hosts in
    exit_status (any_finding is_fail all) (any_finding is_unknown all)
