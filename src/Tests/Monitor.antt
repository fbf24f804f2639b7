-- ===== src/Tests/Monitor.antt =====
-- The reorganisation monitor at concrete chains.
use wam_coin.Common.{
  ℕ, ◌+◌, ◌≡◌, ◌⊎◌, refl, [], ◌∷◌, Option, some, All, Any, true, if◌then◌else◌, ltb,
}
use wam_coin.Reorg.{
  Heights, lookup, insert_height, sort_heights, has, near, older, heights_to_check, between, above,
  below, bracket, fork_bracket,
}
use wam_coin.Reorg.Watch.{
  changed_of, last_good, Host, Saved, branch_findings, alarm_of, narrow, compare_hashes,
  check_heights, check, is_fail, any_finding, check_hosts, main,
}
use wam_coin.Reorg.Alarm.{IsEvent, IsQuiet, main-IsEvent, main-IsQuiet}

-- Heights 1 to 8; from height 5 on, the node has other blocks.
abbrev recorded : Heights
recorded = (1, 11) ∷ (8, 18) ∷ (3, 13) ∷ (4, 14) ∷ (6, 16) ∷ []

abbrev node : ℕ → Option ℕ
node h = if ltb h 5 then some (10 + h) else some (90 + h)

bracket_found : fork_bracket (λ h. some (node h)) recorded 1 8 ≡ some (4, 6)
unfolding fork_bracket bracket between above below sort_heights insert_height lookup
bracket_found = refl

abbrev before : Saved
before = record { heights = recorded; tip = some 9; cursor = 0 }

abbrev rewritten : Host
rewritten = record {
  chain = some (9, []);
  read = λ hs. some ((8, 98) ∷ (4, 14) ∷ []);
  probe = λ h. some (node h);
}

abbrev kept : Host
kept = record {
  chain = some (9, []);
  read = λ hs. some ((8, 18) ∷ (4, 14) ∷ []);
  probe = λ h. some (node h);
}

alarm_raised : main 2 [] ((rewritten, before) ∷ []) ≡ 1
unfolding main check_hosts check check_heights heights_to_check near older has branch_findings
    compare_hashes changed_of last_good narrow alarm_of fork_bracket bracket between above below
    sort_heights insert_height lookup any_finding
alarm_raised = refl

main-IsEvent_example :
    (any_finding is_fail [] ≡ true)
    ⊎ Any (λ (h : Host × Saved). IsEvent 2 h.0 h.1) ((rewritten, before) ∷ [])
main-IsEvent_example = main-IsEvent 2 [] ((rewritten, before) ∷ []) alarm_raised

all_quiet : main 2 [] ((kept, before) ∷ []) ≡ 0
unfolding main check_hosts check check_heights heights_to_check near older has branch_findings
    compare_hashes changed_of sort_heights insert_height lookup any_finding
all_quiet = refl

main-IsQuiet_example : All (λ (h : Host × Saved). IsQuiet 2 h.0 h.1) ((kept, before) ∷ [])
main-IsQuiet_example = main-IsQuiet 2 [] ((kept, before) ∷ []) all_quiet
