-- ===== src/Reorg/Alarm.antt =====
-- When the monitor raises an alarm, and when it says that nothing was rewritten.
use wam_coin.Common.{
  ℕ, ◌≡◌, ◌⊎◌, refl, sym, ◌∙◌, List, [], ◌∷◌, ◌++◌, some, Bool, true, false, ◌||◌, All, Any,
  Option-cases, inl, inr, arith, false-ne-true,
}
use wam_coin.Reorg.{Heights, sort_heights, heights_to_check}
use wam_coin.Reorg.Pool.{sort_heights-back}
use wam_coin.Reorg.Watch.{
  keys, changed_of, BranchTip, Finding, unanswered, Saved, Host, branch_findings, compare_hashes,
  check_heights, check, is_fail, is_unknown, any_finding, check_hosts, exit_status, main,
}
use wam_coin.Reorg.Changes.{
  any_finding-append, IsDeepFork, IsShallow, branch_findings_loud, branch_findings_quiet,
  true-ne-false, IsRewritten, IsKept, changed_of_cons, changed_of_nil, keys_all,
  compare_hashes_quiet, compare_hashes_loud,
}

-- Something that needs a person: a valid branch of the alarm's depth, or a block that another one has replaced.
pub data IsEvent (depth : ℕ) (host : Host) (prev : Saved) : Type 0 where
  fork :
      (tip : ℕ) (tips : List BranchTip)
      → host.chain ≡ some (tip, tips)
      → Any (IsDeepFork depth) tips
      → IsEvent depth host prev
  rewrite :
      (hs : List ℕ) (now : Heights)
      → host.read hs ≡ some now
      → IsRewritten prev.heights now
      → IsEvent depth host prev

-- The node was asked which hashes it has at some heights, and has no other than the recorded ones.
pub data IsCompared (host : Host) (prev : Saved) : List ℕ → Type 0 where
  nothing_to_read : IsCompared host prev []
  all_kept :
      (hs : List ℕ) (now : Heights)
      → host.read hs ≡ some now
      → ((h : ℕ) → IsKept prev.heights now h)
      → IsCompared host prev hs

pub record IsQuiet (depth : ℕ) (host : Host) (prev : Saved) : Type 0 where
  pub tip : ℕ
  pub tips : List BranchTip
  pub answered : host.chain ≡ some (tip, tips)
  pub shallow : All (IsShallow depth) tips
  pub compared : IsCompared host prev (heights_to_check tip prev.heights prev.cursor).0

or_split : (a b : Bool) → (a || b) ≡ false → (a ≡ false) × (b ≡ false)
or_split a b h = ground (arith, h)

or_true : (a : Bool) → (a || true) ≡ true
or_true a = ground arith

or_cases : (a b : Bool) → (a || b) ≡ true → (a ≡ true) ⊎ (b ≡ true)
or_cases true b h = inl refl
or_cases false b h = inr h

IsKept-everywhere :
    (known now : Heights)
    → changed_of known now (sort_heights (keys known)) ≡ []
    → (h : ℕ) → IsKept known now h
IsKept-everywhere known now e h v w a b =
    keys_all known (IsKept known now) h v
      (sort_heights-back (IsKept known now) (keys known)
        (changed_of_nil known now (sort_heights (keys known)) e))
      a v w a b

module _ (depth : ℕ) (host : Host) (prev : Saved) (tip : ℕ) where
  unanswered_fails :
      (found : List Finding)
      → any_finding is_fail (found ++ unanswered ∷ []) ≡ true
      → any_finding is_fail found ≡ true
  unfolding any_finding
  unanswered_fails found h =
      elim (or_cases (any_finding is_fail found) (any_finding is_fail (unanswered ∷ []))
        (sym (any_finding-append is_fail found (unanswered ∷ [])) ∙ h)) [
          | inl before ↦ before
          | inr never ↦ absurd (false-ne-true never)
        ]

  unanswered_unknown :
      (found : List Finding) → any_finding is_unknown (found ++ unanswered ∷ []) ≡ true
  unfolding any_finding
  unanswered_unknown found =
      any_finding-append is_unknown found (unanswered ∷ []) ∙ or_true (any_finding is_unknown found)

  check_heights_loud :
      (found : List Finding) (plan : List ℕ × ℕ)
      → any_finding is_fail (check_heights host prev tip found plan).findings ≡ true
      → (any_finding is_fail found ≡ true) ⊎ IsEvent depth host prev
  unfolding check_heights
  check_heights_loud found ([], cursor) h = inl h
  check_heights_loud found (x ∷ xs, cursor) h = elim (Option-cases (host.read (x ∷ xs))) [
    | inl gone ↦ inl (unanswered_fails found (rw (gone, check_heights) at h))
    | inr (now, read) ↦
        let changed = changed_of prev.heights now (sort_heights (keys prev.heights)) in
        elim (or_cases (any_finding is_fail found)
          (any_finding is_fail (compare_hashes host prev tip now changed))
          (sym (any_finding-append is_fail found (compare_hashes host prev tip now changed))
            ∙ rw (read, check_heights) at h)) [
              | inl before ↦ inl before
              | inr loud ↦
                  let (c, cs, e) = compare_hashes_loud host prev tip now changed loud in
                  inr (
                    rewrite (x ∷ xs) now read
                      (changed_of_cons prev.heights now (sort_heights (keys prev.heights)) c cs e))
            ]
  ]

  check_heights_quiet :
      (found : List Finding) (plan : List ℕ × ℕ)
      → any_finding is_fail (check_heights host prev tip found plan).findings ≡ false
      → any_finding is_unknown (check_heights host prev tip found plan).findings ≡ false
      → (any_finding is_fail found ≡ false) × IsCompared host prev plan.0
  unfolding check_heights
  check_heights_quiet found ([], cursor) h k = (h, nothing_to_read)
  check_heights_quiet found (x ∷ xs, cursor) h k = elim (Option-cases (host.read (x ∷ xs))) [
    | inl gone ↦
        absurd (true-ne-false (sym (unanswered_unknown found) ∙ rw (gone, check_heights) at k))
    | inr (now, read) ↦
        let changed = changed_of prev.heights now (sort_heights (keys prev.heights)) in
        let (before, quiet) =
          or_split (any_finding is_fail found)
            (any_finding is_fail (compare_hashes host prev tip now changed))
            (sym (any_finding-append is_fail found (compare_hashes host prev tip now changed))
              ∙ rw (read, check_heights) at h) in
        (
          before,
          all_kept (x ∷ xs) now read (
              IsKept-everywhere prev.heights now
                (compare_hashes_quiet host prev tip now changed quiet)),
        )
  ]

module _ (depth : ℕ) (host : Host) (prev : Saved) where
  check-IsEvent :
      any_finding is_fail (check depth host prev).findings ≡ true → IsEvent depth host prev
  unfolding check any_finding
  check-IsEvent h = elim (Option-cases host.chain) [
    | inl gone ↦ absurd (false-ne-true (rw (gone, check) at h))
    | inr ((tip, tips), answered) ↦
        elim (check_heights_loud depth host prev tip (branch_findings depth tips)
          (heights_to_check tip prev.heights prev.cursor) (rw (answered, check) at h)) [
            | inl loud ↦ fork tip tips answered (branch_findings_loud depth tips loud)
            | inr event ↦ event
          ]
  ]

  check-IsQuiet :
      any_finding is_fail (check depth host prev).findings ≡ false
      → any_finding is_unknown (check depth host prev).findings ≡ false
      → IsQuiet depth host prev
  unfolding check any_finding
  check-IsQuiet h k = elim (Option-cases host.chain) [
    | inl gone ↦ absurd (true-ne-false (rw (gone, check) at k))
    | inr ((tip, tips), answered) ↦
        let (quiet, compared) =
          check_heights_quiet depth host prev tip (branch_findings depth tips)
            (heights_to_check tip prev.heights prev.cursor) (rw (answered, check) at h)
            (rw (answered, check) at k) in
        record {
          tip = tip;
          tips = tips;
          answered = answered;
          shallow = branch_findings_quiet depth tips quiet;
          compared = compared;
        }
  ]

check_hosts-IsEvent :
    (depth : ℕ) (hosts : List (Host × Saved))
    → any_finding is_fail (check_hosts depth hosts) ≡ true
    → Any (λ (h : Host × Saved). IsEvent depth h.0 h.1) hosts
unfolding check_hosts any_finding
check_hosts-IsEvent depth [] h = absurd (false-ne-true h)
check_hosts-IsEvent depth ((host, prev) ∷ hosts) h =
    elim (or_cases _ _ (
      sym (any_finding-append is_fail (check depth host prev).findings (check_hosts depth hosts))
      ∙ h)) [
        | inl here ↦ inl (check-IsEvent depth host prev here)
        | inr later ↦ inr (check_hosts-IsEvent depth hosts later)
      ]

check_hosts-IsQuiet :
    (depth : ℕ) (hosts : List (Host × Saved))
    → any_finding is_fail (check_hosts depth hosts) ≡ false
    → any_finding is_unknown (check_hosts depth hosts) ≡ false
    → All (λ (h : Host × Saved). IsQuiet depth h.0 h.1) hosts
unfolding check_hosts any_finding
check_hosts-IsQuiet depth [] h k = tt
check_hosts-IsQuiet depth ((host, prev) ∷ hosts) h k =
    let run = (check depth host prev).findings in
    let (a, b) =
      or_split _ _ (sym (any_finding-append is_fail run (check_hosts depth hosts)) ∙ h) in
    let (c, d) =
      or_split _ _ (sym (any_finding-append is_unknown run (check_hosts depth hosts)) ∙ k) in
    (check-IsQuiet depth host prev a c, check_hosts-IsQuiet depth hosts b d)

exit_1 : (a b : Bool) → exit_status a b ≡ 1 → a ≡ true
exit_1 a b h = ground (arith, h)

exit_0 : (a b : Bool) → exit_status a b ≡ 0 → (a ≡ false) × (b ≡ false)
exit_0 a b h = ground (arith, h)

module _ (depth : ℕ) (left : List Finding) (hosts : List (Host × Saved)) where
  -- If the monitor exits with 0, every node has answered and knows no valid branch of the alarm's depth, and where
  -- this run had heights to read from it, the node has answered and gives another hash than the recorded
  -- one at none of the heights that it answered. Recorded heights outside this run's share of them, or not
  -- in the answer, are not compared.
  pub main-IsQuiet :
      main depth left hosts ≡ 0 → All (λ (h : Host × Saved). IsQuiet depth h.0 h.1) hosts
  unfolding main
  main-IsQuiet h =
      let all = left ++ check_hosts depth hosts in
      let (f, u) = exit_0 (any_finding is_fail all) (any_finding is_unknown all) h in
      let (a, b) =
        or_split _ _ (sym (any_finding-append is_fail left (check_hosts depth hosts)) ∙ f) in
      let (c, d) =
        or_split _ _ (sym (any_finding-append is_unknown left (check_hosts depth hosts)) ∙ u) in
      check_hosts-IsQuiet depth hosts b d

  -- If the monitor exits with 1, which is what may be announced, an earlier run left an alarm, or a node knows a
  -- valid branch of the alarm's depth or holds another block than the recorded one at a height. A node that
  -- does not answer cannot cause it.
  pub main-IsEvent :
      main depth left hosts ≡ 1
      → (any_finding is_fail left ≡ true) ⊎ Any (λ (h : Host × Saved). IsEvent depth h.0 h.1) hosts
  unfolding main
  main-IsEvent h =
      let all = left ++ check_hosts depth hosts in
      elim (or_cases _ _ (
        sym (any_finding-append is_fail left (check_hosts depth hosts))
        ∙ exit_1 (any_finding is_fail all) (any_finding is_unknown all) h)) [
          | inl before ↦ inl before
          | inr loud ↦ inr (check_hosts-IsEvent depth hosts loud)
        ]
