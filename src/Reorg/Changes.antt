-- ===== src/Reorg/Changes.antt =====
-- The findings of one host: what is behind them, and what is true where there are none.
use wam_coin.Common.{
  ℕ, ◌≤◌, ◌<◌, ◌≡◌, ◌≢◌, refl, sym, ◌∙◌, subst, List, [], ◌∷◌, ◌++◌, Option, none, some, some_inj,
  none-ne-some, Bool, true, false, ◌==◌, ◌||◌, leb, All, Any, Bool-cases, Option-cases, ==_iff, inl,
  inr, arith, false-ne-true,
}
use wam_coin.Reorg.{Heights, lookup, fork_bracket}
use wam_coin.Reorg.Watch.{
  keys, Change, changed_of, BranchTip, Finding, Saved, Host, branch_findings, narrow,
  compare_hashes, is_fail, any_finding,
}

pub any_finding-append :
    (p : Finding → Bool) (xs ys : List Finding)
    → any_finding p (xs ++ ys) ≡ (any_finding p xs || any_finding p ys)
unfolding any_finding
any_finding-append p [] ys = refl
any_finding-append p (x ∷ xs) ys = elim (Bool-cases (p x)) [
  | inl hit ↦ rw (hit, any_finding)
  | inr miss ↦ rw (miss, any_finding) (any_finding-append p xs ys)
]

-- A branch that is deep enough for an alarm, and valid.
abbrev pub IsDeepFork : ℕ → BranchTip → Type 0
IsDeepFork depth t = (t.is_valid_fork ≡ true) × (depth ≤ t.branch_length)

abbrev pub IsShallow : ℕ → BranchTip → Type 0
IsShallow depth t = t.is_valid_fork ≡ true → t.branch_length < depth

pub branch_findings_loud :
    (depth : ℕ) (ts : List BranchTip)
    → any_finding is_fail (branch_findings depth ts) ≡ true
    → Any (IsDeepFork depth) ts
unfolding branch_findings any_finding
branch_findings_loud depth [] h = absurd (false-ne-true h)
branch_findings_loud depth (t ∷ ts) h = elim (Bool-cases (leb depth t.branch_length)) [
  | inr short ↦ inr (branch_findings_loud depth ts (rw (short, branch_findings) at h))
  | inl long ↦ elim (Bool-cases t.is_valid_fork) [
    | inl valid ↦ inl (valid, ground (arith, long))
    | inr headers ↦
        inr (branch_findings_loud depth ts (rw headers at (rw (long, branch_findings) at h)))
  ]
]

pub true-ne-false : true ≢ false
true-ne-false h = cc

pub branch_findings_quiet :
    (depth : ℕ) (ts : List BranchTip)
    → any_finding is_fail (branch_findings depth ts) ≡ false
    → All (IsShallow depth) ts
unfolding branch_findings any_finding
branch_findings_quiet depth [] h = tt
branch_findings_quiet depth (t ∷ ts) h = elim (Bool-cases (leb depth t.branch_length)) [
  | inr short ↦ (
    λ valid. ground (arith, short),
    branch_findings_quiet depth ts (rw (short, branch_findings) at h),
  )
  | inl long ↦ elim (Bool-cases t.is_valid_fork) [
    | inl valid ↦ absurd (true-ne-false (rw valid at (rw (long, branch_findings) at h)))
    | inr headers ↦ (
      λ valid. absurd (true-ne-false (sym valid ∙ headers)),
      branch_findings_quiet depth ts (rw headers at (rw (long, branch_findings) at h)),
    )
  ]
]

-- A recorded height that the node answers with another hash.
pub record IsRewritten (known now : Heights) : Type 0 where
  pub height : ℕ
  pub was : ℕ
  pub is_now : ℕ
  pub recorded : lookup height known ≡ some was
  pub answered : lookup height now ≡ some is_now
  pub differs : was ≢ is_now

abbrev pub IsKept : Heights → Heights → ℕ → Type 0
IsKept known now h = (v w : ℕ) → lookup h known ≡ some v → lookup h now ≡ some w → v ≡ w

cons-ne-nil : {c : Change} {cs : List Change} → c ∷ cs ≢ []
cons-ne-nil h = cc

pub changed_of_cons :
    (known now : Heights) (hs : List ℕ) (c : Change) (cs : List Change)
    → changed_of known now hs ≡ c ∷ cs
    → IsRewritten known now
unfolding changed_of
changed_of_cons known now [] c cs h = absurd (cons-ne-nil (sym h))
changed_of_cons known now (k ∷ hs) c cs h = elim (Option-cases (lookup k known)) [
  | inl gone ↦ changed_of_cons known now hs c cs (rw (gone, changed_of) at h)
  | inr (v, there) ↦ elim (Option-cases (lookup k now)) [
    | inl gone ↦ changed_of_cons known now hs c cs (rw gone at (rw (there, changed_of) at h))
    | inr (w, read) ↦ elim (Bool-cases (v == w)) [
      | inl same ↦
          changed_of_cons known now hs c cs (rw same at (rw read at (rw (there, changed_of) at h)))
      | inr other ↦ record {
        height = k;
        was = v;
        is_now = w;
        recorded = there;
        answered = read;
        differs = ground (arith, other);
      }
    ]
  ]
]

pub changed_of_nil :
    (known now : Heights) (hs : List ℕ) → changed_of known now hs ≡ [] → All (IsKept known now) hs
unfolding changed_of
changed_of_nil known now [] h = tt
changed_of_nil known now (k ∷ hs) h = elim (Option-cases (lookup k known)) [
  | inl gone ↦ (
    λ v w a b. absurd (none-ne-some (sym gone ∙ a)),
    changed_of_nil known now hs (rw (gone, changed_of) at h),
  )
  | inr (v, there) ↦ elim (Option-cases (lookup k now)) [
    | inl gone ↦ (
      λ x w a b. absurd (none-ne-some (sym gone ∙ b)),
      changed_of_nil known now hs (rw gone at (rw (there, changed_of) at h)),
    )
    | inr (w, read) ↦ elim (Bool-cases (v == w)) [
      | inr other ↦ absurd (cons-ne-nil (rw other at (rw read at (rw (there, changed_of) at h))))
      | inl same ↦ (
        λ x y a b. some_inj (sym a ∙ there) ∙ (==_iff v w).0 same ∙ some_inj (sym read ∙ b),
        changed_of_nil known now hs (rw same at (rw read at (rw (there, changed_of) at h))),
      )
    ]
  ]
]

-- A height that is recorded is among the keys.
pub keys_all :
    (known : Heights) (P : ℕ → Type 0) (h v : ℕ)
    → All P (keys known)
    → lookup h known ≡ some v
    → P h
unfolding lookup
keys_all [] P h v all e = absurd (none-ne-some e)
keys_all ((k, w) ∷ es) P h v (p, all) e = elim (Bool-cases (h == k)) [
  | inl same ↦ subst P (sym ((==_iff h k).0 same)) p
  | inr other ↦ keys_all es P h v all (rw (other, lookup) at e)
]

narrow_fails :
    (host : Host) (prev : Saved) (tip : ℕ) (changed : List Change) (shallowest : ℕ)
    (good : Option ℕ)
    → any_finding is_fail (narrow host prev tip changed shallowest good) ≡ true
unfolding narrow any_finding
narrow_fails host prev tip changed shallowest none = refl
narrow_fails host prev tip changed shallowest (some g) =
    elim (Option-cases (fork_bracket host.probe prev.heights g shallowest)) [
      | inl raised ↦ rw (raised, narrow)
      | inr (ends, found) ↦ rw (found, narrow)
    ]

pub compare_hashes_quiet :
    (host : Host) (prev : Saved) (tip : ℕ) (now : Heights) (changed : List Change)
    → any_finding is_fail (compare_hashes host prev tip now changed) ≡ false
    → changed ≡ []
unfolding compare_hashes
compare_hashes_quiet host prev tip now [] h = refl
compare_hashes_quiet host prev tip now (c ∷ cs) h =
    absurd (true-ne-false (sym (narrow_fails host prev tip (c ∷ cs) c.height _) ∙ h))

pub compare_hashes_loud :
    (host : Host) (prev : Saved) (tip : ℕ) (now : Heights) (changed : List Change)
    → any_finding is_fail (compare_hashes host prev tip now changed) ≡ true
    → (c : Change) × (cs : List Change) × (changed ≡ c ∷ cs)
unfolding compare_hashes any_finding
compare_hashes_loud host prev tip now [] h = absurd (false-ne-true h)
compare_hashes_loud host prev tip now (c ∷ cs) h = (c, cs, refl)
