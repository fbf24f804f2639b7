-- ===== src/Treasury/Sign/Approved.antt =====
-- What `cmd_sign` has read and checked when it asks the node for a signature.
use wam_coin.Common.{
  ℕ, ◌≡◌, sym, ap, ◌∙◌, subst, List, [], ◌∷◌, map, take, Option, none, some, some_inj, none-ne-some,
  true, false, All, Option-cases, inl, inr,
}
use wam_coin.Common.Result.{ok, ok_inj, err-ne-ok, >>=-ok, Result-cases}
use wam_coin.Treasury.{Plan, Tx, verify_against_plan}
use wam_coin.Treasury.Verified.{IsFaithful, verify_against_plan-IsFaithful}
use wam_coin.Treasury.Batch.{batch_problem}
use wam_coin.Treasury.Sign.Entered.{
  check_batch-none, IsConfirmed, confirm-IsConfirmed, IsEntered, ask_for_key-IsEntered,
}
use wam_coin.Treasury.Sign.{
  PlanFile, part_of, plan_of, read_plans, check_batch, confirm, ask_for_key, sign_preflight,
  preflight_all, approve,
}

-- Every plan was read.
read_plans-map :
    (found : List (Option PlanFile)) (files : List PlanFile)
    → read_plans found ≡ ok files
    → map some files ≡ found
unfolding read_plans
read_plans-map [] files h = ap (map some) (sym (ok_inj h))
read_plans-map (none ∷ found) files h = absurd (err-ne-ok h)
read_plans-map (some f ∷ found) files h =
    let (rest, others, same) = >>=-ok (read_plans found) _ h in
    ap (map some) (sym (ok_inj same)) ∙ ap (λ t. some f ∷ t) (read_plans-map found rest others)

-- A plan that pays an address and whose bytes decode to a transaction that keeps to it.
pub record IsChecked (decode : List ℕ → Option Tx) (to : List ℕ) (f : PlanFile) : Type 0 where
  pub tx : Tx
  pub plan : Plan
  pub decoded : decode f.unsigned_hex ≡ some tx
  pub stated : plan_of f ≡ some plan
  pub destination : plan.to ≡ to
  pub faithful : IsFaithful plan tx

plan_of-to :
    (f : PlanFile) (plan : Plan) (to : List ℕ)
    → plan_of f ≡ some plan
    → f.to ≡ some to
    → plan.to ≡ to
unfolding plan_of
plan_of-to f plan to h e = elim (Option-cases f.input_set) [
  | inl gone ↦ absurd (none-ne-some (rw gone at (rw (e, plan_of) at h)))
  | inr (vs, there) ↦ ap (λ (p : Plan). p.to) (sym (some_inj (rw there at (rw (e, plan_of) at h))))
]

module _ (decode : List ℕ → Option Tx) (to : List ℕ) where
  sign_preflight-IsChecked :
      (f : PlanFile) (hex : List ℕ)
      → sign_preflight decode f ≡ ok hex
      → f.to ≡ some to
      → IsChecked decode to f
  unfolding sign_preflight
  sign_preflight-IsChecked f hex h e = elim (Option-cases (decode f.unsigned_hex)) [
    | inl gone ↦ absurd (err-ne-ok (rw (gone, sign_preflight) at h))
    | inr (tx, decoded) ↦ elim (Option-cases (plan_of f)) [
      | inl gone ↦ absurd (err-ne-ok (rw gone at (rw (decoded, sign_preflight) at h)))
      | inr (plan, stated) ↦ elim (Result-cases (verify_against_plan plan tx)) [
        | inl (why, bad) ↦
            absurd (err-ne-ok (rw bad at (rw stated at (rw (decoded, sign_preflight) at h))))
        | inr (false, bad) ↦
            absurd (err-ne-ok (rw bad at (rw stated at (rw (decoded, sign_preflight) at h))))
        | inr (true, good) ↦ record {
          tx = tx;
          plan = plan;
          decoded = decoded;
          stated = stated;
          destination = plan_of-to f plan to stated e;
          faithful = verify_against_plan-IsFaithful plan tx good;
        }
      ]
    ]
  ]

  preflight_all-IsChecked :
      (files : List PlanFile) (checked : List (List ℕ))
      → preflight_all decode files ≡ ok checked
      → All (λ (f : PlanFile). f.to ≡ some to) files
      → All (IsChecked decode to) files
  unfolding preflight_all
  preflight_all-IsChecked [] checked h e = tt
  preflight_all-IsChecked (f ∷ fs) checked h (e, es) =
      let (hex, first, later) = >>=-ok (sign_preflight decode f) _ h in
      let (rest, others, done) = >>=-ok (preflight_all decode fs) _ later in
      (sign_preflight-IsChecked f hex first e, preflight_all-IsChecked fs rest others es)

-- What was read, checked and typed before a signature.
pub record IsApproved (sha256 : List ℕ → List ℕ) (decode : List ℕ → Option Tx)
    (found : List (Option PlanFile)) (typed : Option (List ℕ)) (keys : List (List ℕ))
    (files : List PlanFile) (wif : List ℕ) : Type 0 where
  pub to : List ℕ
  pub whole : map some files ≡ found
  pub one_payment : batch_problem (map part_of files) ≡ none
  pub confirmed : IsConfirmed typed to
  pub checked : All (IsChecked decode to) files
  pub entered : IsEntered sha256 (take 3 keys) wif

pub approve-IsApproved :
    (sha256 : List ℕ → List ℕ) (decode : List ℕ → Option Tx) (found : List (Option PlanFile))
    (typed : Option (List ℕ)) (keys : List (List ℕ)) (files : List PlanFile) (wif : List ℕ)
    → approve decode sha256 found typed keys ≡ ok (files, wif)
    → IsApproved sha256 decode found typed keys files wif
unfolding approve
approve-IsApproved sha256 decode found typed keys files wif h =
    let (fs, read, h1) = >>=-ok (read_plans found) _ h in
    let (batch, one, h2) = >>=-ok (check_batch fs) _ h1 in
    let (hexes, checked, h3) = >>=-ok (preflight_all decode fs) _ h2 in
    let (to, confirmed, h4) = >>=-ok (confirm typed fs) _ h3 in
    let (w, entered, h5) = >>=-ok (ask_for_key sha256 3 keys) _ h4 in
    let same_files : fs ≡ files = ap (λ p. p.0) (ok_inj h5) in
    let same_key : w ≡ wif = ap (λ p. p.1) (ok_inj h5) in
    let clear = check_batch-none fs batch one in
    let (given, all_to) = confirm-IsConfirmed typed fs to confirmed clear in
    subst (λ k. IsApproved sha256 decode found typed keys files k) same_key
      (subst (λ k. IsApproved sha256 decode found typed keys k w) same_files
        (record {
          to = to;
          whole = read_plans-map found fs read;
          one_payment = clear;
          confirmed = given;
          checked = preflight_all-IsChecked decode to fs hexes checked all_to;
          entered = ask_for_key-IsEntered sha256 3 keys w entered;
        }))
