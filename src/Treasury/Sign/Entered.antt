-- ===== src/Treasury/Sign/Entered.antt =====
-- What the operator typed before a signature of `cmd_sign`: the destination and the key.
use wam_coin.Common.{
  ℕ, zero, suc, ◌≡◌, refl, sym, ap, ◌∙◌, subst, List, [], ◌∷◌, map, take, Option, none, some, All,
  Any, ◌⊎◌, Bool-cases, Option-cases, inl, inr,
}
use wam_coin.Common.Bytes.{bytes_eq, eq_of_bytes_eq}
use wam_coin.Common.Result.{Result, ok, ok_inj, err-ne-ok}
use wam_coin.Keys.{strip}
use wam_coin.Keys.Wif.{wif_problem}
use wam_coin.Treasury.Batch.{Part, batch_problem, batch_problem-none}
use wam_coin.Treasury.Sign.{
  PlanFile, Refusal, part_of, check_batch, confirm, judge_entry, ask_for_key,
}

pub check_batch-none :
    (files batch : List PlanFile)
    → check_batch files ≡ ok batch
    → batch_problem (map part_of files) ≡ none
unfolding check_batch
check_batch-none files batch h = elim (Option-cases (batch_problem (map part_of files))) [
  | inl clear ↦ clear
  | inr (why, bad) ↦ absurd (err-ne-ok (rw (bad, check_batch) at h))
]

All-of-map :
    (P : Part → Type 0) (files : List PlanFile)
    → All P (map part_of files)
    → All (λ f. P (part_of f)) files
All-of-map P [] h = tt
All-of-map P (f ∷ fs) (p, h) = (p, All-of-map P fs h)

-- All parts of one payment go where the first goes.
one_destination :
    (f : PlanFile) (fs : List PlanFile) (to : List ℕ)
    → f.to ≡ some to
    → batch_problem (map part_of (f ∷ fs)) ≡ none
    → All (λ (g : PlanFile). g.to ≡ some to) (f ∷ fs)
one_destination f [] to e h = (e, tt)
one_destination f (g ∷ gs) to e h =
    let (dest, named, inputs, new) =
      batch_problem-none (part_of f) (part_of g) (map part_of gs) h in
    let same : some dest ≡ some to = sym named.0 ∙ e in
    subst (λ t. All (λ (g : PlanFile). g.to ≡ t) (f ∷ g ∷ gs)) same
      (All-of-map (λ (r : Part). r.to ≡ some dest) (f ∷ g ∷ gs) named)

-- The address that was typed in.
pub record IsConfirmed (typed : Option (List ℕ)) (to : List ℕ) : Type 0 where
  pub entry : List ℕ
  pub given : typed ≡ some entry
  pub stripped : strip entry ≡ to

pub confirm-IsConfirmed :
    (typed : Option (List ℕ)) (files : List PlanFile) (to : List ℕ)
    → confirm typed files ≡ ok to
    → batch_problem (map part_of files) ≡ none
    → IsConfirmed typed to × All (λ (g : PlanFile). g.to ≡ some to) files
unfolding confirm
confirm-IsConfirmed none files to h b = absurd (err-ne-ok h)
confirm-IsConfirmed (some entry) [] to h b = absurd (err-ne-ok h)
confirm-IsConfirmed (some entry) (f ∷ fs) to h b = elim (Option-cases f.to) [
  | inl gone ↦ absurd (err-ne-ok (rw (gone, confirm) at h))
  | inr (dest, named) ↦ elim (Bool-cases (bytes_eq (strip entry) dest)) [
    | inr other ↦ absurd (err-ne-ok (rw other at (rw (named, confirm) at h)))
    | inl same ↦
        let back : dest ≡ to = ok_inj (rw same at (rw (named, confirm) at h)) in
        (
          record {
            entry = entry;
            given = refl;
            stripped = eq_of_bytes_eq (strip entry) dest same ∙ back;
          },
          one_destination f fs to (named ∙ ap some back) b,
        )
  ]
]

-- A key that passes, among the first entries.
pub record IsEntered (sha256 : List ℕ → List ℕ) (entries : List (List ℕ)) (wif : List ℕ)
    : Type 0 where
  pub usable : wif_problem sha256 wif ≡ none
  pub typed : Any (λ entry. strip entry ≡ wif) entries

module _ (sha256 : List ℕ → List ℕ) where
  judge_entry-cases :
      (s : List ℕ) (rest : Result Refusal (List ℕ)) (wif : List ℕ)
      → judge_entry sha256 s rest ≡ ok wif
      → ((s ≡ wif) × (wif_problem sha256 wif ≡ none)) ⊎ (rest ≡ ok wif)
  unfolding judge_entry
  judge_entry-cases [] rest wif h = absurd (err-ne-ok h)
  judge_entry-cases (c ∷ s) rest wif h = elim (Option-cases (wif_problem sha256 (c ∷ s))) [
    | inl good ↦
        let same : c ∷ s ≡ wif = ok_inj (rw (good, judge_entry) at h) in
        inl (same, ap (wif_problem sha256) (sym same) ∙ good)
    | inr (why, bad) ↦ inr (rw (bad, judge_entry) at h)
  ]

  pub ask_for_key-IsEntered :
      (left : ℕ) (entries : List (List ℕ)) (wif : List ℕ)
      → ask_for_key sha256 left entries ≡ ok wif
      → IsEntered sha256 (take left entries) wif
  unfolding ask_for_key
  ask_for_key-IsEntered zero entries wif h = absurd (err-ne-ok h)
  ask_for_key-IsEntered (suc left) [] wif h = absurd (err-ne-ok h)
  ask_for_key-IsEntered (suc left) (entry ∷ entries) wif h =
      elim (judge_entry-cases (strip entry) (ask_for_key sha256 left entries) wif h) [
        | inl (same, good) ↦ record { usable = good; typed = inl same }
        | inr later ↦
            let rest = ask_for_key-IsEntered left entries wif later in
            record { usable = rest.usable; typed = inr rest.typed }
      ]
