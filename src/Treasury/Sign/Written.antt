-- ===== src/Treasury/Sign/Written.antt =====
-- The signatures that `cmd_sign` writes, and how it ends.
use wam_coin.Common.{
  ℕ, ◌≡◌, refl, sym, ap, ◌∙◌, subst, List, [], ◌∷◌, map, Option, some, ◌<◌, length, arith, ◌⊎◌, inl,
  inr,
}
use wam_coin.Common.Result.{Result-cases}
use wam_coin.Treasury.{Tx}
use wam_coin.Treasury.Sign.Approved.{approve-IsApproved}
use wam_coin.Treasury.Sign.{
  SigningEnd, finished, not_signed, refused, PlanFile, SignReply, failed, incomplete, complete,
  Session, approve, sign_all, cmd_sign,
}

-- The signatures that were written are those of the first plans, in order.
pub data IsSignedBy (sign : PlanFile → List ℕ → SignReply) (wif : List ℕ)
    : List PlanFile → List (List ℕ) → Type 0 where
  stopped : {files : List PlanFile} → IsSignedBy sign wif files []
  signed :
      {f : PlanFile} {files : List PlanFile} {hex : List ℕ} {hexes : List (List ℕ)}
      → sign f wif ≡ complete hex
      → IsSignedBy sign wif files hexes
      → IsSignedBy sign wif (f ∷ files) (hex ∷ hexes)

SignReply-cases :
    (r : SignReply) → (r ≡ failed) ⊎ ((r ≡ incomplete) ⊎ ((hex : List ℕ) × (r ≡ complete hex)))
SignReply-cases failed = inl refl
SignReply-cases incomplete = inr (inl refl)
SignReply-cases (complete hex) = inr (inr (hex, refl))

-- How many signatures stand behind each end, for a number of plans.
abbrev pub WrittenAfter : SigningEnd → ℕ → ℕ → Type 0
WrittenAfter finished plans written = written ≡ plans
WrittenAfter not_signed plans written = written < plans
WrittenAfter (refused why) plans written = written ≡ 0

-- The two ends of the loop that signs.
abbrev Tally : List PlanFile → Session → Type 0
Tally files s =
    ((s.ending ≡ finished) × (length s.written ≡ length files))
    ⊎ ((s.ending ≡ not_signed) × (length s.written < length files))

Tally-cons :
    (f : PlanFile) (files : List PlanFile) (hex : List ℕ) (s : Session)
    → Tally files s
    → Tally (f ∷ files) (record { written = hex ∷ s.written; ending = s.ending })
Tally-cons f files hex s (inl (e, n)) = inl (e, omega (arith, n))
Tally-cons f files hex s (inr (e, n)) = inr (e, omega (arith, n))

WrittenAfter-Tally :
    (files : List PlanFile) (s : Session)
    → Tally files s
    → WrittenAfter s.ending (length files) (length s.written)
WrittenAfter-Tally files s (inl (e, n)) =
    subst (λ t. WrittenAfter t (length files) (length s.written)) (sym e) n
WrittenAfter-Tally files s (inr (e, n)) =
    subst (λ t. WrittenAfter t (length files) (length s.written)) (sym e) n

length-map-some : (files : List PlanFile) → length (map some files) ≡ length files
length-map-some [] = refl
length-map-some (f ∷ fs) = omega (arith, length-map-some fs)

module _ (sign : PlanFile → List ℕ → SignReply) where
  sign_all-Tally : (files : List PlanFile) (wif : List ℕ) → Tally files (sign_all sign files wif)
  unfolding sign_all
  sign_all-Tally [] wif = inl (refl, refl)
  sign_all-Tally (f ∷ fs) wif = elim (SignReply-cases (sign f wif)) [
    | inl bad ↦ rw (bad, sign_all) (inr (refl, omega arith))
    | inr (inl bad) ↦ rw (bad, sign_all) (inr (refl, omega arith))
    | inr (inr (hex, good)) ↦
        rw (good, sign_all) (Tally-cons f fs hex (sign_all sign fs wif) (sign_all-Tally fs wif))
  ]

  -- A refusal leaves nothing signed, whatever its reason; an end without a refusal has signed all the plans;
  -- and an end at a signature that failed has signed fewer.
  pub cmd_sign-WrittenAfter :
      (sha256 : List ℕ → List ℕ) (decode : List ℕ → Option Tx) (found : List (Option PlanFile))
      (typed : Option (List ℕ)) (keys : List (List ℕ))
      → let s = cmd_sign sign sha256 decode found typed keys in
        WrittenAfter s.ending (length found) (length s.written)
  unfolding cmd_sign
  cmd_sign-WrittenAfter sha256 decode found typed keys =
      elim (Result-cases (approve decode sha256 found typed keys)) [
        | inl (why, bad) ↦ rw (bad, cmd_sign) refl
        | inr ((files, wif), good) ↦
            let a = approve-IsApproved sha256 decode found typed keys files wif good in
            let same : length found ≡ length files =
              ap length (sym a.whole) ∙ length-map-some files in
            rw (good, cmd_sign)
              (rw same
                (WrittenAfter-Tally files (sign_all sign files wif) (sign_all-Tally files wif)))
      ]
