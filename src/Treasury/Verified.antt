-- ===== src/Treasury/Verified.antt =====
-- What a transaction that passes the check against its plan does.
use wam_coin.Common.{
  ℕ, ◌+◌, ◌≡◌, ◌≢◌, ◌⊎◌, refl, sym, ap, ◌∙◌, List, [], ◌∷◌, some, true, ◌==◌, ◌&&◌, ◌<◌, Bool,
  Bool-cases, Option-cases, ==_iff, &&_split, inl, inr, arith, subst, false-ne-true,
}
use wam_coin.Common.Bytes.{bytes_eq, eq_of_bytes_eq}
use wam_coin.Common.Result.{ok, err-ne-ok, Result-cases}
use wam_coin.Treasury.Distinct.{NoRepeat, outpoints-NoRepeat}
use wam_coin.Treasury.{
  treasury, Outpoint, same_outpoint, outpoints, Payment, outputs, Plan, Tx, Money, read_money,
  remove_one, same_payments, same_points, paid_out, wanted, verify_payments, verify_inputs,
  verify_against_plan,
}

same_points_sound : (ps qs : List Outpoint) → same_points ps qs ≡ true → ps ≡ qs
unfolding same_points
same_points_sound [] [] h = refl
same_points_sound [] (q ∷ qs) h = cc
same_points_sound (p ∷ ps) [] h = cc
same_points_sound (p ∷ ps) (q ∷ qs) h =
    let (head, tail) = &&_split (same_outpoint p q) (same_points ps qs) h in
    let (index, id) = &&_split (p.vout == q.vout) (bytes_eq p.txid q.txid) head in
    let a : p.vout ≡ q.vout = (==_iff p.vout q.vout).0 index in
    let b : p.txid ≡ q.txid = eq_of_bytes_eq p.txid q.txid id in
    let same : p ≡ q =
      ap (λ t. record { txid = t; vout = p.vout }) b
      ∙ ap (λ t. record { txid = q.txid; vout = t }) a in
    cc (same, same_points_sound ps qs tail)

abbrev pub pay : List ℕ → ℕ → Payment
pay to atoms = record { to = to; atoms = atoms }

-- What a plan's money pays, whatever the order: the amount to the destination and the change to the
-- treasury, or the amount alone where there is no change.
pub data IsExact (to : List ℕ) (m : Money) : List Payment → Type 0 where
  alone : m.back ≡ 0 → IsExact to m (pay to m.paid ∷ [])
  change_last : 0 < m.back → IsExact to m (pay to m.paid ∷ pay treasury m.back ∷ [])
  change_first : 0 < m.back → IsExact to m (pay treasury m.back ∷ pay to m.paid ∷ [])

abbrev same_payment : Payment → Payment → Bool
same_payment p q = p.atoms == q.atoms && bytes_eq p.to q.to

same_payment_sound : (p q : Payment) → same_payment p q ≡ true → p ≡ q
same_payment_sound p q h =
    let (value, name) = &&_split (p.atoms == q.atoms) (bytes_eq p.to q.to) h in
    let a : p.atoms ≡ q.atoms = (==_iff p.atoms q.atoms).0 value in
    let b : p.to ≡ q.to = eq_of_bytes_eq p.to q.to name in
    ap (λ t. record { to = t; atoms = p.atoms }) b ∙ ap (λ t. record { to = q.to; atoms = t }) a

nothing_same : (ps : List Payment) → same_payments ps [] ≡ true → ps ≡ []
unfolding same_payments remove_one
nothing_same [] h = refl
nothing_same (p ∷ ps) h = absurd (false-ne-true h)

one_same : (ps : List Payment) (a : Payment) → same_payments ps (a ∷ []) ≡ true → ps ≡ a ∷ []
unfolding same_payments remove_one
one_same [] a h = absurd (false-ne-true h)
one_same (p ∷ ps) a h = elim (Bool-cases (same_payment p a)) [
  | inl here ↦ cc (same_payment_sound p a here, nothing_same ps (rw (here, same_payments) at h))
  | inr other ↦ absurd (false-ne-true (rw (other, same_payments) at h))
]

two_same :
    (ps : List Payment) (a b : Payment)
    → same_payments ps (a ∷ b ∷ []) ≡ true
    → (ps ≡ a ∷ b ∷ []) ⊎ (ps ≡ b ∷ a ∷ [])
unfolding same_payments remove_one
two_same [] a b h = absurd (false-ne-true h)
two_same (p ∷ ps) a b h = elim (Bool-cases (same_payment p a)) [
  | inl here ↦ inl (cc (same_payment_sound p a here, one_same ps b (rw (here, same_payments) at h)))
  | inr other ↦ elim (Bool-cases (same_payment p b)) [
    | inl next ↦ inr (
        cc (
          same_payment_sound p b next,
          one_same ps a (rw next at (rw (other, same_payments) at h)),
        ))
    | inr gone ↦ absurd (false-ne-true (rw gone at (rw (other, same_payments) at h)))
  ]
]

wanted-IsExact :
    (to : List ℕ) (m : Money) (ps : List Payment)
    → same_payments ps (wanted to m) ≡ true
    → IsExact to m ps
wanted-IsExact to m ps h = elim (Bool-cases (m.back == 0)) [
  | inl z ↦ subst (IsExact to m) (sym (one_same ps _ (rw z at h))) (alone ((==_iff m.back 0).0 z))
  | inr more ↦
      let some_back : 0 < m.back = ground (arith, more) in
      elim (two_same ps _ _ (rw more at h)) [
        | inl e ↦ subst (IsExact to m) (sym e) (change_last some_back)
        | inr e ↦ subst (IsExact to m) (sym e) (change_first some_back)
      ]
]

IsExact-paid_out :
    (to : List ℕ) (m : Money) (ps : List Payment) → IsExact to m ps → paid_out ps ≡ m.paid + m.back
IsExact-paid_out to m ps (alone z) = omega (arith, z)
IsExact-paid_out to m ps (change_last more) = omega arith
IsExact-paid_out to m ps (change_first more) = omega arith

cons-ne-nil : {p : Outpoint} {ps : List Outpoint} → p ∷ ps ≢ []
cons-ne-nil h = cc

pub record IsFaithful (plan : Plan) (tx : Tx) : Type 0 where
  pub points : List Outpoint
  pub payments : List Payment
  pub money : Money
  pub some_spent : points ≢ []
  pub once : NoRepeat points
  pub planned : outpoints plan.input_set ≡ ok points
  pub spent : outpoints tx.vin ≡ ok points
  pub stated : read_money plan ≡ some money
  pub made : outputs tx.vout ≡ ok payments
  pub exact : IsExact plan.to money payments
  pub conserved : money.total_in ≡ money.paid + money.back + money.cost

payments_faithful :
    (plan : Plan) (tx : Tx)
    → verify_payments plan tx ≡ ok true
    → (money : Money) × (payments : List Payment) × (read_money plan ≡ some money)
      × (outputs tx.vout ≡ ok payments)
      × (same_payments payments (wanted plan.to money) ≡ true)
      × (paid_out payments + money.cost ≡ money.total_in)
unfolding verify_payments
payments_faithful plan tx h = elim (Option-cases (read_money plan)) [
  | inl gone ↦ absurd (err-ne-ok (rw (gone, verify_payments) at h))
  | inr (m, money) ↦ elim (Result-cases (outputs tx.vout)) [
    | inl (e, bad) ↦ absurd (err-ne-ok (rw bad at (rw (money, verify_payments) at h)))
    | inr (got, made) ↦ elim (Bool-cases (same_payments got (wanted plan.to m))) [
      | inr other ↦ absurd (err-ne-ok (rw other at (rw made at (rw (money, verify_payments) at h))))
      | inl same ↦ elim (Bool-cases (paid_out got + m.cost == m.total_in)) [
        | inr lost ↦
            absurd
              (err-ne-ok (rw lost at (rw same at (rw made at (rw (money, verify_payments) at h)))))
        | inl kept ↦ (m, got, money, made, same, (==_iff (paid_out got + m.cost) m.total_in).0 kept)
      ]
    ]
  ]
]

inputs_faithful :
    (plan : Plan) (tx : Tx) (want : List Outpoint)
    → verify_inputs plan tx want ≡ ok true
    → (want ≢ []) × (outpoints tx.vin ≡ ok want) × (verify_payments plan tx ≡ ok true)
unfolding verify_inputs
inputs_faithful plan tx [] h = absurd (err-ne-ok h)
inputs_faithful plan tx (p ∷ ps) h = elim (Result-cases (outpoints tx.vin)) [
  | inl (e, bad) ↦ absurd (err-ne-ok (rw (bad, verify_inputs) at h))
  | inr (got, read) ↦ elim (Bool-cases (same_points got (p ∷ ps))) [
    | inr other ↦ absurd (err-ne-ok (rw other at (rw (read, verify_inputs) at h)))
    | inl same ↦ (
      cons-ne-nil,
      read ∙ ap ok (same_points_sound got (p ∷ ps) same),
      rw same at (rw (read, verify_inputs) at h),
    )
  ]
]

pub verify_against_plan-IsFaithful :
    (plan : Plan) (tx : Tx) → verify_against_plan plan tx ≡ ok true → IsFaithful plan tx
unfolding verify_against_plan
verify_against_plan-IsFaithful plan tx h = elim (Result-cases (outpoints plan.input_set)) [
  | inl (e, bad) ↦ absurd (err-ne-ok (rw (bad, verify_against_plan) at h))
  | inr (want, planned) ↦
      let (some_spent, spent, good) =
        inputs_faithful plan tx want (rw (planned, verify_against_plan) at h) in
      let (m, payments, stated, made, same, kept) = payments_faithful plan tx good in
      let exact = wanted-IsExact plan.to m payments same in
      record {
        points = want;
        payments = payments;
        money = m;
        some_spent = some_spent;
        once = outpoints-NoRepeat plan.input_set want planned;
        planned = planned;
        spent = spent;
        stated = stated;
        made = made;
        exact = exact;
        conserved = omega (arith, IsExact-paid_out plan.to m payments exact, kept);
      }
]
