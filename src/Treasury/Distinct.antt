-- ===== src/Treasury/Distinct.antt =====
-- What the tests for a repeated outpoint of scripts/treasury_spend.py say of a list of outpoints.
use wam_coin.Common.{
  ◌≡◌, ◌≢◌, sym, ap, ◌∙◌, List, [], ◌∷◌, true, false, All, Bool-cases, inl, inr, false-ne-true,
  ==_self, subst,
}
use wam_coin.Common.Bytes.{bytes_eq_self}
use wam_coin.Common.Result.{ok, ok_inj, err-ne-ok, Result-cases}
use wam_coin.Treasury.{Outpoint, same_outpoint, is_seen, has_repeat, Vin, read_points, outpoints}

same_outpoint_self : (p : Outpoint) → same_outpoint p p ≡ true
same_outpoint_self p = rw (==_self p.vout) (bytes_eq_self p.txid)

abbrev pub IsApartFrom : List Outpoint → Outpoint → Type 0
IsApartFrom ps p = All (λ q. p ≢ q) ps

-- No two outpoints of the list are one.
abbrev pub NoRepeat : List Outpoint → Type 0
NoRepeat [] = Unit
NoRepeat (p ∷ ps) = IsApartFrom ps p × NoRepeat ps

apart : (p q : Outpoint) → same_outpoint p q ≡ false → p ≢ q
apart p q h e = absurd (false-ne-true (sym h ∙ sym (ap (same_outpoint p) e) ∙ same_outpoint_self p))

pub is_seen-IsApartFrom :
    (p : Outpoint) (qs : List Outpoint) → is_seen p qs ≡ false → IsApartFrom qs p
unfolding is_seen
is_seen-IsApartFrom p [] h = tt
is_seen-IsApartFrom p (q ∷ qs) h = elim (Bool-cases (same_outpoint p q)) [
  | inl same ↦ absurd (false-ne-true (sym (rw (same, is_seen) at h)))
  | inr other ↦ (apart p q other, is_seen-IsApartFrom p qs (rw (other, is_seen) at h))
]

has_repeat-NoRepeat : (ps : List Outpoint) → has_repeat ps ≡ false → NoRepeat ps
unfolding has_repeat
has_repeat-NoRepeat [] h = tt
has_repeat-NoRepeat (p ∷ ps) h = elim (Bool-cases (is_seen p ps)) [
  | inl old ↦ absurd (false-ne-true (sym (rw (old, has_repeat) at h)))
  | inr new ↦ (is_seen-IsApartFrom p ps new, has_repeat-NoRepeat ps (rw (new, has_repeat) at h))
]

pub outpoints-NoRepeat : (vs : List Vin) (ps : List Outpoint) → outpoints vs ≡ ok ps → NoRepeat ps
unfolding outpoints
outpoints-NoRepeat vs ps h = elim (Result-cases (read_points vs)) [
  | inl (e, bad) ↦ absurd (err-ne-ok (rw (bad, outpoints) at h))
  | inr (qs, read) ↦ elim (Bool-cases (has_repeat qs)) [
    | inl twice ↦ absurd (err-ne-ok (rw twice at (rw (read, outpoints) at h)))
    | inr once ↦
        subst NoRepeat (ok_inj (rw once at (rw (read, outpoints) at h)))
          (has_repeat-NoRepeat qs once)
  ]
]
