-- ===== src/Treasury/Select/Disjoint.antt =====
-- What the check of `cmd_plan` for an output that two parts spend says of the parts.
use wam_coin.Common.{
  ◌≡◌, ◌≢◌, map, false-ne-true, sym, List, [], ◌∷◌, ◌++◌, some, some_inj, none-ne-some, true, All,
  Bool-cases, Option-cases, inl, inr, subst,
}
use wam_coin.Treasury.{Outpoint, is_seen}
use wam_coin.Treasury.Distinct.{IsApartFrom, NoRepeat, is_seen-IsApartFrom}
use wam_coin.Treasury.Select.{Utxo, note_points, disjoint}

-- The outpoints of all the parts, in order.
abbrev pub points_of : List Utxo → List Outpoint
points_of us = map (λ (u : Utxo). u.point) us

abbrev pub all_points : List (List Utxo) → List Outpoint
all_points [] = []
all_points (part ∷ parts) = points_of part ++ all_points parts

-- The points of the parts, with those that were seen before.
abbrev NoneTwice : List Outpoint → List Outpoint → Type 0
NoneTwice seen ps = All (IsApartFrom seen) ps × NoRepeat ps

NoneTwice-nil : (seen : List Outpoint) → NoneTwice seen []
NoneTwice-nil seen = (tt, tt)

apart_swap : (p q : Outpoint) → q ≢ p → p ≢ q
apart_swap p q h e = h (sym e)

tails_apart :
    (p : Outpoint) (seen ps : List Outpoint)
    → All (IsApartFrom (p ∷ seen)) ps
    → All (IsApartFrom seen) ps × IsApartFrom ps p
tails_apart p seen [] h = (tt, tt)
tails_apart p seen (q ∷ ps) ((first, rest), h) =
    let (others, apart) = tails_apart p seen ps h in ((rest, others), (apart_swap p q first, apart))

NoneTwice-cons :
    (p : Outpoint) (seen ps : List Outpoint)
    → IsApartFrom seen p
    → NoneTwice (p ∷ seen) ps
    → NoneTwice seen (p ∷ ps)
NoneTwice-cons p seen ps new (h, once) =
    let (others, apart) = tails_apart p seen ps h in ((new, others), (apart, once))

note_points-NoneTwice :
    (part : List Utxo) (seen seen2 rest : List Outpoint)
    → note_points seen part ≡ some seen2
    → NoneTwice seen2 rest
    → NoneTwice seen (points_of part ++ rest)
unfolding note_points
note_points-NoneTwice [] seen seen2 rest h once =
    subst (λ t. NoneTwice t rest) (sym (some_inj h)) once
note_points-NoneTwice (u ∷ us) seen seen2 rest h once = elim (Bool-cases (is_seen u.point seen)) [
  | inl old ↦ absurd (none-ne-some (rw (old, note_points) at h))
  | inr new ↦
      NoneTwice-cons u.point seen (points_of us ++ rest) (is_seen-IsApartFrom u.point seen new)
        (note_points-NoneTwice us (u.point ∷ seen) seen2 rest (rw (new, note_points) at h) once)
]

pub disjoint-NoneTwice :
    (parts : List (List Utxo)) (seen : List Outpoint)
    → disjoint seen parts ≡ true
    → NoneTwice seen (all_points parts)
unfolding disjoint
disjoint-NoneTwice [] seen h = NoneTwice-nil seen
disjoint-NoneTwice (part ∷ parts) seen h = elim (Option-cases (note_points seen part)) [
  | inl twice ↦ absurd (false-ne-true (rw (twice, disjoint) at h))
  | inr (seen2, once) ↦
      note_points-NoneTwice part seen seen2 (all_points parts) once
        (disjoint-NoneTwice parts seen2 (rw (once, disjoint) at h))
]
