-- ===== src/Reorg/Pool.antt =====
-- The pool of `fork_bracket`: what halving does to it.
use wam_coin.Common.{
  ℕ, zero, suc, ◌≤◌, ◌<◌, ◌≡◌, ◌≢◌, refl, sym, subst, List, [], ◌∷◌, length, true, ◌==◌, leb, ltb,
  get_or, All, Any, Bool-cases, ==_iff, inl, inr, arith,
}
use wam_coin.Reorg.{insert_height, sort_heights, above, below}

pub get_or-Any : (xs : List ℕ) (i d : ℕ) → i < length xs → Any (λ h. h ≡ get_or xs i d) xs
get_or-Any [] i d h = absurd (omega arith)
get_or-Any (x ∷ xs) zero d h = inl refl
get_or-Any (x ∷ xs) (suc i) d h = inr (get_or-Any xs i d (omega arith))

no_less : (a b : ℕ) → ltb a b ≡ true → b ≢ a
no_less a b h e = absurd (ground (arith, h, e))

-- The height that was tested leaves the pool, on whichever side.
length-above_le : (m : ℕ) (hs : List ℕ) → length (above m hs) ≤ length hs
unfolding above
length-above_le m [] = omega arith
length-above_le m (h ∷ hs) = elim (Bool-cases (ltb m h)) [
  | inl up ↦ rw (up, above) (omega (arith, length-above_le m hs))
  | inr down ↦ rw (down, above) (omega (arith, length-above_le m hs))
]

length-below_le : (m : ℕ) (hs : List ℕ) → length (below m hs) ≤ length hs
unfolding below
length-below_le m [] = omega arith
length-below_le m (h ∷ hs) = elim (Bool-cases (ltb h m)) [
  | inl down ↦ rw (down, below) (omega (arith, length-below_le m hs))
  | inr up ↦ rw (up, below) (omega (arith, length-below_le m hs))
]

pub length-above : (m : ℕ) (hs : List ℕ) → Any (λ h. h ≡ m) hs → length (above m hs) < length hs
unfolding above
length-above m [] e = absurd e
length-above m (h ∷ hs) e = elim (Bool-cases (ltb m h)) [
  | inr down ↦ rw (down, above) (omega (arith, length-above_le m hs))
  | inl up ↦ elim e as (λ x. length (above m (h ∷ hs)) < length (h ∷ hs)) [
    | inl same ↦ absurd (no_less m h up same)
    | inr later ↦ rw (up, above) (omega (arith, length-above m hs later))
  ]
]

pub length-below : (m : ℕ) (hs : List ℕ) → Any (λ h. h ≡ m) hs → length (below m hs) < length hs
unfolding below
length-below m [] e = absurd e
length-below m (h ∷ hs) e = elim (Bool-cases (ltb h m)) [
  | inr up ↦ rw (up, below) (omega (arith, length-below_le m hs))
  | inl down ↦ elim e as (λ x. length (below m (h ∷ hs)) < length (h ∷ hs)) [
    | inl same ↦ absurd (no_less h m down (sym same))
    | inr later ↦ rw (down, below) (omega (arith, length-below m hs later))
  ]
]

module _ (P : ℕ → Type 0) where
  pub All-above : (m : ℕ) (hs : List ℕ) → All P hs → All P (above m hs)
  unfolding above
  All-above m [] h = tt
  All-above m (x ∷ hs) (p, h) = elim (Bool-cases (ltb m x)) [
    | inl up ↦ rw (up, above) (p, All-above m hs h)
    | inr down ↦ rw (down, above) (All-above m hs h)
  ]

  pub All-below : (m : ℕ) (hs : List ℕ) → All P hs → All P (below m hs)
  unfolding below
  All-below m [] h = tt
  All-below m (x ∷ hs) (p, h) = elim (Bool-cases (ltb x m)) [
    | inl down ↦ rw (down, below) (p, All-below m hs h)
    | inr up ↦ rw (up, below) (All-below m hs h)
  ]

  -- What holds of the heights above `m`, and of those that are not, holds of all.
  pub above-All : (m : ℕ) (hs : List ℕ) → ((h : ℕ) → h ≤ m → P h) → All P (above m hs) → All P hs
  unfolding above
  above-All m [] low h = tt
  above-All m (x ∷ hs) low h = elim (Bool-cases (ltb m x)) [
    | inl up ↦ let (p, rest) = rw (up, above) at h in (p, above-All m hs low rest)
    | inr down ↦ (low x (ground (arith, down)), above-All m hs low (rw (down, above) at h))
  ]

  pub below-All : (m : ℕ) (hs : List ℕ) → ((h : ℕ) → m ≤ h → P h) → All P (below m hs) → All P hs
  unfolding below
  below-All m [] high h = tt
  below-All m (x ∷ hs) high h = elim (Bool-cases (ltb x m)) [
    | inl down ↦ let (p, rest) = rw (down, below) at h in (p, below-All m hs high rest)
    | inr up ↦ (high x (ground (arith, up)), below-All m hs high (rw (up, below) at h))
  ]

  pub Any-All : (m : ℕ) (hs : List ℕ) → Any (λ h. h ≡ m) hs → All P hs → P m
  Any-All m [] e h = absurd e
  Any-All m (x ∷ hs) (inl same) (p, h) = subst P same p
  Any-All m (x ∷ hs) (inr later) (p, h) = Any-All m hs later h

  insert_height-All : (h : ℕ) (ks : List ℕ) → P h → All P ks → All P (insert_height h ks)
  unfolding insert_height
  insert_height-All h [] p all = (p, tt)
  insert_height-All h (k ∷ ks) p (q, all) = elim (Bool-cases (h == k)) [
    | inl same ↦ rw (same, insert_height) (q, all)
    | inr other ↦ elim (Bool-cases (leb h k)) [
      | inl first ↦ rw (other, insert_height) (rw first (p, (q, all)))
      | inr later ↦ rw (other, insert_height) (rw later (q, insert_height-All h ks p all))
    ]
  ]

  pub sort_heights-All : (hs : List ℕ) → All P hs → All P (sort_heights hs)
  unfolding sort_heights
  sort_heights-All [] all = tt
  sort_heights-All (h ∷ hs) (p, all) =
      insert_height-All h (sort_heights hs) p (sort_heights-All hs all)

  insert_height-back : (h : ℕ) (ks : List ℕ) → All P (insert_height h ks) → P h × All P ks
  unfolding insert_height
  insert_height-back h [] (p, all) = (p, tt)
  insert_height-back h (k ∷ ks) all = elim (Bool-cases (h == k)) [
    | inl same ↦
        let (q, rest) = rw (same, insert_height) at all in
        (subst P (sym ((==_iff h k).0 same)) q, (q, rest))
    | inr other ↦ elim (Bool-cases (leb h k)) [
      | inl first ↦ let (p, rest) = rw first at (rw (other, insert_height) at all) in (p, rest)
      | inr later ↦
          let (q, rest) = rw later at (rw (other, insert_height) at all) in
          let (p, others) = insert_height-back h ks rest in (p, (q, others))
    ]
  ]

  pub sort_heights-back : (hs : List ℕ) → All P (sort_heights hs) → All P hs
  unfolding sort_heights
  sort_heights-back [] all = tt
  sort_heights-back (h ∷ hs) all =
      let (p, rest) = insert_height-back h (sort_heights hs) all in (p, sort_heights-back hs rest)
