-- ===== src/Floor/Reordered.antt =====
-- Only the set of the values counts, not their order and not how often each stands in the files.
use wam_coin.Common.{
  ℕ, ◌≡◌, ◌≢◌, refl, sym, ap, ◌∙◌, subst, List, [], ◌∷◌, ◌++◌, some, Bool, true, false, ◌||◌, All,
  Bool-cases, inl, inr, false-ne-true, arith,
}
use wam_coin.Common.Bytes.{bytes_eq, eq_of_bytes_eq, bytes_eq_self}
use wam_coin.Floor.{
  tuple_le, counted, insert_value, sorted_set, join_lines, Values, fingerprint_text, compare_remote,
}
use wam_coin.Floor.Order.{tuple_le_total, tuple_le_trans, tuple_le_antisym}

unfoldable pub is_in : List ℕ → List (List ℕ) → Bool
is_in v [] = false
is_in v (w ∷ ws) = bytes_eq v w || is_in v ws

abbrev pub SameSet : List (List ℕ) → List (List ℕ) → Type 0
SameSet xs ys = (v : List ℕ) → is_in v xs ≡ is_in v ys

-- Smaller, and not the same.
IsBelow : List ℕ → List ℕ → Type 0
IsBelow v w = (tuple_le v w ≡ true) × (bytes_eq v w ≡ false)

-- In ascending order, each value once.
IsAscending : List (List ℕ) → Type 0
IsAscending [] = Unit
IsAscending (v ∷ vs) = All (IsBelow v) vs × IsAscending vs

true-ne-false : true ≢ false
true-ne-false h = cc

bytes_eq_sym : (v w : List ℕ) → bytes_eq v w ≡ false → bytes_eq w v ≡ false
bytes_eq_sym v w h = elim (Bool-cases (bytes_eq w v)) [
  | inr differ ↦ differ
  | inl same ↦
      absurd (
        true-ne-false (sym (bytes_eq_self v) ∙ ap (bytes_eq v) (sym (eq_of_bytes_eq w v same)) ∙ h))
]

IsBelow-trans : (u v w : List ℕ) → IsBelow u v → IsBelow v w → IsBelow u w
unfolding IsBelow
IsBelow-trans u v w (a, b) (c, d) = (
  tuple_le_trans u v w a c,
  elim (Bool-cases (bytes_eq u w)) [
    | inr differ ↦ differ
    | inl same ↦ absurd (
        true-ne-false (
          sym (
            tuple_le_antisym u v a
              (subst (λ t. tuple_le v t ≡ true) (sym (eq_of_bytes_eq u w same)) c))
          ∙ b))
  ],
)

insert_value-All :
    (P : List ℕ → Type 0) (v : List ℕ) (ws : List (List ℕ))
    → P v
    → All P ws
    → All P (insert_value v ws)
unfolding insert_value
insert_value-All P v [] p h = (p, tt)
insert_value-All P v (w ∷ ws) p (q, h) = elim (Bool-cases (bytes_eq v w)) [
  | inl same ↦ rw (same, insert_value) (q, h)
  | inr differ ↦ elim (Bool-cases (tuple_le v w)) [
    | inl first ↦ rw (differ, insert_value) (rw first (p, (q, h)))
    | inr later ↦ rw (differ, insert_value) (rw later (q, insert_value-All P v ws p h))
  ]
]

All-IsBelow :
    (v w : List ℕ) (ws : List (List ℕ)) → IsBelow v w → All (IsBelow w) ws → All (IsBelow v) ws
All-IsBelow v w [] b h = tt
All-IsBelow v w (x ∷ ws) b (p, h) = (IsBelow-trans v w x b p, All-IsBelow v w ws b h)

insert_value-IsAscending :
    (v : List ℕ) (ws : List (List ℕ)) → IsAscending ws → IsAscending (insert_value v ws)
unfolding insert_value IsAscending IsBelow
insert_value-IsAscending v [] h = (tt, tt)
insert_value-IsAscending v (w ∷ ws) (all, h) = elim (Bool-cases (bytes_eq v w)) [
  | inl same ↦ rw (same, insert_value) (all, h)
  | inr differ ↦ elim (Bool-cases (tuple_le v w)) [
    | inl first ↦
        rw (differ, insert_value)
          (rw first (((first, differ), All-IsBelow v w ws (first, differ) all), (all, h)))
    | inr later ↦
        rw (differ, insert_value)
          (rw later (
            insert_value-All (IsBelow w) v ws (tuple_le_total v w later, bytes_eq_sym v w differ)
                all,
            insert_value-IsAscending v ws h,
          ))
  ]
]

sorted_set-IsAscending : (vs : List (List ℕ)) → IsAscending (sorted_set vs)
unfolding sorted_set IsAscending
sorted_set-IsAscending [] = tt
sorted_set-IsAscending (v ∷ vs) =
    insert_value-IsAscending v (sorted_set vs) (sorted_set-IsAscending vs)

absorb : (a b r : Bool) → b ≡ a → (b || r) ≡ (a || (b || r))
absorb a b r h = ground (arith, h)

swap : (a b r m : Bool) → m ≡ (a || r) → (b || m) ≡ (a || (b || r))
swap a b r m h = ground (arith, h)

-- Inserting a value adds it and nothing else.
insert_value-is_in :
    (u v : List ℕ) (ws : List (List ℕ)) → is_in u (insert_value v ws) ≡ (bytes_eq u v || is_in u ws)
unfolding insert_value is_in
insert_value-is_in u v [] = refl
insert_value-is_in u v (w ∷ ws) = elim (Bool-cases (bytes_eq v w)) [
  | inl same ↦
      rw (same, insert_value)
        (absorb (bytes_eq u v) (bytes_eq u w) (is_in u ws)
          (ap (bytes_eq u) (sym (eq_of_bytes_eq v w same))))
  | inr differ ↦ elim (Bool-cases (tuple_le v w)) [
    | inl first ↦ rw (differ, insert_value) (rw first refl)
    | inr later ↦
        rw (differ, insert_value)
          (rw later (swap (bytes_eq u v) (bytes_eq u w) (is_in u ws) _ (insert_value-is_in u v ws)))
  ]
]

sorted_set-SameSet : (vs : List (List ℕ)) → SameSet (sorted_set vs) vs
unfolding sorted_set is_in
sorted_set-SameSet [] u = refl
sorted_set-SameSet (v ∷ vs) u =
    insert_value-is_in u v (sorted_set vs) ∙ ap (λ b. bytes_eq u v || b) (sorted_set-SameSet vs u)

-- Nothing below the first value is in an ascending list.
below_not_in : (u : List ℕ) (ws : List (List ℕ)) → All (IsBelow u) ws → is_in u ws ≡ false
unfolding is_in IsBelow
below_not_in u [] h = refl
below_not_in u (w ∷ ws) ((le, differ), h) = rw differ (below_not_in u ws h)

All-is_in :
    (P : List ℕ → Type 0) (u : List ℕ) (ws : List (List ℕ)) → All P ws → is_in u ws ≡ true → P u
unfolding is_in
All-is_in P u [] h e = absurd (false-ne-true e)
All-is_in P u (w ∷ ws) (p, h) e = elim (Bool-cases (bytes_eq u w)) [
  | inl same ↦ subst P (sym (eq_of_bytes_eq u w same)) p
  | inr other ↦ All-is_in P u ws h (rw other at e)
]

is_in-head : (y : List ℕ) (ys : List (List ℕ)) → is_in y (y ∷ ys) ≡ true
unfolding is_in
is_in-head y ys = rw (bytes_eq_self y)

-- A first value that is not the other's first value stands behind it.
other_head :
    (x y : List ℕ) (xs ys : List (List ℕ))
    → SameSet (x ∷ xs) (y ∷ ys)
    → bytes_eq x y ≡ false
    → All (IsBelow y) ys
    → IsBelow y x
unfolding is_in
other_head x y xs ys same differ ay =
    All-is_in (IsBelow y) x ys ay (rw differ at (sym (same x) ∙ is_in-head x xs))

same_head :
    (x y : List ℕ) (xs ys : List (List ℕ))
    → SameSet (x ∷ xs) (y ∷ ys)
    → All (IsBelow x) xs
    → All (IsBelow y) ys
    → x ≡ y
unfolding IsBelow
same_head x y xs ys same ax ay = elim (Bool-cases (bytes_eq x y)) [
  | inl one ↦ eq_of_bytes_eq x y one
  | inr differ ↦
      let (le, apart) = other_head x y xs ys same differ ay in
      let (ge, other) = other_head y x ys xs (λ v. sym (same v)) (bytes_eq_sym x y differ) ax in
      absurd (true-ne-false (sym (tuple_le_antisym y x le ge) ∙ apart))
]

same_tails :
    (x : List ℕ) (xs ys : List (List ℕ))
    → SameSet (x ∷ xs) (x ∷ ys)
    → All (IsBelow x) xs
    → All (IsBelow x) ys
    → SameSet xs ys
unfolding is_in
same_tails x xs ys same ax ay u = elim (Bool-cases (bytes_eq u x)) [
  | inr other ↦ rw other at (same u)
  | inl one ↦
      let e : x ≡ u = sym (eq_of_bytes_eq u x one) in
      subst (λ t. is_in t xs ≡ is_in t ys) e (below_not_in x xs ax ∙ sym (below_not_in x ys ay))
]

ascending_unique :
    (xs ys : List (List ℕ)) → IsAscending xs → IsAscending ys → SameSet xs ys → xs ≡ ys
unfolding IsAscending is_in
ascending_unique [] [] h k same = refl
ascending_unique [] (y ∷ ys) h k same = absurd (false-ne-true (same y ∙ is_in-head y ys))
ascending_unique (x ∷ xs) [] h k same = absurd (true-ne-false (sym (is_in-head x xs) ∙ same x))
ascending_unique (x ∷ xs) (y ∷ ys) (ax, h) (ay, k) same =
    let e : y ≡ x = sym (same_head x y xs ys same ax ay) in
    let ax_ys : All (IsBelow x) ys = subst (λ t. All (IsBelow t) ys) e ay in
    let together : SameSet (x ∷ xs) (x ∷ ys) = subst (λ t. SameSet (x ∷ xs) (t ∷ ys)) e same in
    ap (λ l. x ∷ l) (ascending_unique xs ys h k (same_tails x xs ys together ax ax_ys))
    ∙ ap (λ t. t ∷ ys) (sym e)

sorted_set_eq : (xs ys : List (List ℕ)) → SameSet xs ys → sorted_set xs ≡ sorted_set ys
sorted_set_eq xs ys same =
    ascending_unique (sorted_set xs) (sorted_set ys) (sorted_set-IsAscending xs)
      (sorted_set-IsAscending ys)
      (λ v. sorted_set-SameSet xs v ∙ same v ∙ sym (sorted_set-SameSet ys v))

-- Two tags whose files have the same set of counted values have one fingerprint, whatever the order of the values
-- and however often each stands there, and the comparison of the two exits with 0.
pub compare_remote_same :
    (v w : Values) (a b : List ℕ)
    → SameSet
        (counted (some a) v.chainparams ++ v.params)
        (counted (some b) w.chainparams ++ w.params)
    → (fingerprint_text (some v) (some a) ≡ fingerprint_text (some w) (some b))
      × (compare_remote (some v) (some w) a b ≡ 0)
unfolding fingerprint_text compare_remote
compare_remote_same v w a b same =
    let one =
      sorted_set_eq (counted (some a) v.chainparams ++ v.params)
        (counted (some b) w.chainparams ++ w.params) same in
    (
      ap (λ l. some (join_lines l)) one,
      rw one (
          rw
            (bytes_eq_self (join_lines (sorted_set (counted (some b) w.chainparams ++ w.params))))),
    )
