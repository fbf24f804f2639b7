-- ===== src/Floor/Order.antt =====
-- The orders that the tags and the values are sorted by.
use wam_coin.Common.{
  ℕ, ◌≡◌, refl, sym, List, [], ◌∷◌, Bool, true, false, ◌==◌, ◌&&◌, ◌||◌, ltb, arith, false-ne-true,
}
use wam_coin.Common.Bytes.{bytes_eq}
use wam_coin.Floor.{tuple_le}

-- In one step, for heads that are compared and tails that are known.
le_step :
    (x y : ℕ) (b c : Bool)
    → (b ≡ false → c ≡ true)
    → (ltb x y || (x == y && b)) ≡ false
    → (ltb y x || (y == x && c)) ≡ true
le_step x y b c f h = ground (arith, f, h)

pub tuple_le_total : (xs ys : List ℕ) → tuple_le xs ys ≡ false → tuple_le ys xs ≡ true
unfolding tuple_le
tuple_le_total [] ys h = absurd (false-ne-true (sym h))
tuple_le_total (x ∷ xs) [] h = refl
tuple_le_total (x ∷ xs) (y ∷ ys) h =
    le_step x y (tuple_le xs ys) (tuple_le ys xs) (tuple_le_total xs ys) h

trans_step :
    (x y z : ℕ) (b c d : Bool)
    → (b ≡ true → c ≡ true → d ≡ true)
    → (ltb x y || (x == y && b)) ≡ true
    → (ltb y z || (y == z && c)) ≡ true
    → (ltb x z || (x == z && d)) ≡ true
trans_step x y z b c d f h k = ground (arith, f, h, k)

pub tuple_le_trans :
    (xs ys zs : List ℕ) → tuple_le xs ys ≡ true → tuple_le ys zs ≡ true → tuple_le xs zs ≡ true
unfolding tuple_le
tuple_le_trans [] ys zs h k = refl
tuple_le_trans (x ∷ xs) [] zs h k = absurd (false-ne-true h)
tuple_le_trans (x ∷ xs) (y ∷ ys) [] h k = absurd (false-ne-true k)
tuple_le_trans (x ∷ xs) (y ∷ ys) (z ∷ zs) h k =
    trans_step x y z (tuple_le xs ys) (tuple_le ys zs) (tuple_le xs zs) (tuple_le_trans xs ys zs) h
      k

antisym_step :
    (x y : ℕ) (b c d : Bool)
    → (b ≡ true → c ≡ true → d ≡ true)
    → (ltb x y || (x == y && b)) ≡ true
    → (ltb y x || (y == x && c)) ≡ true
    → (x == y && d) ≡ true
antisym_step x y b c d f h k = ground (arith, f, h, k)

pub tuple_le_antisym :
    (xs ys : List ℕ) → tuple_le xs ys ≡ true → tuple_le ys xs ≡ true → bytes_eq xs ys ≡ true
unfolding tuple_le bytes_eq
tuple_le_antisym [] [] h k = refl
tuple_le_antisym [] (y ∷ ys) h k = absurd (false-ne-true k)
tuple_le_antisym (x ∷ xs) [] h k = absurd (false-ne-true h)
tuple_le_antisym (x ∷ xs) (y ∷ ys) h k =
    antisym_step x y (tuple_le xs ys) (tuple_le ys xs) (bytes_eq xs ys) (tuple_le_antisym xs ys) h k
