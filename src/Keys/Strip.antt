-- ===== src/Keys/Strip.antt =====
-- `str.strip` leaves a text of base58 characters alone: none of them is white space.
use wam_coin.Common.{
  ℕ, ◌+◌, ◌≡◌, refl, ap, ◌∙◌, List, [], ◌∷◌, some, Bool, true, false, not, ◌==◌, ◌&&◌, All,
  All-reverse, Bool-cases, Option-cases, &&_split, not-true, ==_iff, inl, inr, reverse,
  none-ne-some, ◌*◌,
}
use mathlib.Core.List.{reverse-reverse}
use wam_coin.Base58.{alphabet, find, number_of, raw_of}
use wam_coin.Keys.{is_space, lstrip, strip}

pub IsVisible : ℕ → Type 0
IsVisible c = is_space c ≡ false

no_space : List ℕ → Bool
no_space [] = true
no_space (c ∷ cs) = not (is_space c) && no_space cs

alphabet_visible : no_space alphabet ≡ true
unfolding no_space
alphabet_visible = refl

found-IsVisible : (ch i : ℕ) (cs : List ℕ) → no_space cs ≡ true → find ch cs ≡ some i → IsVisible ch
unfolding no_space find IsVisible
found-IsVisible ch i [] h e = cc
found-IsVisible ch i (c ∷ cs) h e =
    let (head, tail) = &&_split (not (is_space c)) (no_space cs) h in
    elim (Bool-cases (ch == c)) [
      | inl here ↦ rw ((==_iff ch c).0 here) (not-true (is_space c) head)
      | inr later ↦ elim (Option-cases (find ch cs)) [
        | inl gone ↦ absurd (none-ne-some (rw gone at (rw (later, find) at e)))
        | inr (j, found) ↦ found-IsVisible ch j cs tail found
      ]
    ]

All-IsVisible : (s : List ℕ) (n m : ℕ) → number_of n s ≡ some m → All IsVisible s
unfolding number_of
All-IsVisible [] n m e = tt
All-IsVisible (ch ∷ s) n m e = elim (Option-cases (find ch alphabet)) [
  | inl gone ↦ absurd (none-ne-some (rw (gone, number_of) at e))
  | inr (i, found) ↦ (
    found-IsVisible ch i alphabet alphabet_visible found,
    All-IsVisible s (n * 58 + i) m (rw (found, number_of) at e),
  )
]

lstrip_visible : (s : List ℕ) → All IsVisible s → lstrip s ≡ s
unfolding lstrip IsVisible
lstrip_visible [] h = refl
lstrip_visible (c ∷ s) (p, h) = rw p

strip_visible : (s : List ℕ) → All IsVisible s → strip s ≡ s
unfolding strip
strip_visible s h =
    ap (λ t. reverse (lstrip (reverse t))) (lstrip_visible s h)
    ∙ ap reverse (lstrip_visible (reverse s) (All-reverse IsVisible s h))
    ∙ reverse-reverse s

pub strip_base58 : (s raw : List ℕ) → raw_of s ≡ some raw → strip s ≡ s
unfolding raw_of
strip_base58 s raw e = elim (Option-cases (number_of 0 s)) [
  | inl unread ↦ absurd (none-ne-some (rw (unread, raw_of) at e))
  | inr (n, read) ↦ strip_visible s (All-IsVisible s 0 n read)
]
