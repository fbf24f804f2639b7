-- ===== src/Patch/Replaced.antt =====
-- What one replacement does to a text.
use wam_coin.Common.{
  ℕ, ◌≡◌, ◌≢◌, refl, sym, ap, ◌∙◌, List, [], ◌∷◌, ◌++◌, length, append-nil, drop, none,
  some-ne-none, true, ◌==◌, &&_split, Bool-cases, ==_iff, inl, inr, arith, false-ne-true,
}
use wam_coin.Common.Texts.{starts_with}
use wam_coin.Patch.{count_from, count, replace_first, require_unique}

-- One place of a text, in front of and behind which nothing changes.
pub record IsReplaced (needle text src out : List ℕ) : Type 0 where
  pub before : List ℕ
  pub after : List ℕ
  pub found : src ≡ before ++ (needle ++ after)
  pub replaced : out ≡ before ++ (text ++ after)

starts_with_split :
    (needle src : List ℕ) → starts_with needle src ≡ true → src ≡ needle ++ drop (length needle) src
unfolding starts_with
starts_with_split [] src h = refl
starts_with_split (n ∷ ns) [] h = absurd (false-ne-true h)
starts_with_split (n ∷ ns) (c ∷ cs) h =
    let (head, tail) = &&_split (n == c) (starts_with ns cs) h in
    let same : n ≡ c = (==_iff n c).0 head in
    ap (λ t. t ∷ cs) (sym same) ∙ ap (λ t. n ∷ t) (starts_with_split ns cs tail)

IsReplaced-cons :
    (c : ℕ) (needle text src out : List ℕ)
    → IsReplaced needle text src out
    → IsReplaced needle text (c ∷ src) (c ∷ out)
IsReplaced-cons c needle text src out r = record {
  before = c ∷ r.before;
  after = r.after;
  found = ap (λ t. c ∷ t) r.found;
  replaced = ap (λ t. c ∷ t) r.replaced;
}

replace_first-IsReplaced :
    (needle text src : List ℕ)
    → count_from 0 needle src ≢ 0
    → IsReplaced needle text src (replace_first needle text src)
unfolding count_from replace_first
replace_first-IsReplaced needle text [] h = absurd (h refl)
replace_first-IsReplaced needle text (c ∷ cs) h = elim (Bool-cases (starts_with needle (c ∷ cs))) [
  | inl here ↦
      rw (here, replace_first)
        (record {
          before = [];
          after = drop (length needle) (c ∷ cs);
          found = starts_with_split needle (c ∷ cs) here;
          replaced = refl;
        })
  | inr later ↦
      rw (later, replace_first)
        (IsReplaced-cons c needle text cs (replace_first needle text cs)
          (replace_first-IsReplaced needle text cs (λ e. h (rw (later, count_from) e))))
]

-- An empty anchor is in an empty text once.
pub IsReplaced-once :
    (needle text src : List ℕ)
    → count needle src ≡ 1
    → IsReplaced needle text src (replace_first needle text src)
unfolding count replace_first starts_with
IsReplaced-once [] text [] h = record {
  before = [];
  after = [];
  found = refl;
  replaced = sym (append-nil text);
}
IsReplaced-once [] text (c ∷ cs) h = absurd (omega (arith, h))
IsReplaced-once (n ∷ ns) text src h =
    replace_first-IsReplaced (n ∷ ns) text src (λ e. absurd (omega (arith, h, e)))

pub require_unique-none :
    (src needle : List ℕ) → require_unique src needle ≡ none → count needle src ≡ 1
unfolding require_unique
require_unique-none src needle h = elim (Bool-cases (count needle src == 0)) [
  | inl missing ↦ absurd (some-ne-none (rw (missing, require_unique) at h))
  | inr some_found ↦ elim (Bool-cases (count needle src == 1)) [
    | inl once ↦ (==_iff (count needle src) 1).0 once
    | inr many ↦ absurd (some-ne-none (rw many at (rw (some_found, require_unique) at h)))
  ]
]
