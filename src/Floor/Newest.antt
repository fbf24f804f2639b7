-- ===== src/Floor/Newest.antt =====
-- The floor is the newest tag at which the fingerprint changed.
use wam_coin.Common.{ℕ, ◌≡◌, ◌≢◌, List, [], ◌∷◌, ◌++◌, Option, true, All}
use wam_coin.Floor.{
  ver_tuple, tuple_le, Values, FloorReply, no_tags, no_files, changed_in, unchanged_since,
  fingerprint,
}

abbrev pub NotOlder : List ℕ → List ℕ → Type 0
NotOlder t u = tuple_le (ver_tuple t) (ver_tuple u) ≡ true

-- Oldest version first.
abbrev pub IsSorted : List (List ℕ) → Type 0
IsSorted [] = Unit
IsSorted (t ∷ ts) = All (NotOlder t) ts × IsSorted ts

module _ (show : List ℕ → Option Values) where
  abbrev pub AllSame : List ℕ → List (List ℕ) → Type 0
  AllSame tag newer = All (λ u. fingerprint show u ≡ fingerprint show tag) newer

  -- What the floor of a list of tags is, the newest first: all newer ones have its fingerprint, and the tag
  -- before it, if there is one, has another.
  pub data IsFloor (newest_first : List (List ℕ)) : FloorReply → Type 0 where
    changed :
        (tag prev : List ℕ) (newer older : List (List ℕ))
        → newest_first ≡ newer ++ tag ∷ prev ∷ older
        → AllSame tag newer
        → fingerprint show prev ≢ fingerprint show tag
        → IsFloor newest_first (changed_in tag)
    unchanged :
        (tag : List ℕ) (newer : List (List ℕ))
        → newest_first ≡ newer ++ tag ∷ []
        → AllSame tag newer
        → IsFloor newest_first (unchanged_since tag)
    untagged : newest_first ≡ [] → IsFloor newest_first no_tags
    unreadable : newest_first ≡ [] → IsFloor newest_first no_files
