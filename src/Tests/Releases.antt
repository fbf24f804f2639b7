-- ===== src/Tests/Releases.antt =====
-- The consensus floor at concrete tags.
use wam_coin.Common.{
  List, [], ◌∷◌, ◌++◌, ◌≡◌, refl, some, ℕ, Option, if◌then◌else◌, Bool, false, ◌||◌, ap, ◌∙◌, arith,
}
use wam_coin.Common.Bytes.{codes, bytes_eq}
use wam_coin.Common.Texts.{starts_with, contains}
use wam_coin.Keys.{lstrip, strip}
use wam_coin.Floor.{
  runs, ver_tuple, tuple_le, insert_tag, sort_tags, clean_tags, tags, is_dropped, counted,
  insert_value, sorted_set, join_lines, Values, fingerprint_text, changed_in, fingerprint, usable,
  walk_back, floor, compare_remote,
}
use wam_coin.Floor.Reordered.{is_in, SameSet, compare_remote_same}

abbrev at_tag : ℕ → Values
at_tag n = record {
  chainparams = (n ∷ []) ∷ codes "x.nMinimumChainWork = 9" ∷ [];
  params = codes "a" ∷ codes "a" ∷ [];
}

abbrev files : List ℕ → Option Values
files tag = if bytes_eq tag (codes "v0.1.9") then some (at_tag 65) else some (at_tag 66)

abbrev lines : List (List ℕ)
lines = codes "v0.1.10" ∷ codes " v0.1.9" ∷ [] ∷ codes "v0.2.0" ∷ []

floor_found : floor files lines ≡ changed_in (codes "v0.1.10")
unfolding floor tags clean_tags sort_tags insert_tag tuple_le ver_tuple runs strip lstrip usable
    fingerprint fingerprint_text walk_back counted is_dropped contains starts_with sorted_set
    insert_value join_lines bytes_eq
floor_found = refl

-- Two releases with the same files, the second with no exception to its name.
abbrev same_files : List ℕ → Option Values
same_files tag =
    some (record { chainparams = codes "x.enforce_BIP94 = 0" ∷ []; params = codes "a" ∷ [] })

floor_moved :
    floor same_files (codes "v0.1.12" ∷ codes "v0.1.13" ∷ []) ≡ changed_in (codes "v0.1.13")
unfolding floor tags clean_tags sort_tags insert_tag tuple_le ver_tuple runs strip lstrip usable
    fingerprint fingerprint_text walk_back counted is_dropped contains starts_with sorted_set
    insert_value join_lines bytes_eq
floor_moved = refl

abbrev shuffled : Values
shuffled = record { chainparams = []; params = codes "a" ∷ codes "A" ∷ [] }

three_values :
    counted (some (codes "v1")) (at_tag 65).chainparams ++ (at_tag 65).params
    ≡ codes "A" ∷ codes "a" ∷ codes "a" ∷ []
unfolding counted is_dropped contains starts_with bytes_eq
three_values = refl

shuffle : (a b : Bool) → (a || (b || (b || false))) ≡ (b || (a || false))
shuffle a b = ground arith

same_values :
    SameSet
      (counted (some (codes "v1")) (at_tag 65).chainparams ++ (at_tag 65).params)
      (counted (some (codes "v2")) [] ++ shuffled.params)
unfolding is_in counted
same_values v =
    ap (is_in v) three_values ∙ shuffle (bytes_eq v (codes "A")) (bytes_eq v (codes "a"))

compare_remote_same_example :
    (fingerprint_text (some (at_tag 65)) (some (codes "v1"))
      ≡ fingerprint_text (some shuffled) (some (codes "v2")))
    × (compare_remote (some (at_tag 65)) (some shuffled) (codes "v1") (codes "v2") ≡ 0)
compare_remote_same_example =
    compare_remote_same (at_tag 65) shuffled (codes "v1") (codes "v2") same_values
