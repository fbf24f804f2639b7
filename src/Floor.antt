-- ===== src/Floor.antt =====
-- scripts/consensus_floor.py: the newest version tag at which the consensus values changed. git is two
-- parameters: the lines of its list of tags, and the matches of the patterns in the two files at a tag,
-- with white space collapsed and comments gone.
pub mod Order
pub mod Newest
pub mod Reordered
use wam_coin.Common.{
  ℕ, ◌+◌, ◌-◌, ◌*◌, List, [], ◌∷◌, ◌++◌, map, reverse, Option, none, some, Bool, true, false, ◌==◌,
  ◌&&◌, ◌||◌, leb, ltb, if◌then◌else◌,
}
use wam_coin.Common.Bytes.{codes, bytes_eq}
use wam_coin.Common.Texts.{contains}
use wam_coin.Keys.{strip}

-- `re.findall(r"\d+", ...)` and `int` of each; the first argument is the run that is open.
unfoldable pub runs : Option ℕ → List ℕ → List ℕ
runs none [] = []
runs (some n) [] = n ∷ []
runs none (c ∷ cs) = if leb 48 c && leb c 57 then runs (some (c - 48)) cs else runs none cs
runs (some n) (c ∷ cs) =
    if leb 48 c && leb c 57 then runs (some (n * 10 + (c - 48))) cs else n ∷ runs none cs

-- The `v` that the script strips first is no digit.
unfoldable pub ver_tuple : List ℕ → List ℕ
ver_tuple tag = runs none tag

-- Python's `<=` on tuples of numbers and on texts.
unfoldable pub tuple_le : List ℕ → List ℕ → Bool
tuple_le [] ys = true
tuple_le (x ∷ xs) [] = false
tuple_le (x ∷ xs) (y ∷ ys) = ltb x y || (x == y && tuple_le xs ys)

-- `sorted(..., key=ver_tuple)`, which is stable.
unfoldable pub insert_tag : List ℕ → List (List ℕ) → List (List ℕ)
insert_tag t [] = t ∷ []
insert_tag t (u ∷ us) = elim (tuple_le (ver_tuple t) (ver_tuple u)) [
  | true ↦ t ∷ u ∷ us
  | false ↦ u ∷ insert_tag t us
]

unfoldable pub sort_tags : List (List ℕ) → List (List ℕ)
sort_tags [] = []
sort_tags (t ∷ ts) = insert_tag t (sort_tags ts)

abbrev pub keep : List ℕ → List (List ℕ) → List (List ℕ)
keep [] ts = ts
keep (c ∷ cs) ts = (c ∷ cs) ∷ ts

-- `t.strip() for t in out.split("\n") if t.strip()`
unfoldable pub clean_tags : List (List ℕ) → List (List ℕ)
clean_tags [] = []
clean_tags (line ∷ lines) = keep (strip line) (clean_tags lines)

unfoldable pub tags : List (List ℕ) → List (List ℕ)
tags lines = sort_tags (clean_tags lines)

-- `NOT_A_VALIDITY_RULE`, and `ASSIGNED_NOT_CHANGED` with its one tag.
abbrev pub not_a_validity_rule : List ℕ
not_a_validity_rule = codes ".nMinimumChainWork"

abbrev pub assigned_tag : List ℕ
assigned_tag = codes "v0.1.12"

abbrev pub assigned_not_changed : List ℕ
assigned_not_changed = codes ".enforce_BIP94"

-- `tag` is `none` where the caller gives none.
abbrev pub is_assigned_tag : Option (List ℕ) → Bool
is_assigned_tag none = false
is_assigned_tag (some tag) = bytes_eq tag assigned_tag

unfoldable pub is_dropped : Option (List ℕ) → List ℕ → Bool
is_dropped tag v =
    contains not_a_validity_rule v || (is_assigned_tag tag && contains assigned_not_changed v)

unfoldable pub counted : Option (List ℕ) → List (List ℕ) → List (List ℕ)
counted tag [] = []
counted tag (v ∷ vs) = if is_dropped tag v then counted tag vs else v ∷ counted tag vs

-- `sorted(set(values))`
unfoldable pub insert_value : List ℕ → List (List ℕ) → List (List ℕ)
insert_value v [] = v ∷ []
insert_value v (w ∷ ws) = elim (bytes_eq v w) [
  | true ↦ w ∷ ws
  | false ↦ elim (tuple_le v w) [ true ↦ v ∷ w ∷ ws | false ↦ w ∷ insert_value v ws ]
]

unfoldable pub sorted_set : List (List ℕ) → List (List ℕ)
sorted_set [] = []
sorted_set (v ∷ vs) = insert_value v (sorted_set vs)

-- `"\n".join(...)`
unfoldable pub join_lines : List (List ℕ) → List ℕ
join_lines [] = []
join_lines (v ∷ []) = v
join_lines (v ∷ w ∷ vs) = v ++ 10 ∷ join_lines (w ∷ vs)

-- The matches in the two files; `none` where one of them is not there.
pub record Values : Type 0 where
  pub chainparams : List (List ℕ)
  pub params : List (List ℕ)

unfoldable pub fingerprint_text : Option Values → Option (List ℕ) → Option (List ℕ)
fingerprint_text none tag = none
fingerprint_text (some v) tag =
    some (join_lines (sorted_set (counted tag v.chainparams ++ v.params)))

-- `prints[a] != prints[b]`
abbrev pub same_print : Option (List ℕ) → Option (List ℕ) → Bool
same_print none none = true
same_print none (some q) = false
same_print (some p) none = false
same_print (some p) (some q) = bytes_eq p q

-- What `floor` returns, with the tag.
pub data FloorReply : Type 0 where
  no_tags no_files : FloorReply
  changed_in unchanged_since : List ℕ → FloorReply

module _ (show : List ℕ → Option Values) where
  unfoldable pub fingerprint : List ℕ → Option (List ℕ)
  fingerprint tag = fingerprint_text (show tag) (some tag)

  unfoldable pub usable : List (List ℕ) → List (List ℕ)
  usable [] = []
  usable (t ∷ ts) = elim (fingerprint t) [ none ↦ usable ts | some p ↦ t ∷ usable ts ]

  -- `for i in range(len(usable) - 1, 0, -1)`, from the newest tag on back.
  unfoldable pub walk_back : List ℕ → List (List ℕ) → FloorReply
  walk_back t [] = unchanged_since t
  walk_back t (u ∷ us) = elim (same_print (fingerprint t) (fingerprint u)) [
    | true ↦ walk_back u us
    | false ↦ changed_in t
  ]

  abbrev pub walk : List (List ℕ) → FloorReply
  walk [] = no_files
  walk (t ∷ ts) = walk_back t ts

  abbrev pub floor_of : List (List ℕ) → FloorReply
  floor_of [] = no_tags
  floor_of (t ∷ ts) = walk (reverse (usable (t ∷ ts)))

  unfoldable pub floor : List (List ℕ) → FloorReply
  floor lines = floor_of (tags lines)

-- The exit code of `--compare-remote`, and of the rest of `main`.
unfoldable pub compare_remote : Option Values → Option Values → List ℕ → List ℕ → ℕ
compare_remote files_a files_b a b = elim (fingerprint_text files_a (some a)) [
  | none ↦ 1
  | some fa ↦ elim (fingerprint_text files_b (some b)) [
    | none ↦ 1
    | some fb ↦ if bytes_eq fa fb then 0 else 2
  ]
]

unfoldable pub main : (List ℕ → Option Values) → List (List ℕ) → ℕ
main show lines = elim (floor show lines) [
  | no_tags ↦ 1
  | no_files ↦ 1
  | changed_in t ↦ 0
  | unchanged_since t ↦ 0
]
