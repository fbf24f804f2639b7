-- ===== src/Reorg.antt =====
-- scripts/check_reorg.py, the monitor that remembers block hashes and asks whether one has changed: which
-- heights are read again, and how a fork is narrowed down. A dictionary of heights is a list of pairs; hashes
-- are numbers.
pub mod Watch
pub mod Pool
pub mod Bracket
pub mod Changes
pub mod Alarm
use wam_coin.Common.{
  ℕ, zero, suc, ◌+◌, ◌-◌, ◌/◌, ◌%◌, List, [], ◌∷◌, ◌++◌, map, length, take, drop, max, Option, none,
  some, Bool, true, false, not, ◌==◌, ◌&&◌, leb, ltb, if◌then◌else◌, get_or,
}
use wam_coin.Common.Int.{ℤ, pos, sub_ℕ}

abbrev pub offsets : List ℕ
offsets =
    1 ∷ 2 ∷ 3 ∷ 4 ∷ 5 ∷ 6 ∷ 8 ∷ 10 ∷ 15 ∷ 20 ∷ 30 ∷ 50 ∷ 75 ∷ 100 ∷ 150 ∷ 200 ∷ 300 ∷ 500 ∷ 1000
    ∷ []

abbrev pub forget_after : ℕ
forget_after = 5000

abbrev pub audit_per_run : ℕ
audit_per_run = 60

abbrev pub Heights : Type 0
Heights = List (ℕ × ℕ)

unfoldable pub lookup : ℕ → Heights → Option ℕ
lookup h [] = none
lookup h ((k, v) ∷ es) = elim (h == k) [ true ↦ some v | false ↦ lookup h es ]

-- `d[h] = v`
unfoldable pub set : ℕ → ℕ → Heights → Heights
set h v [] = (h, v) ∷ []
set h v ((k, w) ∷ es) = elim (h == k) [ true ↦ (k, v) ∷ es | false ↦ (k, w) ∷ set h v es ]

-- `d.update(other)`
unfoldable pub update : Heights → Heights → Heights
update es [] = es
update es ((h, v) ∷ more) = update (set h v es) more

-- `sorted` of a set of heights.
unfoldable pub insert_height : ℕ → List ℕ → List ℕ
insert_height h [] = h ∷ []
insert_height h (k ∷ ks) = elim (h == k) [
  | true ↦ k ∷ ks
  | false ↦ elim (leb h k) [ true ↦ h ∷ k ∷ ks | false ↦ k ∷ insert_height h ks ]
]

unfoldable pub sort_heights : List ℕ → List ℕ
sort_heights [] = []
sort_heights (h ∷ hs) = insert_height h (sort_heights hs)

unfoldable pub has : ℕ → List ℕ → Bool
has h [] = false
has h (k ∷ ks) = elim (h == k) [ true ↦ true | false ↦ has h ks ]

unfoldable pub near : ℕ → List ℕ → List ℕ
near tip [] = []
near tip (o ∷ os) = elim (leb o tip) [ true ↦ (tip - o) ∷ near tip os | false ↦ near tip os ]

-- The recorded heights that are neither forgotten, nor above the tip, nor near it.
unfoldable pub older : ℕ → List ℕ → Heights → List ℕ
older tip close [] = []
older tip close ((h, v) ∷ es) =
    elim (ltb tip (h + forget_after) && leb h tip && not (has h close)) [
      | true ↦ h ∷ older tip close es
      | false ↦ older tip close es
    ]

abbrev pub slice : List ℕ → ℕ → List ℕ
slice old start = take audit_per_run (drop start (old ++ old))

abbrev pub with_slice : List ℕ → List ℕ → ℕ → List ℕ × ℕ
with_slice close [] cursor = (sort_heights close, 0)
with_slice close (o ∷ os) cursor =
    let start = cursor % length (o ∷ os) in
    (sort_heights (close ++ slice (o ∷ os) start), (start + audit_per_run) % length (o ∷ os))

-- The heights to read, and the next cursor.
unfoldable pub heights_to_check : ℕ → Heights → ℕ → List ℕ × ℕ
heights_to_check tip known cursor =
    with_slice (near tip offsets) (sort_heights (older tip (near tip offsets) known)) cursor

abbrev pub is_same : Option ℕ → Option ℕ → Bool
is_same none q = false
is_same (some v) none = false
is_same (some v) (some w) = v == w

unfoldable pub between : ℕ → ℕ → Heights → List ℕ
between lo hi [] = []
between lo hi ((h, v) ∷ es) = elim (ltb lo h && ltb h hi) [
  | true ↦ h ∷ between lo hi es
  | false ↦ between lo hi es
]

unfoldable pub above : ℕ → List ℕ → List ℕ
above m [] = []
above m (h ∷ hs) = elim (ltb m h) [ true ↦ h ∷ above m hs | false ↦ above m hs ]

unfoldable pub below : ℕ → List ℕ → List ℕ
below m [] = []
below m (h ∷ hs) = elim (ltb h m) [ true ↦ h ∷ below m hs | false ↦ below m hs ]

-- The loop of `fork_bracket`; a height of the pool goes in each round. `none` where a read raises.
unfoldable pub bracket : (ℕ → Option (Option ℕ)) → Heights → ℕ → ℕ → ℕ → List ℕ → Option (ℕ × ℕ)
bracket probe known zero lo hi pool = some (lo, hi)
bracket probe known (suc fuel) lo hi [] = some (lo, hi)
bracket probe known (suc fuel) lo hi (h ∷ hs) =
    let m = get_or (h ∷ hs) (length (h ∷ hs) / 2) h in
    elim (probe m) [
      | none ↦ none
      | some got ↦ elim (is_same got (lookup m known)) [
        | true ↦ bracket probe known fuel m hi (above m (h ∷ hs))
        | false ↦ bracket probe known fuel lo m (below m (h ∷ hs))
      ]
    ]

unfoldable pub fork_bracket : (ℕ → Option (Option ℕ)) → Heights → ℕ → ℕ → Option (ℕ × ℕ)
fork_bracket probe known unchanged changed =
    let pool = sort_heights (between unchanged changed known) in
    bracket probe known (length pool) unchanged changed pool
