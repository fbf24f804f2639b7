-- ===== src/Reorg/Bracket.antt =====
-- `fork_bracket` finds the fork.
use wam_coin.Common.{ℕ, ◌≤◌, ◌<◌, ◌≡◌, ◌⊎◌, List, Option, some, ltb, All}
use wam_coin.Reorg.{Heights, lookup, is_same}

-- Not strictly between two heights.
abbrev pub Outside : ℕ → ℕ → ℕ → Type 0
Outside lo hi h = (h ≤ lo) ⊎ (hi ≤ h)

abbrev pub Inside : ℕ → ℕ → ℕ → Type 0
Inside lo hi h = (lo < h) × (h < hi)

module _ (node : ℕ → Option ℕ) (known : Heights) (fork : ℕ) where
  -- The node has the recorded hash at a height below the fork, and not from the fork on.
  abbrev pub Splits : ℕ → Type 0
  Splits h = is_same (node h) (lookup h known) ≡ ltb h fork

  abbrev probe : ℕ → Option (Option ℕ)
  probe h = some (node h)

  pub record IsBracket (lo hi : ℕ) (pool : List ℕ) (found : Option (ℕ × ℕ)) : Type 0 where
    pub low : ℕ
    pub high : ℕ
    pub ends : found ≡ some (low, high)
    pub not_lower : lo ≤ low
    pub not_higher : high ≤ hi
    pub fork_above : low < fork
    pub fork_below : fork ≤ high
    pub tight : All (Outside low high) pool
