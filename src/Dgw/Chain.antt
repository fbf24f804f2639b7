-- ===== src/Dgw/Chain.antt =====
-- `validate` of scripts/dgw_model.py: the model against the bits that a chain carries. A block of
-- the chain is a triple of height, time and bits.
use wam_coin.Common.{
  ℕ, zero, suc, ◌+◌, ◌-◌, ◌≡◌, List, [], ◌∷◌, ◌++◌, map, ◌==◌, if◌then◌else◌, length, take, drop,
  get_or, Bool,
}
use wam_coin.Dgw.{Block, past_blocks, dgw}

pub record Header : Type 0 where
  pub height : ℕ
  pub time : ℕ
  pub nbits : ℕ

-- `blocks[i - PAST_BLOCKS:i]`, each as the dictionary that `dgw` reads.
unfoldable pub window_before : List Header → ℕ → List Block
window_before blocks i =
    map (λ (b : Header). record { nbits = b.nbits; time = b.time })
      (take past_blocks (drop (i - past_blocks) blocks))

abbrev no_header : Header
no_header = record { height = 0; time = 0; nbits = 0 }

-- `blocks[i]`, which is in range wherever the loop asks.
abbrev pub block_at : List Header → ℕ → Header
block_at blocks i = get_or blocks i no_header

-- The heights of the blocks that the model does not predict, from index `i` on with `rounds` left.
unfoldable pub disagreements : List Header → ℕ → ℕ → ℕ → List ℕ → List ℕ
disagreements blocks pow_limit zero i bad = bad
disagreements blocks pow_limit (suc rounds) i bad =
    let b = block_at blocks i in
    disagreements blocks pow_limit rounds (i + 1)
      (if dgw (window_before blocks i) pow_limit == b.nbits then bad else bad ++ (b.height ∷ []))

-- The exit code: 2 if no block was compared, 1 if one disagrees, else 0.
unfoldable pub validate : List Header → ℕ → ℕ
validate blocks pow_limit =
    let checked = length blocks - past_blocks in
    if checked == 0
    then 2
    else elim (disagreements blocks pow_limit checked past_blocks []) [ [] ↦ 0 | _ ↦ 1 ]

abbrev pub Predicted : List Header → ℕ → ℕ → Type 0
Predicted blocks pow_limit i = dgw (window_before blocks i) pow_limit ≡ (block_at blocks i).nbits

module _ (blocks : List Header) (pow_limit : ℕ) where
  abbrev test : ℕ → Bool
  test i = dgw (window_before blocks i) pow_limit == (block_at blocks i).nbits
