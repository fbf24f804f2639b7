-- ===== src/Genesis/Mine.antt =====
-- `mine` of genesis/genesis_generator.py: the workers that stride through the nonces, one atomic action at a
-- time. The interpreter picks whose turn it is; RandomX is a parameter, and so is
-- which workers get a virtual machine of it: `ctx.new_vm()` may raise, and its worker ends there. The counters are the `local` of each
-- worker: what they hold before a worker ends is only printed.
pub mod Invariant
pub mod Search
pub mod Ends
use wam_coin.Common.{
  ℕ, zero, suc, ◌+◌, ◌<◌, ◌≡◌, List, ◌++◌, Option, none, some, Bool, true, false, ◌==◌, ◌||◌, leb,
  ltb, if◌then◌else◌,
}
use wam_coin.Common.Bytes.{to_le, from_le}

abbrev pub last_nonce : ℕ
last_nonce = 0xFFFFFFFF

-- Where a worker stands: before it makes its machine, ended by the error of that, before the test of its loop, at a hash, at the lock with a nonce that fits, between
-- the lock and `stop.set()`, or past the loop. The second number is `local`.
pub data Worker : Type 0 where
  at_start failed : Worker
  at_loop hashing at_lock : ℕ → ℕ → Worker
  to_stop ended : ℕ → Worker

-- The dictionary `found`, the event `stop` and the workers.
pub record Miner : Type 0 where
  pub found : Option ℕ
  pub stop : Bool
  pub workers : ℕ → Worker

abbrev pub put : ℕ → Worker → (ℕ → Worker) → ℕ → Worker
put i w ws j = if j == i then w else ws j

abbrev pub first_wins : Option ℕ → ℕ → Option ℕ
first_wins none nonce = some nonce
first_wins (some first) nonce = some first

module _ (randomx : List ℕ → List ℕ) (header_prefix : List ℕ) (target : ℕ) (makes_vm : ℕ → Bool)
    (threads : ℕ) where
  abbrev pub pow_hash : ℕ → List ℕ
  pow_hash nonce = randomx (header_prefix ++ to_le 4 nonce)

  unfoldable pub is_solution : ℕ → Bool
  is_solution nonce = leb (from_le (pow_hash nonce)) target

  -- What worker `i` does next.
  unfoldable pub act : ℕ → Worker → Miner → Miner
  act i at_start s = record s {
    workers = put i (if makes_vm i then at_loop i 0 else failed) s.workers;
  }
  act i failed s = s
  act i (at_loop nonce n) s = record s {
    workers = put i (if s.stop || ltb last_nonce nonce then ended n else hashing nonce n) s.workers;
  }
  act i (hashing nonce n) s = record s {
    workers =
        put i
          (if is_solution nonce then at_lock nonce (n + 1) else at_loop (nonce + threads) (n + 1))
          s.workers;
  }
  act i (at_lock nonce n) s = record s {
    found = first_wins s.found nonce;
    workers = put i (to_stop n) s.workers;
  }
  act i (to_stop n) s = record s { stop = true; workers = put i (ended n) s.workers }
  act i (ended n) s = s

  abbrev pub turn : ℕ → Miner → Miner
  turn i s = act i (s.workers i) s

  -- Every thread is started.
  abbrev pub begin : Miner
  begin = record { found = none; stop = false; workers = λ i. at_start }

  -- The states that some interleaving of the workers reaches.
  pub data Reach : Miner → Type 0 where
    start : Reach begin
    later : {s : Miner} (i : ℕ) → i < threads → Reach s → Reach (turn i s)

  abbrev pub has_ended : Worker → Bool
  has_ended at_start = false
  has_ended failed = true
  has_ended (at_loop nonce n) = false
  has_ended (hashing nonce n) = false
  has_ended (at_lock nonce n) = false
  has_ended (to_stop n) = false
  has_ended (ended n) = true

  -- `t.join()` of every worker.
  abbrev pub AllJoined : Miner → Type 0
  AllJoined s = (i : ℕ) → i < threads → has_ended (s.workers i) ≡ true

  abbrev pub hashes : Worker → ℕ
  hashes at_start = 0
  hashes failed = 0
  hashes (at_loop nonce n) = n
  hashes (hashing nonce n) = n
  hashes (at_lock nonce n) = n
  hashes (to_stop n) = n
  hashes (ended n) = n

  -- `sum(counters)`
  unfoldable pub sum_below : ℕ → (ℕ → Worker) → ℕ
  sum_below zero ws = 0
  sum_below (suc i) ws = sum_below i ws + hashes (ws i)

  -- What `mine` returns once all are joined: the nonce, its hash and the hashes tried; `none` where it raises.
  unfoldable pub mined : Miner → Option (ℕ × List ℕ × ℕ)
  mined s = elim s.found [
    | none ↦ none
    | some nonce ↦ some (nonce, pow_hash nonce, sum_below threads s.workers)
  ]
