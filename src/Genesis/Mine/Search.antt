-- ===== src/Genesis/Mine/Search.antt =====
-- The search finds a nonce that fits, or the workers that could start have none.
use wam_coin.Common.{
  ℕ, ◌+◌, ◌*◌, ◌/◌, ◌%◌, ◌≤◌, ◌<◌, ◌≡◌, sym, ap, ◌∙◌, subst, List, Bool, Option, none, some, true,
  false, Option-cases, inl, inr, arith, false-ne-true, leb→le, le→leb,
}
use native.Mathlib.Decide.{dec_lt}
use native.Mathlib.Nat.{mod-lt, mod-add-div'}
use wam_coin.Common.Bytes.{from_le}
use wam_coin.Genesis.Mine.{
  last_nonce, Worker, at_start, failed, at_loop, hashing, at_lock, to_stop, ended, Miner, pow_hash,
  is_solution, Reach, has_ended, AllJoined, sum_below, mined,
}
use wam_coin.Genesis.Mine.Invariant.{has_found, true-ne-false, Exhausted, WorkerInv, Inv, Reach-Inv}

module _ (randomx : List ℕ → List ℕ) (header_prefix : List ℕ) (target : ℕ) (makes_vm : ℕ → Bool)
    (threads : ℕ) where
  -- What a search for a nonce may return, whatever its workers do.
  pub data IsSearch : Option (ℕ × List ℕ × ℕ) → Type 0 where
    success :
        (nonce total : ℕ)
        → nonce ≤ last_nonce
        → from_le (pow_hash randomx header_prefix target makes_vm threads nonce) ≤ target
        → IsSearch
            (some (nonce, pow_hash randomx header_prefix target makes_vm threads nonce, total))
    failure :
        ((nonce : ℕ)
          → nonce ≤ last_nonce
          → makes_vm (nonce % threads) ≡ true
          → target < from_le (pow_hash randomx header_prefix target makes_vm threads nonce))
        → IsSearch none

  solution_le :
      (nonce : ℕ)
      → is_solution randomx header_prefix target makes_vm threads nonce ≡ true
      → from_le (pow_hash randomx header_prefix target makes_vm threads nonce) ≤ target
  unfolding is_solution
  solution_le nonce h = leb→le _ _ h

  no_solution_lt :
      (nonce : ℕ)
      → is_solution randomx header_prefix target makes_vm threads nonce ≡ false
      → target < from_le (pow_hash randomx header_prefix target makes_vm threads nonce)
  unfolding is_solution
  no_solution_lt nonce h =
      let value : ℕ = from_le (pow_hash randomx header_prefix target makes_vm threads nonce) in
      elim (dec_lt target value) [
        | yes lt ↦ lt
        | no ge ↦ absurd (true-ne-false (sym (le→leb value target (omega arith)) ∙ h))
      ]

  ended-Exhausted :
      (i : ℕ) (w : Worker)
      → makes_vm i ≡ true
      → has_ended randomx header_prefix target makes_vm threads w ≡ true
      → WorkerInv randomx header_prefix target makes_vm threads i false w
      → Exhausted randomx header_prefix target makes_vm threads i
  unfolding WorkerInv
  ended-Exhausted i at_start v e h = absurd (false-ne-true e)
  ended-Exhausted i failed v e h = absurd (false-ne-true (sym h ∙ v))
  ended-Exhausted i (at_loop nonce n) v e h = absurd (false-ne-true e)
  ended-Exhausted i (hashing nonce n) v e h = absurd (false-ne-true e)
  ended-Exhausted i (at_lock nonce n) v e h = absurd (false-ne-true e)
  ended-Exhausted i (to_stop n) v e h = absurd (false-ne-true e)
  ended-Exhausted i (ended n) v e (inl h) = absurd (false-ne-true h)
  ended-Exhausted i (ended n) v e (inr h) = h

  -- Worker `nonce % threads` had the nonce as its own.
  nothing_fits :
      (s : Miner)
      → Inv randomx header_prefix target makes_vm threads s
      → AllJoined randomx header_prefix target makes_vm threads s
      → 0 < threads
      → has_found s.found ≡ false
      → (nonce : ℕ) → nonce ≤ last_nonce
      → makes_vm (nonce % threads) ≡ true
      → is_solution randomx header_prefix target makes_vm threads nonce ≡ false
  nothing_fits s inv joined some_worker h nonce le made =
      let i = nonce % threads in
      let lt : i < threads = mod-lt nonce some_worker in
      let whole : i + nonce / threads * threads ≡ nonce = mod-add-div' nonce threads in
      let all = ended-Exhausted i (s.workers i) made (joined i lt) (
        subst (λ b. WorkerInv randomx header_prefix target makes_vm threads i b (s.workers i)) h
          (inv.each i lt)) in
      ap (is_solution randomx header_prefix target makes_vm threads) (sym whole)
      ∙ all (nonce / threads) (omega (arith, whole, le))

  -- Whatever the interleaving of the workers, at least one of them: once all are joined, the search returns a
  -- nonce of 32 bits and the hash of the header with that nonce, which is at most the target, or it
  -- raises, and then the hash is above the target for every nonce of 32 bits whose worker was given a
  -- virtual machine.
  pub mined-IsSearch :
      (s : Miner)
      → Reach randomx header_prefix target makes_vm threads s
      → AllJoined randomx header_prefix target makes_vm threads s
      → 0 < threads
      → IsSearch (mined randomx header_prefix target makes_vm threads s)
  unfolding mined
  mined-IsSearch s r joined some_worker =
      let inv = Reach-Inv randomx header_prefix target makes_vm threads s r in
      elim (Option-cases s.found) [
        | inl nothing ↦
            rw (nothing, mined)
              (failure (λ nonce le made.
                no_solution_lt nonce
                  (nothing_fits s inv joined some_worker (ap has_found nothing) nonce le made)))
        | inr (nonce, hit) ↦
            let (le, fits) = inv.good nonce hit in
            rw (hit, mined)
              (success nonce
                (sum_below randomx header_prefix target makes_vm threads threads s.workers) le
                (solution_le nonce fits))
      ]
