-- ===== src/Tests/Search.antt =====
-- The search for a nonce at concrete inputs.
use wam_coin.Common.{
  ℕ, zero, suc, ◌+◌, ◌^◌, ◌≤◌, ◌<◌, ◌≡◌, refl, subst, List, [], ◌∷◌, replicate, All-replicate,
  arith, true,
}
use wam_coin.Common.Bytes.{from_le}
use wam_coin.Genesis.Mine.{
  Miner, Reach, start, later, begin, has_ended, AllJoined, is_solution, act, mined,
}
use wam_coin.Genesis.Mine.Invariant.{Inv, Reach-Inv}
use wam_coin.Genesis.Mine.Search.{IsSearch, mined-IsSearch}
use wam_coin.Genesis.Mine.Ends.{turns_of, run, run-IsSearch}

-- A hash that is 0 everywhere, so the first nonce fits.
abbrev zero_hash : List ℕ → List ℕ
zero_hash b = 0 ∷ []

abbrev after_five : Miner
after_five =
    run zero_hash [] 5 (λ i. true) 1 (0 ∷ 0 ∷ 0 ∷ 0 ∷ 0 ∷ []) (begin zero_hash [] 5 (λ i. true) 1)

reached : Reach zero_hash [] 5 (λ i. true) 1 after_five
unfolding run
reached = later 0 (omega arith) (
    later 0 (omega arith)
      (later 0 (omega arith) (later 0 (omega arith) (later 0 (omega arith) start))))

Reach-Inv_example : Inv zero_hash [] 5 (λ i. true) 1 after_five
Reach-Inv_example = Reach-Inv zero_hash [] 5 (λ i. true) 1 after_five reached

worker_0_ended :
    (j : ℕ) → 0 ≡ j → has_ended zero_hash [] 5 (λ i. true) 1 (after_five.workers j) ≡ true
unfolding run act is_solution from_le
worker_0_ended j e =
    subst (λ k. has_ended zero_hash [] 5 (λ i. true) 1 (after_five.workers k) ≡ true) e refl

joined : AllJoined zero_hash [] 5 (λ i. true) 1 after_five
joined j lt = worker_0_ended j (omega arith)

mined-IsSearch_example :
    IsSearch zero_hash [] 5 (λ i. true) 1 (mined zero_hash [] 5 (λ i. true) 1 after_five)
mined-IsSearch_example =
    mined-IsSearch zero_hash [] 5 (λ i. true) 1 after_five reached joined (omega arith)

turns_of-replicate : (k : ℕ) → turns_of 0 (replicate k 0) ≡ k
unfolding turns_of
turns_of-replicate zero = refl
turns_of-replicate (suc k) = omega (arith, turns_of-replicate k)

-- Kept shut: the schedule is too long to be computed.
unfoldable many_turns : ℕ
many_turns = 2 ^ 33 + 4

many_turns_enough : 2 ^ 33 + 4 ≤ many_turns
unfolding many_turns
many_turns_enough = omega arith

long_schedule : (i : ℕ) → i < 1 → 2 ^ 33 + 4 ≤ turns_of i (replicate many_turns 0)
long_schedule i lt =
    let same : 0 ≡ i = omega arith in
    subst (λ k. 2 ^ 33 + 4 ≤ turns_of k (replicate many_turns 0)) same
      (omega (arith, turns_of-replicate many_turns, many_turns_enough))

run-IsSearch_example :
    AllJoined zero_hash [] 5
      (λ i. true)
      1
      (run zero_hash [] 5
        (λ i. true)
        1
        (replicate many_turns 0)
        (begin zero_hash [] 5 (λ i. true) 1))
    × IsSearch zero_hash [] 5
        (λ i. true)
        1
        (mined zero_hash [] 5
          (λ i. true)
          1
          (run zero_hash [] 5
            (λ i. true)
            1
            (replicate many_turns 0)
            (begin zero_hash [] 5 (λ i. true) 1)))
run-IsSearch_example =
    run-IsSearch zero_hash [] 5 (λ i. true) 1 (replicate many_turns 0) (omega arith)
      (All-replicate (λ i. i < 1) many_turns 0 (omega arith)) long_schedule
