-- ===== src/Genesis/Mine/Ends.antt =====
-- The search ends: no worker takes more than about two turns for a nonce.
use wam_coin.Common.{
  ℕ, suc, ◌+◌, ◌-◌, ◌*◌, ◌^◌, ◌≤◌, ◌<◌, ◌≡◌, refl, sym, ap, subst, List, [], ◌∷◌, Bool, true, false,
  ==_self, ◌==◌, ◌||◌, ltb, if◌then◌else◌, All, Bool-cases, ==_iff, inl, inr, arith,
}
use wam_coin.Genesis.Mine.{
  last_nonce, Worker, at_start, failed, at_loop, hashing, at_lock, to_stop, ended, Miner,
  is_solution, act, turn, begin, Reach, start, later, has_ended, AllJoined, mined,
}
use wam_coin.Genesis.Mine.Invariant.{loop_passed}
use wam_coin.Genesis.Mine.Search.{IsSearch, mined-IsSearch}

-- The turns that a worker may still take.
potential : Worker → ℕ
potential at_start = 2 ^ 33 + 4
potential failed = 0
potential (at_loop nonce n) = 2 * (2 ^ 32 - nonce) + 3
potential (hashing nonce n) = 2 * (last_nonce - nonce) + 4
potential (at_lock nonce n) = 2
potential (to_stop n) = 1
potential (ended n) = 0

-- How often worker `i` is picked.
unfoldable pub turns_of : ℕ → List ℕ → ℕ
turns_of i [] = 0
turns_of i (j ∷ schedule) = if i == j then suc (turns_of i schedule) else turns_of i schedule

module _ (randomx : List ℕ → List ℕ) (header_prefix : List ℕ) (target : ℕ) (makes_vm : ℕ → Bool)
    (threads : ℕ) where
  -- The workers in the order in which a scheduler picks them.
  unfoldable pub run : List ℕ → Miner → Miner
  run [] s = s
  run (i ∷ schedule) s = run schedule (turn randomx header_prefix target makes_vm threads i s)

  potential-act :
      (i : ℕ) (w : Worker) (s : Miner)
      → 0 < threads
      → s.workers i ≡ w
      → potential ((act randomx header_prefix target makes_vm threads i w s).workers i)
        ≤ potential w - 1
  unfolding act potential
  potential-act i at_start s t e = elim (Bool-cases (makes_vm i)) [
    | inl made ↦ rw (made, act) (rw (==_self i) (omega arith))
    | inr refused ↦ rw (refused, act) (rw (==_self i) (omega arith))
  ]
  potential-act i failed s t e = rw e (omega arith)
  potential-act i (at_loop nonce n) s t e = elim (Bool-cases (s.stop || ltb last_nonce nonce)) [
    | inl out ↦ rw (out, act) (rw (==_self i) (omega arith))
    | inr on ↦
        rw (on, act)
          (rw (==_self i) (
            omega
              (arith, loop_passed randomx header_prefix target makes_vm threads s.stop nonce on)))
  ]
  potential-act i (hashing nonce n) s t e =
      elim (Bool-cases (is_solution randomx header_prefix target makes_vm threads nonce)) [
        | inl fits ↦ rw (fits, act) (rw (==_self i) (omega arith))
        | inr fails ↦ rw (fails, act) (rw (==_self i) (omega arith))
      ]
  potential-act i (at_lock nonce n) s t e = rw (==_self i) (omega arith)
  potential-act i (to_stop n) s t e = rw (==_self i) (omega arith)
  potential-act i (ended n) s t e = rw e (omega arith)

  act_others :
      (i j : ℕ) (w : Worker) (s : Miner)
      → (j == i) ≡ false
      → (act randomx header_prefix target makes_vm threads i w s).workers j ≡ s.workers j
  unfolding act
  act_others i j at_start s h = rw h
  act_others i j failed s h = refl
  act_others i j (at_loop nonce n) s h = rw h
  act_others i j (hashing nonce n) s h = rw h
  act_others i j (at_lock nonce n) s h = rw h
  act_others i j (to_stop n) s h = rw h
  act_others i j (ended n) s h = refl

  potential-run :
      (i : ℕ) (schedule : List ℕ) (s : Miner)
      → 0 < threads
      → potential ((run schedule s).workers i) ≤ potential (s.workers i) - turns_of i schedule
  unfolding run turns_of
  potential-run i [] s t = omega arith
  potential-run i (j ∷ schedule) s t =
      let next : Miner = turn randomx header_prefix target makes_vm threads j s in
      let rest = potential-run i schedule next t in
      elim (Bool-cases (i == j)) [
        | inl own ↦
            let same : i ≡ j = (==_iff i j).0 own in
            let less : potential (next.workers i) ≤ potential (s.workers i) - 1 =
              subst (λ k. potential (next.workers k) ≤ potential (s.workers k) - 1) (sym same)
                (potential-act j (s.workers j) s t refl) in
            rw (own, turns_of) (omega (arith, rest, less))
        | inr other ↦
            let kept : potential (next.workers i) ≡ potential (s.workers i) =
              ap potential (act_others j i (s.workers j) s other) in
            rw (other, turns_of) (omega (arith, rest, kept))
      ]

  no_turns_left :
      (w : Worker)
      → potential w ≤ 0
      → has_ended randomx header_prefix target makes_vm threads w ≡ true
  unfolding potential
  no_turns_left at_start h = absurd (omega arith)
  no_turns_left failed h = refl
  no_turns_left (at_loop nonce n) h = absurd (omega arith)
  no_turns_left (hashing nonce n) h = absurd (omega arith)
  no_turns_left (at_lock nonce n) h = absurd (omega arith)
  no_turns_left (to_stop n) h = absurd (omega arith)
  no_turns_left (ended n) h = refl

  potential-begin :
      (i : ℕ)
      → potential ((begin randomx header_prefix target makes_vm threads).workers i) ≤ 2 ^ 33 + 4
  unfolding potential
  potential-begin i = omega arith

  run-Reach :
      (schedule : List ℕ) (s : Miner)
      → All (λ i. i < threads) schedule
      → Reach randomx header_prefix target makes_vm threads s
      → Reach randomx header_prefix target makes_vm threads (run schedule s)
  unfolding run
  run-Reach [] s h r = r
  run-Reach (i ∷ schedule) s (lt, h) r = run-Reach schedule _ h (later i lt r)

  -- For at least one worker and any order in which the workers are picked: if each is picked 2^33 + 4 times,
  -- all of them end, and the search returns a nonce whose hash is at
  -- most the target, or raises where the hash is above the target for every nonce of 32 bits whose
  -- worker was given a virtual machine.
  pub run-IsSearch :
      (schedule : List ℕ)
      → 0 < threads
      → All (λ i. i < threads) schedule
      → ((i : ℕ) → i < threads → 2 ^ 33 + 4 ≤ turns_of i schedule)
      → let s = run schedule (begin randomx header_prefix target makes_vm threads) in
        AllJoined randomx header_prefix target makes_vm threads s
        × IsSearch randomx header_prefix target makes_vm threads
            (mined randomx header_prefix target makes_vm threads s)
  run-IsSearch schedule some_worker own fair =
      let s = run schedule (begin randomx header_prefix target makes_vm threads) in
      let joined : AllJoined randomx header_prefix target makes_vm threads s = λ i lt.
        no_turns_left (s.workers i) (
          omega (
            arith,
            potential-run i schedule (begin randomx header_prefix target makes_vm threads)
                some_worker,
            potential-begin i,
            fair i lt,
          )) in
      (
        joined,
        mined-IsSearch randomx header_prefix target makes_vm threads s
            (run-Reach schedule _ own start) joined some_worker,
      )
