-- ===== src/Genesis/Mine/Invariant.antt =====
-- What is true of the workers in every state of the search.
use wam_coin.Common.{
  ℕ, ◌+◌, ◌*◌, ◌≤◌, ◌<◌, ◌≡◌, ◌≢◌, ◌⊎◌, refl, sym, ap, ◌∙◌, subst, List, Option, none, some,
  some_inj, none-ne-some, Bool, true, false, ◌==◌, ◌||◌, ltb, Bool-cases, ==_iff, inl, inr, arith,
  false-ne-true,
}
use native.Mathlib.Decide.{dec_lt}
use native.Mathlib.Nat.{mul-le-mul_right}
use wam_coin.Genesis.Mine.{
  last_nonce, Worker, at_start, failed, at_loop, hashing, at_lock, to_stop, ended, Miner, put,
  first_wins, is_solution, act, begin, Reach, start, later,
}

abbrev pub has_found : Option ℕ → Bool
has_found none = false
has_found (some n) = true

pub true-ne-false : true ≢ false
true-ne-false h = cc

module _ (randomx : List ℕ → List ℕ) (header_prefix : List ℕ) (target : ℕ) (makes_vm : ℕ → Bool)
    (threads : ℕ) where
  -- A nonce of 32 bits that fits.
  abbrev pub IsSolution : ℕ → Type 0
  IsSolution nonce =
      (nonce ≤ last_nonce)
      × (is_solution randomx header_prefix target makes_vm threads nonce ≡ true)

  -- The first `n` nonces of worker `i` do not fit.
  abbrev pub Rejected : ℕ → ℕ → Type 0
  Rejected i n =
      (j : ℕ)
      → j < n
      → is_solution randomx header_prefix target makes_vm threads (i + j * threads) ≡ false

  abbrev pub Exhausted : ℕ → Type 0
  Exhausted i =
      (j : ℕ)
      → i + j * threads ≤ last_nonce
      → is_solution randomx header_prefix target makes_vm threads (i + j * threads) ≡ false

  -- What is true of worker `i`, whether a nonce was found or not.
  unfoldable pub WorkerInv : ℕ → Bool → Worker → Type 0
  WorkerInv i found at_start = Unit
  WorkerInv i found failed = makes_vm i ≡ false
  WorkerInv i found (at_loop nonce n) = (nonce ≡ i + n * threads) × Rejected i n
  WorkerInv i found (hashing nonce n) =
      (nonce ≡ i + n * threads) × Rejected i n × (nonce ≤ last_nonce)
  WorkerInv i found (at_lock nonce n) = IsSolution nonce
  WorkerInv i found (to_stop n) = found ≡ true
  WorkerInv i found (ended n) = (found ≡ true) ⊎ Exhausted i

  pub record Inv (s : Miner) : Type 0 where
    pub good : (n : ℕ) → s.found ≡ some n → IsSolution n
    pub stopped : s.stop ≡ true → has_found s.found ≡ true
    pub each : (i : ℕ) → i < threads → WorkerInv i (has_found s.found) (s.workers i)

  -- Finding a nonce makes nothing false.
  WorkerInv-found : (i : ℕ) (b : Bool) (w : Worker) → WorkerInv i b w → WorkerInv i true w
  unfolding WorkerInv
  WorkerInv-found i b at_start h = h
  WorkerInv-found i b failed h = h
  WorkerInv-found i b (at_loop nonce n) h = h
  WorkerInv-found i b (hashing nonce n) h = h
  WorkerInv-found i b (at_lock nonce n) h = h
  WorkerInv-found i b (to_stop n) h = refl
  WorkerInv-found i b (ended n) h = inl refl

  put-WorkerInv :
      (b : Bool) (i : ℕ) (w : Worker) (ws : ℕ → Worker)
      → WorkerInv i b w
      → ((j : ℕ) → j < threads → WorkerInv j b (ws j))
      → (j : ℕ) → j < threads
      → WorkerInv j b (put i w ws j)
  put-WorkerInv b i w ws h each j lt = elim (Bool-cases (j == i)) [
    | inl same ↦ rw same (subst (λ k. WorkerInv k b w) (sym ((==_iff j i).0 same)) h)
    | inr other ↦ rw other (each j lt)
  ]

  begin-Inv : Inv (begin randomx header_prefix target makes_vm threads)
  unfolding WorkerInv
  begin-Inv = record {
    good = λ n h. absurd (none-ne-some h);
    stopped = λ h. absurd (false-ne-true h);
    each = λ i lt. tt;
  }

  Rejected-suc :
      (i n nonce : ℕ)
      → nonce ≡ i + n * threads
      → Rejected i n
      → is_solution randomx header_prefix target makes_vm threads nonce ≡ false
      → Rejected i (n + 1)
  Rejected-suc i n nonce e h bad j lt = elim (Bool-cases (j == n)) [
    | inl same ↦
        ap (λ k. is_solution randomx header_prefix target makes_vm threads (i + k * threads))
          ((==_iff j n).0 same)
        ∙ ap (is_solution randomx header_prefix target makes_vm threads) (sym e)
        ∙ bad
    | inr other ↦ h j (ground (arith, lt, other))
  ]

  -- Past the last nonce, a worker has tried all of its own.
  Rejected-Exhausted :
      (i n nonce : ℕ) → nonce ≡ i + n * threads → Rejected i n → last_nonce < nonce → Exhausted i
  Rejected-Exhausted i n nonce e h past j le = (elim (dec_lt j n) [
    | yes lt ↦ h j lt
    | no ge ↦
        absurd (omega (arith, e, past, le, mul-le-mul_right {m = n} {n = j} threads (omega arith)))
  ])

  loop_guard :
      (stop : Bool) (nonce : ℕ)
      → (stop || ltb last_nonce nonce) ≡ true
      → (stop ≡ true) ⊎ (last_nonce < nonce)
  loop_guard true nonce h = inl refl
  loop_guard false nonce h = inr (ground (arith, h))

  pub loop_passed :
      (stop : Bool) (nonce : ℕ) → (stop || ltb last_nonce nonce) ≡ false → nonce ≤ last_nonce
  loop_passed true nonce h = absurd (true-ne-false h)
  loop_passed false nonce h = ground (arith, h)

  first_wins_found : (found : Option ℕ) (nonce : ℕ) → has_found (first_wins found nonce) ≡ true
  first_wins_found none nonce = refl
  first_wins_found (some n) nonce = refl

  first_wins-IsSolution :
      (found : Option ℕ) (nonce n : ℕ)
      → ((m : ℕ) → found ≡ some m → IsSolution m)
      → IsSolution nonce
      → first_wins found nonce ≡ some n
      → IsSolution n
  first_wins-IsSolution none nonce n good h e = subst IsSolution (some_inj e) h
  first_wins-IsSolution (some m) nonce n good h e = good n e

  -- A step that only moves worker `i`.
  move-Inv :
      (i : ℕ) (w : Worker) (s : Miner)
      → WorkerInv i (has_found s.found) w
      → Inv s
      → Inv (record s { workers = put i w s.workers })
  move-Inv i w s h inv = record {
    good = inv.good;
    stopped = inv.stopped;
    each = put-WorkerInv (has_found s.found) i w s.workers h inv.each;
  }

  act-Inv :
      (i : ℕ) (w : Worker) (s : Miner)
      → WorkerInv i (has_found s.found) w
      → Inv s
      → Inv (act randomx header_prefix target makes_vm threads i w s)
  unfolding act WorkerInv
  act-Inv i at_start s h inv = elim (Bool-cases (makes_vm i)) [
    | inl made ↦
        rw (made, act)
          (move-Inv i (at_loop i 0) s (omega arith, λ j none_yet. absurd (omega (arith, none_yet)))
            inv)
    | inr refused ↦ rw (refused, act) (move-Inv i failed s refused inv)
  ]
  act-Inv i failed s h inv = inv
  act-Inv i (at_loop nonce n) s (e, h) inv = elim (Bool-cases (s.stop || ltb last_nonce nonce)) [
    | inl out ↦
        rw (out, act)
          (move-Inv i (ended n) s
            (elim (loop_guard s.stop nonce out) [
              | inl stopped ↦ inl (inv.stopped stopped)
              | inr past ↦ inr (Rejected-Exhausted i n nonce e h past)
            ])
            inv)
    | inr on ↦ rw (on, act) (move-Inv i (hashing nonce n) s (e, h, loop_passed s.stop nonce on) inv)
  ]
  act-Inv i (hashing nonce n) s (e, h, le) inv =
      elim (Bool-cases (is_solution randomx header_prefix target makes_vm threads nonce)) [
        | inl fits ↦ rw (fits, act) (move-Inv i (at_lock nonce (n + 1)) s (le, fits) inv)
        | inr fails ↦
            rw (fails, act)
              (move-Inv i (at_loop (nonce + threads) (n + 1)) s
                (omega (arith, e), Rejected-suc i n nonce e h fails) inv)
      ]
  act-Inv i (at_lock nonce n) s h inv = record {
    good = λ m e. first_wins-IsSolution s.found nonce m inv.good h e;
    stopped = λ e. first_wins_found s.found nonce;
    each = rw (first_wins_found s.found nonce) (
        put-WorkerInv true i (to_stop n) s.workers refl
          (λ j lt. WorkerInv-found j (has_found s.found) (s.workers j) (inv.each j lt)));
  }
  act-Inv i (to_stop n) s h inv = record {
    good = inv.good;
    stopped = λ e. h;
    each = put-WorkerInv (has_found s.found) i (ended n) s.workers (inl h) inv.each;
  }
  act-Inv i (ended n) s h inv = inv

  -- In every state that an interleaving of the workers reaches: a nonce that was found fits; the workers are told
  -- to stop only after one was found; and each worker has not started, stands at a nonce of its own residue
  -- behind nonces that do not fit, holds a nonce that fits, is about to stop the others after a find, or
  -- has ended because of a find, because none of its nonces fits, or because it was given no virtual
  -- machine.
  pub Reach-Inv : (s : Miner) → Reach randomx header_prefix target makes_vm threads s → Inv s
  Reach-Inv s start = begin-Inv
  Reach-Inv s (later {s = before} i lt r) =
      let inv = Reach-Inv before r in act-Inv i (before.workers i) before (inv.each i lt) inv
