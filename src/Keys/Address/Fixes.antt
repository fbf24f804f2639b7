-- ===== src/Keys/Address/Fixes.antt =====
-- The search for the single mistyped character of an address.
use wam_coin.Common.{
  ℕ, zero, suc, ◌+◌, ◌-◌, ◌*◌, ◌≤◌, ◌<◌, ◌≡◌, ◌≢◌, refl, sym, ap, ◌∙◌, List, [], ◌∷◌, some, Bool,
  true, false, ◌==◌, if◌then◌else◌, length, get_or, All, All-append, Any, Any-append_left,
  Any-append_right, Bool-cases, Option-cases, ==_iff, none-ne-some, false-ne-true, inl, inr, arith,
  subst,
}
use wam_coin.Base58.{alphabet, find, number_of, raw_of}
use wam_coin.Keys.Address.{
  Fix, replace_at, decode, checks_out, fixes_at, fixes_below, find_single_char_fix,
}

replace_at-replace_at :
    (xs : List ℕ) (i c : ℕ) → i < length xs → replace_at (replace_at xs i c) i (get_or xs i 0) ≡ xs
replace_at-replace_at [] i c h = absurd (omega arith)
replace_at-replace_at (x ∷ xs) zero c h = refl
replace_at-replace_at (x ∷ xs) (suc i) c h =
    ap (λ t. x ∷ t) (replace_at-replace_at xs i c (omega arith))

get_or-replace_at : (xs : List ℕ) (i c : ℕ) → i < length xs → get_or (replace_at xs i c) i 0 ≡ c
get_or-replace_at [] i c h = absurd (omega arith)
get_or-replace_at (x ∷ xs) zero c h = refl
get_or-replace_at (x ∷ xs) (suc i) c h = get_or-replace_at xs i c (omega arith)

length-replace_at : (xs : List ℕ) (i c : ℕ) → i < length xs → length (replace_at xs i c) ≡ length xs
length-replace_at [] i c h = absurd (omega arith)
length-replace_at (x ∷ xs) zero c h = refl
length-replace_at (x ∷ xs) (suc i) c h = ap suc (length-replace_at xs i c (omega arith))

-- The characters of a text that is read are base58 characters.
all_found :
    (s : List ℕ) (n m i : ℕ)
    → number_of n s ≡ some m
    → i < length s
    → (j : ℕ) × (find (get_or s i 0) alphabet ≡ some j)
unfolding number_of
all_found [] n m i e h = absurd (omega arith)
all_found (ch ∷ s) n m zero e h = elim (Option-cases (find ch alphabet)) [
  | inl gone ↦ absurd (none-ne-some (rw (gone, number_of) at e))
  | inr (j, found) ↦ (j, found)
]
all_found (ch ∷ s) n m (suc i) e h = elim (Option-cases (find ch alphabet)) [
  | inl gone ↦ absurd (none-ne-some (rw (gone, number_of) at e))
  | inr (j, found) ↦ all_found s (n * 58 + j) m i (rw (found, number_of) at e) (omega arith)
]

-- A loop's body that passes over an element keeps what the rest of the loop finds.
keep_rest :
    (P : Fix → Type 0) (same good : Bool) (fix : Fix) (rest : List Fix)
    → Any P rest
    → Any P (if same then rest else if good then fix ∷ rest else rest)
keep_rest P true good fix rest h = h
keep_rest P false true fix rest h = inr h
keep_rest P false false fix rest h = h

All-step :
    (P : Fix → Type 0) (same good : Bool) (fix : Fix) (rest : List Fix)
    → (same ≡ false → good ≡ true → P fix)
    → All P rest
    → All P (if same then rest else if good then fix ∷ rest else rest)
All-step P true good fix rest p h = h
All-step P false true fix rest p h = (p refl refl, h)
All-step P false false fix rest p h = h

module _ (sha256 : List ℕ → List ℕ) where
  abbrev fix_of : List ℕ → ℕ → ℕ → Fix
  fix_of bad i c = record {
    position = i + 1;
    was = get_or bad i 0;
    now = c;
    candidate = replace_at bad i c;
  }

  fixes_at-head :
      (bad : List ℕ) (i d : ℕ) (cs : List ℕ)
      → d ≢ get_or bad i 0
      → checks_out sha256 (replace_at bad i d) ≡ true
      → Any (λ f. f ≡ fix_of bad i d) (fixes_at sha256 bad i (d ∷ cs))
  unfolding fixes_at
  fixes_at-head bad i d cs ne good =
      let other : (d == get_or bad i 0) ≡ false = ground (arith, ne) in
      rw other (rw good (inl refl))

  fixes_at-has :
      (bad : List ℕ) (i c j : ℕ) (cs : List ℕ)
      → find c cs ≡ some j
      → c ≢ get_or bad i 0
      → checks_out sha256 (replace_at bad i c) ≡ true
      → Any (λ f. f ≡ fix_of bad i c) (fixes_at sha256 bad i cs)
  unfolding fixes_at find
  fixes_at-has bad i c j [] e ne good = cc
  fixes_at-has bad i c j (d ∷ cs) e ne good = elim (Bool-cases (c == d)) [
    | inl here ↦
        let same : c ≡ d = (==_iff c d).0 here in
        subst (λ t. Any (λ f. f ≡ fix_of bad i t) (fixes_at sha256 bad i (d ∷ cs))) (sym same)
          (fixes_at-head bad i d cs (λ e. ne (same ∙ e))
            (subst (λ t. checks_out sha256 (replace_at bad i t) ≡ true) same good))
    | inr later ↦ elim (Option-cases (find c cs)) [
      | inl gone ↦ absurd (none-ne-some (rw gone at (rw (later, find) at e)))
      | inr (k, found) ↦
          keep_rest (λ f. f ≡ fix_of bad i c) (d == get_or bad i 0)
            (checks_out sha256 (replace_at bad i d)) (fix_of bad i d) (fixes_at sha256 bad i cs)
            (fixes_at-has bad i c k cs found ne good)
    ]
  ]

  fixes_below-has :
      (P : Fix → Type 0) (bad : List ℕ) (i k : ℕ)
      → i < k
      → Any P (fixes_at sha256 bad i alphabet)
      → Any P (fixes_below sha256 bad k)
  unfolding fixes_below
  fixes_below-has P bad i zero h found = absurd (omega arith)
  fixes_below-has P bad i (suc k) h found = elim (Bool-cases (i == k)) [
    | inl last ↦
        Any-append_right P (fixes_below sha256 bad k) (fixes_at sha256 bad k alphabet)
          (subst (λ t. Any P (fixes_at sha256 bad t alphabet)) ((==_iff i k).0 last) found)
    | inr before ↦
        Any-append_left P (fixes_below sha256 bad k) (fixes_at sha256 bad k alphabet)
          (fixes_below-has P bad i k (ground arith) found)
  ]

  decoded_chars :
      (address : List ℕ) (i : ℕ)
      → checks_out sha256 address ≡ true
      → i < length address
      → (j : ℕ) × (find (get_or address i 0) alphabet ≡ some j)
  unfolding checks_out decode raw_of
  decoded_chars address i good h = elim (Option-cases (number_of 0 address)) [
    | inl gone ↦ absurd (false-ne-true (rw (gone, checks_out, decode, raw_of) at good))
    | inr (n, read) ↦ all_found address 0 n i read h
  ]

  -- When one character of a valid address is mistyped, the search offers that address itself, at
  -- the position that was mistyped and with the character that belongs there.
  pub find_single_char_fix_complete :
      (address : List ℕ) (i c : ℕ)
      → checks_out sha256 address ≡ true
      → i < length address
      → c ≢ get_or address i 0
      → let intended : Fix = record {
        position = i + 1;
        was = c;
        now = get_or address i 0;
        candidate = address;
      } in
        Any (λ f. f ≡ intended) (find_single_char_fix sha256 (replace_at address i c))
  unfolding find_single_char_fix
  find_single_char_fix_complete address i c good h ne =
      let bad : List ℕ = replace_at address i c in
      let right : ℕ = get_or address i 0 in
      let intended : Fix = record { position = i + 1; was = c; now = right; candidate = address } in
      let same : fix_of bad i right ≡ intended =
        cc (get_or-replace_at address i c h, replace_at-replace_at address i c h) in
      let (j, found) = decoded_chars address i good h in
      fixes_below-has (λ f. f ≡ intended) bad i (length bad)
        (omega (arith, length-replace_at address i c h))
        (subst (λ t. Any (λ f. f ≡ t) (fixes_at sha256 bad i alphabet)) same
          (fixes_at-has bad i right j alphabet found
            (λ e. ne (sym (e ∙ get_or-replace_at address i c h)))
            (subst (λ t. checks_out sha256 t ≡ true) (sym (replace_at-replace_at address i c h))
              good)))

  -- What is true of every correction that is offered.
  pub record IsFix (bad : List ℕ) (f : Fix) : Type 0 where
    pub place : (1 ≤ f.position) × (f.position ≤ length bad)
    pub replaces : f.was ≡ get_or bad (f.position - 1) 0
    pub differs : f.now ≢ f.was
    pub result : f.candidate ≡ replace_at bad (f.position - 1) f.now
    pub valid : checks_out sha256 f.candidate ≡ true

  offered :
      (bad : List ℕ) (i c : ℕ)
      → i < length bad
      → (c == get_or bad i 0) ≡ false
      → checks_out sha256 (replace_at bad i c) ≡ true
      → IsFix bad (fix_of bad i c)
  offered bad i c h other good =
      let back : i + 1 - 1 ≡ i = omega arith in
      record {
        place = (omega arith, omega arith);
        replaces = ap (λ t. get_or bad t 0) (sym back);
        differs = ground (arith, other);
        result = ap (λ t. replace_at bad t c) (sym back);
        valid = good;
      }

  fixes_at-IsFix :
      (bad : List ℕ) (i : ℕ) (cs : List ℕ)
      → i < length bad
      → All (IsFix bad) (fixes_at sha256 bad i cs)
  unfolding fixes_at
  fixes_at-IsFix bad i [] h = tt
  fixes_at-IsFix bad i (c ∷ cs) h =
      All-step (IsFix bad) (c == get_or bad i 0) (checks_out sha256 (replace_at bad i c))
        (fix_of bad i c) (fixes_at sha256 bad i cs) (offered bad i c h) (fixes_at-IsFix bad i cs h)

  fixes_below-IsFix :
      (bad : List ℕ) (k : ℕ) → k ≤ length bad → All (IsFix bad) (fixes_below sha256 bad k)
  unfolding fixes_below
  fixes_below-IsFix bad zero h = tt
  fixes_below-IsFix bad (suc k) h =
      All-append (IsFix bad) (fixes_below sha256 bad k) (fixes_at sha256 bad k alphabet)
        (fixes_below-IsFix bad k (omega arith)) (fixes_at-IsFix bad k alphabet (omega arith))

  -- Every correction that is offered for a text puts one other character at one of its positions,
  -- and the text that results passes the checksum.
  pub find_single_char_fix_sound :
      (bad : List ℕ) → All (IsFix bad) (find_single_char_fix sha256 bad)
  unfolding find_single_char_fix
  find_single_char_fix_sound bad = fixes_below-IsFix bad (length bad) (omega arith)
