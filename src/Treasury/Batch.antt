-- ===== src/Treasury/Batch.antt =====
-- `_batch_problem`: why the parts of a payment are not signed together. A part's input set is `none`
-- where it is no list, and its destination is `none` where the plan names none. The inputs are compared by
-- the JSON values `txid` and `vout` as they stand in the files, where `_outpoints` converts them first.
use wam_coin.Common.{
  ℕ, ◌⊎◌, subst, ◌≡◌, ◌≢◌, refl, sym, ap, ◌∙◌, if◌then◌else◌, List, [], ◌∷◌, ◌++◌, Option, none,
  some, some-ne-none, Bool, true, false, All, Bool-cases, Option-cases, inl, inr, false-ne-true,
  ◌&&◌, &&_split,
}
use wam_coin.Common.Bytes.{bytes_eq, eq_of_bytes_eq, bytes_eq_self}

-- `(inp.get("txid"), inp.get("vout"))`
abbrev pub Key : Type 0
Key = List ℕ

-- `key in seen`
unfoldable pub is_known : Key → List Key → Bool
is_known p [] = false
is_known p (q ∷ qs) = if bytes_eq p q then true else is_known p qs

pub record Part : Type 0 where
  pub to : Option (List ℕ)
  pub inputs : Option (List Key)

pub data BatchProblem : Type 0 where
  many_addresses no_destination no_input_set : BatchProblem
  collision : Key → BatchProblem

abbrev pub same_dest : Option (List ℕ) → Option (List ℕ) → Bool
same_dest none none = true
same_dest none (some b) = false
same_dest (some a) none = false
same_dest (some a) (some b) = bytes_eq a b

-- `len({p.get("to") for p in plans}) == 1`, for plans behind a first one.
unfoldable pub one_dest : Option (List ℕ) → List Part → Bool
one_dest to [] = true
one_dest to (p ∷ ps) = same_dest p.to to && one_dest to ps

-- The loop over one part's inputs, with the points seen so far; the first that was seen, or all of them.
pub data Scan : Type 0 where
  clash : Key → Scan
  clear : List Key → Scan

unfoldable pub scan : List Key → List Key → Scan
scan seen [] = clear seen
scan seen (p ∷ ps) = elim (is_known p seen) [ true ↦ clash p | false ↦ scan (p ∷ seen) ps ]

unfoldable pub scan_parts : List Key → List Part → Option BatchProblem
scan_parts seen [] = none
scan_parts seen (part ∷ parts) = elim part.inputs [
  | none ↦ some no_input_set
  | some [] ↦ some no_input_set
  | some (p ∷ ps) ↦ elim (scan seen (p ∷ ps)) [
    | clash q ↦ some (collision q)
    | clear seen2 ↦ scan_parts seen2 parts
  ]
]

unfoldable pub batch_problem : List Part → Option BatchProblem
batch_problem [] = none
batch_problem (p ∷ []) = none
batch_problem (p ∷ q ∷ ps) = elim (one_dest p.to (q ∷ ps)) [
  | false ↦ some many_addresses
  | true ↦ elim p.to [ none ↦ some no_destination | some to ↦ scan_parts [] (p ∷ q ∷ ps) ]
]

abbrev pub IsNewAmong : List Key → Key → Type 0
IsNewAmong seen p = All (λ q. p ≢ q) seen

-- No two keys of the list are one, and none is one of those that were seen before.
abbrev pub AllNew : List Key → List Key → Type 0
AllNew seen [] = Unit
AllNew seen (p ∷ ps) = IsNewAmong seen p × AllNew (p ∷ seen) ps

is_known-IsNewAmong : (p : Key) (seen : List Key) → is_known p seen ≡ false → IsNewAmong seen p
unfolding is_known
is_known-IsNewAmong p [] h = tt
is_known-IsNewAmong p (q ∷ qs) h = elim (Bool-cases (bytes_eq p q)) [
  | inl same ↦ absurd (false-ne-true (sym (rw (same, is_known) at h)))
  | inr other ↦ (
    λ e. absurd (false-ne-true (sym other ∙ sym (ap (bytes_eq p) e) ∙ bytes_eq_self p)),
    is_known-IsNewAmong p qs (rw (other, is_known) at h),
  )
]

-- Every input of every part, in the order in which the loop meets them.
unfoldable pub all_inputs : List Part → List Key
all_inputs [] = []
all_inputs (part ∷ parts) = elim part.inputs [
  | none ↦ all_inputs parts
  | some ps ↦ ps ++ all_inputs parts
]

clear_inj : {a b : List Key} → clear a ≡ clear b → a ≡ b
clear_inj h = cc

clash-ne-clear : {q : Key} {a : List Key} → clash q ≢ clear a
clash-ne-clear h = cc

Scan-cases : (s : Scan) → ((q : Key) × (s ≡ clash q)) ⊎ ((seen : List Key) × (s ≡ clear seen))
Scan-cases (clash q) = inl (q, refl)
Scan-cases (clear seen) = inr (seen, refl)

scan-AllNew :
    (seen ps seen2 rest : List Key)
    → scan seen ps ≡ clear seen2
    → AllNew seen2 rest
    → AllNew seen (ps ++ rest)
unfolding scan
scan-AllNew seen [] seen2 rest h new = subst (λ t. AllNew t rest) (sym (clear_inj h)) new
scan-AllNew seen (p ∷ ps) seen2 rest h new = elim (Bool-cases (is_known p seen)) [
  | inl old ↦ absurd (clash-ne-clear (rw (old, scan) at h))
  | inr fresh ↦ (
    is_known-IsNewAmong p seen fresh,
    scan-AllNew (p ∷ seen) ps seen2 rest (rw (fresh, scan) at h) new,
  )
]

-- A part that has inputs.
abbrev pub HasInputs : Part → Type 0
HasInputs part = (p : Key) × (ps : List Key) × (part.inputs ≡ some (p ∷ ps))

all_inputs-some :
    (part : Part) (parts : List Part) (ps : List Key)
    → part.inputs ≡ some ps
    → all_inputs (part ∷ parts) ≡ ps ++ all_inputs parts
unfolding all_inputs
all_inputs-some part parts ps e = rw (e, all_inputs)

scan_parts-AllNew :
    (seen : List Key) (parts : List Part)
    → scan_parts seen parts ≡ none
    → AllNew seen (all_inputs parts) × All HasInputs parts
unfolding scan_parts all_inputs
scan_parts-AllNew seen [] h = (tt, tt)
scan_parts-AllNew seen (part ∷ parts) h = elim (Option-cases part.inputs) [
  | inl gone ↦ absurd (some-ne-none (rw (gone, scan_parts) at h))
  | inr ([], empty) ↦ absurd (some-ne-none (rw (empty, scan_parts) at h))
  | inr (p ∷ ps, named) ↦ elim (Scan-cases (scan seen (p ∷ ps))) [
    | inl (q, twice) ↦ absurd (some-ne-none (rw twice at (rw (named, scan_parts) at h)))
    | inr (seen2, once) ↦
        let (new, others) =
          scan_parts-AllNew seen2 parts (rw once at (rw (named, scan_parts) at h)) in
        (
          subst (AllNew seen) (sym (all_inputs-some part parts (p ∷ ps) named))
              (scan-AllNew seen (p ∷ ps) seen2 (all_inputs parts) once new),
          ((p, ps, named), others),
        )
  ]
]

same_dest_sound : (a b : Option (List ℕ)) → same_dest a b ≡ true → a ≡ b
same_dest_sound none none h = refl
same_dest_sound none (some b) h = absurd (false-ne-true h)
same_dest_sound (some a) none h = absurd (false-ne-true h)
same_dest_sound (some a) (some b) h = ap some (eq_of_bytes_eq a b h)

one_dest_sound :
    (to : Option (List ℕ)) (parts : List Part)
    → one_dest to parts ≡ true
    → All (λ (p : Part). p.to ≡ to) parts
unfolding one_dest
one_dest_sound to [] h = tt
one_dest_sound to (p ∷ ps) h =
    let (head, tail) = &&_split (same_dest p.to to) (one_dest to ps) h in
    (same_dest_sound p.to to head, one_dest_sound to ps tail)

-- Two or more parts in which no problem is found all pay one address, each has inputs, and no two inputs,
-- of one part or of two, carry the same txid and vout, compared as they stand in the files.
pub batch_problem-none :
    (p q : Part) (ps : List Part)
    → batch_problem (p ∷ q ∷ ps) ≡ none
    → (to : List ℕ) × All (λ (r : Part). r.to ≡ some to) (p ∷ q ∷ ps)
      × All HasInputs (p ∷ q ∷ ps)
      × AllNew [] (all_inputs (p ∷ q ∷ ps))
unfolding batch_problem
batch_problem-none p q ps h = elim (Bool-cases (one_dest p.to (q ∷ ps))) [
  | inr many ↦ absurd (some-ne-none (rw (many, batch_problem) at h))
  | inl one ↦ elim (Option-cases p.to) [
    | inl unnamed ↦ absurd (some-ne-none (rw unnamed at (rw (one, batch_problem) at h)))
    | inr (to, named) ↦
        let (new, inputs) =
          scan_parts-AllNew [] (p ∷ q ∷ ps) (rw named at (rw (one, batch_problem) at h)) in
        (
          to,
          (
            named,
            subst (λ t. All (λ (r : Part). r.to ≡ t) (q ∷ ps)) named
                (one_dest_sound p.to (q ∷ ps) one),
          ),
          inputs,
          new,
        )
  ]
]
