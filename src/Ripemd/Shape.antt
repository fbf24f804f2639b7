-- ===== src/Ripemd/Shape.antt =====
-- The shape of a RIPEMD-160 digest and of the padded message.
use wam_coin.Common.{
  ℕ, zero, suc, ◌+◌, ◌-◌, ◌*◌, ◌%◌, ◌^◌, ◌≤◌, ◌≡◌, List, [], ◌∷◌, ◌++◌, ◌==◌, length, All,
  All-append, Bool-cases, ==_iff, inl, inr, arith, length-append,
}
use wam_coin.Common.Bytes.{IsByte, to_le, length-to_le, to_le-IsByte}
use wam_coin.Ripemd.{pad, padded, ripemd160}

length-digest :
    (a b c d e : ℕ)
    → length (to_le 4 a ++ (to_le 4 b ++ (to_le 4 c ++ (to_le 4 d ++ to_le 4 e)))) ≡ 20
length-digest a b c d e = omega (
  arith,
  length-append (to_le 4 a) (to_le 4 b ++ (to_le 4 c ++ (to_le 4 d ++ to_le 4 e))),
  length-append (to_le 4 b) (to_le 4 c ++ (to_le 4 d ++ to_le 4 e)),
  length-append (to_le 4 c) (to_le 4 d ++ to_le 4 e),
  length-append (to_le 4 d) (to_le 4 e),
  length-to_le 4 a,
  length-to_le 4 b,
  length-to_le 4 c,
  length-to_le 4 d,
  length-to_le 4 e,
)

pub length-ripemd160 : (message : List ℕ) → length (ripemd160 message) ≡ 20
unfolding ripemd160
length-ripemd160 message = length-digest _ _ _ _ _

two-IsByte : (a : ℕ) (bs : List ℕ) → All IsByte bs → All IsByte (to_le 4 a ++ bs)
two-IsByte a bs h = All-append IsByte (to_le 4 a) bs (to_le-IsByte 4 a) h

pub ripemd160-IsByte : (message : List ℕ) → All IsByte (ripemd160 message)
unfolding ripemd160
ripemd160-IsByte message =
    two-IsByte _ _ (two-IsByte _ _ (two-IsByte _ _ (two-IsByte _ _ (to_le-IsByte 4 _))))

-- Each round brings the length one closer to 56 above a multiple of 64.
length-pad :
    (fuel : ℕ) (msg : List ℕ)
    → (120 - length msg % 64) % 64 ≤ fuel
    → length (pad fuel msg) % 64 ≡ 56
unfolding pad
length-pad zero msg h = omega arith
length-pad (suc fuel) msg h = elim (Bool-cases (length msg % 64 == 56)) [
  | inl full ↦ rw (full, pad) ((==_iff (length msg % 64) 56).0 full)
  | inr more ↦
      let longer : length (msg ++ (0x00 ∷ [])) ≡ length msg + 1 =
        omega (arith, length-append msg (0x00 ∷ [])) in
      rw (more, pad) (length-pad fuel (msg ++ (0x00 ∷ [])) (ground (arith, longer)))
]

-- The padding ends, and the padded message is whole blocks of 64 bytes.
pub length-padded : (message : List ℕ) → length (padded message) % 64 ≡ 0
unfolding padded
length-padded message =
    let bits : List ℕ = to_le 8 (length message * 8 % 2 ^ 64) in
    let body : List ℕ = pad 64 (message ++ (0x80 ∷ [])) in
    omega (
      arith,
      length-append body bits,
      length-to_le 8 (length message * 8 % 2 ^ 64),
      length-pad 64 (message ++ (0x80 ∷ [])) (omega arith),
    )
