-- ===== src/Ripemd.antt =====
-- `ripemd160` of scripts/gen_founder_key.py, on 32-bit words. `& 0xFFFFFFFF` is the rest of a division by
-- 2 ** 32, and `~x & 0xFFFFFFFF` of a word is its complement.
pub mod Shape
use wam_coin.Common.{
  ℕ, zero, suc, ◌+◌, ◌-◌, ◌*◌, ◌/◌, ◌%◌, ◌^◌, List, [], ◌∷◌, ◌++◌, true, false, ◌==◌, if◌then◌else◌,
  length, take, drop, get_or,
}
use wam_coin.Common.Bytes.{from_le, to_le}
use Prim.Native.Nat.{bit_and, bit_or, bit_xor}

abbrev rmd_r : List (List ℕ)
rmd_r =
    (0 ∷ 1 ∷ 2 ∷ 3 ∷ 4 ∷ 5 ∷ 6 ∷ 7 ∷ 8 ∷ 9 ∷ 10 ∷ 11 ∷ 12 ∷ 13 ∷ 14 ∷ 15 ∷ [])
    ∷ (7 ∷ 4 ∷ 13 ∷ 1 ∷ 10 ∷ 6 ∷ 15 ∷ 3 ∷ 12 ∷ 0 ∷ 9 ∷ 5 ∷ 2 ∷ 14 ∷ 11 ∷ 8 ∷ [])
    ∷ (3 ∷ 10 ∷ 14 ∷ 4 ∷ 9 ∷ 15 ∷ 8 ∷ 1 ∷ 2 ∷ 7 ∷ 0 ∷ 6 ∷ 13 ∷ 11 ∷ 5 ∷ 12 ∷ [])
    ∷ (1 ∷ 9 ∷ 11 ∷ 10 ∷ 0 ∷ 8 ∷ 12 ∷ 4 ∷ 13 ∷ 3 ∷ 7 ∷ 15 ∷ 14 ∷ 5 ∷ 6 ∷ 2 ∷ [])
    ∷ (4 ∷ 0 ∷ 5 ∷ 9 ∷ 7 ∷ 12 ∷ 2 ∷ 10 ∷ 14 ∷ 1 ∷ 3 ∷ 8 ∷ 11 ∷ 6 ∷ 15 ∷ 13 ∷ [])
    ∷ []

abbrev rmd_rp : List (List ℕ)
rmd_rp =
    (5 ∷ 14 ∷ 7 ∷ 0 ∷ 9 ∷ 2 ∷ 11 ∷ 4 ∷ 13 ∷ 6 ∷ 15 ∷ 8 ∷ 1 ∷ 10 ∷ 3 ∷ 12 ∷ [])
    ∷ (6 ∷ 11 ∷ 3 ∷ 7 ∷ 0 ∷ 13 ∷ 5 ∷ 10 ∷ 14 ∷ 15 ∷ 8 ∷ 12 ∷ 4 ∷ 9 ∷ 1 ∷ 2 ∷ [])
    ∷ (15 ∷ 5 ∷ 1 ∷ 3 ∷ 7 ∷ 14 ∷ 6 ∷ 9 ∷ 11 ∷ 8 ∷ 12 ∷ 2 ∷ 10 ∷ 0 ∷ 4 ∷ 13 ∷ [])
    ∷ (8 ∷ 6 ∷ 4 ∷ 1 ∷ 3 ∷ 11 ∷ 15 ∷ 0 ∷ 5 ∷ 12 ∷ 2 ∷ 13 ∷ 9 ∷ 7 ∷ 10 ∷ 14 ∷ [])
    ∷ (12 ∷ 15 ∷ 10 ∷ 4 ∷ 1 ∷ 5 ∷ 8 ∷ 7 ∷ 6 ∷ 2 ∷ 13 ∷ 14 ∷ 0 ∷ 3 ∷ 9 ∷ 11 ∷ [])
    ∷ []

abbrev rmd_s : List (List ℕ)
rmd_s =
    (11 ∷ 14 ∷ 15 ∷ 12 ∷ 5 ∷ 8 ∷ 7 ∷ 9 ∷ 11 ∷ 13 ∷ 14 ∷ 15 ∷ 6 ∷ 7 ∷ 9 ∷ 8 ∷ [])
    ∷ (7 ∷ 6 ∷ 8 ∷ 13 ∷ 11 ∷ 9 ∷ 7 ∷ 15 ∷ 7 ∷ 12 ∷ 15 ∷ 9 ∷ 11 ∷ 7 ∷ 13 ∷ 12 ∷ [])
    ∷ (11 ∷ 13 ∷ 6 ∷ 7 ∷ 14 ∷ 9 ∷ 13 ∷ 15 ∷ 14 ∷ 8 ∷ 13 ∷ 6 ∷ 5 ∷ 12 ∷ 7 ∷ 5 ∷ [])
    ∷ (11 ∷ 12 ∷ 14 ∷ 15 ∷ 14 ∷ 15 ∷ 9 ∷ 8 ∷ 9 ∷ 14 ∷ 5 ∷ 6 ∷ 8 ∷ 6 ∷ 5 ∷ 12 ∷ [])
    ∷ (9 ∷ 15 ∷ 5 ∷ 11 ∷ 6 ∷ 8 ∷ 13 ∷ 12 ∷ 5 ∷ 12 ∷ 13 ∷ 14 ∷ 11 ∷ 8 ∷ 5 ∷ 6 ∷ [])
    ∷ []

abbrev rmd_sp : List (List ℕ)
rmd_sp =
    (8 ∷ 9 ∷ 9 ∷ 11 ∷ 13 ∷ 15 ∷ 15 ∷ 5 ∷ 7 ∷ 7 ∷ 8 ∷ 11 ∷ 14 ∷ 14 ∷ 12 ∷ 6 ∷ [])
    ∷ (9 ∷ 13 ∷ 15 ∷ 7 ∷ 12 ∷ 8 ∷ 9 ∷ 11 ∷ 7 ∷ 7 ∷ 12 ∷ 7 ∷ 6 ∷ 15 ∷ 13 ∷ 11 ∷ [])
    ∷ (9 ∷ 7 ∷ 15 ∷ 11 ∷ 8 ∷ 6 ∷ 6 ∷ 14 ∷ 12 ∷ 13 ∷ 5 ∷ 14 ∷ 13 ∷ 13 ∷ 7 ∷ 5 ∷ [])
    ∷ (15 ∷ 5 ∷ 8 ∷ 11 ∷ 14 ∷ 14 ∷ 6 ∷ 14 ∷ 6 ∷ 9 ∷ 12 ∷ 9 ∷ 12 ∷ 5 ∷ 15 ∷ 8 ∷ [])
    ∷ (8 ∷ 5 ∷ 12 ∷ 9 ∷ 12 ∷ 5 ∷ 14 ∷ 6 ∷ 8 ∷ 13 ∷ 6 ∷ 5 ∷ 15 ∷ 13 ∷ 11 ∷ 11 ∷ [])
    ∷ []

abbrev rmd_k : List ℕ
rmd_k = 0x00000000 ∷ 0x5A827999 ∷ 0x6ED9EBA1 ∷ 0x8F1BBCDC ∷ 0xA953FD4E ∷ []

abbrev rmd_kp : List ℕ
rmd_kp = 0x50A28BE6 ∷ 0x5C4DD124 ∷ 0x6D703EF3 ∷ 0x7A6D76E9 ∷ 0x00000000 ∷ []

abbrev word : ℕ → ℕ
word x = x % 2 ^ 32

abbrev complement : ℕ → ℕ
complement x = 0xFFFFFFFF - word x

unfoldable pub rol : ℕ → ℕ → ℕ
rol x n = word (bit_or (word x * 2 ^ n) (word x / 2 ^ (32 - n)))

unfoldable pub rmd_f : ℕ → ℕ → ℕ → ℕ → ℕ
rmd_f round_index x y z =
    if round_index == 0
    then bit_xor (bit_xor x y) z
    else if round_index == 1
    then bit_or (bit_and x y) (bit_and (complement x) z)
    else if round_index == 2
    then bit_xor (bit_or x (complement y)) z
    else if round_index == 3
    then bit_or (bit_and x z) (bit_and y (complement z))
    else bit_xor x (bit_or y (complement z))

-- The five words of a line of the computation.
pub record Words : Type 0 where
  pub a : ℕ
  pub b : ℕ
  pub c : ℕ
  pub d : ℕ
  pub e : ℕ

-- `rows[j // 16][j % 16]`
abbrev pick : List (List ℕ) → ℕ → ℕ
pick rows j = get_or (get_or rows (j / 16) []) (j % 16) 0

-- One step of a line, with its function, message word, constant and rotation.
unfoldable pub rmd_step : ℕ → ℕ → ℕ → ℕ → Words → Words
rmd_step f x k s w =
    let t = word (w.a + rmd_f f w.b w.c w.d + x + k) in
    record { a = w.e; b = word (rol t s + w.e); c = w.b; d = rol w.c 10; e = w.d }

unfoldable pub left_step : List ℕ → ℕ → Words → Words
left_step x j w =
    rmd_step (j / 16) (get_or x (pick rmd_r j) 0) (get_or rmd_k (j / 16) 0) (pick rmd_s j) w

unfoldable pub right_step : List ℕ → ℕ → Words → Words
right_step x j w =
    rmd_step (4 - j / 16) (get_or x (pick rmd_rp j) 0) (get_or rmd_kp (j / 16) 0) (pick rmd_sp j) w

-- `for j in range(80)`, each line by itself, from step `j` on with `rounds` left.
unfoldable pub left_line : ℕ → List ℕ → ℕ → Words → Words
left_line zero x j w = w
left_line (suc rounds) x j w = left_line rounds x (j + 1) (left_step x j w)

unfoldable pub right_line : ℕ → List ℕ → ℕ → Words → Words
right_line zero x j w = w
right_line (suc rounds) x j w = right_line rounds x (j + 1) (right_step x j w)

-- `[int.from_bytes(block[i:i + 4], "little") for i in range(0, 64, 4)]`
unfoldable pub block_words : ℕ → List ℕ → List ℕ
block_words zero block = []
block_words (suc n) block = from_le (take 4 block) ∷ block_words n (drop 4 block)

unfoldable pub compress : Words → List ℕ → Words
compress h block =
    let x = block_words 16 block in
    let l = left_line 80 x 0 h in
    let r = right_line 80 x 0 h in
    record {
      a = word (h.b + l.c + r.d);
      b = word (h.c + l.d + r.e);
      c = word (h.d + l.e + r.a);
      d = word (h.e + l.a + r.b);
      e = word (h.a + l.b + r.c);
    }

-- `while len(msg) % 64 != 56: msg.append(0x00)`; 64 rounds are enough.
unfoldable pub pad : ℕ → List ℕ → List ℕ
pad zero msg = msg
pad (suc fuel) msg = elim (length msg % 64 == 56) [
  | true ↦ msg
  | false ↦ pad fuel (msg ++ (0x00 ∷ []))
]

unfoldable pub padded : List ℕ → List ℕ
padded message = pad 64 (message ++ (0x80 ∷ [])) ++ to_le 8 (length message * 8 % 2 ^ 64)

-- `for offset in range(0, len(msg), 64)`
unfoldable pub absorb : ℕ → List ℕ → Words → Words
absorb zero msg h = h
absorb (suc blocks) msg h = absorb blocks (drop 64 msg) (compress h (take 64 msg))

abbrev initial : Words
initial = record { a = 0x67452301; b = 0xEFCDAB89; c = 0x98BADCFE; d = 0x10325476; e = 0xC3D2E1F0 }

unfoldable pub ripemd160 : List ℕ → List ℕ
ripemd160 message =
    let msg = padded message in
    let h = absorb ((length msg + 63) / 64) msg initial in
    to_le 4 h.a ++ (to_le 4 h.b ++ (to_le 4 h.c ++ (to_le 4 h.d ++ to_le 4 h.e)))
