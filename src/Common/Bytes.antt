-- ===== src/Common/Bytes.antt =====
-- Byte strings as lists of numbers below 256, Python's `int.from_bytes` and `int.to_bytes` in both
-- byte orders, and the comparison of two byte strings.
use Prim.Native.Nat.{ℕ, zero, suc, ◌+◌, ◌*◌, ◌/◌, ◌%◌, ◌^◌, ◌≤◌, ◌<◌}
use Prim.Native.Char.{code}
use Prim.Native.String.{String}
use mathlib.Core.Path.{◌≡◌, refl, ap, sym, ◌∙◌}
use mathlib.Core.Bool.{Bool, true, false, ◌&&◌}
use mathlib.Core.List.{List, [], ◌∷◌, ◌++◌, append_assoc, append-nil}
use native.Mathlib.Omega.{arith}
use native.Mathlib.Nat.{mul-le-mul_right}
use wam_coin.Common.Lists.{length, All, All-append, length-append}
use wam_coin.Common.Tests.{◌==◌, ==_iff, ==_self, &&_split}
use wam_coin.Common.BitLength.{byte_count, byte_count_unique, byte_pow}

abbrev pub IsByte : ℕ → Type 0
IsByte b = b < 256

-- The code points of a literal; these are its bytes when the text is ASCII.
abbrev pub codes : String → List ℕ
codes String.[] = []
codes (String.◌∷◌ c s) = code c ∷ codes s

-- Big-endian, behind the number `acc` that has been read already.
unfoldable pub from_be : ℕ → List ℕ → ℕ
from_be acc [] = acc
from_be acc (b ∷ bs) = from_be (acc * 256 + b) bs

-- The last `k` big-endian bytes of a number.
unfoldable pub to_be : ℕ → ℕ → List ℕ
to_be zero n = []
to_be (suc k) n = to_be k (n / 256) ++ (n % 256 ∷ [])

unfoldable pub from_le : List ℕ → ℕ
from_le [] = 0
from_le (b ∷ bs) = b + 256 * from_le bs

unfoldable pub to_le : ℕ → ℕ → List ℕ
to_le zero n = []
to_le (suc k) n = n % 256 ∷ to_le k (n / 256)

unfoldable pub bytes_eq : List ℕ → List ℕ → Bool
bytes_eq [] [] = true
bytes_eq [] (y ∷ ys) = false
bytes_eq (x ∷ xs) [] = false
bytes_eq (x ∷ xs) (y ∷ ys) = x == y && bytes_eq xs ys

pub bytes_eq_self : (xs : List ℕ) → bytes_eq xs xs ≡ true
unfolding bytes_eq
bytes_eq_self [] = refl
bytes_eq_self (x ∷ xs) = rw (==_self x) (bytes_eq_self xs)

pub eq_of_bytes_eq : (xs ys : List ℕ) → bytes_eq xs ys ≡ true → xs ≡ ys
unfolding bytes_eq
eq_of_bytes_eq [] [] h = refl
eq_of_bytes_eq [] (y ∷ ys) h = cc
eq_of_bytes_eq (x ∷ xs) [] h = cc
eq_of_bytes_eq (x ∷ xs) (y ∷ ys) h =
    let (head, tail) = &&_split (x == y) (bytes_eq xs ys) h in
    cc ((==_iff x y).0 head, eq_of_bytes_eq xs ys tail)

pub from_be-append :
    (xs ys : List ℕ) (acc : ℕ) → from_be acc (xs ++ ys) ≡ from_be (from_be acc xs) ys
unfolding from_be
from_be-append [] ys acc = refl
from_be-append (x ∷ xs) ys acc = from_be-append xs ys (acc * 256 + x)

pub length-to_be : (k n : ℕ) → length (to_be k n) ≡ k
unfolding to_be
length-to_be zero n = refl
length-to_be (suc k) n =
    omega (arith, length-append (to_be k (n / 256)) (n % 256 ∷ []), length-to_be k (n / 256))

pub to_be-IsByte : (k n : ℕ) → All IsByte (to_be k n)
unfolding to_be
to_be-IsByte zero n = tt
to_be-IsByte (suc k) n =
    All-append IsByte (to_be k (n / 256)) (n % 256 ∷ []) (to_be-IsByte k (n / 256)) (omega arith)

from_be-nil : (acc : ℕ) → from_be acc [] ≡ acc
unfolding from_be
from_be-nil acc = refl

pub from_be-cons : (acc b : ℕ) (bs : List ℕ) → from_be acc (b ∷ bs) ≡ from_be (acc * 256 + b) bs
unfolding from_be
from_be-cons acc b bs = refl

to_be-suc : (k n : ℕ) → to_be (suc k) n ≡ to_be k (n / 256) ++ (n % 256 ∷ [])
unfolding to_be
to_be-suc k n = refl

-- Reading bytes and writing them again.
pub to_be-from_be :
    (bs : List ℕ) (k acc : ℕ)
    → All IsByte bs
    → to_be (k + length bs) (from_be acc bs) ≡ to_be k acc ++ bs
to_be-from_be [] k acc h =
    let same : k + 0 ≡ k = omega arith in
    ap (to_be (k + 0)) (from_be-nil acc)
    ∙ ap (λ j. to_be j acc) same
    ∙ sym (append-nil (to_be k acc))
to_be-from_be (b ∷ bs) k acc (hb, h) =
    let longer : k + suc (length bs) ≡ suc k + length bs = omega arith in
    let quotient : (acc * 256 + b) / 256 ≡ acc = omega arith in
    let remainder : (acc * 256 + b) % 256 ≡ b = omega arith in
    ap (to_be (k + suc (length bs))) (from_be-cons acc b bs)
    ∙ ap (λ j. to_be j (from_be (acc * 256 + b) bs)) longer
    ∙ to_be-from_be bs (suc k) (acc * 256 + b) h
    ∙ ap (λ t. t ++ bs) (to_be-suc k (acc * 256 + b))
    ∙ ap (λ q. (to_be k q ++ ((acc * 256 + b) % 256 ∷ [])) ++ bs) quotient
    ∙ ap (λ r. (to_be k acc ++ (r ∷ [])) ++ bs) remainder
    ∙ append_assoc (to_be k acc) (b ∷ []) bs

-- Writing a number and reading it again.
pub from_be-to_be :
    (k n acc : ℕ) → n < 2 ^ (8 * k) → from_be acc (to_be k n) ≡ acc * 2 ^ (8 * k) + n
from_be-to_be zero n acc h = (unfold to_be from_be in omega arith)
from_be-to_be (suc k) n acc h =
    let shorter : n / 256 < 2 ^ (8 * k) = omega (arith, byte_pow k) in
    ap (from_be acc) (to_be-suc k n)
    ∙ from_be-append (to_be k (n / 256)) (n % 256 ∷ []) acc
    ∙ from_be-cons _ (n % 256) []
    ∙ from_be-nil _
    ∙ omega (arith, from_be-to_be k (n / 256) acc shorter, ap (λ (t : ℕ). acc * t) (byte_pow k))

-- The range of the number that some bytes stand for.
pub from_be_bounds :
    (bs : List ℕ) (acc : ℕ)
    → All IsByte bs
    → (acc * 2 ^ (8 * length bs) ≤ from_be acc bs)
      × (from_be acc bs < (acc + 1) * 2 ^ (8 * length bs))
from_be_bounds [] acc h = unfold from_be in (omega arith, omega arith)
from_be_bounds (b ∷ bs) acc (hb, h) =
    let p = 2 ^ (8 * length bs) in
    let (low, high) = from_be_bounds bs (acc * 256 + b) h in
    let room : (b + 1) * p ≤ 256 * p = mul-le-mul_right p (omega arith) in
    rw (from_be-cons acc b bs) (
      omega (arith, low, ap (λ (t : ℕ). acc * t) (byte_pow (length bs))),
      omega
          (arith, high, room, byte_pow (length bs), ap (λ (t : ℕ). acc * t) (byte_pow (length bs))),
    )

-- A number whose leading byte is not 0 has the byte count of its length.
pub byte_count-from_be :
    (b : ℕ) (bs : List ℕ)
    → IsByte b
    → 0 < b
    → All IsByte bs
    → byte_count (from_be b bs) ≡ suc (length bs)
byte_count-from_be b bs hb pos h =
    let p = 2 ^ (8 * length bs) in
    let (low, high) = from_be_bounds bs b h in
    let one : 1 * p ≤ b * p = mul-le-mul_right p pos in
    let room : (b + 1) * p ≤ 256 * p = mul-le-mul_right p (omega arith) in
    byte_count_unique (from_be b bs) (length bs) (omega (arith, low, one))
      (omega (arith, high, room, byte_pow (length bs)))

-- Little-endian bytes are written and read alike.
pub from_le-to_le : (k n : ℕ) → n < 2 ^ (8 * k) → from_le (to_le k n) ≡ n
unfolding from_le to_le
from_le-to_le zero n h = omega arith
from_le-to_le (suc k) n h =
    omega (arith, byte_pow k, from_le-to_le k (n / 256) (omega (arith, byte_pow k)))

pub length-to_le : (k n : ℕ) → length (to_le k n) ≡ k
unfolding to_le
length-to_le zero n = refl
length-to_le (suc k) n = ap suc (length-to_le k (n / 256))

pub to_le-IsByte : (k n : ℕ) → All IsByte (to_le k n)
unfolding to_le
to_le-IsByte zero n = tt
to_le-IsByte (suc k) n = (omega arith, to_le-IsByte k (n / 256))
