-- ===== src/Base/Bits.antt =====
-- Bit masks as arithmetic: a mask of ones is a remainder, a single bit is a digit.
use Prim.Native.Nat.{
  ℕ, zero, suc, ◌+◌, ◌-◌, ◌*◌, ◌/◌, ◌%◌, ◌^◌, ◌≤◌, ◌<◌, min, max, digits, bit_and, bit_or,
  bit_and-bitwise, bit_or-bitwise,
}
use p.Base.Tests.{Bool-cases, ◌==◌, if◌then◌else◌}
use p.Base.Lists.{length, get_or, length-append}
use mathlib.Core.Logic.{inl, inr}
use mathlib.Core.Bool.{Bool, true, false, not}
use mathlib.Core.List.{List, [], ◌∷◌, ◌++◌, append-nil, append_assoc}
use mathlib.Core.Path.{◌≡◌, refl, sym, ap, ◌∙◌}
use native.Mathlib.Nat.{pow-succ', one-le-pow, div-div-eq-div-mul, div-add-mod}
use native.Mathlib.Omega.{arith}

-- The recursion behind the native operations gives one value for any fuel that is large enough.
module _ (rest : ℕ → ℕ) (op : ℕ → ℕ → ℕ) where
  digits-eq : (x y k l : ℕ) → x ≤ k → x ≤ l → digits rest op k x y ≡ digits rest op l x y
  digits-eq x y zero zero hk hl = refl
  digits-eq zero y zero (suc l) hk hl = refl
  digits-eq (suc x) y zero l hk hl = absurd (omega arith)
  digits-eq zero y (suc k) zero hk hl = refl
  digits-eq (suc x) y (suc k) zero hk hl = absurd (omega arith)
  digits-eq zero y (suc k) (suc l) hk hl = refl
  digits-eq (suc x) y (suc k) (suc l) hk hl =
      omega (arith, digits-eq (suc x / 2) (y / 2) k l (omega arith) (omega arith))

pub bit_and_digit : (x y : ℕ) → bit_and x y ≡ 2 * bit_and (x / 2) (y / 2) + min (x % 2) (y % 2)
bit_and_digit zero y = omega (arith, bit_and-bitwise 0 y, bit_and-bitwise 0 (y / 2))
bit_and_digit (suc x) y = omega (
  arith,
  bit_and-bitwise (suc x) y,
  bit_and-bitwise (suc x / 2) (y / 2),
  digits-eq (λ _. 0) min (suc x / 2) (y / 2) x (suc x / 2) (omega arith) (omega arith),
)

pub bit_or_digit : (x y : ℕ) → bit_or x y ≡ 2 * bit_or (x / 2) (y / 2) + max (x % 2) (y % 2)
bit_or_digit zero y = omega (arith, bit_or-bitwise 0 y, bit_or-bitwise 0 (y / 2))
bit_or_digit (suc x) y = omega (
  arith,
  bit_or-bitwise (suc x) y,
  bit_or-bitwise (suc x / 2) (y / 2),
  digits-eq (λ b. b) max (suc x / 2) (y / 2) x (suc x / 2) (omega arith) (omega arith),
)

-- x & 0, and x | 0, by halving.
bit_and-zero_below : (k x : ℕ) → x ≤ k → bit_and x 0 ≡ 0
bit_and-zero_below k zero h = refl
bit_and-zero_below zero (suc x) h = absurd (omega arith)
bit_and-zero_below (suc k) (suc x) h =
    omega (arith, bit_and_digit (suc x) 0, bit_and-zero_below k (suc x / 2) (omega arith))

pub bit_and-zero : (x : ℕ) → bit_and x 0 ≡ 0
bit_and-zero x = bit_and-zero_below x x (omega arith)

-- The digits above the lowest, as a quotient and a remainder by twice as much.
div_double : (x p : ℕ) → x / (2 * p) ≡ x / 2 / p
div_double x p = sym (div-div-eq-div-mul x 2 p)

mod_double : (x p : ℕ) → x % (2 * p) ≡ 2 * (x / 2 % p) + x % 2
mod_double x p = omega (
  arith,
  div_double x p,
  div-add-mod x (2 * p),
  div-add-mod (x / 2) p,
  ap (λ (t : ℕ). 2 * p * t) (div_double x p),
)

-- 2 ^ k - 1 keeps the k low bits.
pub bit_and_ones : (k x : ℕ) → bit_and x (2 ^ k - 1) ≡ x % 2 ^ k
bit_and_ones zero x = ground (arith, bit_and-zero x)
bit_and_ones (suc k) x = omega (
  arith,
  pow-succ' 2 k,
  one-le-pow k 2,
  bit_and_digit x (2 ^ suc k - 1),
  ap (λ (t : ℕ). bit_and (x / 2) t) half,
  bit_and_ones k (x / 2),
  mod_double x (2 ^ k),
  ap (λ (t : ℕ). x % t) (pow-succ' 2 k),
)
  where
    half : (2 ^ suc k - 1) / 2 ≡ 2 ^ k - 1
    half = omega (arith, pow-succ' 2 k, one-le-pow k 2)

pow_half : (k : ℕ) → 2 ^ suc k / 2 ≡ 2 ^ k
pow_half k = omega (arith, pow-succ' 2 k)

digit_half : (k x : ℕ) → x / 2 ^ suc k % 2 ≡ x / 2 / 2 ^ k % 2
digit_half k x =
    ap (λ (t : ℕ). x / t % 2) (pow-succ' 2 k) ∙ ap (λ (t : ℕ). t % 2) (div_double x (2 ^ k))

-- 2 ^ k selects bit k.
pub bit_and_pow : (k x : ℕ) → bit_and x (2 ^ k) ≡ 2 ^ k * (x / 2 ^ k % 2)
bit_and_pow zero x = omega (arith, bit_and_digit x 1, bit_and-zero (x / 2))
bit_and_pow (suc k) x = omega (
  arith,
  pow-succ' 2 k,
  bit_and_digit x (2 ^ suc k),
  ap (λ (t : ℕ). bit_and (x / 2) t) (pow_half k),
  bit_and_pow k (x / 2),
  ap (λ (t : ℕ). 2 ^ suc k * t) (digit_half k x),
  ap (λ (t : ℕ). t * (x / 2 / 2 ^ k % 2)) (pow-succ' 2 k),
)

-- A bit above all others is added.
pub bit_or_pow : (k x : ℕ) → x < 2 ^ k → bit_or x (2 ^ k) ≡ x + 2 ^ k
bit_or_pow zero zero h = refl
bit_or_pow zero (suc x) h = absurd (omega arith)
bit_or_pow (suc k) x h = omega (
  arith,
  pow-succ' 2 k,
  bit_or_digit x (2 ^ suc k),
  ap (λ (t : ℕ). bit_or (x / 2) t) (pow_half k),
  bit_or_pow k (x / 2) (omega (arith, pow-succ' 2 k)),
)

-- The bit that a mask with one bit tests.
abbrev pub has : ℕ → ℕ → Bool
has mask bit = not (bit_and mask bit == 0)

-- if b { mask |= bit }
abbrev pub flag : Bool → ℕ → ℕ → ℕ
flag b bit mask = if b then bit_or mask bit else mask

abbrev pub bool_digit : Bool → ℕ
bool_digit true = 1
bool_digit false = 0

-- The number with the given binary digits, the lowest first.
unfoldable pub from_bits : List Bool → ℕ
from_bits [] = 0
from_bits (b ∷ bs) = bool_digit b + 2 * from_bits bs

pub from_bits-lt-pow : (bs : List Bool) → from_bits bs < 2 ^ length bs
unfolding from_bits
from_bits-lt-pow [] = omega arith
from_bits-lt-pow (true ∷ bs) = omega (arith, pow-succ' 2 (length bs), from_bits-lt-pow bs)
from_bits-lt-pow (false ∷ bs) = omega (arith, pow-succ' 2 (length bs), from_bits-lt-pow bs)

pow_pos : (k : ℕ) → 0 < 2 ^ k
pow_pos k = one-le-pow k 2 (omega arith)

from_bits_half : (b : Bool) (bs : List Bool) → from_bits (b ∷ bs) / 2 ≡ from_bits bs
unfolding from_bits
from_bits_half true bs = omega arith
from_bits_half false bs = omega arith

digit-from_bits :
    (k : ℕ) (bs : List Bool) → from_bits bs / 2 ^ k % 2 ≡ bool_digit (get_or bs k false)
unfolding from_bits
digit-from_bits zero [] = refl
digit-from_bits (suc k) [] = rw digit_half (digit-from_bits k [])
digit-from_bits zero (true ∷ bs) = omega arith
digit-from_bits zero (false ∷ bs) = omega arith
digit-from_bits (suc k) (b ∷ bs) = rw (digit_half, from_bits_half b bs) (digit-from_bits k bs)

pub has-from_bits : (k : ℕ) (bs : List Bool) → has (from_bits bs) (2 ^ k) ≡ get_or bs k false
has-from_bits k bs = elim (Bool-cases (get_or bs k false)) [
  | inl e ↦ rw e (ground (arith, one-le-pow k 2, bit_and_pow k (from_bits bs), digit e))
  | inr e ↦ rw e (ground (arith, bit_and_pow k (from_bits bs), digit e))
]
  where
    digit :
        {c : Bool}
        → get_or bs k false ≡ c
        → 2 ^ k * (from_bits bs / 2 ^ k % 2) ≡ 2 ^ k * bool_digit c
    digit e = ap (λ (t : ℕ). 2 ^ k * t) (digit-from_bits k bs ∙ ap bool_digit e)

from_bits-append :
    (b : Bool) (bs : List Bool)
    → from_bits (bs ++ b ∷ []) ≡ from_bits bs + bool_digit b * 2 ^ length bs
unfolding from_bits
from_bits-append true [] = refl
from_bits-append false [] = refl
from_bits-append b (c ∷ bs) =
    omega (arith, from_bits-append b bs, ap (λ (t : ℕ). bool_digit b * t) (pow-succ' 2 (length bs)))

-- Setting the next bit appends a digit.
pub flag-from_bits :
    (b : Bool) (bs : List Bool) → flag b (2 ^ length bs) (from_bits bs) ≡ from_bits (bs ++ b ∷ [])
flag-from_bits true bs =
    omega
      (arith, from_bits-append true bs, bit_or_pow (length bs) (from_bits bs) (from_bits-lt-pow bs))
flag-from_bits false bs = omega (arith, from_bits-append false bs)

-- One flag after the other, from bit k on.
unfoldable pub flags : List Bool → ℕ → ℕ → ℕ
flags [] k mask = mask
flags (b ∷ bs) k mask = flags bs (suc k) (flag b (2 ^ k) mask)

flags-append :
    (done bs : List Bool) → flags bs (length done) (from_bits done) ≡ from_bits (done ++ bs)
unfolding flags
flags-append done [] = ap from_bits (sym (append-nil done))
flags-append done (b ∷ bs) =
    ap (λ (t : ℕ). flags bs (suc (length done)) t) (flag-from_bits b done)
    ∙ ap (λ (k : ℕ). flags bs k (from_bits (done ++ b ∷ [])))
        (omega (arith, length-append done (b ∷ [])))
    ∙ flags-append (done ++ b ∷ []) bs
    ∙ ap from_bits (append_assoc done (b ∷ []) bs)

pub flags_lem : (bs : List Bool) → flags bs 0 0 ≡ from_bits bs
unfolding from_bits
flags_lem bs = flags-append [] bs
