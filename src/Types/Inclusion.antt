-- ===== src/Types/Inclusion.antt =====
-- The two inclusion tests on masks of p9/p9.go, AttrMask.Contains and SetAttrMask.IsSubsetOf, against
-- inclusion flag by flag.
use p.Base.{
  ℕ, ◌+◌, ◌*◌, ◌/◌, ◌%◌, ◌≡◌, refl, ap, ◌∙◌, List, [], ◌∷◌, Bool, true, false, not, ◌&&◌, ◌||◌,
  bit_or, ◌==◌, if◌then◌else◌, arith, length,
}
use Prim.Native.Nat.{max}
use p.Base.Bits.{from_bits, bool_digit, bit_or_digit}
use p.Types.AttrMask.{AttrMask, contains}
use p.Types.AttrMask.Layout.{attr_mask_list}
use p.Types.SetAttrMask.{SetAttrMask, is_subset_of}
use p.Types.SetAttrMask.Layout.{set_attr_mask_list, set_attr_mask_bits_lem}

-- Each flag of the second list is in the first.
abbrev pub covers : List Bool → List Bool → Bool
covers xs [] = true
covers [] (y ∷ ys) = not y && covers [] ys
covers (x ∷ xs) (y ∷ ys) = (not y || x) && covers xs ys

early_return : (x y rest : Bool) → (if y && not x then false else rest) ≡ (not y || x) && rest
early_return true true rest = refl
early_return true false rest = refl
early_return false true rest = refl
early_return false false rest = refl

step : (x y : Bool) {r s : Bool} → r ≡ s → (if y && not x then false else r) ≡ (not y || x) && s
step x y {r} e = early_return x y r ∙ ap (λ s. (not y || x) && s) e

-- `contains` tests that each attribute of the second mask is in the first.
contains-covers : (a b : AttrMask) → contains a b ≡ covers (attr_mask_list a) (attr_mask_list b)
unfolding contains
contains-covers a b = step a.mode b.mode (
    step a.n_link b.n_link (
      step a.uid b.uid (
        step a.gid b.gid (
          step a.r_dev b.r_dev (
            step a.a_time b.a_time (
              step a.m_time b.m_time (
                step a.c_time b.c_time (
                  step a.i_no b.i_no (
                    step a.size b.size (
                      step a.blocks b.blocks (
                        step a.b_time b.b_time
                          (step a.gen b.gen (step a.data_version b.data_version refl)))))))))))))

double-eq : (a b : ℕ) → (2 * a + 0 == 0 + 2 * b) ≡ (a == b)
double-eq a b = ground arith

double_suc-eq : (a b : ℕ) → (2 * a + 1 == 1 + 2 * b) ≡ (a == b)
double_suc-eq a b = ground arith

odd-even : (a b : ℕ) → (2 * a + 1 == 0 + 2 * b) ≡ false
odd-even a b = ground arith

bit_or_bits :
    (x y : Bool) (a b : ℕ)
    → bit_or (bool_digit x + 2 * a) (bool_digit y + 2 * b) ≡ 2 * bit_or a b + bool_digit (x || y)
bit_or_bits x y a b =
    bit_or_digit (bool_digit x + 2 * a) (bool_digit y + 2 * b)
    ∙ rw (half x a, half y b, digit x a, digit y b) (ap (λ d. 2 * bit_or a b + d) (either x y))
  where
    half : (x : Bool) (a : ℕ) → (bool_digit x + 2 * a) / 2 ≡ a
    half true a = omega arith
    half false a = omega arith

    digit : (x : Bool) (a : ℕ) → (bool_digit x + 2 * a) % 2 ≡ bool_digit x
    digit true a = omega arith
    digit false a = omega arith

    either : (x y : Bool) → max (bool_digit x) (bool_digit y) ≡ bool_digit (x || y)
    either true true = refl
    either true false = refl
    either false true = refl
    either false false = refl

or-covers :
    (xs ys : List Bool)
    → length ys ≡ length xs
    → (bit_or (from_bits xs) (from_bits ys) == from_bits xs) ≡ covers xs ys
unfolding from_bits
or-covers [] [] h = refl
or-covers [] (y ∷ ys) h = absurd (omega (arith, h))
or-covers (x ∷ xs) [] h = absurd (omega (arith, h))
or-covers (true ∷ xs) (y ∷ ys) h = rw bit_or_bits (
    double_suc-eq (bit_or (from_bits xs) (from_bits ys)) (from_bits xs)
    ∙ or-covers xs ys (omega (arith, h))
    ∙ known y)
  where
    known : (y : Bool) → covers xs ys ≡ (not y || true) && covers xs ys
    known true = refl
    known false = refl
or-covers (false ∷ xs) (true ∷ ys) h =
    rw bit_or_bits (odd-even (bit_or (from_bits xs) (from_bits ys)) (from_bits xs))
or-covers (false ∷ xs) (false ∷ ys) h = rw bit_or_bits (
    double-eq (bit_or (from_bits xs) (from_bits ys)) (from_bits xs)
    ∙ or-covers xs ys (omega (arith, h)))

-- `is_subset_of`, which compares the bits of the masks, tests that each flag of the first mask is in the
-- second.
pub is_subset_of-covers :
    (s m : SetAttrMask) → is_subset_of s m ≡ covers (set_attr_mask_list m) (set_attr_mask_list s)
unfolding is_subset_of
is_subset_of-covers s m =
    rw (set_attr_mask_bits_lem s, set_attr_mask_bits_lem m)
      (or-covers (set_attr_mask_list m) (set_attr_mask_list s) refl)
