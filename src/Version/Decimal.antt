-- ===== src/Version/Decimal.antt =====
-- What p9/version.go uses of Go's standard library: strings.Split by one byte, strconv.ParseUint in
-- base 10, and %d.
use p.Base.{none_is_no_some}
use p.Base.{
  ℕ, zero, suc, ◌+◌, ◌-◌, ◌*◌, ◌/◌, ◌%◌, ◌^◌, ◌<◌, ◌≡◌, refl, sym, ap, ◌∙◌, List, [], ◌∷◌, ◌++◌,
  Bool, ◌&&◌, Option, none, some, ◌==◌, leb, ltb, if◌then◌else◌, arith, append_assoc, append-nil,
  le→leb, lt→ltb, All, ◌≢◌, ==_refl, ≢→==, Bool-cases, inl, inr,
}

abbrev pub dot : ℕ
dot = 46

-- One byte in front of the first part.
abbrev put_first : ℕ → List (List ℕ) → List (List ℕ)
put_first x [] = (x ∷ []) ∷ []
put_first x (part ∷ parts) = (x ∷ part) ∷ parts

unfoldable pub split : ℕ → List ℕ → List (List ℕ)
split sep [] = [] ∷ []
split sep (x ∷ xs) = let parts = split sep xs in if x == sep then [] ∷ parts else put_first x parts

-- The value of decimal digits, if there are any and no other byte, and it is below 2 ^ bits.
unfoldable pub parse_digits : ℕ → ℕ → List ℕ → Option ℕ
parse_digits bits acc [] = some acc
parse_digits bits acc (x ∷ xs) =
    let acc' = acc * 10 + (x - 48) in
    let value = parse_digits bits acc' xs in
    if leb 48 x && leb x 57 && ltb acc' (2 ^ bits) then value else none

unfoldable pub parse_uint : ℕ → List ℕ → Option ℕ
unfolding parse_digits
parse_uint bits [] = none
parse_uint bits (x ∷ xs) = parse_digits bits 0 (x ∷ xs)

-- The digits of a number below 10 ^ fuel, the first one not 0 unless it is the only one.
unfoldable digits : ℕ → ℕ → List ℕ
digits zero n = []
digits (suc fuel) n =
    let front = digits fuel (n / 10) in
    if ltb n 10 then (48 + n) ∷ [] else front ++ ((48 + n % 10) ∷ [])

-- A uint32 has ten digits at most.
unfoldable pub decimal : ℕ → List ℕ
unfolding digits
decimal n = digits 10 n

pub split-last : (sep : ℕ) (part : List ℕ) → All (λ x. x ≢ sep) part → split sep part ≡ part ∷ []
unfolding split
split-last sep [] h = refl
split-last sep (x ∷ part) (other, h) = rw (split-last sep part h, ≢→== x sep other) refl

pub split-part :
    (sep : ℕ) (part rest : List ℕ)
    → All (λ x. x ≢ sep) part
    → split sep (part ++ (sep ∷ rest)) ≡ part ∷ split sep rest
unfolding split
split-part sep [] rest h = rw (==_refl sep) refl
split-part sep (x ∷ part) rest (other, h) = rw (split-part sep part rest h, ≢→== x sep other) refl

All-append {ℓ κ} :
    {A : Type ℓ} (P : A → Type κ) (xs : List A) (y : A) → All P xs → P y → All P (xs ++ (y ∷ []))
All-append P [] y h last = (last, tt)
All-append P (x ∷ xs) y (first, h) last = (first, All-append P xs y h last)

digits-no_dot : (fuel n : ℕ) → All (λ x. x ≢ dot) (digits fuel n)
unfolding digits
digits-no_dot zero n = tt
digits-no_dot (suc fuel) n = elim (Bool-cases (ltb n 10)) [
  | inl small ↦ rw small (omega arith, tt)
  | inr large ↦ rw large (
      All-append (λ x. x ≢ dot) (digits fuel (n / 10)) (48 + n % 10) (digits-no_dot fuel (n / 10))
        (omega arith))
]

pub decimal-no_dot : (n : ℕ) → All (λ x. x ≢ dot) (decimal n)
unfolding decimal
decimal-no_dot n = digits-no_dot 10 n

parse_digits-digit :
    (bits acc d : ℕ) (rest : List ℕ)
    → d < 10
    → acc * 10 + d < 2 ^ bits
    → parse_digits bits acc ((48 + d) ∷ rest) ≡ parse_digits bits (acc * 10 + d) rest
unfolding parse_digits
parse_digits-digit bits acc d rest h small =
    rw
      (
        ap (λ e. acc * 10 + e) value,
        le→leb 48 (48 + d) (omega arith),
        le→leb (48 + d) 57 (omega (arith, h)),
        lt→ltb (acc * 10 + d) (2 ^ bits) small,
      )
      refl
  where
    value : 48 + d - 48 ≡ d
    value = omega arith

-- The digits of a number bring the parser to the number.
parse_digits-digits :
    (bits fuel n : ℕ) (rest : List ℕ)
    → n < 10 ^ fuel
    → n < 2 ^ bits
    → parse_digits bits 0 (digits fuel n ++ rest) ≡ parse_digits bits n rest
unfolding digits parse_digits
parse_digits-digits bits zero n rest h small = ap (λ m. parse_digits bits m rest) (omega (arith, h))
parse_digits-digits bits (suc fuel) n rest h small = elim (Bool-cases (ltb n 10)) [
  | inl one ↦
      let d : n < 10 = ground (arith, one) in
      rw one (
        parse_digits-digit bits 0 n rest d (omega (arith, small))
        ∙ ap (λ m. parse_digits bits m rest) (omega arith))
  | inr more ↦
      rw
        (
          more,
          append_assoc (digits fuel (n / 10)) ((48 + n % 10) ∷ []) rest,
          parse_digits-digits bits fuel (n / 10) ((48 + n % 10) ∷ rest) (omega (arith, h))
              (omega (arith, small)),
        )
        (parse_digits-digit bits (n / 10) (n % 10) rest (omega arith) (omega (arith, small))
          ∙ ap (λ m. parse_digits bits m rest) (omega arith))
]

parse_uint-some : (bits : ℕ) (xs : List ℕ) → xs ≢ [] → parse_uint bits xs ≡ parse_digits bits 0 xs
unfolding parse_uint
parse_uint-some bits [] h = absurd (h refl)
parse_uint-some bits (x ∷ xs) h = refl

append-some {ℓ} : {A : Type ℓ} (xs : List A) (y : A) → xs ++ (y ∷ []) ≢ []
append-some [] y h = cc
append-some (x ∷ xs) y h = cc

digits-some : (fuel n : ℕ) → digits (suc fuel) n ≢ []
unfolding digits
digits-some fuel n = elim (Bool-cases (ltb n 10)) [
  | inl one ↦ rw one (append-some [] (48 + n))
  | inr more ↦ rw more (append-some (digits fuel (n / 10)) (48 + n % 10))
]

pub decimal-some : (n : ℕ) → decimal n ≢ []
unfolding decimal
decimal-some n = digits-some 9 n

-- What %d prints of a uint32, strconv.ParseUint reads back.
pub parse_uint-decimal : (n : ℕ) → n < 2 ^ 32 → parse_uint 32 (decimal n) ≡ some n
unfolding decimal parse_uint parse_digits
parse_uint-decimal n small =
    parse_uint-some 32 (digits 10 n) (digits-some 9 n)
    ∙ ap (parse_digits 32 0) (sym (append-nil (digits 10 n)))
    ∙ parse_digits-digits 32 10 n [] (omega (arith, small)) small

-- A parsed number is within its bits.
parse_digits-lt :
    (bits acc n : ℕ) (xs : List ℕ)
    → acc < 2 ^ bits
    → parse_digits bits acc xs ≡ some n
    → n < 2 ^ bits
unfolding parse_digits
parse_digits-lt bits acc n [] small e = let same : acc ≡ n = cc in omega (arith, small)
parse_digits-lt bits acc n (x ∷ xs) small e =
    let next = acc * 10 + (x - 48) in
    let chosen = λ (b : Bool). if b then parse_digits bits next xs else none in
    elim (Bool-cases (leb 48 x && leb x 57 && ltb next (2 ^ bits))) [
      | inl ok ↦ parse_digits-lt bits next n xs (ground (arith, ok)) (ap chosen (sym ok) ∙ e)
      | inr bad ↦ absurd (none_is_no_some n (ap chosen (sym bad) ∙ e))
    ]

pub parse_uint-lt : (n : ℕ) (xs : List ℕ) → parse_uint 32 xs ≡ some n → n < 2 ^ 32
unfolding parse_uint
parse_uint-lt n [] e = absurd cc
parse_uint-lt n (x ∷ xs) e = parse_digits-lt 32 0 n (x ∷ xs) (omega arith) e
