-- ===== src/Version/RoundTrip.antt =====
-- p9/version.go: `parse_version` against `version_string`, and the bounds of a version.
use p.Base.{
  ℕ, zero, suc, ◌<◌, ◌^◌, ◌≡◌, ◌≢◌, ◌⊎◌, inl, inr, refl, ap, ◌∙◌, List, [], ◌∷◌, Bool, true, false,
  Option, none, some, if◌then◌else◌, arith, All, ◌++◌,
}
use p.Base.Bytes.{same_bytes}
use p.Version.Decimal.{
  dot, split, split-part, split-last, parse_uint, decimal, decimal-no_dot, parse_uint-decimal,
  parse_uint-lt, decimal-some,
}
use p.Version.{
  BaseVersion, undetermined, version_9p2000, version_9p2000_u, version_9p2000_l, base_string,
  text_9p2000, text_l, text_google, parsed_version, parse_extension, parse_version, version_string,
}

-- The parts of an extended version string.
split-version :
    (digits : List ℕ)
    → All (λ x. x ≢ dot) digits
    → split dot (text_9p2000 ++ (dot ∷ text_l ++ (dot ∷ text_google ++ (dot ∷ digits))))
      ≡ text_9p2000 ∷ text_l ∷ text_google ∷ digits ∷ []
split-version digits h =
    split-part dot text_9p2000 (text_l ++ (dot ∷ text_google ++ (dot ∷ digits)))
      (omega arith, (omega arith, (omega arith, (omega arith, (omega arith, (omega arith, tt))))))
    ∙ ap (λ parts. text_9p2000 ∷ parts)
        (split-part dot text_l (text_google ++ (dot ∷ digits)) (omega arith, tt)
          ∙ ap (λ parts. text_l ∷ parts)
              (split-part dot text_google digits (
                omega arith,
                (omega arith, (omega arith, (omega arith, (omega arith, (omega arith, tt))))),
              )
                ∙ ap (λ parts. text_google ∷ parts) (split-last dot digits h)))

same_bytes-nil : (xs : List ℕ) → xs ≢ [] → same_bytes xs [] ≡ false
same_bytes-nil [] h = absurd (h refl)
same_bytes-nil (x ∷ xs) h = refl

extension :
    (v : ℕ)
    → v < 2 ^ 32
    → parse_extension (text_9p2000 ∷ text_l ∷ text_google ∷ decimal v ∷ [])
      ≡ (version_9p2000_l, v, true)
unfolding parse_extension parsed_version
extension v h = rw (same_bytes-nil (decimal v) (decimal-some v), parse_uint-decimal v h) refl

-- What `version_string` writes, `parse_version` reads: the base version and the version, for each
-- version of 9P2000.L that is a uint32, and for the base strings of the other two.
pub parse_version-version_string :
    (base : BaseVersion) (v : ℕ)
    → base ≢ undetermined
    → (base ≡ version_9p2000_l) ⊎ (v ≡ 0)
    → v < 2 ^ 32
    → parse_version (version_string base v) ≡ (base, v, true)
unfolding parse_version version_string base_string
parse_version-version_string undetermined zero known l h = absurd (known refl)
parse_version-version_string version_9p2000 zero known l h = refl
parse_version-version_string version_9p2000_u zero known l h = refl
parse_version-version_string version_9p2000_l zero known l h = refl
parse_version-version_string base (suc v) known (inl l) h = rw l (
    ap parse_extension (split-version (decimal (suc v)) (decimal-no_dot (suc v)))
    ∙ extension (suc v) h)
parse_version-version_string base (suc v) known (inr z) h = absurd (omega arith)

-- A version that fits a uint32, and is 0 with no base where the string is refused.
Sound : BaseVersion × ℕ × Bool → Type 0
Sound (base, version, ok) =
    (version < 2 ^ 32)
    × (ok ≡ true → base ≢ undetermined)
    × (ok ≡ false → (base ≡ undetermined) × (version ≡ 0))

if-Sound :
    (b : Bool) (x y : BaseVersion × ℕ × Bool) → Sound x → Sound y → Sound (if b then x else y)
if-Sound true x y hx hy = hx
if-Sound false x y hx hy = hy

unsupported-Sound : Sound (undetermined, 0, false)
unfolding Sound
unsupported-Sound = (omega arith, λ ok. cc, λ bad. (refl, refl))

parsed_version-Sound :
    (digits : List ℕ) (o : Option ℕ) → parse_uint 32 digits ≡ o → Sound (parsed_version o)
unfolding Sound parsed_version
parsed_version-Sound digits none e = unsupported-Sound
parsed_version-Sound digits (some v) e = (parse_uint-lt v digits e, λ ok. cc, λ bad. absurd cc)

parse_extension-Sound : (parts : List (List ℕ)) → Sound (parse_extension parts)
unfolding parse_extension
parse_extension-Sound [] = unsupported-Sound
parse_extension-Sound (a ∷ []) = unsupported-Sound
parse_extension-Sound (a ∷ b ∷ []) = unsupported-Sound
parse_extension-Sound (a ∷ b ∷ c ∷ []) = unsupported-Sound
parse_extension-Sound (a ∷ b ∷ c ∷ d ∷ []) =
    if-Sound _ _ _ unsupported-Sound (parsed_version-Sound d (parse_uint 32 d) refl)
parse_extension-Sound (a ∷ b ∷ c ∷ d ∷ e ∷ parts) = unsupported-Sound

known-Sound : (base : BaseVersion) → base ≢ undetermined → Sound (base, 0, true)
unfolding Sound
known-Sound base h = (omega arith, λ ok. h, λ bad. absurd cc)

-- For every string, the version that `parse_version` returns fits a uint32, so that the conversion
-- loses nothing; a string that it accepts has a base version, and one that it refuses gives 0 and none.
parse_version-bounds :
    (str : List ℕ)
    → ((parse_version str).1 < 2 ^ 32)
      × ((parse_version str).2 ≡ true → (parse_version str).0 ≢ undetermined)
      × ((parse_version str).2 ≡ false
          → ((parse_version str).0 ≡ undetermined) × ((parse_version str).1 ≡ 0))
unfolding parse_version Sound
parse_version-bounds str = if-Sound _ _ _ (known-Sound version_9p2000_l (λ e. cc)) (
    if-Sound _ _ _ (known-Sound version_9p2000_u (λ e. cc)) (
      if-Sound _ _ _ (known-Sound version_9p2000 (λ e. cc))
        (parse_extension-Sound (split dot str))))
