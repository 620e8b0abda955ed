-- ===== src/Version.antt =====
-- p9/version.go: the version strings of Tversion. A string is the list of its bytes.
pub mod Decimal
pub mod RoundTrip
use p.Base.{
  ℕ, zero, suc, ◌+◌, ◌-◌, ◌*◌, ◌^◌, List, [], ◌∷◌, ◌++◌, Bool, true, false, ◌||◌, ◌&&◌, not, Option,
  none, some, leb, if◌then◌else◌,
}
use p.Base.Bytes.{same_bytes}
use p.Version.Decimal.{dot, split, parse_uint, decimal}

abbrev pub highest_supported_version : ℕ
highest_supported_version = 7

abbrev pub lowest_supported_version : ℕ
lowest_supported_version = 0

-- The strings that baseVersion has a name for.
pub data BaseVersion : Type 0 where
  undetermined version_9p2000 version_9p2000_u version_9p2000_l : BaseVersion

abbrev pub text_9p2000 : List ℕ
text_9p2000 = 57 ∷ 80 ∷ 50 ∷ 48 ∷ 48 ∷ 48 ∷ []

abbrev pub text_u : List ℕ
text_u = 117 ∷ []

abbrev pub text_l : List ℕ
text_l = 76 ∷ []

abbrev pub text_google : List ℕ
text_google = 71 ∷ 111 ∷ 111 ∷ 103 ∷ 108 ∷ 101 ∷ []

unfoldable pub base_string : BaseVersion → List ℕ
base_string undetermined = []
base_string version_9p2000 = text_9p2000
base_string version_9p2000_u = text_9p2000 ++ (dot ∷ text_u)
base_string version_9p2000_l = text_9p2000 ++ (dot ∷ text_l)

abbrev unsupported : BaseVersion × ℕ × Bool
unsupported = (undetermined, 0, false)

unfoldable pub parsed_version : Option ℕ → BaseVersion × ℕ × Bool
parsed_version none = unsupported
parsed_version (some version) = (version_9p2000_l, version, true)

unfoldable pub parse_extension : List (List ℕ) → BaseVersion × ℕ × Bool
unfolding parsed_version
parse_extension (a ∷ b ∷ c ∷ d ∷ []) =
    if not (same_bytes a text_9p2000)
      || not (same_bytes b text_l)
      || not (same_bytes c text_google)
      || same_bytes d []
    then unsupported
    else parsed_version (parse_uint 32 d)
parse_extension _ = unsupported

unfoldable pub parse_version : List ℕ → BaseVersion × ℕ × Bool
unfolding base_string parse_extension
parse_version str =
    if same_bytes str (base_string version_9p2000_l)
    then (version_9p2000_l, 0, true)
    else if same_bytes str (base_string version_9p2000_u)
    then (version_9p2000_u, 0, true)
    else if same_bytes str (base_string version_9p2000)
    then (version_9p2000, 0, true)
    else parse_extension (split dot str)

unfoldable pub version_string : BaseVersion → ℕ → List ℕ
unfolding base_string
version_string base zero = base_string base
version_string base (suc version) =
    text_9p2000 ++ (dot ∷ text_l ++ (dot ∷ text_google ++ (dot ∷ decimal (suc version))))

unfoldable pub highest_version_string : List ℕ
unfolding version_string
highest_version_string = version_string version_9p2000_l highest_supported_version

unfoldable pub version_supports_twalkgetattr : ℕ → Bool
version_supports_twalkgetattr v = leb 2 v

unfoldable pub version_supports_tucreation : ℕ → Bool
version_supports_tucreation v = leb 3 v

unfoldable pub version_supports_multi_user : ℕ → Bool
version_supports_multi_user v = leb 6 v
