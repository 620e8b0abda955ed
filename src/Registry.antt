-- ===== src/Registry.antt =====
-- p9/messages.go: the registry of message types. A factory is its zero message and its cache of used
-- messages, a buffered channel in the source; `create` is none where no type is registered.
pub mod Registrations
pub mod Table
pub mod Reuse
pub mod Init
pub mod Largest
use p.Base.{
  ℕ, Bool, false, List, [], ◌∷◌, ◌++◌, Option, none, some, ltb, leb, ◌==◌, if◌then◌else◌, length,
}
use p.Buffer.RoundTrip.{buffer}
use p.Messages.Message.{Message, typ, Payloader, payloader, set_payload}
use p.Messages.Message.Codec.{encode}
use p.Registry.Registrations.{registrations}

abbrev pub max_cache_size : ℕ
max_cache_size = 3

pub record Factory : Type 0 where
  pub create : Option Message
  pub cache : List Message

pub record Registry : Type 0 where
  pub factories : ℕ → Factory
  pub largest_fixed_size : ℕ

abbrev pub update : (ℕ → Factory) → ℕ → Factory → ℕ → Factory
update f t entry q = if q == t then entry else f q

-- The message that is handed out, and the cache that is left: the oldest used message, else a new one.
unfoldable pub hand_out : Option Message → List Message → Option (Message × List Message)
hand_out none cache = none
hand_out (some fresh) [] = some (fresh, [])
hand_out (some fresh) (used ∷ cache) = some (used, cache)

unfoldable pub got : ℕ → Registry → Option (Message × List Message) → Option Message × Registry
got t r none = (none, r)
got t r (some (m, cache)) = (
  some m,
  record r { factories = update r.factories t (record (r.factories t) { cache = cache }) },
)

-- `none` is ErrInvalidMsgType.
unfoldable pub get : ℕ → Registry → Option Message × Registry
unfolding hand_out got
get t r = got t r (hand_out (r.factories t).create (r.factories t).cache)

-- Whether the channel takes one more: it is made by `register`, and sending does not wait.
unfoldable pub room : Option Message → List Message → Bool
room none cache = false
room (some fresh) cache = ltb (length cache) max_cache_size

unfoldable pub put : Message → Registry → Registry
unfolding room
put m r =
    let entry = r.factories (typ m) in
    if room entry.create entry.cache
    then record r {
      factories =
          update r.factories (typ m)
            (record entry { cache = entry.cache ++ set_payload [] m ∷ [] });
    }
    else r

unfoldable pub calculate_size_with : Option Payloader → Message → ℕ
calculate_size_with (some p) m = p.fixed_size
calculate_size_with none m = length (encode m (buffer [] false)).1.bytes

unfoldable pub calculate_size : Message → ℕ
unfolding calculate_size_with
calculate_size m = calculate_size_with (payloader m) m

-- `none` is a panic: the type is out of range, or registered already.
unfoldable pub register_in : Option Message → ℕ → Message → Registry → Option Registry
register_in (some taken) t m r = none
register_in none t m r =
    let size = calculate_size m in
    some (record {
      factories = update r.factories t (record { create = some m; cache = [] });
      largest_fixed_size = if ltb r.largest_fixed_size size then size else r.largest_fixed_size;
    })

unfoldable pub register : ℕ → Message → Registry → Option Registry
unfolding register_in
register t m r = if leb 256 t then none else register_in (r.factories t).create t m r

unfoldable pub register_all : List (ℕ × Message) → Registry → Option Registry
register_all [] r = some r
register_all ((t, m) ∷ rest) r = elim (register t m r) [
  | none ↦ none
  | some r' ↦ register_all rest r'
]

abbrev pub no_types : Registry
no_types = record { factories = λ t. record { create = none; cache = [] }; largest_fixed_size = 0 }

-- msgDotLRegistry, as `init` leaves it.
unfoldable pub init : Option Registry
unfolding register_all
init = register_all registrations no_types

-- The factory that a list of registrations gives to a type.
unfoldable pub find_factory : ℕ → List (ℕ × Message) → Option Message
find_factory t [] = none
find_factory t ((u, m) ∷ rest) = if t == u then some m else find_factory t rest
