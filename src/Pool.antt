-- ===== src/Pool.antt =====
-- p9/pool.go: the allocator of tags and fids. The lock makes each operation one step; the end of the
-- slice that caches returned values is the head of the list.
pub mod Held
use p.Base.{ℕ, ◌+◌, ◌%◌, ◌^◌, List, [], ◌∷◌, Option, none, some, ◌==◌, if◌then◌else◌}

pub record Pool : Type 0 where
  pub cache : List ℕ
  pub start : ℕ
  pub limit : ℕ

-- A new value; `start` is a uint64.
unfoldable pub get_new : Pool → Option ℕ × Pool
get_new p =
    if p.start == p.limit
    then (none, p)
    else (some p.start, record { cache = p.cache; start = (p.start + 1) % 2 ^ 64; limit = p.limit })

unfoldable pub get_cached : List ℕ → Pool → Option ℕ × Pool
unfolding get_new
get_cached [] p = get_new p
get_cached (v ∷ cache) p = (some v, record { cache = cache; start = p.start; limit = p.limit })

unfoldable pub get : Pool → Option ℕ × Pool
unfolding get_cached
get p = get_cached p.cache p

unfoldable pub put : ℕ → Pool → Pool
put v p = record { cache = v ∷ p.cache; start = p.start; limit = p.limit }
