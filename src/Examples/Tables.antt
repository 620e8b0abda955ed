-- ===== src/Examples/Tables.antt =====
-- The registry, the pool, the masks and the version strings at work.
use p.Base.{ℕ, ◌≡◌, refl, List, [], ◌∷◌, true, false, ◌≤◌, ◌<◌, inl, arith}
use p.Types.SetAttrMask.{SetAttrMask, is_subset_of}
use p.Types.SetAttrMask.Layout.{set_attr_mask_list}
use p.Types.Inclusion.{covers, is_subset_of-covers}
use p.Messages.Message.{typ, set_payload}
use p.Messages.Message.Codec.{decode}
use p.Messages.Message.Blank.{blank}
use p.Registry.{get, put}
use p.Registry.Reuse.{IsRegistry, get-IsRegistry, put-IsRegistry, decode_reuse}
use p.Transport.RoundTrip.{get-some}
use p.Pool.{Pool, get as pool_get, get_cached, get_new, put as pool_put}
use p.Pool.Held.{Shared, Reached, start, step, gets, gives, count, get-held, get-exhausted}
use p.Version.{version_9p2000_l, parse_version, version_string}
use p.Version.RoundTrip.{parse_version-version_string}
use p.Examples.{hello, registry, registry-IsReady}

get-IsRegistry_example :
    (typ (get-some registry hello registry-IsReady).0 ≡ typ hello)
    × IsRegistry (get (typ hello) registry).1
get-IsRegistry_example =
    get-IsRegistry (typ hello) registry (get-some registry hello registry-IsReady).0
      registry-IsReady.in_order (get-some registry hello registry-IsReady).1

put-IsRegistry_example : IsRegistry (put hello registry)
put-IsRegistry_example = put-IsRegistry hello registry registry-IsReady.in_order

decode_reuse_example : decode (set_payload [] hello) ≡ decode (set_payload [] (blank hello))
unfolding typ blank
decode_reuse_example = decode_reuse hello (blank hello) [] refl

abbrev only_size : SetAttrMask
only_size = record {
  permissions = false;
  uid = false;
  gid = false;
  size = true;
  a_time = false;
  m_time = false;
  c_time = false;
  a_time_not_system_time = false;
  m_time_not_system_time = false;
}

abbrev size_and_uid : SetAttrMask
size_and_uid = record only_size { uid = true }

is_subset_of-covers_example :
    is_subset_of only_size size_and_uid
    ≡ covers (set_attr_mask_list size_and_uid) (set_attr_mask_list only_size)
is_subset_of-covers_example = is_subset_of-covers only_size size_and_uid

-- A pool of the values 1 and 2: both are handed out, and 1 comes back.
abbrev pool_of : List ℕ → ℕ → Pool
pool_of cache next = record { cache = cache; start = next; limit = 3 }

abbrev shared : List ℕ → List ℕ → ℕ → Shared
shared held cache next = record { held = held; pool = pool_of cache next }

both_held : Reached 1 3 (shared (2 ∷ 1 ∷ []) [] 3)
unfolding pool_get get_cached get_new
both_held =
    step (shared (1 ∷ []) [] 2) (shared (2 ∷ 1 ∷ []) [] 3)
      (step (shared [] [] 1) (shared (1 ∷ []) [] 2) start
        (gets [] (pool_of [] 1) (pool_of [] 2) 1 refl))
      (gets (1 ∷ []) (pool_of [] 2) (pool_of [] 3) 2 refl)

one_back : Reached 1 3 (shared (2 ∷ []) (1 ∷ []) 3)
unfolding pool_put
one_back =
    step (shared (2 ∷ 1 ∷ []) [] 3) (shared (2 ∷ []) (1 ∷ []) 3) both_held
      (gives (2 ∷ []) [] (pool_of [] 3) 1)

get-held_example : (1 ≤ 1) × (1 < 3) × (count 1 (2 ∷ []) ≡ 0)
unfolding pool_get get_cached
get-held_example =
    get-held 1 3 1 (shared (2 ∷ []) (1 ∷ []) 3) (pool_of [] 3) (omega arith) (omega arith) one_back
      refl

get-exhausted_example : count 1 (2 ∷ 1 ∷ []) ≡ 1
unfolding pool_get get_cached get_new
get-exhausted_example =
    get-exhausted 1 3 1 (shared (2 ∷ 1 ∷ []) [] 3) (omega arith) (omega arith) both_held refl
      (omega arith) (omega arith)

parse_version-version_string_example :
    parse_version (version_string version_9p2000_l 7) ≡ (version_9p2000_l, 7, true)
parse_version-version_string_example =
    parse_version-version_string version_9p2000_l 7 (λ e. cc) (inl refl) (omega arith)
