-- ===== src/Pool/Held.antt =====
-- p9/pool.go: what a pool and the holders of its values have between them, in every order of calls.
use p.Base.{
  ℕ, ◌+◌, ◌≤◌, ◌<◌, ◌^◌, ◌%◌, ◌≡◌, refl, sym, ap, ◌∙◌, List, [], ◌∷◌, ◌++◌, Bool, Option, none,
  some, ◌==◌, ltb, leb, ◌&&◌, if◌then◌else◌, arith, ==_refl, ◌≢◌, Bool-cases, inl, inr,
}
use p.Pool.{Pool, get_new, get_cached, get, put}

-- How often a value occurs.
abbrev pub count : ℕ → List ℕ → ℕ
count v [] = 0
count v (x ∷ xs) = (if v == x then 1 else 0) + count v xs

count-append : (v : ℕ) (xs ys : List ℕ) → count v (xs ++ ys) ≡ count v xs + count v ys
count-append v [] ys = omega arith
count-append v (x ∷ xs) ys = omega (arith, count-append v xs ys)

-- A pool with the values that were handed out and are not back.
pub record Shared : Type 0 where
  pub held : List ℕ
  pub pool : Pool

-- A caller gets a value, or gives back one that it holds.
pub data Step : Shared → Shared → Type 0 where
  gets :
      (held : List ℕ) (p p' : Pool) (v : ℕ)
      → get p ≡ (some v, p')
      → Step (record { held = held; pool = p }) (record { held = v ∷ held; pool = p' })
  gives :
      (before after : List ℕ) (p : Pool) (v : ℕ)
      → Step
          (record { held = before ++ (v ∷ after); pool = p })
          (record { held = before ++ after; pool = put v p })

-- What is reached from a new pool of the values from `first` to `limit`.
pub data Reached (first limit : ℕ) : Shared → Type 0 where
  start :
      Reached first limit
        (record { held = []; pool = record { cache = []; start = first; limit = limit } })
  step : (s s' : Shared) → Reached first limit s → Step s s' → Reached first limit s'

-- Each value that was ever handed out is either held or cached, once.
pub record Accounts (first limit : ℕ) (s : Shared) : Type 0 where
  pub once :
      (v : ℕ)
      → count v s.held + count v s.pool.cache ≡ (if leb first v && ltb v s.pool.start then 1 else 0)
  pub lower : first ≤ s.pool.start
  pub upper : s.pool.start ≤ limit
  pub same : s.pool.limit ≡ limit

-- What a successful `get` did: it took the last cached value, or a new one.
data Got (p p' : Pool) (v : ℕ) : Type 0 where
  cached : p.cache ≡ v ∷ p'.cache → p'.start ≡ p.start → p'.limit ≡ p.limit → Got p p' v
  fresh :
      p.cache ≡ []
      → p'.cache ≡ []
      → v ≡ p.start
      → p.start ≢ p.limit
      → p'.start ≡ (p.start + 1) % 2 ^ 64
      → p'.limit ≡ p.limit
      → Got p p' v

-- The two results of `get_new`.
new_value : Pool → Bool → Option ℕ × Pool
new_value p full =
    if full
    then (none, p)
    else (some p.start, record { cache = p.cache; start = (p.start + 1) % 2 ^ 64; limit = p.limit })

get-Got :
    (cache : List ℕ) (p p' : Pool) (v : ℕ)
    → p.cache ≡ cache
    → get_cached cache p ≡ (some v, p')
    → Got p p' v
unfolding get_cached get_new new_value
get-Got (w ∷ cache) p p' v c e =
    let value = ap (λ r. r.0) e in
    let pool = ap (λ r. r.1) e in
    cached (c ∙ cc) (sym (ap (λ q. q.start) pool)) (sym (ap (λ q. q.limit) pool))
get-Got [] p p' v c e = elim (Bool-cases (p.start == p.limit)) [
  | inl same ↦ let value = ap (λ r. r.0) (ap (new_value p) (sym same) ∙ e) in absurd cc
  | inr other ↦
      let value = ap (λ r. r.0) (ap (new_value p) (sym other) ∙ e) in
      let pool = ap (λ r. r.1) (ap (new_value p) (sym other) ∙ e) in
      let room : p.start ≢ p.limit = ground (arith, other) in
      let taken : v ≡ p.start = cc in
      fresh c (sym (ap (λ q. q.cache) pool) ∙ c) taken room (sym (ap (λ q. q.start) pool))
        (sym (ap (λ q. q.limit) pool))
]

get-none :
    (cache : List ℕ) (p : Pool)
    → p.cache ≡ cache
    → (get_cached cache p).0 ≡ none
    → (p.cache ≡ []) × (p.start ≡ p.limit)
unfolding get_cached get_new new_value
get-none (w ∷ cache) p c e = absurd cc
get-none [] p c e = (
  c,
  elim (Bool-cases (p.start == p.limit)) [
    | inl same ↦ ground (arith, same)
    | inr other ↦ absurd (some_is_no_none (ap (λ b. (new_value p b).0) (sym other) ∙ e))
  ],
)
  where
    some_is_no_none : {v : ℕ} → some v ≢ none
    some_is_no_none h = cc

gets-Accounts :
    (first limit : ℕ) (held : List ℕ) (p p' : Pool) (v : ℕ)
    → limit < 2 ^ 64
    → Accounts first limit (record { held = held; pool = p })
    → Got p p' v
    → Accounts first limit (record { held = v ∷ held; pool = p' })
gets-Accounts first limit held p p' v small h (cached c s l) = record {
  once =
      λ w. let old = h.once w in let popped = ap (count w) c in rw s (omega (arith, old, popped));
  lower = omega (arith, s, h.lower);
  upper = omega (arith, s, h.upper);
  same = l ∙ h.same;
}
gets-Accounts first limit held p p' v small h (fresh c c' e room s l) = record {
  once = λ w.
      let old = h.once w in
      let none_left = ap (count w) c in
      let none_yet = ap (count w) c' in
      let next : p'.start ≡ p.start + 1 = omega (arith, s, h.upper, h.same, room, small) in
      ground (arith, old, none_left, none_yet, next, e, h.lower);
  lower = omega (arith, s, h.lower, h.upper, small);
  upper = omega (arith, s, h.lower, h.upper, h.same, room, small);
  same = l ∙ h.same;
}

gives-Accounts :
    (first limit : ℕ) (before after : List ℕ) (p : Pool) (v : ℕ)
    → Accounts first limit (record { held = before ++ (v ∷ after); pool = p })
    → Accounts first limit (record { held = before ++ after; pool = put v p })
unfolding put
gives-Accounts first limit before after p v h = record {
  once = λ w.
      let old = h.once w in
      let with_v = count-append w before (v ∷ after) in
      let without = count-append w before after in omega arith;
  lower = h.lower;
  upper = h.upper;
  same = h.same;
}

Reached-Accounts :
    {first limit : ℕ} {s : Shared}
    → first ≤ limit
    → limit < 2 ^ 64
    → Reached first limit s
    → Accounts first limit s
unfolding get
Reached-Accounts {first} {limit} low small start = record {
  once = λ w. ground arith;
  lower = omega arith;
  upper = low;
  same = refl;
}
Reached-Accounts {first} {limit} low small (step _ _ r (gets held p p' v e)) =
    gets-Accounts first limit held p p' v small (Reached-Accounts low small r)
      (get-Got p.cache p p' v refl e)
Reached-Accounts {first} {limit} low small (step _ _ r (gives before after p v)) =
    gives-Accounts first limit before after p v (Reached-Accounts low small r)

-- For a pool of the values from `first` up to `limit`, which is below 2 ^ 64, in every order of
-- calls in which callers give back only what they hold: a value that is handed out is one of the
-- pool's, and nobody holds it.
pub get-held :
    (first limit v : ℕ) (s : Shared) (p' : Pool)
    → first ≤ limit
    → limit < 2 ^ 64
    → Reached first limit s
    → get s.pool ≡ (some v, p')
    → (first ≤ v) × (v < limit) × (count v s.held ≡ 0)
unfolding get
get-held first limit v s p' low small r e =
    let h = Reached-Accounts low small r in
    let h' =
      gets-Accounts first limit s.held s.pool p' v small h
        (get-Got s.pool.cache s.pool p' v refl e) in
    let now = h'.once v in let same = ==_refl v in ground (arith, now, same, h'.upper)

-- For a pool of the values from `first` up to `limit`, which is below 2 ^ 64, in every order of
-- calls in which callers give back only what they hold: where nothing is handed out, each value
-- of the pool is held, once.
pub get-exhausted :
    (first limit v : ℕ) (s : Shared)
    → first ≤ limit
    → limit < 2 ^ 64
    → Reached first limit s
    → (get s.pool).0 ≡ none
    → first ≤ v
    → v < limit
    → count v s.held ≡ 1
unfolding get
get-exhausted first limit v s low small r e above below =
    let h = Reached-Accounts low small r in
    let (empty, full) = get-none s.pool.cache s.pool refl e in
    let now = h.once v in
    let no_more = ap (count v) empty in ground (arith, now, no_more, full, h.same, above, below)
