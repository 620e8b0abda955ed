-- ===== src/Registry/Largest.antt =====
-- p9/messages.go: largestFixedSize against the sizes of the registered messages.
use p.Base.{some_eq}
use p.Base.{
  ℕ, ◌≤◌, ◌≡◌, sym, ap, ◌∙◌, List, [], ◌∷◌, Option, none, some, Option-cases, Bool-cases, inl, inr,
  leb, ◌==◌, if◌then◌else◌, arith,
}
use p.Messages.Message.{Message}
use p.Registry.{Registry, calculate_size, register_in, register, register_all, find_factory}

register_in-largest :
    (create : Option Message) (t : ℕ) (m : Message) (r r' : Registry)
    → register_in create t m r ≡ some r'
    → (r.largest_fixed_size ≤ r'.largest_fixed_size) × (calculate_size m ≤ r'.largest_fixed_size)
unfolding register_in
register_in-largest (some taken) t m r r' e = absurd cc
register_in-largest none t m r r' e =
    let now = ap (λ (x : Registry). x.largest_fixed_size) (some_eq e) in
    (ground (arith, now), ground (arith, now))

register-largest :
    (t : ℕ) (m : Message) (r r' : Registry)
    → register t m r ≡ some r'
    → (r.largest_fixed_size ≤ r'.largest_fixed_size) × (calculate_size m ≤ r'.largest_fixed_size)
unfolding register
register-largest t m r r' e = elim (Bool-cases (leb 256 t)) [
  | inl big ↦ cc (rw big at e)
  | inr fits ↦ register_in-largest (r.factories t).create t m r r' (rw fits at e)
]

pub register_all-largest :
    (l : List (ℕ × Message)) (r r' : Registry)
    → register_all l r ≡ some r'
    → (r.largest_fixed_size ≤ r'.largest_fixed_size)
      × ((t : ℕ) (m : Message)
          → find_factory t l ≡ some m
          → calculate_size m ≤ r'.largest_fixed_size)
unfolding register_all find_factory
register_all-largest [] r r' e =
    (omega (arith, ap (λ (x : Registry). x.largest_fixed_size) (some_eq e)), λ t m found. absurd cc)
register_all-largest ((u, n) ∷ rest) r r' e = elim (Option-cases (register u n r)) [
  | inl panics ↦ cc (rw (panics, register_all) at e)
  | inr (r'', once) ↦
      let (grows, sizes) = register_all-largest rest r'' r' (rw (once, register_all) at e) in
      let (grew, size) = register-largest u n r r'' once in
      (
        omega (arith, grew, grows),
        λ t m found. elim (Bool-cases (t == u)) [
          | inl same ↦
              let is_n : n ≡ m =
                some_eq (ap (λ b. if b then some n else find_factory t rest) (sym same) ∙ found) in
              omega (arith, ap calculate_size is_n, size, grows)
          | inr other ↦
              sizes t m (ap (λ b. if b then some n else find_factory t rest) (sym other) ∙ found)
        ],
      )
]
