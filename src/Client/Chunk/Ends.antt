-- ===== src/Client/Chunk/Ends.antt =====
-- p9/client_file.go: the end of the loop of `chunk`.
use p.Base.{
  ℕ, zero, suc, ◌+◌, ◌-◌, ◌%◌, ◌^◌, ◌≤◌, ◌<◌, ◌≡◌, refl, List, [], ◌∷◌, Option, none, some, ◌==◌,
  ltb, length, take, drop, Bool-cases, inl, inr, arith, lt→ltb, le→ltb, length-drop, length-take,
}
use native.Mathlib.Decide.{dec_le}
use p.Client.Chunk.{
  Outcome, finished, panicked, chunk_at, after_call, chunk_loop, single_call, chunk,
}

pub chunk_at-last :
    (size : ℕ) (p : List ℕ) (total : ℕ)
    → length p < total + size
    → chunk_at size p total ≡ drop total p
unfolding chunk_at
chunk_at-last size p total h = rw (lt→ltb (length p) (total + size) h) refl

pub chunk_at-full :
    (size : ℕ) (p : List ℕ) (total : ℕ)
    → total + size ≤ length p
    → chunk_at size p total ≡ take size (drop total p)
unfolding chunk_at
chunk_at-full size p total h = rw (le→ltb (length p) (total + size) h) refl

pub length-chunk_at :
    (size : ℕ) (p : List ℕ) (total : ℕ)
    → total ≤ length p
    → length (chunk_at size p total) ≤ length p - total
length-chunk_at size p total within = elim (dec_le (total + size) (length p)) [
  | yes full ↦ rw (chunk_at-full size p total full) (
      omega (
        arith,
        length-drop total p,
        length-take size (drop total p) (omega (arith, length-drop total p)),
      ))
  | no last ↦ rw (chunk_at-last size p total (omega arith)) (omega (arith, length-drop total p))
]

module _ {S E : Type 0} (size : ℕ) (fn : List ℕ → ℕ → S → (ℕ × Option E) × S) where
  -- What follows a call gives a result, if the loop does.
  after_call-some :
      (p : List ℕ) (again : ℕ → ℕ → S → Option (Outcome S E)) (total offset : ℕ)
      (r : (ℕ × Option E) × S)
      → ((n offset' : ℕ) (s : S)
          → size ≤ n
          → total + n ≤ length p
          → (o : Outcome S E) × (again (total + n) offset' s ≡ some o))
      → (o : Outcome S E) × (after_call size p again total offset r ≡ some o)
  unfolding after_call
  after_call-some p again total offset ((n, some e), s) h = (finished (total + n) (some e) s, refl)
  after_call-some p again total offset ((n, none), s) h = elim (Bool-cases (ltb n size)) [
    | inl short ↦ rw short (finished (total + n) none s, refl)
    | inr full ↦ rw full (elim (Bool-cases (ltb (length p) (total + n))) [
      | inl more ↦ rw more (panicked s, refl)
      | inr fits ↦
          rw fits (h n ((offset + n) % 2 ^ 64) s (ground (arith, full)) (ground (arith, fits)))
    ])
  ]

  -- The loop ends within as many rounds as bytes are left, and one more.
  pub chunk_loop-some :
      (fuel : ℕ) (p : List ℕ) (total offset : ℕ) (s : S)
      → 0 < size
      → total ≤ length p
      → length p < total + fuel
      → (o : Outcome S E) × (chunk_loop fuel size fn p total offset s ≡ some o)
  unfolding chunk_loop
  chunk_loop-some zero p total offset s pos within enough = absurd (omega arith)
  chunk_loop-some (suc fuel) p total offset s pos within enough =
      elim (Bool-cases (total == length p)) [
        | inl done ↦ rw done (finished total none s, refl)
        | inr left ↦ rw left (
            after_call-some p (λ t o s'. chunk_loop fuel size fn p t o s') total offset
              (fn (chunk_at size p total) offset s)
              (λ n offset' s' big fits.
                chunk_loop-some fuel p (total + n) offset' s' pos fits (omega (arith, enough))))
      ]

  -- For a chunk size above 0, `chunk` comes to an end, whatever the calls return: the fuel that it is given
  -- is enough.
  pub chunk-some :
      (p : List ℕ) (offset : ℕ) (s : S)
      → 0 < size
      → (o : Outcome S E) × (chunk size fn p offset s ≡ some o)
  unfolding chunk
  chunk-some [] offset s pos = (single_call (fn [] offset s), refl)
  chunk-some (x ∷ p) offset s pos =
      chunk_loop-some (suc (length (x ∷ p))) (x ∷ p) 0 offset s pos (omega arith) (omega arith)
