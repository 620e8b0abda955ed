-- ===== src/Client/Chunk/Bounds.antt =====
-- p9/client_file.go: the count that `chunk` returns, where its calls keep within their bytes.
use p.Base.{some_eq}
use p.Base.{
  ℕ, zero, suc, ◌+◌, ◌%◌, ◌^◌, ◌≤◌, ◌<◌, ◌≡◌, refl, sym, ap, ◌∙◌, List, [], ◌∷◌, Bool, Option, none,
  some, ◌==◌, ltb, if◌then◌else◌, length, Bool-cases, inl, inr, arith, le→ltb,
}
use mathlib.Core.Path.{subst}
use p.Client.Chunk.{
  Outcome, finished, panicked, chunk_at, after_call, chunk_loop, single_call, chunk,
}
use p.Client.Chunk.Ends.{length-chunk_at, chunk_loop-some}

abbrev choose : {A : Type 0} → Bool → A → A → A
choose b x y = if b then x else y

-- Not more than the bytes that were given, and no panic.
abbrev pub Within : {S E : Type 0} → ℕ → Outcome S E → Type 0
Within n (finished done err s) = done ≤ n
Within n (panicked s) = ⊥

module _ {S E : Type 0} (size : ℕ) (fn : List ℕ → ℕ → S → (ℕ × Option E) × S)
    (honest : (part : List ℕ) (offset : ℕ) (s : S) → (fn part offset s).0.0 ≤ length part) where
  unfinished : List ℕ → (ℕ → ℕ → S → Option (Outcome S E)) → ℕ → ℕ → ℕ → S → Option (Outcome S E)
  unfinished p again total offset n s =
      choose (ltb (length p) (total + n)) (some (panicked s))
        (again (total + n) ((offset + n) % 2 ^ 64) s)

  next_round : ℕ → List ℕ → ℕ → ℕ → S → Option (Outcome S E)
  next_round fuel p total offset s =
      after_call size p (λ t o' s'. chunk_loop fuel size fn p t o' s') total offset
        (fn (chunk_at size p total) offset s)

  after_call-Within :
      (p : List ℕ) (again : ℕ → ℕ → S → Option (Outcome S E)) (total offset : ℕ)
      (r : (ℕ × Option E) × S) (o : Outcome S E)
      → total + r.0.0 ≤ length p
      → ((offset' : ℕ) (s : S) → again (total + r.0.0) offset' s ≡ some o → Within (length p) o)
      → after_call size p again total offset r ≡ some o
      → Within (length p) o
  unfolding after_call unfinished
  after_call-Within p again total offset ((n, some e), s) o fits h q =
      subst (λ x. Within (length p) x) (some_eq q) fits
  after_call-Within p again total offset ((n, none), s) o fits h q =
      elim (Bool-cases (ltb n size)) [
        | inl short ↦
            subst (λ x. Within (length p) x)
              (some_eq (
                ap
                  (λ b.
                    choose b (some (finished (total + n) none s))
                      (unfinished p again total offset n s))
                  (sym short)
                ∙ q))
              fits
        | inr full ↦ h ((offset + n) % 2 ^ 64) s (
            ap (λ b. choose b (some (panicked s)) (again (total + n) ((offset + n) % 2 ^ 64) s))
              (sym (le→ltb (length p) (total + n) fits))
            ∙ ap
                (λ b.
                  choose b (some (finished (total + n) none s))
                    (unfinished p again total offset n s))
                (sym full)
            ∙ q)
      ]

  chunk_loop-Within :
      (fuel : ℕ) (p : List ℕ) (total offset : ℕ) (s : S) (o : Outcome S E)
      → total ≤ length p
      → chunk_loop fuel size fn p total offset s ≡ some o
      → Within (length p) o
  unfolding chunk_loop next_round
  chunk_loop-Within zero p total offset s o within q = absurd cc
  chunk_loop-Within (suc fuel) p total offset s o within q = elim (Bool-cases (total == length p)) [
    | inl done ↦
        subst (λ x. Within (length p) x)
          (some_eq (
            ap (λ b. choose b (some (finished total none s)) (next_round fuel p total offset s))
              (sym done)
            ∙ q))
          within
    | inr left ↦
        let part = chunk_at size p total in
        let fits : total + (fn part offset s).0.0 ≤ length p =
          omega (arith, honest part offset s, length-chunk_at size p total within, within) in
        after_call-Within p (λ t o' s'. chunk_loop fuel size fn p t o' s') total offset
          (fn part offset s) o fits
          (λ o' s' q'. chunk_loop-Within fuel p (total + (fn part offset s).0.0) o' s' o fits q')
          (ap (λ b. choose b (some (finished total none s)) (next_round fuel p total offset s))
              (sym left)
            ∙ q)
  ]

  -- For a chunk size above 0 and calls that do no more bytes than they are given, `chunk` ends without a
  -- panic, and counts no more bytes than it was given.
  pub chunk-Within :
      (p : List ℕ) (offset : ℕ) (s : S)
      → 0 < size
      → (o : Outcome S E) × (chunk size fn p offset s ≡ some o) × Within (length p) o
  unfolding chunk single_call
  chunk-Within [] offset s pos = (single_call (fn [] offset s), refl, honest [] offset s)
  chunk-Within (x ∷ p) offset s pos =
      let (o, q) =
        chunk_loop-some size fn (suc (length (x ∷ p))) (x ∷ p) 0 offset s pos (omega arith)
          (omega arith) in
      (o, q, chunk_loop-Within (suc (length (x ∷ p))) (x ∷ p) 0 offset s o (omega arith) q)
