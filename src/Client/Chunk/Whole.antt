-- ===== src/Client/Chunk/Whole.antt =====
-- p9/client_file.go: `chunk` against a single call.
use p.Base.{
  ℕ, zero, suc, ◌+◌, ◌-◌, ◌%◌, ◌^◌, ◌≤◌, ◌<◌, ◌≡◌, refl, sym, ap, ◌∙◌, List, [], ◌∷◌, ◌++◌, Option,
  none, some, ◌==◌, length, take, drop, Bool-cases, inl, inr, arith, ==_iff, lt→ltb, le→ltb,
  length-drop, length-take, drop_all, drop-drop, take-drop_append,
}
use native.Mathlib.Decide.{dec_le}
use p.Client.Chunk.{finished, chunk_at, after_call, chunk_loop, single_call, chunk}
use p.Client.Chunk.Ends.{chunk_at-last, chunk_at-full}

-- A whole call: it takes all bytes, without an error, and changes the state by `write`.
abbrev pub whole :
    {S : Type 0} (E : Type 0) → (List ℕ → ℕ → S → S) → List ℕ → ℕ → S → (ℕ × Option E) × S
whole E write p offset s = ((length p, none), write p offset s)

-- Writing in two parts is writing the two together.
pub record IsWrite {S : Type 0} (write : List ℕ → ℕ → S → S) : Type 0 where
  pub nothing : (offset : ℕ) (s : S) → write [] offset s ≡ s
  pub parts :
      (a b : List ℕ) (offset : ℕ) (s : S)
      → write b ((offset + length a) % 2 ^ 64) (write a offset s) ≡ write (a ++ b) offset s

module _ {S E : Type 0} (size : ℕ) (write : List ℕ → ℕ → S → S) (law : IsWrite write) where
  chunk_loop-whole :
      (fuel : ℕ) (p : List ℕ) (total offset : ℕ) (s : S)
      → 0 < size
      → total ≤ length p
      → length p < total + fuel
      → chunk_loop fuel size (whole E write) p total offset s
        ≡ some (finished (length p) none (write (drop total p) offset s))
  unfolding chunk_loop after_call chunk_at
  chunk_loop-whole zero p total offset s pos within enough = absurd (omega arith)
  chunk_loop-whole (suc fuel) p total offset s pos within enough =
      elim (Bool-cases (total == length p)) [
        | inl done ↦
            let is_end = (==_iff total (length p)).0 done in
            rw (done, drop_all total p (omega arith), law.nothing)
              (ap (λ n. some (finished n none s)) is_end)
        | inr left ↦ rw left (elim (dec_le (total + size) (length p)) [
          | no last ↦
              let n : length (drop total p) ≡ length p - total = length-drop total p in
              rw
                (
                  chunk_at-last size p total (omega arith),
                  lt→ltb (length (drop total p)) size (omega (arith, n)),
                )
                (ap (λ k. some (finished k none (write (drop total p) offset s)))
                  (omega (arith, n)))
          | yes full ↦
              let part = take size (drop total p) in
              let n : length part ≡ size =
                length-take size (drop total p) (omega (arith, length-drop total p)) in
              rw
                (
                  chunk_at-full size p total full,
                  le→ltb (length part) size (omega (arith, n)),
                  le→ltb (length p) (total + length part) (omega (arith, n)),
                )
                (chunk_loop-whole fuel p (total + length part) ((offset + length part) % 2 ^ 64)
                    (write part offset s) pos (omega (arith, n)) (omega (arith, n, enough))
                  ∙ ap (λ t. some (finished (length p) none t)) (joined p total offset s n))
        ])
      ]
    where
      joined :
          (p : List ℕ) (total offset : ℕ) (s : S)
          → length (take size (drop total p)) ≡ size
          → write
              (drop (total + length (take size (drop total p))) p)
              ((offset + length (take size (drop total p))) % 2 ^ 64)
              (write (take size (drop total p)) offset s)
            ≡ write (drop total p) offset s
      joined p total offset s n =
          law.parts (take size (drop total p)) (drop (total + length (take size (drop total p))) p)
            offset s
          ∙ ap (λ xs. write (take size (drop total p) ++ xs) offset s)
              (ap (λ k. drop (total + k) p) n ∙ sym (drop-drop total size p))
          ∙ ap (λ xs. write xs offset s) (take-drop_append size (drop total p))

  -- Where each call takes all of its bytes, `chunk` does what one call for all bytes would do: the same count,
  -- no error, and the same state, for any chunk size above 0.
  pub chunk-whole :
      (p : List ℕ) (offset : ℕ) (s : S)
      → 0 < size
      → chunk size (whole E write) p offset s ≡ some (single_call (whole E write p offset s))
  unfolding chunk single_call
  chunk-whole [] offset s pos = refl
  chunk-whole (x ∷ p) offset s pos =
      chunk_loop-whole (suc (length (x ∷ p))) (x ∷ p) 0 offset s pos (omega arith) (omega arith)
