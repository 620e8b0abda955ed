-- ===== src/Client/Chunk.antt =====
-- p9/client_file.go: chunk, which ReadAt and WriteAt are made of. `fn` stands for readAt or writeAt: from the
-- bytes, the offset and a state, it gives the bytes done, an error if any, and a new state. An int is
-- taken to be as large as it needs to be; an offset is known by its 64 bits.
pub mod Ends
pub mod Bounds
pub mod Whole
use p.Base.{
  ℕ, zero, suc, ◌+◌, ◌%◌, ◌^◌, List, [], ◌∷◌, Bool, Option, none, some, ◌==◌, ltb, if◌then◌else◌,
  length, take, drop,
}

-- What `chunk` comes to: a count and an error, if any, or a panic.
pub data Outcome (S E : Type 0) : Type 0 where
  finished : ℕ → Option E → S → Outcome S E
  panicked : S → Outcome S E

-- The chunk at `total`.
unfoldable pub chunk_at : ℕ → List ℕ → ℕ → List ℕ
chunk_at size p total =
    if ltb (length p) (total + size) then drop total p else take size (drop total p)

module _ {S E : Type 0} where
  -- What follows a call of `fn`; `again` is the loop.
  unfoldable pub after_call :
      ℕ
      → List ℕ
      → (ℕ → ℕ → S → Option (Outcome S E))
      → ℕ
      → ℕ
      → (ℕ × Option E) × S
      → Option (Outcome S E)
  after_call size p again total offset ((n, some e), s) = some (finished (total + n) (some e) s)
  after_call size p again total offset ((n, none), s) =
      if ltb n size
      then some (finished (total + n) none s)
      else if ltb (length p) (total + n)
      then some (panicked s)
      else again (total + n) ((offset + n) % 2 ^ 64) s

  -- The loop, `none` where the fuel runs out.
  unfoldable pub chunk_loop :
      ℕ → ℕ → (List ℕ → ℕ → S → (ℕ × Option E) × S) → List ℕ → ℕ → ℕ → S → Option (Outcome S E)
  unfolding chunk_at after_call
  chunk_loop zero size fn p total offset s = none
  chunk_loop (suc fuel) size fn p total offset s =
      let rest =
        after_call size p (chunk_loop fuel size fn p) total offset
          (fn (chunk_at size p total) offset s) in
      if total == length p then some (finished total none s) else rest

  -- What is returned for no bytes at all.
  unfoldable pub single_call : (ℕ × Option E) × S → Outcome S E
  single_call ((n, err), s) = finished n err s

  unfoldable pub chunk :
      ℕ → (List ℕ → ℕ → S → (ℕ × Option E) × S) → List ℕ → ℕ → S → Option (Outcome S E)
  unfolding chunk_loop single_call
  chunk size fn [] offset s = some (single_call (fn [] offset s))
  chunk size fn (x ∷ p) offset s = chunk_loop (suc (length (x ∷ p))) size fn (x ∷ p) 0 offset s
