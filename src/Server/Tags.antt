-- ===== src/Server/Tags.antt =====
-- p9/server.go: the tags of the requests that are handled, StartTag, ClearTag and WaitTag, and the
-- orders in which the goroutines of a connection call them. A channel is known by its number, and is
-- closed or not.
pub mod Cleared
use p.Base.{ℕ, suc, ◌≡◌, List, [], ◌∷◌, ◌++◌, Bool, true, false, Option, none, some, ◌==◌}
use p.Base.Assoc.{lookup, without, put}

pub record Tags : Type 0 where
  pub active : List (ℕ × ℕ)
  pub channels : ℕ
  pub closed : List ℕ

abbrev pub no_tags : Tags
no_tags = record { active = []; channels = 0; closed = [] }

unfoldable pub started : Option ℕ → ℕ → Tags → Bool × Tags
started (some ch) t s = (false, s)
started none t s =
    (true, record s { active = put ◌==◌ t s.channels s.active; channels = suc s.channels })

-- False if the tag is active.
unfoldable pub start_tag : ℕ → Tags → Bool × Tags
unfolding started
start_tag t s = started (lookup ◌==◌ t s.active) t s

unfoldable pub cleared : Option ℕ → ℕ → Tags → Option Tags
cleared none t s = none
cleared (some ch) t s = some (record s { active = without ◌==◌ t s.active; closed = ch ∷ s.closed })

-- `none` is the panic on a tag that is not active.
unfoldable pub clear_tag : ℕ → Tags → Option Tags
unfolding cleared
clear_tag t s = cleared (lookup ◌==◌ t s.active) t s

-- The channel whose closing WaitTag waits for; it does not wait for a tag that is not active.
unfoldable pub wait_tag : ℕ → Tags → Option ℕ
wait_tag t s = lookup ◌==◌ t s.active

-- The tags, and those of the requests whose handlers have begun and not ended.
pub record Handling : Type 0 where
  pub tags : Tags
  pub busy : List ℕ

abbrev pub handling : Tags → List ℕ → Handling
handling tags busy = record { tags = tags; busy = busy }

-- What the goroutines do: one that received a message starts its tag, or is refused and drops the
-- message; one whose handler has ended clears its tag.
pub data TagStep : Handling → Handling → Type 0 where
  starts :
      (s s' : Tags) (busy : List ℕ) (t : ℕ)
      → start_tag t s ≡ (true, s')
      → TagStep (handling s busy) (handling s' (t ∷ busy))
  drops :
      (s s' : Tags) (busy : List ℕ) (t : ℕ)
      → start_tag t s ≡ (false, s')
      → TagStep (handling s busy) (handling s' busy)
  clears :
      (s s' : Tags) (before after : List ℕ) (t : ℕ)
      → clear_tag t s ≡ some s'
      → TagStep (handling s (before ++ t ∷ after)) (handling s' (before ++ after))

pub data TagsReached : Handling → Type 0 where
  begin : TagsReached (handling no_tags [])
  go_on : (s s' : Handling) → TagsReached s → TagStep s s' → TagsReached s'
