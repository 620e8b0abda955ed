-- ===== src/Handlers/Owned.antt =====
-- p9/handlers.go and p9/server.go: what a handler owns of the references of a connection, in the
-- states that the calls of p9/server.go lead to.
pub mod Released
pub mod Enough
pub mod Table
pub mod Guards
pub mod Paths
pub mod Simple
pub mod Over
pub mod Clone
pub mod WalkOne
pub mod Walks
pub mod Attach
pub mod Handled
use p.Base.{ℕ, List, [], ◌∷◌, ◌++◌, ◌≡◌, append_assoc}
use p.Base.{Bool, true, false, if◌then◌else◌}
use p.Linux.{GoError}
use p.Server.Owners.{state}
use p.Server.Open.{Reached}
use p.Handlers.{Outcome, done, failed, panicked}
use p.Handlers.State.{M, ConnState, pure, fail, fail_if, gets, called, call, next, ◌>>=◌, ◌>>◌}

module _ {B : Type 0} where
  -- The state is one that the calls lead to, where handlers own the references of the list.
  abbrev pub Owned : ConnState B → List ℕ → Type 0
  Owned s held = Reached (state s.server held s.made)

  -- What is owned at the end: after a result, after an error, and after a panic, which may leave more.
  abbrev pub Ends : {A : Type 0} → (A → List ℕ) → List ℕ → Outcome A × ConnState B → Type 0
  Ends post kept (done a, s) = Owned s (post a)
  Ends post kept (failed e, s) = Owned s kept
  Ends post kept (panicked, s) = (more : List ℕ) × Owned s (more ++ kept)

  pub Ends-next :
      {A C : Type 0} (post : A → List ℕ) (post' : C → List ℕ) (kept : List ℕ) (f : A → M B C)
      (o : Outcome A × ConnState B)
      → Ends post kept o
      → ((a : A) (s : ConnState B) → Owned s (post a) → Ends post' kept (f a s))
      → Ends post' kept (next f o)
  Ends-next post post' kept f (done a, s) h k = k a s h
  Ends-next post post' kept f (failed e, s) h k = h
  Ends-next post post' kept f (panicked, s) h k = h

  -- A handler's part that ends with what it began with.
  pub record Keeps {A : Type 0} (m : M B A) : Type 0 where
    pub keeps : (held : List ℕ) (s : ConnState B) → Owned s held → Ends (λ (a : A). held) held (m s)

  pub Keeps-bind :
      {A C : Type 0} {m : M B A} {f : A → M B C}
      → Keeps m
      → ((a : A) → Keeps (f a))
      → Keeps (m >>= f)
  Keeps-bind {A} {C} {m} {f} km kf = record {
    keeps = λ held s h.
        Ends-next (λ (a : A). held) (λ (c : C). held) held f (m s) (km.keeps held s h)
          (λ a s' h'. (kf a).keeps held s' h');
  }

  pub Keeps-then :
      {C : Type 0} {m : M B (Unit {0})} {k : M B C} → Keeps m → Keeps k → Keeps (m >> k)
  Keeps-then km kk = Keeps-bind km (λ u. kk)

  pub Keeps-pure : {A : Type 0} {a : A} → Keeps (pure a)
  Keeps-pure = record { keeps = λ held s h. h }

  pub Keeps-fail : {A : Type 0} {e : GoError} → Keeps {A = A} (fail e)
  Keeps-fail = record { keeps = λ held s h. h }

  pub Keeps-gets : {A : Type 0} {f : ConnState B → A} → Keeps (gets f)
  Keeps-gets = record { keeps = λ held s h. h }

  fail_if-Ends :
      (c : Bool) (e : GoError) (X : List ℕ) (s : ConnState B)
      → Owned s X
      → Ends (λ (u : Unit {0}). X) X (fail_if c e s)
  fail_if-Ends true e X s h = h
  fail_if-Ends false e X s h = h

  pub Keeps-fail_if : (c : Bool) (e : GoError) → Keeps (fail_if c e)
  Keeps-fail_if c e = record { keeps = λ held s h. fail_if-Ends c e held s h }

  -- A test of the state.
  pub Keeps-guard :
      (c : ConnState B → Bool) (e : GoError) → Keeps (λ (s : ConnState B). fail_if (c s) e s)
  Keeps-guard c e = record { keeps = λ held s h. fail_if-Ends (c s) e held s h }

  called-Ends :
      {A : Type 0} (o : Outcome A × B) (X : List ℕ) (s : ConnState B)
      → Owned s X
      → Ends (λ (a : A). X) X (called o s)
  called-Ends (done a, b) X s h = h
  called-Ends (failed e, b) X s h = h
  called-Ends (panicked, b) X s h = ([], h)

  pub Keeps-call : {A : Type 0} (f : B → Outcome A × B) → Keeps (call f)
  Keeps-call {A} f = record { keeps = λ held s h. called-Ends (f s.files) held s h }
