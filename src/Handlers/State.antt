-- ===== src/Handlers/State.antt =====
-- p9/server.go: fidRef, pendingXattr and connState, and the calls of a handler over them. A handler
-- is one step here: the locks of safelyRead, safelyWrite and safelyGlobal are not modelled.
use p.Base.{ℕ, List, [], Bool, ◌==◌, if◌then◌else◌}
use p.Linux.{GoError}
use p.PathTree.{PathNode}
use p.Server.{Server}
use p.Client.Handshake.{Session}
use p.Handlers.{Outcome, done, failed, panicked}

pub data XattrOp : Type 0 where
  xattr_none xattr_create xattr_walk : XattrOp

pub record PendingXattr : Type 0 where
  pub op : XattrOp
  pub name : List ℕ
  pub size : ℕ
  pub flags : ℕ
  pub buf : List ℕ

abbrev pub no_pending_xattr : PendingXattr
no_pending_xattr = record { op = xattr_none; name = []; size = 0; flags = 0; buf = [] }

-- The fields of a fidRef that are not its count and its parent.
pub record Details : Type 0 where
  pub file : ℕ
  pub pending_xattr : PendingXattr
  pub opened : Bool
  pub mode : ℕ
  pub open_flags : ℕ
  pub path_node : ℕ

-- The references and the fids; the numbers of references and of path nodes that were made, and what they
-- hold; what was agreed upon; and the files.
pub record ConnState (B : Type 0) : Type 0 where
  pub server : Server
  pub made : ℕ
  pub details : ℕ → Details
  pub made_nodes : ℕ
  pub nodes : ℕ → PathNode
  pub session : Session
  pub files : B

abbrev pub M : Type 0 → Type 0 → Type 0
M B A = ConnState B → Outcome A × ConnState B

module _ {B A : Type 0} where
  abbrev pub pure : A → M B A
  pure a s = (done a, s)

  abbrev pub fail : GoError → M B A
  fail e s = (failed e, s)

  abbrev pub panic : M B A
  panic s = (panicked, s)

  abbrev pub gets : (ConnState B → A) → M B A
  gets f s = (done (f s), s)

  -- A call of the file system.
  abbrev pub called : Outcome A × B → ConnState B → Outcome A × ConnState B
  called (r, b) s = (r, record s { files = b })

  abbrev pub call : (B → Outcome A × B) → M B A
  call f s = called (f s.files) s

  -- Go's defer: `d` runs in any case, and its own error is not looked at.
  abbrev pub settle : Outcome A → Outcome (Unit {0}) × ConnState B → Outcome A × ConnState B
  settle r (done u, s) = (r, s)
  settle r (failed e, s) = (r, s)
  settle r (panicked, s) = (panicked, s)

  abbrev pub then_always : M B (Unit {0}) → Outcome A × ConnState B → Outcome A × ConnState B
  then_always d (r, s) = settle r (d s)

  abbrev pub deferring : M B (Unit {0}) → M B A → M B A
  deferring d m s = then_always d (m s)

infixl 5 ◌>>=◌ ◌>>◌
abbrev pub next : {B A C : Type 0} → (A → M B C) → Outcome A × ConnState B → Outcome C × ConnState B
next f (done a, s) = f a s
next f (failed e, s) = (failed e, s)
next f (panicked, s) = (panicked, s)

abbrev pub ◌>>=◌ : {B A C : Type 0} → M B A → (A → M B C) → M B C
◌>>=◌ m f s = next f (m s)

abbrev pub ◌>>◌ : {B C : Type 0} → M B (Unit {0}) → M B C → M B C
m >> k = m >>= λ _. k

-- if c { return e }
abbrev pub fail_if : {B : Type 0} → Bool → GoError → M B (Unit {0})
fail_if c e s = (if c then failed e else done tt, s)

abbrev pub update : {B : Type 0} → (ConnState B → ConnState B) → M B (Unit {0})
update f s = (done tt, f s)

abbrev pub set_at {ℓ} : {A : Type ℓ} → ℕ → A → (ℕ → A) → ℕ → A
set_at k x f q = if q == k then x else f q

abbrev pub set_details : {B : Type 0} → ℕ → Details → ConnState B → ConnState B
set_details r d s = record s { details = set_at r d s.details }

abbrev pub set_node : {B : Type 0} → ℕ → PathNode → ConnState B → ConnState B
set_node pn node s = record s { nodes = set_at pn node s.nodes }
