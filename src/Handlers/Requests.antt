-- ===== src/Handlers/Requests.antt =====
-- p9/server.go: handleRequest and handleRequests, as the goroutines of a connection run them in any order.
-- A step takes a goroutine to the next point where it waits or writes what others read; a handler is one
-- step, and a message is counted as sent whether or not send reports an error. Which messages arrive stands open,
-- and what is given back to the registry at the end is left out here.
pub mod Answers
use p.Base.{
  ℕ, suc, ◌+◌, ◌≡◌, List, [], ◌∷◌, ◌++◌, Bool, true, false, Option, none, some, ◌==◌, if◌then◌else◌,
}
use p.Base.Assoc.{member}
use p.Linux.{GoError}
use p.Server.Tags.{Tags, no_tags, start_tag, clear_tag, wait_tag}
use p.Messages.Message
use p.Messages.Message.{Message}
use p.Handlers.{FileSystem}
use p.Handlers.State.{ConnState}
use p.Handlers.Dispatch.{handle, new_err}

-- Where a goroutine stands in handleRequest, with the tag, the message or the answer that it has there.
pub data Goroutine : Type 0 where
  -- At the head of handleRequest.
  starting : Goroutine
  -- Before recvMu, counted by recvIdle.
  waiting : Goroutine
  -- Holding recvMu.
  receiving : Goroutine
  -- Before StartTag.
  got_message : ℕ → Message → Goroutine
  in_handler : ℕ → Message → Goroutine
  -- In WaitTag, for a channel.
  in_flush : ℕ → Message → ℕ → Goroutine
  -- Before ClearTag.
  handled : ℕ → Message → Goroutine
  -- Before the send.
  answering : ℕ → Message → Goroutine

-- What the goroutines share, with what was sent, the last answer first. `accepted` is not in the source: the
-- tags of the messages that were not dropped, and those of the protocol errors.
pub record Serving (B : Type 0) : Type 0 where
  pub conn : ConnState B
  pub tags : Tags
  pub recv_idle : ℕ
  pub recv_held : Bool
  pub recv_shutdown : Bool
  pub sent : List (ℕ × Message)
  pub accepted : List ℕ

-- The channel that the handler of a message waits for in WaitTag.
abbrev pub awaited : Message → Tags → Option ℕ
awaited (Message.tflush t) tags = wait_tag t.old_tag tags
awaited m tags = none

-- Another goroutine is started, if none is counted by recvIdle.
abbrev pub spawned : ℕ → List Goroutine
spawned idle = if idle == 0 then starting ∷ [] else []

-- A step of one goroutine, and what stands in its place then: itself, and one that it starts, or nothing.
pub data Move {B : Type 0} (fs : FileSystem B)
    : Serving B → Goroutine → Serving B → List Goroutine → Type 0 where
  arrives :
      (s : Serving B) → Move fs s starting (record s { recv_idle = s.recv_idle + 1 }) (waiting ∷ [])
  locks :
      (s : Serving B) (n : ℕ)
      → s.recv_held ≡ false
      → s.recv_idle ≡ suc n
      → Move fs s waiting (record s { recv_held = true; recv_idle = n }) (receiving ∷ [])
  -- Another goroutine met a connection error.
  leaves :
      (s : Serving B)
      → s.recv_shutdown ≡ true
      → Move fs s receiving (record s { recv_held = false }) []
  -- A ConnError.
  breaks :
      (s : Serving B)
      → s.recv_shutdown ≡ false
      → Move fs s receiving (record s { recv_held = false; recv_shutdown = true }) []
  -- Another error, which is answered at once.
  refuses :
      (s : Serving B) (tag : ℕ) (e : GoError)
      → s.recv_shutdown ≡ false
      → Move fs s receiving
          (record s { recv_held = false; accepted = tag ∷ s.accepted })
          (answering tag (new_err e) ∷ spawned s.recv_idle)
  receives :
      (s : Serving B) (tag : ℕ) (m : Message)
      → s.recv_shutdown ≡ false
      → Move fs s receiving
          (record s { recv_held = false })
          (got_message tag m ∷ spawned s.recv_idle)
  -- The tag is active: the message is dropped.
  drops :
      (s : Serving B) (tag : ℕ) (m : Message)
      → (start_tag tag s.tags).0 ≡ false
      → Move fs s (got_message tag m) s (starting ∷ [])
  begins :
      (s : Serving B) (tag : ℕ) (m : Message)
      → (start_tag tag s.tags).0 ≡ true
      → Move fs s
          (got_message tag m)
          (record s { tags = (start_tag tag s.tags).1; accepted = tag ∷ s.accepted })
          (in_handler tag m ∷ [])
  handles :
      (s : Serving B) (tag : ℕ) (m : Message)
      → awaited m s.tags ≡ none
      → Move fs s
          (in_handler tag m)
          (record s { conn = (handle fs m s.conn).1 })
          (handled tag (handle fs m s.conn).0 ∷ [])
  awaits :
      (s : Serving B) (tag : ℕ) (m : Message) (ch : ℕ)
      → awaited m s.tags ≡ some ch
      → Move fs s (in_handler tag m) s (in_flush tag m ch ∷ [])
  wakes :
      (s : Serving B) (tag : ℕ) (m : Message) (ch : ℕ)
      → member ◌==◌ ch s.tags.closed ≡ true
      → Move fs s
          (in_flush tag m ch)
          (record s { conn = (handle fs m s.conn).1 })
          (handled tag (handle fs m s.conn).0 ∷ [])
  clears :
      (s : Serving B) (tag : ℕ) (r : Message) (tags : Tags)
      → clear_tag tag s.tags ≡ some tags
      → Move fs s (handled tag r) (record s { tags = tags }) (answering tag r ∷ [])
  sends :
      (s : Serving B) (tag : ℕ) (r : Message)
      → Move fs s (answering tag r) (record s { sent = (tag, r) ∷ s.sent }) (starting ∷ [])

-- A connection as Handle finds it: nothing is sent, and its own goroutine calls handleRequests.
abbrev pub opened : {B : Type 0} → ConnState B → Serving B
opened conn = record {
  conn = conn;
  tags = no_tags;
  recv_idle = 0;
  recv_held = false;
  recv_shutdown = false;
  sent = [];
  accepted = [];
}

-- What the goroutines of a connection can come to.
pub data Served {B : Type 0} (fs : FileSystem B) : Serving B → List Goroutine → Type 0 where
  opens : (conn : ConnState B) → Served fs (opened conn) (starting ∷ [])
  moves :
      (s s' : Serving B) (before : List Goroutine) (g : Goroutine) (new after : List Goroutine)
      → Served fs s (before ++ g ∷ after)
      → Move fs s g s' new
      → Served fs s' (before ++ (new ++ after))
