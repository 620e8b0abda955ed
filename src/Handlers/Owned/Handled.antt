-- ===== src/Handlers/Owned/Handled.antt =====
-- p9/server.go, connState.handle: what is owned around a whole request.
use p.Base.{ℕ, List, [], ◌∷◌, ◌++◌, some, ◌≡◌, ◌≢◌, refl, ◌<◌, ◌≤◌}
use p.Messages.Session.{Rversion}
use p.Messages.Message.{Message}
use p.Client.Handshake.{Session, handle_tversion}
use p.Server.{find_fid}
use p.Server.Owners.{state, count}
use p.Server.Open.{Reached, fid-open, closed-once}
use p.Handlers.{FileSystem, Outcome, done, failed, panicked}
use p.Handlers.State.{ConnState}
use p.Handlers.Make.{no_uid}
use p.Handlers.Dispatch.{versioned, handler, answered, handle}
use p.Handlers.Owned.{Owned, Ends, Keeps, Keeps-bind, Keeps-pure, Keeps-fail}
use p.Handlers.Owned.Simple.{
  Keeps-handle_tclunk, Keeps-handle_tremove, Keeps-handle_tlopen, Keeps-handle_tlink,
  Keeps-handle_tunlinkat, Keeps-handle_treadlink, Keeps-handle_tread, Keeps-handle_twrite,
  Keeps-handle_tgetattr, Keeps-handle_tsetattr, Keeps-handle_txattrcreate, Keeps-handle_treaddir,
  Keeps-handle_tfsync, Keeps-handle_tstatfs, Keeps-handle_tlock, Keeps-handle_tumkdir,
  Keeps-handle_tusymlink, Keeps-handle_tumknod, Keeps-do_tsymlink, Keeps-do_tmknod, Keeps-do_tmkdir,
}
use p.Handlers.Owned.Over.{Keeps-do_tlcreate, Keeps-handle_tucreate, Keeps-handle_txattrwalk}
use p.Handlers.Owned.Walks.{Keeps-handle_twalk, Keeps-handle_twalkgetattr}
use p.Handlers.Owned.Attach.{Keeps-handle_tattach}

-- The messages whose handlers change the parents of references.
abbrev pub Renames : Message → Type 0
Renames (Message.trename t) = Unit {0}
Renames (Message.trenameat t) = Unit {0}
Renames m = ⊥

module _ {B : Type 0} where
  versioned-Ends :
      (v : Rversion × Session) (X : List ℕ) (s : ConnState B)
      → Owned s X
      → Ends (λ (m : Message). X) X (versioned v s)
  versioned-Ends (r, session) X s h = h

module _ {B : Type 0} (fs : FileSystem B) where
  Keeps-handler : (m : Message) → (Renames m → ⊥) → Keeps (handler fs m)
  unfolding handler
  Keeps-handler (Message.rlerror r) other = Keeps-fail
  Keeps-handler (Message.tstatfs t) other = Keeps-bind (Keeps-handle_tstatfs fs t) λ r. Keeps-pure
  Keeps-handler (Message.rstatfs r) other = Keeps-fail
  Keeps-handler (Message.tlopen t) other = Keeps-bind (Keeps-handle_tlopen fs t) λ r. Keeps-pure
  Keeps-handler (Message.rlopen r) other = Keeps-fail
  Keeps-handler (Message.tlcreate t) other =
      Keeps-bind (Keeps-do_tlcreate fs t no_uid) λ r. Keeps-pure
  Keeps-handler (Message.rlcreate r) other = Keeps-fail
  Keeps-handler (Message.tsymlink t) other =
      Keeps-bind (Keeps-do_tsymlink fs t no_uid) λ r. Keeps-pure
  Keeps-handler (Message.rsymlink r) other = Keeps-fail
  Keeps-handler (Message.tmknod t) other = Keeps-bind (Keeps-do_tmknod fs t no_uid) λ r. Keeps-pure
  Keeps-handler (Message.rmknod r) other = Keeps-fail
  Keeps-handler (Message.trename t) other = absurd (other tt)
  Keeps-handler (Message.rrename r) other = Keeps-fail
  Keeps-handler (Message.treadlink t) other =
      Keeps-bind (Keeps-handle_treadlink fs t) λ r. Keeps-pure
  Keeps-handler (Message.rreadlink r) other = Keeps-fail
  Keeps-handler (Message.tgetattr t) other = Keeps-bind (Keeps-handle_tgetattr fs t) λ r. Keeps-pure
  Keeps-handler (Message.rgetattr r) other = Keeps-fail
  Keeps-handler (Message.tsetattr t) other = Keeps-bind (Keeps-handle_tsetattr fs t) λ r. Keeps-pure
  Keeps-handler (Message.rsetattr r) other = Keeps-fail
  Keeps-handler (Message.txattrwalk t) other =
      Keeps-bind (Keeps-handle_txattrwalk fs t) λ r. Keeps-pure
  Keeps-handler (Message.rxattrwalk r) other = Keeps-fail
  Keeps-handler (Message.txattrcreate t) other =
      Keeps-bind (Keeps-handle_txattrcreate fs t) λ r. Keeps-pure
  Keeps-handler (Message.rxattrcreate r) other = Keeps-fail
  Keeps-handler (Message.treaddir t) other = Keeps-bind (Keeps-handle_treaddir fs t) λ r. Keeps-pure
  Keeps-handler (Message.rreaddir r) other = Keeps-fail
  Keeps-handler (Message.tfsync t) other = Keeps-bind (Keeps-handle_tfsync fs t) λ r. Keeps-pure
  Keeps-handler (Message.rfsync r) other = Keeps-fail
  Keeps-handler (Message.tlock t) other = Keeps-bind (Keeps-handle_tlock fs t) λ r. Keeps-pure
  Keeps-handler (Message.rlock r) other = Keeps-fail
  Keeps-handler (Message.tlink t) other = Keeps-bind (Keeps-handle_tlink fs t) λ r. Keeps-pure
  Keeps-handler (Message.rlink r) other = Keeps-fail
  Keeps-handler (Message.tmkdir t) other = Keeps-bind (Keeps-do_tmkdir fs t no_uid) λ r. Keeps-pure
  Keeps-handler (Message.rmkdir r) other = Keeps-fail
  Keeps-handler (Message.trenameat t) other = absurd (other tt)
  Keeps-handler (Message.rrenameat r) other = Keeps-fail
  Keeps-handler (Message.tunlinkat t) other =
      Keeps-bind (Keeps-handle_tunlinkat fs t) λ r. Keeps-pure
  Keeps-handler (Message.runlinkat r) other = Keeps-fail
  Keeps-handler (Message.tversion t) other = record {
    keeps = λ held s h. versioned-Ends (handle_tversion t s.session) held s h;
  }
  Keeps-handler (Message.rversion r) other = Keeps-fail
  Keeps-handler (Message.tauth r) other = Keeps-fail
  Keeps-handler (Message.rauth r) other = Keeps-fail
  Keeps-handler (Message.tattach t) other = Keeps-bind (Keeps-handle_tattach fs t) λ r. Keeps-pure
  Keeps-handler (Message.rattach r) other = Keeps-fail
  Keeps-handler (Message.tflush t) other = Keeps-pure
  Keeps-handler (Message.rflush r) other = Keeps-fail
  Keeps-handler (Message.twalk t) other = Keeps-bind (Keeps-handle_twalk fs t) λ r. Keeps-pure
  Keeps-handler (Message.rwalk r) other = Keeps-fail
  Keeps-handler (Message.tread t) other = Keeps-bind (Keeps-handle_tread fs t) λ r. Keeps-pure
  Keeps-handler (Message.rread r) other = Keeps-fail
  Keeps-handler (Message.twrite t) other = Keeps-bind (Keeps-handle_twrite fs t) λ r. Keeps-pure
  Keeps-handler (Message.rwrite r) other = Keeps-fail
  Keeps-handler (Message.tclunk t) other = Keeps-bind (Keeps-handle_tclunk fs t) λ r. Keeps-pure
  Keeps-handler (Message.rclunk r) other = Keeps-fail
  Keeps-handler (Message.tremove t) other = Keeps-bind (Keeps-handle_tremove fs t) λ r. Keeps-pure
  Keeps-handler (Message.rremove r) other = Keeps-fail
  Keeps-handler (Message.twalkgetattr t) other =
      Keeps-bind (Keeps-handle_twalkgetattr fs t) λ r. Keeps-pure
  Keeps-handler (Message.rwalkgetattr r) other = Keeps-fail
  Keeps-handler (Message.tucreate t) other = Keeps-bind (Keeps-handle_tucreate fs t) λ r. Keeps-pure
  Keeps-handler (Message.rucreate r) other = Keeps-fail
  Keeps-handler (Message.tumkdir t) other = Keeps-bind (Keeps-handle_tumkdir fs t) λ r. Keeps-pure
  Keeps-handler (Message.rumkdir r) other = Keeps-fail
  Keeps-handler (Message.tumknod t) other = Keeps-bind (Keeps-handle_tumknod fs t) λ r. Keeps-pure
  Keeps-handler (Message.rumknod r) other = Keeps-fail
  Keeps-handler (Message.tusymlink t) other =
      Keeps-bind (Keeps-handle_tusymlink fs t) λ r. Keeps-pure
  Keeps-handler (Message.rusymlink r) other = Keeps-fail

  Ends-Owned :
      (X : List ℕ) (o : Outcome Message × ConnState B)
      → Ends (λ (m : Message). X) X o
      → (more : List ℕ) × Owned (answered o).1 (more ++ X)
        × (◌≢◌ {A = Outcome Message} o.0 panicked → more ≡ [])
  Ends-Owned X (done m, s) h = ([], h, λ e. refl)
  Ends-Owned X (failed e, s) h = ([], h, λ n. refl)
  Ends-Owned X (panicked, s) (more, h) = (more, h, λ n. absurd (n refl))

  -- Whatever the file system does: a request whose message is no rename, in a state that the calls of
  -- `Step` lead to, where other handlers own the references of `held`, leads to such a state, where these
  -- own what they did. Unless its handler panics, its own handler owns nothing then: it has given back
  -- every reference that it took or made, on every way out, errors included.
  pub handle-Reached :
      (m : Message) (s : ConnState B) (held : List ℕ)
      → (Renames m → ⊥)
      → Reached (state s.server held s.made)
      → (more : List ℕ) × Reached
          (state (handle fs m s).1.server (more ++ held) (handle fs m s).1.made)
        × (((handler fs m s).0 ≢ panicked) → more ≡ [])
  unfolding handle
  handle-Reached m s held other h =
      Ends-Owned held (handler fs m s) ((Keeps-handler m other).keeps held s h)

  -- Requests one after another.
  abbrev pub serve : List Message → ConnState B → ConnState B
  serve [] s = s
  serve (m ∷ ms) s = serve ms (handle fs m s).1

  abbrev pub NoRenames : List Message → Type 0
  NoRenames [] = Unit {0}
  NoRenames (m ∷ ms) = (Renames m → ⊥) × NoRenames ms

  serve-Reached :
      (ms : List Message) (s : ConnState B) (held : List ℕ)
      → NoRenames ms
      → Reached (state s.server held s.made)
      → (more : List ℕ) × Reached (state (serve ms s).server more (serve ms s).made)
  serve-Reached [] s held n h = (held, h)
  serve-Reached (m ∷ ms) s held n h =
      let (more, h', given) = handle-Reached m s held n.0 h in
      serve-Reached ms (handle fs m s).1 (more ++ held) n.1 h'

  -- However many requests a connection has handled, none of them a rename, from a state that the calls of
  -- `Step` lead to, and whatever the file system does: the reference of a fid has a count above 0 and
  -- has not closed its file, and no reference has closed its file twice.
  pub serve-open :
      (ms : List Message) (s : ConnState B) (held : List ℕ) (fid r q : ℕ)
      → NoRenames ms
      → Reached (state s.server held s.made)
      → find_fid fid (serve ms s).server.fids ≡ some r
      → (0 < ((serve ms s).server.fid_refs r).refs)
        × (count r (serve ms s).server.closed ≡ 0)
        × (count q (serve ms s).server.closed ≤ 1)
  serve-open ms s held fid r q n h e =
      let (more, h') = serve-Reached ms s held n h in
      let end = state (serve ms s).server more (serve ms s).made in
      let open_now = fid-open end fid r h' e in (open_now.0, open_now.1, (closed-once end q h').0)
