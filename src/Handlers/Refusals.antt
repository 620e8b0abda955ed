-- ===== src/Handlers/Refusals.antt =====
-- p9/handlers.go: requests that are refused before the file system is called.
pub mod UnknownFid
pub mod UnsafeName
use p.Base.{ℕ, List, [], ◌∷◌, Bool, true, Option, none, some, ◌&&◌, ◌≡◌, refl, false, ap, ◌∙◌}
use p.Linux.{GoError, errno, ebadf, einval}
use p.Server.{find_fid, lookup_fid}
use p.Handlers.{FileSystem, Outcome, done, failed, panicked}
use p.Handlers.State.{M, ConnState, next, ◌>>=◌, ◌>>◌}
use p.Handlers.Refs.{with_fid}
use p.Messages.Message
use p.Messages.Message.{Message}
use p.Handlers.Names.{is_safe_name, check_safe_name}

-- The fid that a message's handler looks up first.
abbrev pub first_fid : Message → Option ℕ
first_fid (Message.tstatfs t) = some t.fid
first_fid (Message.tlopen t) = some t.fid
first_fid (Message.tlcreate t) = some t.fid
first_fid (Message.tsymlink t) = some t.directory
first_fid (Message.tmknod t) = some t.directory
first_fid (Message.trename t) = some t.fid
first_fid (Message.treadlink t) = some t.fid
first_fid (Message.tgetattr t) = some t.fid
first_fid (Message.tsetattr t) = some t.fid
first_fid (Message.txattrwalk t) = some t.fid
first_fid (Message.txattrcreate t) = some t.fid
first_fid (Message.treaddir t) = some t.directory
first_fid (Message.tfsync t) = some t.fid
first_fid (Message.tlock t) = some t.fid
first_fid (Message.tlink t) = some t.directory
first_fid (Message.tmkdir t) = some t.directory
first_fid (Message.trenameat t) = some t.old_directory
first_fid (Message.tunlinkat t) = some t.directory
first_fid (Message.twalk t) = some t.fid
first_fid (Message.tread t) = some t.fid
first_fid (Message.twrite t) = some t.fid
first_fid (Message.tclunk t) = some t.fid
first_fid (Message.tremove t) = some t.fid
first_fid (Message.twalkgetattr t) = some t.fid
first_fid (Message.tucreate t) = some t.tlcreate.fid
first_fid (Message.tumkdir t) = some t.tmkdir.directory
first_fid (Message.tumknod t) = some t.tmknod.directory
first_fid (Message.tusymlink t) = some t.tsymlink.directory
first_fid m = none

-- The names that a message gives to files, those of walks excepted.
abbrev pub names_of : Message → List (List ℕ)
names_of (Message.tlcreate t) = t.name ∷ []
names_of (Message.tsymlink t) = t.name ∷ []
names_of (Message.tmknod t) = t.name ∷ []
names_of (Message.trename t) = t.name ∷ []
names_of (Message.tlink t) = t.name ∷ []
names_of (Message.tmkdir t) = t.name ∷ []
names_of (Message.trenameat t) = t.old_name ∷ t.new_name ∷ []
names_of (Message.tunlinkat t) = t.name ∷ []
names_of (Message.tucreate t) = t.tlcreate.name ∷ []
names_of (Message.tumkdir t) = t.tmkdir.name ∷ []
names_of (Message.tumknod t) = t.tmknod.name ∷ []
names_of (Message.tusymlink t) = t.tsymlink.name ∷ []
names_of m = []

abbrev pub all_safe : List (List ℕ) → Bool
all_safe [] = true
all_safe (name ∷ names) = is_safe_name name && all_safe names

module _ {B : Type 0} where
  -- A part that fails in a state, and leaves it as it is.
  pub record Refuses {A : Type 0} (e : GoError) (s : ConnState B) (m : M B A) : Type 0 where
    pub refuses : m s ≡ (failed e, s)

  pub record Passes (s : ConnState B) (m : M B (Unit {0})) : Type 0 where
    pub passes : m s ≡ (done tt, s)

  pub Refuses-bind :
      {A C : Type 0} {e : GoError} {s : ConnState B} {m : M B A} (f : A → M B C)
      → Refuses e s m
      → Refuses e s (m >>= f)
  Refuses-bind f r = record { refuses = ap (next f) r.refuses }

  pub Refuses-then :
      {C : Type 0} {e : GoError} {s : ConnState B} {m : M B (Unit {0})} (k : M B C)
      → Refuses e s m
      → Refuses e s (m >> k)
  Refuses-then k r = Refuses-bind (λ u. k) r

  pub Refuses-after :
      {C : Type 0} {e : GoError} {s : ConnState B} {m : M B (Unit {0})} {k : M B C}
      → Passes s m
      → Refuses e s k
      → Refuses e s (m >> k)
  Refuses-after {k = k} p r = record { refuses = ap (next (λ u. k)) p.passes ∙ r.refuses }

  pub Refuses-with_fid :
      {A : Type 0} (fs : FileSystem B) (fid : ℕ) (body : ℕ → M B A) (s : ConnState B)
      → find_fid fid s.server.fids ≡ none
      → Refuses (errno ebadf) s (with_fid fs fid body)
  unfolding with_fid lookup_fid
  Refuses-with_fid fs fid body s out = record { refuses = rw out refl }

  pub Passes-safe :
      (name : List ℕ) (s : ConnState B) → is_safe_name name ≡ true → Passes s (check_safe_name name)
  unfolding check_safe_name
  Passes-safe name s safe = record { passes = rw safe refl }

  pub Refuses-unsafe :
      (name : List ℕ) (s : ConnState B)
      → is_safe_name name ≡ false
      → Refuses (errno einval) s (check_safe_name name)
  unfolding check_safe_name
  Refuses-unsafe name s unsafe = record { refuses = rw unsafe refl }
