-- ===== src/Handlers/Directories.antt =====
-- p9/handlers.go: changes below a directory that is deleted or open, or that is none.
use mathlib.Core.Path.{subst}
use p.Base.{
  ℕ, ◌<◌, List, ◌≡◌, refl, sym, ap, ◌∙◌, Bool, true, Option, none, some, ◌||◌, not, some_eq,
  none_is_no_some, Bool-cases, inl, inr,
}
use p.Linux.{GoError, errno, einval}
use p.FileMode.{is_dir}
use p.Server.{inc_ref, find_fid}
use p.Messages.Message.{Message}
use p.Handlers.{FileSystem, failed}
use p.Handlers.State.{M, ConnState, ◌>>◌}
use p.Handlers.Refs.{set_server, with_fid}
use p.Handlers.Names.{
  is_safe_name, check_safe_name, is_deleted, guard_change, guard_directory, guard_closed,
}
use p.Handlers.Dispatch.{handler, handle, answered, new_err}
use p.Handlers.Lookup.{with_fid-still}
use p.Handlers.Refusals.{Refuses, Refuses-bind, Refuses-then, Refuses-after, Passes-safe}

-- The directory and the name of a message that makes or removes a file.
abbrev pub directory_of : Message → Option (ℕ × List ℕ)
directory_of (Message.tlcreate t) = some (t.fid, t.name)
directory_of (Message.tsymlink t) = some (t.directory, t.name)
directory_of (Message.tmknod t) = some (t.directory, t.name)
directory_of (Message.tmkdir t) = some (t.directory, t.name)
directory_of (Message.tunlinkat t) = some (t.directory, t.name)
directory_of (Message.tucreate t) = some (t.tlcreate.fid, t.tlcreate.name)
directory_of (Message.tumkdir t) = some (t.tmkdir.directory, t.tmkdir.name)
directory_of (Message.tumknod t) = some (t.tmknod.directory, t.tmknod.name)
directory_of (Message.tusymlink t) = some (t.tsymlink.directory, t.tsymlink.name)
directory_of m = none

module _ {B : Type 0} where
  -- A directory that is deleted or open, or a file that is none.
  abbrev pub closed_to_changes : ConnState B → ℕ → Bool
  closed_to_changes s r =
      (is_deleted s r || not (is_dir (s.details r).mode)) || (s.details r).opened

  guard_change-refuses :
      (r : ℕ) (s : ConnState B)
      → closed_to_changes s r ≡ true
      → Refuses (errno einval) (set_server (inc_ref r s.server) s) (guard_change r)
  unfolding guard_change guard_directory guard_closed
  guard_change-refuses r s bad =
      elim (Bool-cases (is_deleted s r || not (is_dir (s.details r).mode))) [
        | inl first ↦ record { refuses = rw first refl }
        | inr later ↦
            let opened : (s.details r).opened ≡ true =
              ap (λ b. b || (s.details r).opened) (sym later) ∙ bad in
            record { refuses = rw (later, opened) refl }
      ]

module _ {B : Type 0} (fs : FileSystem B) where
  -- What is refused below a fid that is in the table leaves the state as it was.
  pub Refuses-below :
      {A : Type 0} (fid r : ℕ) (body : ℕ → M B A) (s : ConnState B) (e : GoError)
      → find_fid fid s.server.fids ≡ some r
      → 0 < (s.server.fid_refs r).refs
      → Refuses e (set_server (inc_ref r s.server) s) (body r)
      → Refuses e s (with_fid fs fid body)
  Refuses-below fid r body s e found pos refused = record {
    refuses =
        with_fid-still fs fid r body s (set_server (inc_ref r s.server) s) (failed e) found pos
          refused.refuses refl;
  }

  -- A fid of the table and a safe name, below what takes no changes.
  record Closed (s : ConnState B) (r : ℕ) (named : ℕ × List ℕ) : Type 0 where
    pub safe : is_safe_name named.1 ≡ true
    pub found : find_fid named.0 s.server.fids ≡ some r
    pub counted : 0 < (s.server.fid_refs r).refs
    pub closed : closed_to_changes s r ≡ true

  refuses-named :
      {A : Type 0} (fid : ℕ) (name : List ℕ) (rest : ℕ → M B A) (named : ℕ × List ℕ) (r : ℕ)
      (s : ConnState B)
      → some (fid, name) ≡ some named
      → Closed s r named
      → Refuses
          (errno einval)
          s
          (check_safe_name name >> with_fid fs fid (λ r'. guard_change r' >> rest r'))
  refuses-named fid name rest named r s e c =
      let c' = subst (Closed s r) (sym (some_eq e)) c in
      Refuses-after (Passes-safe name s c'.safe) (
        Refuses-below fid r (λ r'. guard_change r' >> rest r') s (errno einval) c'.found c'.counted
          (Refuses-then (rest r) (guard_change-refuses r s c'.closed)))

  closed_to :
      (m : Message) (named : ℕ × List ℕ) (r : ℕ) (s : ConnState B)
      → directory_of m ≡ some named
      → Closed s r named
      → Refuses (errno einval) s (handler fs m)
  unfolding handler
  closed_to (Message.tlcreate t) named r s e c =
      Refuses-bind _ (refuses-named t.fid t.name _ named r s e c)
  closed_to (Message.tsymlink t) named r s e c =
      Refuses-bind _ (refuses-named t.directory t.name _ named r s e c)
  closed_to (Message.tmknod t) named r s e c =
      Refuses-bind _ (refuses-named t.directory t.name _ named r s e c)
  closed_to (Message.tmkdir t) named r s e c =
      Refuses-bind _ (refuses-named t.directory t.name _ named r s e c)
  closed_to (Message.tunlinkat t) named r s e c =
      Refuses-bind _ (refuses-named t.directory t.name _ named r s e c)
  closed_to (Message.tucreate t) named r s e c =
      Refuses-bind _ (Refuses-bind _ (refuses-named t.tlcreate.fid t.tlcreate.name _ named r s e c))
  closed_to (Message.tumkdir t) named r s e c =
      Refuses-bind _
        (Refuses-bind _ (refuses-named t.tmkdir.directory t.tmkdir.name _ named r s e c))
  closed_to (Message.tumknod t) named r s e c =
      Refuses-bind _
        (Refuses-bind _ (refuses-named t.tmknod.directory t.tmknod.name _ named r s e c))
  closed_to (Message.tusymlink t) named r s e c =
      Refuses-bind _
        (Refuses-bind _ (refuses-named t.tsymlink.directory t.tsymlink.name _ named r s e c))
  closed_to m named r s e c = absurd (none_is_no_some named e)

  -- A request to make or to remove a file by a safe name, below a fid of the table whose reference has a
  -- count, is answered EINVAL if that is a directory that is deleted or open, or no directory. Nothing
  -- changes then: the files are not asked, and the count of the reference is what it was.
  pub handle-closed_directory :
      (m : Message) (fid : ℕ) (name : List ℕ) (r : ℕ) (s : ConnState B)
      → directory_of m ≡ some (fid, name)
      → is_safe_name name ≡ true
      → find_fid fid s.server.fids ≡ some r
      → 0 < (s.server.fid_refs r).refs
      → closed_to_changes s r ≡ true
      → handle fs m s ≡ (new_err (errno einval), s)
  unfolding handle
  handle-closed_directory m fid name r s e safe found pos bad =
      let c : Closed s r (fid, name) = record {
        safe = safe;
        found = found;
        counted = pos;
        closed = bad;
      } in
      ap answered (closed_to m (fid, name) r s e c).refuses
