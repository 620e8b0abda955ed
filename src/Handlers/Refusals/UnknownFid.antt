-- ===== src/Handlers/Refusals/UnknownFid.antt =====
-- p9/handlers.go: requests on a fid that is not in the table.
use p.Base.{
  and_left, and_right, ℕ, List, ◌≡◌, refl, ap, ◌∙◌, true, none, some, ◌&&◌, some_eq,
  none_is_no_some,
}
use p.Linux.{errno, ebadf}
use p.Server.{find_fid, delete_fid}
use p.Server.Owners.{drop_fid-none}
use p.Messages.Message.{Message}
use p.Messages.Walk.{Tclunk}
use p.Handlers.{FileSystem, failed}
use p.Handlers.State.{ConnState, next}
use p.Handlers.Refs.{uninstall}
use p.Handlers.Xattr.{clunk_handle_xattr, handle_tclunk, clunked}
use p.Handlers.Dispatch.{handler, handle, answered, new_err}
use p.Handlers.Names.{is_safe_name}
use p.Handlers.Refusals.{
  first_fid, names_of, all_safe, Refuses, Refuses-bind, Refuses-after, Refuses-with_fid,
  Passes-safe,
}

ruleset refused = (Refuses-bind, Refuses-after, Refuses-with_fid, Passes-safe)

module _ {B : Type 0} where
  asked :
      {k fid : ℕ} (s : ConnState B)
      → some k ≡ some fid
      → find_fid fid s.server.fids ≡ none
      → find_fid k s.server.fids ≡ none
  asked s e out = ap (λ f. find_fid f s.server.fids) (some_eq e) ∙ out

module _ {B : Type 0} (fs : FileSystem B) where
  uninstall-unknown :
      (fid : ℕ) (s : ConnState B)
      → find_fid fid s.server.fids ≡ none
      → uninstall fs fid s ≡ (failed (errno ebadf), s)
  unfolding uninstall delete_fid
  uninstall-unknown fid s out = rw (out, drop_fid-none fid s.server.fids out) refl

  xattr-unknown :
      (fid : ℕ) (s : ConnState B)
      → find_fid fid s.server.fids ≡ none
      → Refuses (errno ebadf) s (clunk_handle_xattr fs fid)
  unfolding clunk_handle_xattr
  xattr-unknown fid s out = search (Refuses-with_fid, out)

  clunk-unknown :
      (t : Tclunk) (s : ConnState B)
      → find_fid t.fid s.server.fids ≡ none
      → Refuses (errno ebadf) s (handle_tclunk fs t)
  unfolding handle_tclunk
  clunk-unknown t s out = record {
    refuses =
        ap (clunked fs t.fid) (xattr-unknown t.fid s out).refuses
        ∙ ap (next (λ u s'. (failed (errno ebadf), s'))) (uninstall-unknown t.fid s out);
  }

  safe_only : (name : List ℕ) → (is_safe_name name && true) ≡ true → is_safe_name name ≡ true
  safe_only name safe = and_left (is_safe_name name) true safe

  unknown :
      (m : Message) (fid : ℕ) (s : ConnState B)
      → first_fid m ≡ some fid
      → all_safe (names_of m) ≡ true
      → find_fid fid s.server.fids ≡ none
      → Refuses (errno ebadf) s (handler fs m)
  unfolding handler
  unknown (Message.tstatfs t) fid s e safe out =
      let gone = asked s e out in search (refused, gone) depth 8
  unknown (Message.tlopen t) fid s e safe out =
      let gone = asked s e out in search (refused, gone) depth 8
  unknown (Message.tlcreate t) fid s e safe out =
      let gone = asked s e out in
      let ok = safe_only t.name safe in search (refused, gone, ok) depth 8
  unknown (Message.tsymlink t) fid s e safe out =
      let gone = asked s e out in
      let ok = safe_only t.name safe in search (refused, gone, ok) depth 8
  unknown (Message.tmknod t) fid s e safe out =
      let gone = asked s e out in
      let ok = safe_only t.name safe in search (refused, gone, ok) depth 8
  unknown (Message.trename t) fid s e safe out =
      let gone = asked s e out in
      let ok = safe_only t.name safe in search (refused, gone, ok) depth 8
  unknown (Message.treadlink t) fid s e safe out =
      let gone = asked s e out in search (refused, gone) depth 8
  unknown (Message.tgetattr t) fid s e safe out =
      let gone = asked s e out in search (refused, gone) depth 8
  unknown (Message.tsetattr t) fid s e safe out =
      let gone = asked s e out in search (refused, gone) depth 8
  unknown (Message.txattrwalk t) fid s e safe out =
      let gone = asked s e out in search (refused, gone) depth 8
  unknown (Message.txattrcreate t) fid s e safe out =
      let gone = asked s e out in search (refused, gone) depth 8
  unknown (Message.treaddir t) fid s e safe out =
      let gone = asked s e out in search (refused, gone) depth 8
  unknown (Message.tfsync t) fid s e safe out =
      let gone = asked s e out in search (refused, gone) depth 8
  unknown (Message.tlock t) fid s e safe out =
      let gone = asked s e out in search (refused, gone) depth 8
  unknown (Message.tlink t) fid s e safe out =
      let gone = asked s e out in
      let ok = safe_only t.name safe in search (refused, gone, ok) depth 8
  unknown (Message.tmkdir t) fid s e safe out =
      let gone = asked s e out in
      let ok = safe_only t.name safe in search (refused, gone, ok) depth 8
  unknown (Message.trenameat t) fid s e safe out =
      let gone = asked s e out in
      let ok : is_safe_name t.old_name ≡ true = and_left _ _ safe in
      let ok' : is_safe_name t.new_name ≡ true =
        and_left (is_safe_name t.new_name) true
          (and_right (is_safe_name t.old_name) (is_safe_name t.new_name && true) safe) in
      search (refused, gone, ok, ok') depth 8
  unknown (Message.tunlinkat t) fid s e safe out =
      let gone = asked s e out in
      let ok = safe_only t.name safe in search (refused, gone, ok) depth 8
  unknown (Message.twalk t) fid s e safe out =
      let gone = asked s e out in search (refused, gone) depth 8
  unknown (Message.tread t) fid s e safe out =
      let gone = asked s e out in search (refused, gone) depth 8
  unknown (Message.twrite t) fid s e safe out =
      let gone = asked s e out in search (refused, gone) depth 8
  unknown (Message.tclunk t) fid s e safe out =
      let gone = clunk-unknown t s (asked s e out) in search (Refuses-bind, gone) depth 4
  unknown (Message.tremove t) fid s e safe out =
      let gone = asked s e out in search (refused, gone) depth 8
  unknown (Message.twalkgetattr t) fid s e safe out =
      let gone = asked s e out in search (refused, gone) depth 8
  unknown (Message.tucreate t) fid s e safe out =
      let gone = asked s e out in
      let ok = safe_only t.tlcreate.name safe in search (refused, gone, ok) depth 8
  unknown (Message.tumkdir t) fid s e safe out =
      let gone = asked s e out in
      let ok = safe_only t.tmkdir.name safe in search (refused, gone, ok) depth 8
  unknown (Message.tumknod t) fid s e safe out =
      let gone = asked s e out in
      let ok = safe_only t.tmknod.name safe in search (refused, gone, ok) depth 8
  unknown (Message.tusymlink t) fid s e safe out =
      let gone = asked s e out in
      let ok = safe_only t.tsymlink.name safe in search (refused, gone, ok) depth 8
  unknown m fid s e safe out = absurd (none_is_no_some fid e)

  -- A request on a fid that is not in the table, whose names of files, if it gives any, are safe, is
  -- answered EBADF, and nothing changes: not the references and the table, not the path nodes, and not
  -- the files, which are not asked.
  pub handle-unknown_fid :
      (m : Message) (fid : ℕ) (s : ConnState B)
      → first_fid m ≡ some fid
      → all_safe (names_of m) ≡ true
      → find_fid fid s.server.fids ≡ none
      → handle fs m s ≡ (new_err (errno ebadf), s)
  unfolding handle
  handle-unknown_fid m fid s e safe out = ap answered (unknown m fid s e safe out).refuses
