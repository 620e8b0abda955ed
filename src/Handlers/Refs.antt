-- ===== src/Handlers/Refs.antt =====
-- p9/server.go: DecRef in full, with the files that it closes and the path nodes that it leaves, and the
-- table of fids as handlers use it.
use p.Base.{ℕ, zero, suc, Bool, true, false, Option, none, some, ◌==◌}
use p.Linux.{errno, wrap, join, ebadf}
use p.PathTree.{PathNode, remove_child}
use p.Server.{Server, inc_ref, dec_ref, lookup_fid, insert_fid, delete_fid, make_ref}
use p.Handlers.{FileSystem, Outcome, done, failed, panicked}
use p.Handlers.State.{M, ConnState, Details, pure, fail, call, deferring, ◌>>=◌, set_at, set_node}

module _ {B : Type 0} where
  abbrev pub set_server : Server → ConnState B → ConnState B
  set_server server s = record s { server = server }

  -- f.parent.pathNode.removeChild(f), which may panic.
  abbrev pub left : Option PathNode → ℕ → M B (Unit {0})
  left none pn s = (panicked, s)
  left (some node) pn s = (done tt, set_node pn node s)

  unfoldable pub leave : ℕ → ℕ → M B (Unit {0})
  leave r parent s =
      let pn = (s.details parent).path_node in left (remove_child r (s.nodes pn)) pn s

  -- errors.Join of the error of Close and that of the parent.
  abbrev pub joined :
      Outcome (Unit {0}) → Outcome (Unit {0}) × ConnState B → Outcome (Unit {0}) × ConnState B
  joined (done u) (done v, s) = (done tt, s)
  joined (done u) (failed e, s) = (failed (wrap e), s)
  joined (done u) (panicked, s) = (panicked, s)
  joined (failed e) (done v, s) = (failed (wrap e), s)
  joined (failed e) (failed e', s) = (failed (join (wrap e) (wrap e')), s)
  joined (failed e) (panicked, s) = (panicked, s)
  joined panicked (r, s) = (panicked, s)

  -- What follows the call of Close; `go_on` is DecRef at the parent.
  abbrev pub closed :
      (ℕ → M B (Unit {0}))
      → ℕ
      → Option ℕ
      → Outcome (Unit {0}) × ConnState B
      → Outcome (Unit {0}) × ConnState B
  closed go_on r parent (panicked, s) = (panicked, s)
  closed go_on r none (done u, s) = joined (done u) (done tt, s)
  closed go_on r none (failed e, s) = joined (failed e) (done tt, s)
  closed go_on r (some q) (done u, s) = joined (done u) ((leave r q >>= λ v. go_on q) s)
  closed go_on r (some q) (failed e, s) = joined (failed e) ((leave r q >>= λ v. go_on q) s)

  unfoldable pub retain : ℕ → M B (Unit {0})
  retain r s = (done tt, set_server (inc_ref r s.server) s)

  -- A reference, whose number is `s.made`, that is not in the table yet, with the handler's own count.
  -- Where the source starts its count from 0 and InsertFID raises it, the handler gives its own back
  -- after that.
  unfoldable pub new_ref : Option ℕ → Details → M B ℕ
  new_ref parent d s = (
    done s.made,
    record s {
      server = make_ref s.made parent s.server;
      details = set_at s.made d s.details;
      made = suc s.made;
    },
  )

  module _ (fs : FileSystem B) where
    -- DecRef, where `last` says if the count was 1.
    unfoldable pub drop_ref : (ℕ → M B (Unit {0})) → ℕ → Bool → M B (Unit {0})
    unfolding leave
    drop_ref go_on r false s = (done tt, set_server (dec_ref r s.server).1 s)
    drop_ref go_on r true s =
        let (parent, server) = dec_ref r s.server in
        closed go_on r parent (call (fs.close (s.details r).file) (set_server server s))

    -- `fuel` is how many references may be closed.
    unfoldable pub dec_ref_within : ℕ → ℕ → M B (Unit {0})
    unfolding drop_ref
    dec_ref_within zero r s = (done tt, s)
    dec_ref_within (suc fuel) r s =
        drop_ref (dec_ref_within fuel) r ((s.server.fid_refs r).refs == 1) s

    -- No more references are closed than there are.
    unfoldable pub release : ℕ → M B (Unit {0})
    unfolding dec_ref_within
    release r s = dec_ref_within (suc s.made) r s

    -- ref, ok := cs.LookupFID(fid); if !ok { return EBADF }; defer ref.DecRef()
    abbrev pub looked : {A : Type 0} → (ℕ → M B A) → Option ℕ → M B A
    looked body none = fail (errno ebadf)
    looked body (some r) = deferring (release r) (body r)

    unfoldable pub with_fid : {A : Type 0} → ℕ → (ℕ → M B A) → M B A
    unfolding release
    with_fid fid body s =
        let (found, server) = lookup_fid fid s.server in looked body found (set_server server s)

    abbrev pub release_old : Option ℕ → M B (Unit {0})
    release_old none = pure tt
    release_old (some r) = deferring (release r) (pure tt)

    -- InsertFID.
    unfoldable pub install : ℕ → ℕ → M B (Unit {0})
    unfolding release
    install fid r s =
        let (old, server) = insert_fid fid r s.server in release_old old (set_server server s)

    abbrev pub release_found : Option ℕ → M B (Unit {0})
    release_found none = fail (errno ebadf)
    release_found (some r) = release r

    -- DeleteFID.
    unfoldable pub uninstall : ℕ → M B (Unit {0})
    unfolding release
    uninstall fid s =
        let (found, server) = delete_fid fid s.server in release_found found (set_server server s)
