-- ===== src/Handlers/Xattr.antt =====
-- p9/handlers.go: Txattrwalk and Txattrcreate, which make an attribute pending, and Tclunk, which sets
-- it.
use p.Base.{
  ℕ, ◌%◌, ◌^◌, List, [], ◌∷◌, ◌++◌, false, none, ◌==◌, ltb, ◌&&◌, not, length, if◌then◌else◌,
}
use p.Linux.{errno, einval}
use p.Transport.{maximum_length}
use p.Messages.Walk.{Tclunk, Rclunk}
use p.Messages.Attributes.{Txattrwalk, Rxattrwalk, Txattrcreate, Rxattrcreate}
use p.Handlers.{FileSystem, Outcome, done, failed, panicked}
use p.Handlers.State.{
  M, ConnState, PendingXattr, XattrOp, xattr_none, xattr_create, xattr_walk, pure, fail, fail_if,
  gets, call, deferring, ◌>>=◌, ◌>>◌, update, set_details,
}
use p.Handlers.Refs.{with_fid, install, uninstall, release, new_ref}
use p.Handlers.Names.{guard_live, file_of}

abbrev pub xattr_replace : ℕ
xattr_replace = 2

-- strings.Join(xattrs, "\000") + "\000"
abbrev pub join_xattrs : List (List ℕ) → List ℕ
join_xattrs [] = 0 ∷ []
join_xattrs (x ∷ []) = x ++ 0 ∷ []
join_xattrs (x ∷ (y ∷ xs)) = x ++ 0 ∷ join_xattrs (y ∷ xs)

module _ {B : Type 0} where
  unfoldable pub start_xattr : ℕ → Txattrcreate → M B (Unit {0})
  start_xattr r t = update λ (s : ConnState B).
      set_details r
        (record (s.details r) {
          pending_xattr = record {
            op = xattr_create;
            name = t.name;
            size = t.attr_size;
            flags = t.flags;
            buf = [];
          };
        })
        s

  module _ (fs : FileSystem B) where
    -- GetXattr for a name, and ListXattrs for none.
    unfoldable pub get_value : ℕ → List ℕ → M B (List ℕ)
    get_value file [] = do xattrs ← call (fs.list_xattrs file); pure (join_xattrs xattrs)
    get_value file (c ∷ name) = call (fs.get_xattr file (c ∷ name))

    -- The reference to the attribute shares the file, and has neither a parent nor a mode.
    unfoldable pub handle_txattrwalk : Txattrwalk → M B Rxattrwalk
    unfolding with_fid guard_live get_value new_ref install release
    handle_txattrwalk t = with_fid fs t.fid λ r. do
      guard_live r
      file ← file_of r
      buf ← get_value file t.name
      fail_if (ltb maximum_length (length buf % 2 ^ 32)) (errno einval)
      node ← gets (λ (s : ConnState B). (s.details r).path_node)
      attribute ← new_ref none (record {
        file = file;
        pending_xattr = record {
          op = xattr_walk;
          name = t.name;
          size = length buf;
          flags = 0;
          buf = buf;
        };
        opened = false;
        mode = 0;
        open_flags = 0;
        path_node = node;
      })
      deferring (release fs attribute)
          (install fs t.new_fid attribute >> pure (record { size = length buf }))

    unfoldable pub txattrcreate_over : Txattrcreate → ℕ → M B Rxattrcreate
    unfolding guard_live start_xattr
    txattrcreate_over t r = do guard_live r; start_xattr r t; pure (record {})

    unfoldable pub handle_txattrcreate : Txattrcreate → M B Rxattrcreate
    unfolding with_fid txattrcreate_over
    handle_txattrcreate t = with_fid fs t.fid (txattrcreate_over t)

    -- The value that was written goes to the file, if all of it is there.
    unfoldable pub set_pending : XattrOp → ℕ → PendingXattr → M B (Unit {0})
    set_pending xattr_create file x =
        fail_if (not (length x.buf == x.size)) (errno einval)
        >> (if x.flags == xattr_replace && x.size == 0
            then call (fs.remove_xattr file x.name)
            else call (fs.set_xattr file x.name x.buf x.flags))
    set_pending xattr_none file x = pure tt
    set_pending xattr_walk file x = pure tt

    unfoldable pub clunk_over : ℕ → M B (Unit {0})
    unfolding set_pending
    clunk_over r = do
      file ← file_of r
      x ← gets (λ (s : ConnState B). (s.details r).pending_xattr)
      set_pending x.op file x

    unfoldable pub clunk_handle_xattr : ℕ → M B (Unit {0})
    unfolding with_fid clunk_over
    clunk_handle_xattr fid = with_fid fs fid clunk_over

    -- What Tclunk answers, from what the attribute came to: the fid is deleted after an error too, and an
    -- error of DeleteFID goes first.
    abbrev pub clunked : ℕ → Outcome (Unit {0}) × ConnState B → Outcome Rclunk × ConnState B
    clunked fid (done u, s) = (uninstall fs fid >> pure (record {})) s
    clunked fid (failed e, s) = (uninstall fs fid >> fail e) s
    clunked fid (panicked, s) = (panicked, s)

    unfoldable pub handle_tclunk : Tclunk → M B Rclunk
    unfolding clunk_handle_xattr uninstall
    handle_tclunk t s = clunked t.fid (clunk_handle_xattr t.fid s)
