-- ===== src/Handlers/Owned/Simple.antt =====
-- p9/handlers.go: what is owned around the handlers that make no reference.
use p.Base.{ℕ, ◌+◌, ◌%◌, ◌^◌, List, ◌&&◌, not, ◌==◌, ltb, length}
use p.Linux.{GoError, errno, einval}
use p.Messages.Transfer.{Tread}
use p.Messages.Payload.{Twrite}
use p.Handlers.{FileSystem, Outcome, done, failed, panicked}
use p.Handlers.State.{
  ConnState, PendingXattr, XattrOp, xattr_none, xattr_create, xattr_walk, pure, fail, ◌>>◌,
}
use p.Handlers.Transfer.{
  copy_xattr, append_xattr, read_file, read_by, write_file, write_by, append_buf,
}
use p.Handlers.Owned.{
  Owned, Ends, Keeps, Keeps-bind, Keeps-then, Keeps-pure, Keeps-fail, Keeps-gets, Keeps-fail_if,
  Keeps-guard, Keeps-call,
}
use p.Handlers.Owned.Table.{Keeps-with_fid, Keeps-uninstall}
use p.Handlers.Owned.Guards.{
  Keeps-check_safe_name, Keeps-guard_live, Keeps-guard_directory, Keeps-guard_closed,
  Keeps-guard_opened, Keeps-guard_change, Keeps-guard_can_open, Keeps-guard_directory_mode,
  Keeps-guard_symlink, Keeps-guard_mode, Keeps-mark_opened, Keeps-update, Keeps-tolerate_eof,
  Keeps-panic_if, Keeps-get_buffer, Keeps-if,
}
use p.Handlers.Owned.Paths.{
  Keeps-child_path_node, Keeps-add_child_ref, Keeps-mark_child_deleted, Keeps-parent_of,
  Keeps-name_of,
}
use p.Messages.Walk.{Tclunk, Rclunk}
use p.Messages.Open.{Tlopen}
use p.Messages.Names.{Tlink, Treadlink, Tremove, Rremove, Tunlinkat}
use p.Messages.Make.{Tsymlink, Tmknod, Tmkdir, Tusymlink, Tumknod, Tumkdir}
use p.Messages.Attributes.{Tgetattr, Tsetattr, Tstatfs, Txattrcreate}
use p.Messages.Transfer.{Tfsync, Tlock, Treaddir}
use p.Handlers.Make.{
  do_tsymlink, do_tmknod, do_tmkdir, handle_tlink, handle_tusymlink, handle_tumknod, handle_tumkdir,
}
use p.Handlers.Access.{
  handle_tlopen, handle_tgetattr, handle_tsetattr, handle_treadlink, handle_tfsync, handle_tstatfs,
  handle_tlock, handle_treaddir,
}
use p.Handlers.Transfer.{tread_over, twrite_over, handle_tread, handle_twrite}
use p.Handlers.Xattr.{
  set_pending, clunk_handle_xattr, clunked, start_xattr, clunk_over, txattrcreate_over,
  handle_txattrcreate, handle_tclunk, xattr_replace,
}
use p.Handlers.Remove.{remove_file, removed_fid, handle_tremove, handle_tunlinkat}
use p.Handlers.Refs.{uninstall}

pub ruleset keeping = (
  Keeps-with_fid, Keeps-then, Keeps-bind, Keeps-pure, Keeps-fail, Keeps-gets, Keeps-fail_if,
  Keeps-call, Keeps-check_safe_name, Keeps-guard_live, Keeps-guard_directory, Keeps-guard_closed,
  Keeps-guard_opened, Keeps-guard_change, Keeps-guard_can_open, Keeps-guard_directory_mode,
  Keeps-guard_symlink, Keeps-guard_mode, Keeps-mark_opened, Keeps-tolerate_eof, Keeps-panic_if,
  Keeps-get_buffer, Keeps-child_path_node, Keeps-mark_child_deleted, Keeps-parent_of, Keeps-name_of,
)

module _ {B : Type 0} (fs : FileSystem B) where
  pub Keeps-handle_tlopen : (t : Tlopen) → Keeps (handle_tlopen fs t)
  unfolding handle_tlopen
  Keeps-handle_tlopen t = search keeping depth 14

  pub Keeps-handle_tgetattr : (t : Tgetattr) → Keeps (handle_tgetattr fs t)
  unfolding handle_tgetattr
  Keeps-handle_tgetattr t = search keeping depth 14

  pub Keeps-handle_tsetattr : (t : Tsetattr) → Keeps (handle_tsetattr fs t)
  unfolding handle_tsetattr
  Keeps-handle_tsetattr t = search keeping depth 14

  pub Keeps-handle_treadlink : (t : Treadlink) → Keeps (handle_treadlink fs t)
  unfolding handle_treadlink
  Keeps-handle_treadlink t = search keeping depth 14

  pub Keeps-handle_tfsync : (t : Tfsync) → Keeps (handle_tfsync fs t)
  unfolding handle_tfsync
  Keeps-handle_tfsync t = search keeping depth 14

  pub Keeps-handle_tstatfs : (t : Tstatfs) → Keeps (handle_tstatfs fs t)
  unfolding handle_tstatfs
  Keeps-handle_tstatfs t = search keeping depth 14

  pub Keeps-handle_tlock : (t : Tlock) → Keeps (handle_tlock fs t)
  unfolding handle_tlock
  Keeps-handle_tlock t = search keeping depth 14

  pub Keeps-handle_treaddir : (t : Treaddir) → Keeps (handle_treaddir fs t)
  unfolding handle_treaddir
  Keeps-handle_treaddir t = search keeping depth 14

  pub Keeps-handle_tlink : (t : Tlink) → Keeps (handle_tlink fs t)
  unfolding handle_tlink
  Keeps-handle_tlink t = search keeping depth 14

  pub Keeps-handle_tunlinkat : (t : Tunlinkat) → Keeps (handle_tunlinkat fs t)
  unfolding handle_tunlinkat
  Keeps-handle_tunlinkat t = search keeping depth 14

  pub Keeps-do_tsymlink : (t : Tsymlink) (uid : ℕ) → Keeps (do_tsymlink fs t uid)
  unfolding do_tsymlink
  Keeps-do_tsymlink t uid = search keeping depth 14

  pub Keeps-do_tmknod : (t : Tmknod) (uid : ℕ) → Keeps (do_tmknod fs t uid)
  unfolding do_tmknod
  Keeps-do_tmknod t uid = search keeping depth 14

  pub Keeps-do_tmkdir : (t : Tmkdir) (uid : ℕ) → Keeps (do_tmkdir fs t uid)
  unfolding do_tmkdir
  Keeps-do_tmkdir t uid = search keeping depth 14

  Keeps-copy_xattr : (t : Tread) (x : PendingXattr) (size : ℕ) → Keeps (copy_xattr {B = B} t x size)
  unfolding copy_xattr
  Keeps-copy_xattr t x size =
      Keeps-if (t.count == 0) (Keeps-if (x.size == 0) Keeps-pure Keeps-fail) (
        Keeps-if (ltb (length x.buf) ((t.offset + t.count) % 2 ^ 64)) Keeps-fail (
          Keeps-then (Keeps-panic_if (ltb size t.count))
            (Keeps-then (Keeps-panic_if (ltb (length x.buf) t.offset)) Keeps-pure)))

  Keeps-read_by :
      (op : XattrOp) (t : Tread) (r size : ℕ) (x : PendingXattr) → Keeps (read_by fs op t r size x)
  unfolding read_by read_file
  Keeps-read_by xattr_none t r size x = search keeping depth 14
  Keeps-read_by xattr_walk t r size x = Keeps-copy_xattr t x size
  Keeps-read_by xattr_create t r size x = Keeps-fail

  pub Keeps-handle_tread : (t : Tread) → Keeps (handle_tread fs t)
  unfolding handle_tread tread_over
  Keeps-handle_tread t = search (keeping, Keeps-read_by) depth 14

  Keeps-append_buf :
      (r : ℕ) (x : PendingXattr) (content : List ℕ) → Keeps (append_buf {B = B} r x content)
  unfolding append_buf
  Keeps-append_buf r x content = record { keeps = λ held s h. h }

  Keeps-write_by :
      (op : XattrOp) (t : Twrite) (r : ℕ) (x : PendingXattr) → Keeps (write_by fs op t r x)
  unfolding write_by write_file append_xattr
  Keeps-write_by xattr_none t r x = search keeping depth 14
  Keeps-write_by xattr_create t r x = search (keeping, Keeps-append_buf) depth 14
  Keeps-write_by xattr_walk t r x = Keeps-fail

  pub Keeps-handle_twrite : (t : Twrite) → Keeps (handle_twrite fs t)
  unfolding handle_twrite twrite_over
  Keeps-handle_twrite t = search (keeping, Keeps-write_by) depth 14

  pub Keeps-handle_tusymlink : (t : Tusymlink) → Keeps (handle_tusymlink fs t)
  unfolding handle_tusymlink
  Keeps-handle_tusymlink t = search (Keeps-bind, Keeps-pure, Keeps-do_tsymlink) depth 14

  pub Keeps-handle_tumknod : (t : Tumknod) → Keeps (handle_tumknod fs t)
  unfolding handle_tumknod
  Keeps-handle_tumknod t = search (Keeps-bind, Keeps-pure, Keeps-do_tmknod) depth 14

  pub Keeps-handle_tumkdir : (t : Tumkdir) → Keeps (handle_tumkdir fs t)
  unfolding handle_tumkdir
  Keeps-handle_tumkdir t = search (Keeps-bind, Keeps-pure, Keeps-do_tmkdir) depth 14

  Keeps-start_xattr : (r : ℕ) (t : Txattrcreate) → Keeps (start_xattr {B = B} r t)
  unfolding start_xattr
  Keeps-start_xattr r t = record { keeps = λ held s h. h }

  pub Keeps-handle_txattrcreate : (t : Txattrcreate) → Keeps (handle_txattrcreate fs t)
  unfolding handle_txattrcreate txattrcreate_over
  Keeps-handle_txattrcreate t = search (keeping, Keeps-start_xattr) depth 14

  Keeps-set_pending :
      (op : XattrOp) (file : ℕ) (x : PendingXattr) → Keeps (set_pending fs op file x)
  unfolding set_pending
  Keeps-set_pending xattr_none file x = Keeps-pure
  Keeps-set_pending xattr_walk file x = Keeps-pure
  Keeps-set_pending xattr_create file x =
      Keeps-then (Keeps-fail_if (not (length x.buf == x.size)) (errno einval)) (
        Keeps-if (x.flags == xattr_replace && x.size == 0)
          (Keeps-call (fs.remove_xattr file x.name))
          (Keeps-call (fs.set_xattr file x.name x.buf x.flags)))

  Keeps-clunk_handle_xattr : (fid : ℕ) → Keeps (clunk_handle_xattr fs fid)
  unfolding clunk_handle_xattr clunk_over
  Keeps-clunk_handle_xattr fid = search (keeping, Keeps-set_pending) depth 14

  Keeps-ended : {A : Type 0} (fid : ℕ) (a : A) → Keeps (uninstall fs fid >> pure a)
  Keeps-ended fid a = Keeps-then (Keeps-uninstall fs fid) Keeps-pure

  Keeps-ended_badly :
      {A : Type 0} (fid : ℕ) (e : GoError) → Keeps (uninstall fs fid >> fail {A = A} e)
  Keeps-ended_badly fid e = Keeps-then (Keeps-uninstall fs fid) Keeps-fail

  clunked-Ends :
      (fid : ℕ) (X : List ℕ) (o : Outcome (Unit {0}) × ConnState B)
      → Ends (λ (u : Unit {0}). X) X o
      → Ends (λ (r : Rclunk). X) X (clunked fs fid o)
  clunked-Ends fid X (done u, s) h = (Keeps-ended fid (record {})).keeps X s h
  clunked-Ends fid X (failed e, s) h = (Keeps-ended_badly fid e).keeps X s h
  clunked-Ends fid X (panicked, s) h = h

  pub Keeps-handle_tclunk : (t : Tclunk) → Keeps (handle_tclunk fs t)
  unfolding handle_tclunk
  Keeps-handle_tclunk t = record {
    keeps = λ held s h.
        clunked-Ends t.fid held (clunk_handle_xattr fs t.fid s)
          ((Keeps-clunk_handle_xattr t.fid).keeps held s h);
  }

  Keeps-remove_file : (r : ℕ) → Keeps (remove_file fs r)
  unfolding remove_file
  Keeps-remove_file r = search keeping depth 14

  removed_fid-Ends :
      (fid : ℕ) (X : List ℕ) (o : Outcome (Unit {0}) × ConnState B)
      → Ends (λ (u : Unit {0}). X) X o
      → Ends (λ (r : Rremove). X) X (removed_fid fs fid o)
  removed_fid-Ends fid X (done u, s) h = (Keeps-ended fid (record {})).keeps X s h
  removed_fid-Ends fid X (failed e, s) h = (Keeps-ended_badly fid e).keeps X s h
  removed_fid-Ends fid X (panicked, s) h = h

  pub Keeps-handle_tremove : (t : Tremove) → Keeps (handle_tremove fs t)
  unfolding handle_tremove
  Keeps-handle_tremove t = Keeps-with_fid fs t.fid λ r. record {
    keeps = λ held s h.
        removed_fid-Ends t.fid held (remove_file fs r s) ((Keeps-remove_file r).keeps held s h);
  }
