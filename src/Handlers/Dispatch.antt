-- ===== src/Handlers/Dispatch.antt =====
-- p9/server.go and p9/handlers.go: connState.handle, which gives a message to its handler, and newErr.
use p.Base.{◌%◌, ◌^◌}
use p.Linux.{GoError, errno, enosys, efault, extract_errno}
use p.Messages.Message.{Message, rlerror}
use p.Messages.Session.{Rversion}
use p.Client.Handshake.{Session, handle_tversion}
use p.Handlers.{FileSystem, Outcome, done, failed, panicked}
use p.Handlers.State.{M, ConnState, pure, ◌>>=◌}
use p.Handlers.Make.{
  no_uid, do_tlcreate, do_tsymlink, do_tmknod, do_tmkdir, handle_tlink, handle_tucreate,
  handle_tusymlink, handle_tumknod, handle_tumkdir,
}
use p.Handlers.Access.{
  handle_tlopen, handle_tgetattr, handle_tsetattr, handle_treadlink, handle_tfsync, handle_tstatfs,
  handle_tlock, handle_treaddir,
}
use p.Handlers.Transfer.{handle_tread, handle_twrite}
use p.Handlers.Xattr.{handle_txattrwalk, handle_txattrcreate, handle_tclunk}
use p.Handlers.Remove.{handle_tremove, handle_tunlinkat}
use p.Handlers.Walk.{handle_twalk, handle_twalkgetattr, handle_tattach}
use p.Handlers.Rename.{handle_trenameat, handle_trename}

unfoldable pub new_err : GoError → Message
unfolding extract_errno
new_err e = rlerror (record { error = extract_errno e % 2 ^ 32 })

-- A panic is answered EFAULT.
abbrev pub answer : Outcome Message → Message
answer (done r) = r
answer (failed e) = new_err e
answer panicked = new_err (errno efault)

module _ {B : Type 0} where
  abbrev pub answered : Outcome Message × ConnState B → Message × ConnState B
  answered (r, s) = (answer r, s)

  abbrev pub versioned : Rversion × Session → ConnState B → Outcome Message × ConnState B
  versioned (r, session) s = (done (Message.rversion r), record s { session = session })

  module _ (fs : FileSystem B) where
    -- The handlers; the messages without one are answered ENOSYS. Of Tflush, what it waits for is not here.
    unfoldable pub handler : Message → M B Message
    unfolding handle_tversion handle_tattach handle_tclunk handle_tremove handle_tlopen do_tlcreate
        do_tsymlink handle_tlink handle_trenameat handle_tunlinkat handle_trename handle_treadlink
        handle_tread handle_twrite do_tmknod do_tmkdir handle_tgetattr handle_tsetattr
        handle_txattrwalk handle_txattrcreate handle_treaddir handle_tfsync handle_tstatfs
        handle_tlock handle_twalk handle_twalkgetattr handle_tucreate handle_tumkdir
        handle_tusymlink handle_tumknod
    handler (Message.tversion t) s = versioned (handle_tversion t s.session) s
    handler (Message.tflush t) s = (done (Message.rflush (record {})), s)
    handler (Message.tauth t) s = (failed (errno enosys), s)
    handler (Message.tattach t) s = (handle_tattach fs t >>= λ r. pure (Message.rattach r)) s
    handler (Message.tclunk t) s = (handle_tclunk fs t >>= λ r. pure (Message.rclunk r)) s
    handler (Message.tremove t) s = (handle_tremove fs t >>= λ r. pure (Message.rremove r)) s
    handler (Message.tlopen t) s = (handle_tlopen fs t >>= λ r. pure (Message.rlopen r)) s
    handler (Message.tlcreate t) s = (do_tlcreate fs t no_uid >>= λ r. pure (Message.rlcreate r)) s
    handler (Message.tsymlink t) s = (do_tsymlink fs t no_uid >>= λ r. pure (Message.rsymlink r)) s
    handler (Message.tlink t) s = (handle_tlink fs t >>= λ r. pure (Message.rlink r)) s
    handler (Message.trenameat t) s = (handle_trenameat fs t >>= λ r. pure (Message.rrenameat r)) s
    handler (Message.tunlinkat t) s = (handle_tunlinkat fs t >>= λ r. pure (Message.runlinkat r)) s
    handler (Message.trename t) s = (handle_trename fs t >>= λ r. pure (Message.rrename r)) s
    handler (Message.treadlink t) s = (handle_treadlink fs t >>= λ r. pure (Message.rreadlink r)) s
    handler (Message.tread t) s = (handle_tread fs t >>= λ r. pure (Message.rread r)) s
    handler (Message.twrite t) s = (handle_twrite fs t >>= λ r. pure (Message.rwrite r)) s
    handler (Message.tmknod t) s = (do_tmknod fs t no_uid >>= λ r. pure (Message.rmknod r)) s
    handler (Message.tmkdir t) s = (do_tmkdir fs t no_uid >>= λ r. pure (Message.rmkdir r)) s
    handler (Message.tgetattr t) s = (handle_tgetattr fs t >>= λ r. pure (Message.rgetattr r)) s
    handler (Message.tsetattr t) s = (handle_tsetattr fs t >>= λ r. pure (Message.rsetattr r)) s
    handler (Message.txattrwalk t) s =
        (handle_txattrwalk fs t >>= λ r. pure (Message.rxattrwalk r)) s
    handler (Message.txattrcreate t) s =
        (handle_txattrcreate fs t >>= λ r. pure (Message.rxattrcreate r)) s
    handler (Message.treaddir t) s = (handle_treaddir fs t >>= λ r. pure (Message.rreaddir r)) s
    handler (Message.tfsync t) s = (handle_tfsync fs t >>= λ r. pure (Message.rfsync r)) s
    handler (Message.tstatfs t) s = (handle_tstatfs fs t >>= λ r. pure (Message.rstatfs r)) s
    handler (Message.tlock t) s = (handle_tlock fs t >>= λ r. pure (Message.rlock r)) s
    handler (Message.twalk t) s = (handle_twalk fs t >>= λ r. pure (Message.rwalk r)) s
    handler (Message.twalkgetattr t) s =
        (handle_twalkgetattr fs t >>= λ r. pure (Message.rwalkgetattr r)) s
    handler (Message.tucreate t) s = (handle_tucreate fs t >>= λ r. pure (Message.rucreate r)) s
    handler (Message.tumkdir t) s = (handle_tumkdir fs t >>= λ r. pure (Message.rumkdir r)) s
    handler (Message.tusymlink t) s = (handle_tusymlink fs t >>= λ r. pure (Message.rusymlink r)) s
    handler (Message.tumknod t) s = (handle_tumknod fs t >>= λ r. pure (Message.rumknod r)) s
    handler m s = (failed (errno enosys), s)

    unfoldable pub handle : Message → ConnState B → Message × ConnState B
    unfolding handler new_err
    handle m s = answered (handler m s)
