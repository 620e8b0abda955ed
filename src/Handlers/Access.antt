-- ===== src/Handlers/Access.antt =====
-- p9/handlers.go: opening a file, its attributes, and what is asked of a file that has a fid.
use p.Base.{ℕ, Bool, true, Option, none, some, ◌==◌, ◌||◌, ◌&&◌, not, [], if◌then◌else◌}
use p.Linux.{GoError, errno, einval, eisdir, is_error, is_eof}
use p.FileMode.{
  is_dir, is_regular, is_named_pipe, is_block_device, is_character_device, is_symlink, open_mode,
  read_only,
}
use p.Messages.Open.{Tlopen, Rlopen}
use p.Messages.Names.{Treadlink, Rreadlink}
use p.Messages.Attributes.{Tgetattr, Rgetattr, Tsetattr, Rsetattr, Tstatfs, Rstatfs}
use p.Messages.Transfer.{Tfsync, Rfsync, Tlock, Rlock, Treaddir}
use p.Messages.Payload.{Rreaddir}
use p.Handlers.{FileSystem, done, failed}
use p.Handlers.State.{M, ConnState, pure, fail_if, call, ◌>>=◌, ◌>>◌, update, set_details}
use p.Handlers.Refs.{with_fid}
use p.Handlers.Names.{guard_live, guard_opened, guard_directory, file_of}

unfoldable pub can_open : ℕ → Bool
unfolding is_regular is_dir is_named_pipe is_block_device is_character_device
can_open mode =
    is_regular mode
    || (is_dir mode || (is_named_pipe mode || (is_block_device mode || is_character_device mode)))

-- An error that is or wraps io.EOF is none here.
abbrev pub tolerate_eof : {B : Type 0} {A : Type 0} → A × Option GoError → M B A
tolerate_eof (a, none) s = (done a, s)
tolerate_eof (a, some e) s = (if is_error is_eof e then done a else failed e, s)

module _ {B : Type 0} where
  -- if ref.opened || !CanOpen(ref.mode) { return EINVAL }
  unfoldable pub guard_can_open : ℕ → M B (Unit {0})
  unfolding can_open
  guard_can_open r s =
      fail_if ((s.details r).opened || not (can_open (s.details r).mode)) (errno einval) s

  unfoldable pub guard_directory_mode : ℕ → ℕ → M B (Unit {0})
  unfolding is_dir open_mode
  guard_directory_mode r flags s =
      fail_if (is_dir (s.details r).mode && not (open_mode flags == read_only)) (errno eisdir) s

  unfoldable pub mark_opened : ℕ → ℕ → M B (Unit {0})
  mark_opened r flags = update λ (s : ConnState B).
      set_details r (record (s.details r) { opened = true; open_flags = flags }) s

  -- if ref.isDeleted() || !ref.mode.IsSymlink() { return EINVAL }
  unfoldable pub guard_symlink : ℕ → M B (Unit {0})
  unfolding is_symlink
  guard_symlink r s =
      fail_if ((s.nodes (s.details r).path_node).deleted || not (is_symlink (s.details r).mode))
        (errno einval) s

  module _ (fs : FileSystem B) where
    unfoldable pub handle_tlopen : Tlopen → M B Rlopen
    unfolding with_fid guard_live guard_can_open guard_directory_mode mark_opened
    handle_tlopen t = with_fid fs t.fid λ r. do
      guard_live r
      guard_can_open r
      guard_directory_mode r t.flags
      file ← file_of r
      (qid, io_unit) ← call (fs.open_file file t.flags)
      mark_opened r t.flags
      pure (record { qid = qid; io_unit = io_unit })

    unfoldable pub handle_tgetattr : Tgetattr → M B Rgetattr
    unfolding with_fid
    handle_tgetattr t = with_fid fs t.fid λ r. do
      file ← file_of r
      (qid, valid, attr) ← call (fs.get_attr file t.attr_mask)
      pure (record { valid = valid; qid = qid; attr = attr })

    unfoldable pub handle_tsetattr : Tsetattr → M B Rsetattr
    unfolding with_fid guard_live
    handle_tsetattr t = with_fid fs t.fid λ r. do
      guard_live r
      file ← file_of r
      call (fs.set_attr file t.valid t.set_attr)
      pure (record {})

    unfoldable pub handle_treadlink : Treadlink → M B Rreadlink
    unfolding with_fid guard_symlink
    handle_treadlink t = with_fid fs t.fid λ r. do
      guard_symlink r
      file ← file_of r
      target ← call (fs.readlink file)
      pure (record { target = target })

    unfoldable pub handle_tfsync : Tfsync → M B Rfsync
    unfolding with_fid guard_opened
    handle_tfsync t =
        with_fid fs t.fid
          λ r. do guard_opened r; file ← file_of r; call (fs.f_sync file); pure (record {})

    unfoldable pub handle_tstatfs : Tstatfs → M B Rstatfs
    unfolding with_fid
    handle_tstatfs t =
        with_fid fs t.fid
          λ r. do file ← file_of r; st ← call (fs.stat_fs file); pure (record { fs_stat = st })

    unfoldable pub handle_tlock : Tlock → M B Rlock
    unfolding with_fid
    handle_tlock t = with_fid fs t.fid λ r. do
      file ← file_of r
      status ← call (fs.lock file t.pid t.type t.flags t.start t.length t.client)
      pure (record { status = status })

    -- The entries go out with the count of the request; the payload is made when the message is encoded.
    unfoldable pub handle_treaddir : Treaddir → M B Rreaddir
    unfolding with_fid guard_directory guard_opened
    handle_treaddir t = with_fid fs t.directory λ r. do
      guard_directory r
      guard_opened r
      file ← file_of r
      read ← call (fs.readdir file t.offset t.count)
      entries ← tolerate_eof read
      pure (record { count = t.count; entries = entries; payload = [] })
