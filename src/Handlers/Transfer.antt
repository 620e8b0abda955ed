-- ===== src/Handlers/Transfer.antt =====
-- p9/handlers.go: Tread and Twrite, on a file that is open and on a pending extended attribute.
use p.Base.{
  int64, ℕ, ◌+◌, ◌%◌, ◌^◌, List, [], ◌++◌, Bool, true, false, ◌==◌, ltb, not, length, take, drop,
  if◌then◌else◌,
}
use p.Linux.{errno, einval, enobufs, eperm}
use p.FileMode.{open_mode, read_only, write_only}
use p.Transport.{maximum_length}
use p.Messages.Transfer.{Tread, Rwrite}
use p.Messages.Payload.{Rread, Twrite}
use p.Handlers.{FileSystem, done, panicked}
use p.Handlers.State.{
  M, ConnState, PendingXattr, XattrOp, xattr_none, xattr_create, xattr_walk, pure, fail, fail_if,
  gets, call, ◌>>=◌, ◌>>◌, update, set_details,
}
use p.Handlers.Refs.{with_fid}
use p.Handlers.Names.{guard_opened, file_of}
use p.Handlers.Access.{tolerate_eof}

module _ {B : Type 0} where
  abbrev pub panic_if : Bool → M B (Unit {0})
  panic_if true s = (panicked, s)
  panic_if false s = (done tt, s)

  -- cs.readBufPool.Get().(*[]byte): before the first Tversion the pool has no buffers.
  unfoldable pub get_buffer : M B ℕ
  get_buffer s = (panic_if (s.session.message_size == 0) >> pure s.session.message_size) s

  -- dataBuf[:count], over a buffer of `size` bytes.
  abbrev pub slice_to : ℕ → ℕ → M B (Unit {0})
  slice_to count size = panic_if (ltb size count)

  unfoldable pub guard_mode : ℕ → ℕ → M B (Unit {0})
  unfolding open_mode
  guard_mode r refused s = fail_if (open_mode (s.details r).open_flags == refused) (errno eperm) s

  -- Of the attribute that Txattrwalk found. The sum is one of uint64; a slice past the end panics.
  unfoldable pub copy_xattr : Tread → PendingXattr → ℕ → M B (List ℕ)
  copy_xattr t x size =
      if t.count == 0
      then (if x.size == 0 then pure [] else fail (errno einval))
      else if ltb (length x.buf) ((t.offset + t.count) % 2 ^ 64)
      then fail (errno einval)
      else slice_to t.count size
        >> (panic_if (ltb (length x.buf) t.offset) >> pure (take t.count (drop t.offset x.buf)))

  -- buf = append(buf, data...)
  unfoldable pub append_buf : ℕ → PendingXattr → List ℕ → M B (Unit {0})
  append_buf r x content = update λ (s : ConnState B).
      set_details r (record (s.details r) { pending_xattr = record x { buf = x.buf ++ content } }) s

  unfoldable pub append_xattr : ℕ → Twrite → PendingXattr → M B ℕ
  unfolding append_buf
  append_xattr r t x = do
    fail_if (not (length x.buf == t.offset)) (errno einval)
    fail_if (ltb x.size ((t.offset + length t.content) % 2 ^ 64)) (errno einval)
    append_buf r x t.content
    pure (length t.content)

  module _ (fs : FileSystem B) where
    unfoldable pub read_file : Tread → ℕ → ℕ → M B (List ℕ)
    unfolding guard_opened guard_mode
    read_file t r size = do
      guard_opened r
      guard_mode r write_only
      slice_to t.count size
      file ← file_of r
      read ← call (fs.read_at file t.count (int64 t.offset))
      tolerate_eof read

    unfoldable pub read_by : XattrOp → Tread → ℕ → ℕ → PendingXattr → M B (List ℕ)
    unfolding read_file copy_xattr
    read_by xattr_none t r size x = read_file t r size
    read_by xattr_walk t r size x = copy_xattr t x size
    read_by xattr_create t r size x = fail (errno einval)

    -- What is done below the lookup of the fid.
    unfoldable pub tread_over : Tread → ℕ → M B Rread
    unfolding get_buffer read_by
    tread_over t r = do
      fail_if (ltb maximum_length t.count) (errno enobufs)
      size ← get_buffer
      x ← gets (λ (s : ConnState B). (s.details r).pending_xattr)
      content ← read_by x.op t r size x
      pure (record { content = content })

    unfoldable pub handle_tread : Tread → M B Rread
    unfolding with_fid tread_over
    handle_tread t = with_fid fs t.fid (tread_over t)

    unfoldable pub write_file : Twrite → ℕ → M B ℕ
    unfolding guard_opened guard_mode
    write_file t r = do
      guard_opened r
      guard_mode r read_only
      file ← file_of r
      call (fs.write_at file t.content (int64 t.offset))

    unfoldable pub write_by : XattrOp → Twrite → ℕ → PendingXattr → M B ℕ
    unfolding write_file append_xattr
    write_by xattr_none t r x = write_file t r
    write_by xattr_create t r x = append_xattr r t x
    write_by xattr_walk t r x = fail (errno einval)

    unfoldable pub twrite_over : Twrite → ℕ → M B Rwrite
    unfolding write_by
    twrite_over t r = do
      x ← gets (λ (s : ConnState B). (s.details r).pending_xattr)
      n ← write_by x.op t r x
      pure (record { count = n % 2 ^ 32 })

    unfoldable pub handle_twrite : Twrite → M B Rwrite
    unfolding with_fid twrite_over
    handle_twrite t = with_fid fs t.fid (twrite_over t)
