-- ===== src/Handlers/Permissions.antt =====
-- p9/handlers.go: Tread and Twrite on a file, by how it was opened.
use p.Base.{
  int64, ℕ, ◌%◌, ◌^◌, ◌<◌, ◌≡◌, refl, List, Bool, true, false, Option, none, some, ◌==◌, ltb, not,
  if◌then◌else◌, Bool-cases, inl, inr,
}
use p.Linux.{GoError, errno, einval, eperm, enobufs, is_error, is_eof}
use p.FileMode.{open_mode, read_only, write_only}
use p.Transport.{maximum_length}
use p.Server.{find_fid, inc_ref}
use p.Messages.Transfer.{Tread, Rwrite}
use p.Messages.Payload.{Rread, Twrite}
use p.Handlers.{FileSystem, Outcome, done, failed, panicked}
use p.Handlers.State.{ConnState, xattr_none, called, next, pure}
use p.Handlers.Refs.{set_server}
use p.Handlers.Names.{guard_opened}
use p.Handlers.Access.{tolerate_eof}
use p.Handlers.Transfer.{
  get_buffer, guard_mode, read_file, read_by, tread_over, handle_tread, write_file, write_by,
  twrite_over, handle_twrite,
}
use p.Handlers.Lookup.{Under-after, Under-if, unchanged, with_fid-Under}

-- What Tread answers to what ReadAt gave: io.EOF is no error.
abbrev pub read_answer : Outcome (List ℕ × Option GoError) → Outcome Rread
read_answer (done (content, none)) = done (record { content = content })
read_answer (done (content, some e)) =
    if is_error is_eof e then done (record { content = content }) else failed e
read_answer (failed e) = failed e
read_answer panicked = panicked

abbrev pub write_answer : Outcome ℕ → Outcome Rwrite
write_answer (done n) = done (record { count = n % 2 ^ 32 })
write_answer (failed e) = failed e
write_answer panicked = panicked

abbrev read_of : List ℕ → Rread
read_of c = record { content = c }

abbrev written_count : ℕ → Rwrite
written_count n = record { count = n % 2 ^ 32 }

module _ {B : Type 0} where
  eof-answer :
      (b : Bool) (content : List ℕ) (e : GoError) (s : ConnState B)
      → next (λ (c : List ℕ). pure (read_of c)) (if b then done content else failed e, s)
        ≡ (if b then done (read_of content) else failed e, s)
  eof-answer true content e s = refl
  eof-answer false content e s = refl

  read-answers :
      (p : Outcome (List ℕ × Option GoError) × B) (s : ConnState B)
      → next (λ (c : List ℕ). pure (read_of c)) (next tolerate_eof (called p s))
        ≡ (read_answer p.0, record s { files = p.1 })
  read-answers (done (content, none), b) s = refl
  read-answers (done (content, some e), b) s =
      eof-answer (is_error is_eof e) content e (record s { files = b })
  read-answers (failed e, b) s = refl
  read-answers (panicked, b) s = refl

  write-answers :
      (p : Outcome ℕ × B) (s : ConnState B)
      → next (λ (n : ℕ). pure (written_count n)) (called p s)
        ≡ (write_answer p.0, record s { files = p.1 })
  write-answers (done n, b) s = refl
  write-answers (failed e, b) s = refl
  write-answers (panicked, b) s = refl

  module _ (fs : FileSystem B) where
    tread_over-file :
        (t : Tread) (r : ℕ) (s : ConnState B)
        → (s.details r).pending_xattr.op ≡ xattr_none
        → tread_over fs t r s ≡ (
            if ltb maximum_length t.count
            then (failed (errno enobufs), s)
            else if s.session.message_size == 0
            then (panicked, s)
            else if not (s.details r).opened
            then (failed (errno einval), s)
            else if open_mode (s.details r).open_flags == write_only
            then (failed (errno eperm), s)
            else if ltb s.session.message_size t.count
            then (panicked, s)
            else (
              read_answer (fs.read_at (s.details r).file t.count (int64 t.offset) s.files).0,
              record s {
                files = (fs.read_at (s.details r).file t.count (int64 t.offset) s.files).1;
              },
            ))
    unfolding tread_over get_buffer read_by read_file guard_opened guard_mode
    tread_over-file t r s op = elim (Bool-cases (ltb maximum_length t.count)) [
      | inl much ↦ rw much refl
      | inr few ↦ elim (Bool-cases (s.session.message_size == 0)) [
        | inl no_pool ↦ rw (few, no_pool) refl
        | inr pool ↦
            rw (few, pool, op, read_by)
              (elim (Bool-cases (s.details r).opened) [
                | inl opened ↦
                    rw opened
                      (elim (Bool-cases (open_mode (s.details r).open_flags == write_only)) [
                        | inl wo ↦ rw wo refl
                        | inr may ↦ rw may (elim (Bool-cases (ltb s.session.message_size t.count)) [
                          | inl over ↦ rw over refl
                          | inr room ↦ rw room (
                              read-answers
                                (fs.read_at (s.details r).file t.count (int64 t.offset) s.files) s)
                        ])
                      ])
                | inr shut ↦ rw shut refl
              ])
      ]
    ]

    -- Tread of a fid of the table, whose reference has a count and has no attribute pending: ENOBUFS for a
    -- count above the maximum of all messages; a panic before a message size was agreed on, which makes
    -- the pool of buffers; EINVAL if the file is not open, EPERM if it is open to write only; a panic for
    -- a count above the message size; and otherwise what the file's ReadAt gives for the count and
    -- the offset as an int64, with io.EOF taken for no error. Nothing but the files changes, and they are
    -- asked only in the last case.
    pub handle_tread-file :
        (t : Tread) (r : ℕ) (s : ConnState B)
        → find_fid t.fid s.server.fids ≡ some r
        → 0 < (s.server.fid_refs r).refs
        → (s.details r).pending_xattr.op ≡ xattr_none
        → handle_tread fs t s ≡ (
            if ltb maximum_length t.count
            then (failed (errno enobufs), s)
            else if s.session.message_size == 0
            then (panicked, s)
            else if not (s.details r).opened
            then (failed (errno einval), s)
            else if open_mode (s.details r).open_flags == write_only
            then (failed (errno eperm), s)
            else if ltb s.session.message_size t.count
            then (panicked, s)
            else (
              read_answer (fs.read_at (s.details r).file t.count (int64 t.offset) s.files).0,
              record s {
                files = (fs.read_at (s.details r).file t.count (int64 t.offset) s.files).1;
              },
            ))
    unfolding handle_tread
    handle_tread-file t r s found pos op =
        let over = tread_over-file t r (set_server (inc_ref r s.server) s) op in
        with_fid-Under fs t.fid r (tread_over fs t) s _ found pos (
          Under-after over (
            Under-if (ltb maximum_length t.count) (unchanged s) (
              Under-if (s.session.message_size == 0) (unchanged s) (
                Under-if (not (s.details r).opened) (unchanged s) (
                  Under-if (open_mode (s.details r).open_flags == write_only) (unchanged s) (
                    Under-if (ltb s.session.message_size t.count) (unchanged s) (
                      unchanged (record s {
                        files = (fs.read_at (s.details r).file t.count (int64 t.offset) s.files).1;
                      }))))))))

    twrite_over-file :
        (t : Twrite) (r : ℕ) (s : ConnState B)
        → (s.details r).pending_xattr.op ≡ xattr_none
        → twrite_over fs t r s ≡ (
            if not (s.details r).opened
            then (failed (errno einval), s)
            else if open_mode (s.details r).open_flags == read_only
            then (failed (errno eperm), s)
            else (
              write_answer (fs.write_at (s.details r).file t.content (int64 t.offset) s.files).0,
              record s {
                files = (fs.write_at (s.details r).file t.content (int64 t.offset) s.files).1;
              },
            ))
    unfolding twrite_over write_by write_file guard_opened guard_mode
    twrite_over-file t r s op =
        rw (op, write_by)
          (elim (Bool-cases (s.details r).opened) [
            | inl opened ↦
                rw opened (elim (Bool-cases (open_mode (s.details r).open_flags == read_only)) [
                  | inl ro ↦ rw ro refl
                  | inr may ↦ rw may (
                      write-answers
                        (fs.write_at (s.details r).file t.content (int64 t.offset) s.files) s)
                ])
            | inr shut ↦ rw shut refl
          ])

    -- Twrite of a fid of the table, whose reference has a count and has no attribute pending: EINVAL if the
    -- file is not open, EPERM if it is open to read only, and otherwise what the file's WriteAt gives
    -- for the content and the offset as an int64. Nothing but the files changes, and they are asked only in the last
    -- case.
    pub handle_twrite-file :
        (t : Twrite) (r : ℕ) (s : ConnState B)
        → find_fid t.fid s.server.fids ≡ some r
        → 0 < (s.server.fid_refs r).refs
        → (s.details r).pending_xattr.op ≡ xattr_none
        → handle_twrite fs t s ≡ (
            if not (s.details r).opened
            then (failed (errno einval), s)
            else if open_mode (s.details r).open_flags == read_only
            then (failed (errno eperm), s)
            else (
              write_answer (fs.write_at (s.details r).file t.content (int64 t.offset) s.files).0,
              record s {
                files = (fs.write_at (s.details r).file t.content (int64 t.offset) s.files).1;
              },
            ))
    unfolding handle_twrite
    handle_twrite-file t r s found pos op =
        let over = twrite_over-file t r (set_server (inc_ref r s.server) s) op in
        with_fid-Under fs t.fid r (twrite_over fs t) s _ found pos (
          Under-after over (
            Under-if (not (s.details r).opened) (unchanged s) (
              Under-if (open_mode (s.details r).open_flags == read_only) (unchanged s) (
                unchanged (record s {
                  files = (fs.write_at (s.details r).file t.content (int64 t.offset) s.files).1;
                })))))
