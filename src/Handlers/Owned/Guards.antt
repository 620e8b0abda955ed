-- ===== src/Handlers/Owned/Guards.antt =====
-- p9/handlers.go: what is owned around the parts of handlers that leave the references as they are.
use p.Base.{
  ℕ, List, [], Bool, true, false, Option, none, some, ◌||◌, ◌&&◌, not, ◌==◌, if◌then◌else◌,
}
use p.Linux.{GoError, errno, einval, eisdir, eperm, is_error, is_eof}
use p.FileMode.{is_dir, is_symlink, open_mode, read_only}
use p.Handlers.{done, failed}
use p.Handlers.State.{M, ConnState, update}
use p.Handlers.Names.{
  is_deleted, check_safe_name, is_safe_name, guard_live, guard_directory, guard_closed,
  guard_opened, guard_change,
}
use p.Handlers.Access.{
  tolerate_eof, guard_can_open, guard_directory_mode, mark_opened, can_open, guard_symlink,
}
use p.Handlers.Transfer.{panic_if, get_buffer, guard_mode}
use p.Handlers.Owned.{Owned, Ends, Keeps, Keeps-then, Keeps-pure, Keeps-fail_if, Keeps-guard}

module _ {B : Type 0} where
  pub Keeps-check_safe_name : (name : List ℕ) → Keeps (check_safe_name {B = B} name)
  unfolding check_safe_name
  Keeps-check_safe_name name = Keeps-fail_if (not (is_safe_name name)) (errno einval)

  pub Keeps-guard_live : (r : ℕ) → Keeps (guard_live {B = B} r)
  unfolding guard_live
  Keeps-guard_live r = Keeps-guard (λ (s : ConnState B). is_deleted s r) (errno einval)

  pub Keeps-guard_directory : (r : ℕ) → Keeps (guard_directory {B = B} r)
  unfolding guard_directory
  Keeps-guard_directory r =
      Keeps-guard (λ (s : ConnState B). is_deleted s r || not (is_dir (s.details r).mode))
        (errno einval)

  pub Keeps-guard_closed : (r : ℕ) → Keeps (guard_closed {B = B} r)
  unfolding guard_closed
  Keeps-guard_closed r = Keeps-guard (λ (s : ConnState B). (s.details r).opened) (errno einval)

  pub Keeps-guard_opened : (r : ℕ) → Keeps (guard_opened {B = B} r)
  unfolding guard_opened
  Keeps-guard_opened r = Keeps-guard (λ (s : ConnState B). not (s.details r).opened) (errno einval)

  pub Keeps-guard_change : (r : ℕ) → Keeps (guard_change {B = B} r)
  unfolding guard_change
  Keeps-guard_change r = Keeps-then (Keeps-guard_directory r) (Keeps-guard_closed r)

  pub Keeps-guard_can_open : (r : ℕ) → Keeps (guard_can_open {B = B} r)
  unfolding guard_can_open
  Keeps-guard_can_open r =
      Keeps-guard (λ (s : ConnState B). (s.details r).opened || not (can_open (s.details r).mode))
        (errno einval)

  pub Keeps-guard_directory_mode : (r flags : ℕ) → Keeps (guard_directory_mode {B = B} r flags)
  unfolding guard_directory_mode
  Keeps-guard_directory_mode r flags =
      Keeps-guard
        (λ (s : ConnState B). is_dir (s.details r).mode && not (open_mode flags == read_only))
        (errno eisdir)

  pub Keeps-guard_symlink : (r : ℕ) → Keeps (guard_symlink {B = B} r)
  unfolding guard_symlink
  Keeps-guard_symlink r =
      Keeps-guard
        (λ (s : ConnState B).
          (s.nodes (s.details r).path_node).deleted || not (is_symlink (s.details r).mode))
        (errno einval)

  pub Keeps-guard_mode : (r refused : ℕ) → Keeps (guard_mode {B = B} r refused)
  unfolding guard_mode
  Keeps-guard_mode r refused =
      Keeps-guard (λ (s : ConnState B). open_mode (s.details r).open_flags == refused) (errno eperm)

  pub Keeps-mark_opened : (r flags : ℕ) → Keeps (mark_opened {B = B} r flags)
  unfolding mark_opened
  Keeps-mark_opened r flags = record { keeps = λ held s h. h }

  -- A change of the state that leaves the references.
  pub Keeps-update :
      (f : ConnState B → ConnState B)
      → ((s : ConnState B) (held : List ℕ) → Owned s held → Owned (f s) held)
      → Keeps (update f)
  Keeps-update f k = record { keeps = λ held s h. k s held h }

  eof-Ends :
      {A : Type 0} (a : A) (b : Bool) (e : GoError) (X : List ℕ) (s : ConnState B)
      → Owned s X
      → Ends (λ (x : A). X) X (if b then done a else failed e, s)
  eof-Ends a true e X s h = h
  eof-Ends a false e X s h = h

  pub Keeps-tolerate_eof : {A : Type 0} (o : A × Option GoError) → Keeps (tolerate_eof {B = B} o)
  Keeps-tolerate_eof (a, none) = record { keeps = λ held s h. h }
  Keeps-tolerate_eof (a, some e) = record {
    keeps = λ held s h. eof-Ends a (is_error is_eof e) e held s h;
  }

  pub Keeps-panic_if : (b : Bool) → Keeps (panic_if {B = B} b)
  Keeps-panic_if true = record { keeps = λ held s h. ([], h) }
  Keeps-panic_if false = record { keeps = λ held s h. h }

  pub Keeps-get_buffer : Keeps (get_buffer {B = B})
  unfolding get_buffer
  Keeps-get_buffer = record {
    keeps = λ held s h.
        (Keeps-then (Keeps-panic_if (s.session.message_size == 0))
            (Keeps-pure {a = s.session.message_size})).keeps
          held s h;
  }

  pub Keeps-if :
      {A : Type 0} {m k : M B A} (b : Bool) → Keeps m → Keeps k → Keeps (if b then m else k)
  Keeps-if true km kk = km
  Keeps-if false km kk = kk
