-- ===== src/Linux/Extract.antt =====
-- linux/errors.go: the number that an error comes to.
use p.Base.{
  and_left, and_right, zero, suc, Bool, true, false, ◌&&◌, sym, ◌∙◌, ℕ, ◌≡◌, refl, Option, none,
  ◌==◌, if◌then◌else◌, arith, true_is_no_false,
}
use p.Linux.{
  GoError, errno, syscall_errno, eof, other, wrap, join, is_error, as_error, an_errno,
  a_syscall_errno, sys_errno, extract_errno, is_not_exist, is_exist, is_permission, is_invalid,
  eperm, eio, eacces, eexist, enotempty,
}

-- A number of this package stays as it is, however often it is wrapped.
abbrev pub wrapped : ℕ → GoError → GoError
wrapped zero e = e
wrapped (suc n) e = wrap (wrapped n e)

is_error-wrapped :
    (target : GoError → Bool) (k : ℕ) (e : GoError)
    → is_error target (wrapped k e) ≡ is_error target e
unfolding is_error
is_error-wrapped target zero e = refl
is_error-wrapped target (suc k) e = is_error-wrapped target k e

as_error-wrapped :
    (type : GoError → Option ℕ) (k : ℕ) (e : GoError)
    → as_error type (wrapped k e) ≡ as_error type e
unfolding as_error
as_error-wrapped type zero e = refl
as_error-wrapped type (suc k) e = as_error-wrapped type k e

extract_errno-wrapped : (k : ℕ) (e : GoError) → extract_errno (wrapped k e) ≡ extract_errno e
unfolding extract_errno sys_errno
extract_errno-wrapped k e =
    rw
      (
        is_error-wrapped is_not_exist k e,
        is_error-wrapped is_exist k e,
        is_error-wrapped is_permission k e,
        is_error-wrapped is_invalid k e,
        as_error-wrapped an_errno k e,
        as_error-wrapped a_syscall_errno k e,
      )
      refl

-- An error without a number and without a value of the package os anywhere in its tree.
abbrev pub is_opaque : GoError → Bool
is_opaque eof = true
is_opaque other = true
is_opaque (wrap e) = is_opaque e
is_opaque (join e e') = is_opaque e && is_opaque e'
is_opaque e = false

-- No test and no search finds anything in such an error.
record Unfound (e : GoError) : Type 0 where
  pub not_exist : is_error is_not_exist e ≡ false
  pub exist : is_error is_exist e ≡ false
  pub permission : is_error is_permission e ≡ false
  pub invalid : is_error is_invalid e ≡ false
  pub errno : as_error an_errno e ≡ none
  pub system : as_error a_syscall_errno e ≡ none

Unfound-opaque : (e : GoError) → is_opaque e ≡ true → Unfound e
unfolding is_error as_error
Unfound-opaque eof h = record {
  not_exist = refl;
  exist = refl;
  permission = refl;
  invalid = refl;
  errno = refl;
  system = refl;
}
Unfound-opaque other h = record {
  not_exist = refl;
  exist = refl;
  permission = refl;
  invalid = refl;
  errno = refl;
  system = refl;
}
Unfound-opaque (wrap e) h =
    let u = Unfound-opaque e h in
    record {
      not_exist = u.not_exist;
      exist = u.exist;
      permission = u.permission;
      invalid = u.invalid;
      errno = u.errno;
      system = u.system;
    }
Unfound-opaque (join e e') h =
    let u = Unfound-opaque e (and_left (is_opaque e) (is_opaque e') h) in
    let u' = Unfound-opaque e' (and_right (is_opaque e) (is_opaque e') h) in
    record {
      not_exist = rw (u.not_exist, u'.not_exist) refl;
      exist = rw (u.exist, u'.exist) refl;
      permission = rw (u.permission, u'.permission) refl;
      invalid = rw (u.invalid, u'.invalid) refl;
      errno = rw (u.errno, u'.errno) refl;
      system = rw (u.system, u'.system) refl;
    }
Unfound-opaque e h = absurd (true_is_no_false (sym h))

extract_errno-opaque : (e : GoError) → is_opaque e ≡ true → extract_errno e ≡ eio
unfolding extract_errno sys_errno
extract_errno-opaque e h =
    let u = Unfound-opaque e h in
    rw (u.not_exist, u.exist, u.permission, u.invalid, u.errno, u.system) refl

-- An error number of this package, wrapped by fmt.Errorf any number of times, comes to itself. A
-- number of the system, wrapped so, comes to itself too, but for three: EPERM comes to EACCES and
-- ENOTEMPTY to EEXIST, since errors.Is takes them for os.ErrPermission and os.ErrExist, and 0 comes to
-- EIO. An error comes to EIO, however it is wrapped and joined, if neither a number nor a value of the
-- package os is anywhere in it, as io.EOF is.
pub extract_errno-of_wrapped :
    (k n : ℕ) (e : GoError)
    → is_opaque e ≡ true
    → (extract_errno (wrapped k (errno n)) ≡ n)
      × (extract_errno (wrapped k (syscall_errno n)) ≡ (
          if n == eperm
          then eacces
          else if n == enotempty
          then eexist
          else if n == 0
          then eio
          else n))
      × (extract_errno e ≡ eio)
unfolding extract_errno is_error as_error sys_errno
extract_errno-of_wrapped k n e opaque = (
  extract_errno-wrapped k (errno n),
  extract_errno-wrapped k (syscall_errno n) ∙ ground arith,
  extract_errno-opaque e opaque,
)
