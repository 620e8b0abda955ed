-- ===== src/Linux.antt =====
-- linux/errors.go, with sysErrno of linux/errors_linux.go, and linux/errno.go: errors of Go and the
-- error numbers that a Rlerror carries.
pub mod Extract
use p.Base.{ℕ, ◌+◌, Bool, true, false, Option, none, some, ◌==◌, ◌||◌, if◌then◌else◌}

-- The numbers that this package and p9/handlers.go use.
abbrev pub eperm : ℕ
eperm = 1

abbrev pub enoent : ℕ
enoent = 2

abbrev pub eio : ℕ
eio = 5

abbrev pub ebadf : ℕ
ebadf = 9

abbrev pub eacces : ℕ
eacces = 13

abbrev pub efault : ℕ
efault = 14

abbrev pub ebusy : ℕ
ebusy = 16

abbrev pub eexist : ℕ
eexist = 17

abbrev pub eisdir : ℕ
eisdir = 21

abbrev pub einval : ℕ
einval = 22

abbrev pub enosys : ℕ
enosys = 38

abbrev pub enotempty : ℕ
enotempty = 39

abbrev pub enobufs : ℕ
enobufs = 105

-- An error of Go: a number of this package, one of the system, a value of the packages os and io,
-- any other, one with another inside, and two that are joined.
pub data GoError : Type 0 where
  errno : ℕ → GoError
  syscall_errno : ℕ → GoError
  not_exist exist permission invalid eof other : GoError
  wrap : GoError → GoError
  join : GoError → GoError → GoError

-- errors.Is: some error of the tree is the one that is asked for, or says so by its method Is.
unfoldable pub is_error : (GoError → Bool) → GoError → Bool
is_error target (wrap e) = is_error target e
is_error target (join e e') = is_error target e || is_error target e'
is_error target e = target e

-- The targets. The method Is of syscall.Errno takes these numbers for an error of os.
abbrev pub is_not_exist : GoError → Bool
is_not_exist not_exist = true
is_not_exist (syscall_errno n) = n == enoent
is_not_exist e = false

abbrev pub is_exist : GoError → Bool
is_exist exist = true
is_exist (syscall_errno n) = n == eexist || n == enotempty
is_exist e = false

abbrev pub is_permission : GoError → Bool
is_permission permission = true
is_permission (syscall_errno n) = n == eacces || n == eperm
is_permission e = false

abbrev pub is_invalid : GoError → Bool
is_invalid invalid = true
is_invalid e = false

abbrev pub is_eof : GoError → Bool
is_eof eof = true
is_eof e = false

abbrev pub is_enosys : GoError → Bool
is_enosys (errno n) = n == enosys
is_enosys e = false

abbrev pub or_else : Option ℕ → Option ℕ → Option ℕ
or_else (some n) later = some n
or_else none later = later

-- errors.As: the first error of a type in the tree.
unfoldable pub as_error : (GoError → Option ℕ) → GoError → Option ℕ
as_error type (wrap e) = as_error type e
as_error type (join e e') = or_else (as_error type e) (as_error type e')
as_error type e = type e

abbrev pub an_errno : GoError → Option ℕ
an_errno (errno n) = some n
an_errno e = none

abbrev pub a_syscall_errno : GoError → Option ℕ
a_syscall_errno (syscall_errno n) = some n
a_syscall_errno e = none

abbrev pub or_zero : Option ℕ → ℕ
or_zero none = 0
or_zero (some n) = n

unfoldable pub sys_errno : GoError → ℕ
unfolding as_error
sys_errno e = or_zero (as_error a_syscall_errno e)

-- What follows the pairs of the loop.
abbrev pub from_errno : Option ℕ → ℕ → ℕ
from_errno (some n) sys = n
from_errno none sys = if sys == 0 then eio else sys

unfoldable pub extract_errno : GoError → ℕ
unfolding is_error as_error sys_errno
extract_errno e =
    if is_error is_not_exist e
    then enoent
    else if is_error is_exist e
    then eexist
    else if is_error is_permission e
    then eacces
    else if is_error is_invalid e
    then einval
    else from_errno (as_error an_errno e) (sys_errno e)
