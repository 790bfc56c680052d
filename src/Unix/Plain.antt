-- ===== src/Unix/Plain.antt =====
-- The system calls that neither open nor close a socket nor set an option of one.
use tour.Base.{◌≡◌, Bool, true, false, ◌∷◌, List, ℤ, Keeps}
use tour.Unix.{
  Syscall, Calls, Kernel, socket, setsockopt, bind, getsockname, connect, listen, chmod, unlink,
  close, send, sendto, recv, recvfrom, select, sleep, gethostname, gethostbyname, gethostbyaddr,
  thread_create, thread_cancel, thread_join, ioctl, malloc, calloc, free, sigaction, call,
  call_for_bytes, call_from, call_select,
}
use tour.Unix.Balance.{Holds}
use tour.Unix.Keeps.{call-Keeps, call_for_bytes-Keeps, call_from-Keeps, call_select-Keeps}

abbrev pub is_plain : Syscall → Bool
is_plain (socket domain kind protocol) = false
is_plain (setsockopt fd level option value) = false
is_plain (close fd) = false
is_plain _ = true

-- A predicate that plain calls keep.
abbrev pub KeptByPlain : (Calls → Type 0) → Type 0
KeptByPlain P = (c : Syscall) (r : ℤ) (t : Calls) → is_plain c ≡ true → P t → P ((c, r) ∷ t)

module _ {P : Calls → Type 0} (os : Kernel) (grow : KeptByPlain P) (c : Syscall)
    (plain : is_plain c ≡ true) where
  pub plain-Keeps : Keeps P (call os c)
  plain-Keeps = call-Keeps os c (λ r t v. grow c r t plain v)

  pub plain_for_bytes-Keeps : Keeps P (call_for_bytes os c)
  plain_for_bytes-Keeps = call_for_bytes-Keeps os c (λ r t v. grow c r t plain v)

  pub plain_from-Keeps : Keeps P (call_from os c)
  plain_from-Keeps = call_from-Keeps os c (λ r t v. grow c r t plain v)

  pub plain_select-Keeps : Keeps P (call_select os c)
  plain_select-Keeps = call_select-Keeps os c (λ r t v. grow c r t plain v)

pub plain-Holds : (fds cs : List ℤ) → KeptByPlain (Holds fds cs)
plain-Holds fds cs (bind fd addr) r t p v = v
plain-Holds fds cs (getsockname fd) r t p v = v
plain-Holds fds cs (connect fd addr) r t p v = v
plain-Holds fds cs (listen fd n) r t p v = v
plain-Holds fds cs (chmod path mode) r t p v = v
plain-Holds fds cs (unlink path) r t p v = v
plain-Holds fds cs (send fd buf) r t p v = v
plain-Holds fds cs (sendto fd buf addr) r t p v = v
plain-Holds fds cs (recv fd n) r t p v = v
plain-Holds fds cs (recvfrom fd n) r t p v = v
plain-Holds fds cs (select fd rset timeout) r t p v = v
plain-Holds fds cs (sleep n) r t p v = v
plain-Holds fds cs (gethostname n) r t p v = v
plain-Holds fds cs (gethostbyname name) r t p v = v
plain-Holds fds cs (gethostbyaddr addr) r t p v = v
plain-Holds fds cs thread_create r t p v = v
plain-Holds fds cs thread_cancel r t p v = v
plain-Holds fds cs thread_join r t p v = v
plain-Holds fds cs (ioctl fd request arg) r t p v = v
plain-Holds fds cs (malloc n) r t p v = v
plain-Holds fds cs (calloc n) r t p v = v
plain-Holds fds cs (free address) r t p v = v
plain-Holds fds cs (sigaction signum) r t p v = v
plain-Holds fds cs (socket domain kind protocol) r t p v = absurd (cc)
plain-Holds fds cs (setsockopt fd level option value) r t p v = absurd (cc)
plain-Holds fds cs (close fd) r t p v = absurd (cc)
