-- ===== src/Unix.antt =====
-- The system calls of the programs that run beside the daemon, and of its own start: each call is
-- logged with its return value. The kernel's answers may depend on every call made before.
pub mod Balance
pub mod Keeps
pub mod Plain
pub mod Memory
use tour.Base.{
  ◌^◌, ◌*◌, ◌-◌, word_of, ℕ, ◌+◌, Bool, true, false, Option, none, some, List, [], ◌∷◌, ◌++◌, ◌||◌,
  if◌then◌else◌, ℤ, pos, negsuc, eqb_ℤ, ltb, is_member, Bytes, word_bytes, replicate, Run, ok, Cmd,
}

-- Threads are those of pthread.h, and gethostbyname and gethostbyaddr the resolver of netdb.h.
pub data Syscall : Type 0 where
  socket : ℕ → ℕ → ℕ → Syscall
  setsockopt : ℤ → ℕ → ℕ → Bytes → Syscall
  bind : ℤ → Bytes → Syscall
  getsockname : ℤ → Syscall
  connect : ℤ → Bytes → Syscall
  listen : ℤ → ℕ → Syscall
  chmod : Bytes → ℕ → Syscall
  unlink : Bytes → Syscall
  close : ℤ → Syscall
  send : ℤ → Bytes → Syscall
  sendto : ℤ → Bytes → Bytes → Syscall
  recv : ℤ → ℕ → Syscall
  recvfrom : ℤ → ℕ → Syscall
  select : ℤ → List ℤ → Option ℕ → Syscall
  sleep : ℕ → Syscall
  gethostname : ℕ → Syscall
  gethostbyname : Bytes → Syscall
  gethostbyaddr : Bytes → Syscall
  thread_create thread_cancel thread_join : Syscall
  ioctl : ℤ → ℕ → Bytes → Syscall
  malloc : ℕ → Syscall
  calloc : ℕ → Syscall
  free : ℤ → Syscall
  sigaction : ℕ → Syscall

-- The calls with what they returned, the last one first.
abbrev pub Calls : Type 0
Calls = List (Syscall × ℤ)

-- `result` is the return value; where that is an int, negative for an error, and for the resolver,
-- malloc and calloc the address, or 0 for NULL. That of ioctl is the negative of errno for an error. `stored` is what the call wrote to the caller's buffer, `source` the address
-- that recvfrom stored, `ready` the set that select left.
pub record Kernel : Type 0 where
  pub result : Calls → Syscall → ℤ
  pub stored : Calls → Syscall → Bytes
  pub source : Calls → Syscall → Bytes
  pub ready : Calls → Syscall → List ℤ

-- Of sys/socket.h and netinet/in.h.
abbrev pub af_unix : ℕ
af_unix = 1

abbrev pub af_inet : ℕ
af_inet = 2

abbrev pub af_packet : ℕ
af_packet = 17

abbrev pub sock_stream : ℕ
sock_stream = 1

abbrev pub sock_dgram : ℕ
sock_dgram = 2

abbrev pub sock_raw : ℕ
sock_raw = 3

-- A struct sockaddr_in with the port as it stands in memory.
abbrev pub sockaddr_in : ℕ → Bytes → Bytes
sockaddr_in port addr = word_bytes af_inet ++ (word_bytes port ++ (addr ++ replicate 8 0))

-- An int in memory.
abbrev pub int_of : Bytes → ℤ
int_of (a ∷ b ∷ c ∷ d ∷ rest) =
    let n = word_of a b + 65536 * word_of c d in
    if ltb n (2 ^ 31) then pos n else negsuc (2 ^ 32 - 1 - n)
int_of _ = pos 0

-- FD_SETSIZE of sys/select.h. FD_SET and FD_ISSET are undefined outside 0 to 1023.
abbrev pub fd_setsize : ℕ
fd_setsize = 1024

abbrev pub fits_set : ℤ → Bool
fits_set (pos fd) = ltb fd fd_setsize
fits_set (negsuc n) = false

unfoldable pub fd_set : ℤ → List ℤ → Option (List ℤ)
fd_set fd rset = if fits_set fd then some (fd ∷ rset) else none

unfoldable pub fd_isset : ℤ → List ℤ → Option Bool
fd_isset fd rset = if fits_set fd then some (is_member fd rset) else none

module _ (os : Kernel) where
  -- The call is made, and returns.
  unfoldable pub call : Syscall → Cmd Calls ℤ
  call c t = let r = os.result t c in ok r ((c, r) ∷ t)

  -- The same for a call that stores bytes.
  unfoldable pub call_for_bytes : Syscall → Cmd Calls (ℤ × Bytes)
  call_for_bytes c t = let r = os.result t c in ok (r, os.stored t c) ((c, r) ∷ t)

  unfoldable pub call_from : Syscall → Cmd Calls (ℤ × Bytes × Bytes)
  call_from c t = let r = os.result t c in ok (r, os.stored t c, os.source t c) ((c, r) ∷ t)

  unfoldable pub call_select : Syscall → Cmd Calls (ℤ × List ℤ)
  call_select c t = let r = os.result t c in ok (r, os.ready t c) ((c, r) ∷ t)
