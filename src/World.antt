-- ===== src/World.antt =====
-- What the programs ask of the system: the calls that they make, in order, and the answers. An
-- answer may depend on every call made before, so the system may behave in any way.
pub mod OnHeap
use tour.Base.{
  ℕ, ◌≡◌, refl, Bool, true, false, Option, none, some, List, [], ◌∷◌, ℤ, Bytes, Run, ok, fault,
  out_of_fuel, exited, Cmd,
}
use tour.Cache.Store.{Ptr, Hwaddr, Heap}

-- struct sockaddr_ll: the fields that the program sets or reads.
pub record SockaddrLl : Type 0 where
  pub sll_family : ℕ
  pub sll_protocol : ℕ
  pub sll_ifindex : ℤ
  pub sll_hatype : ℕ
  pub sll_halen : ℕ
  pub sll_addr : Bytes

pub data Call : Type 0 where
  sendto_ll : ℤ → Bytes → SockaddrLl → Call
  send_hwaddr : ℤ → Hwaddr → Call
  recv : ℤ → ℕ → Call
  close : ℤ → Call
  calloc : Call
  select : ℤ → List ℤ → Call
  accept : ℤ → Call
  recvfrom : ℤ → Call

-- The calls made so far, the last one first.
abbrev pub Trace : Type 0
Trace = List Call

-- What sendto and send answer is whether they succeeded. recv answers the bytes it stored, `none`
-- for -1. calloc answers the address of a zeroed node, 0 for NULL. select answers the readable
-- descriptors, `none` for -1; accept a descriptor or a negative number; recvfrom on the packet socket
-- the bytes it stored and where they came from, `none` for -1.
pub record System : Type 0 where
  pub sendto_ok : Trace → ℤ → Bytes → SockaddrLl → Bool
  pub send_ok : Trace → ℤ → Hwaddr → Bool
  pub received : Trace → ℤ → ℕ → Option Bytes
  pub allocated : Trace → Ptr
  pub readable : Trace → ℤ → List ℤ → Option (List ℤ)
  pub accepted : Trace → ℤ → ℤ
  pub frame : Trace → ℤ → Option (Bytes × SockaddrLl)

-- The state of the ARP daemon: the heap, its static `cache`, and what it has asked of the system.
pub record Daemon : Type 0 where
  pub heap : Heap
  pub cache : Ptr
  pub trace : Trace

-- A command on the heap, run by the daemon.
unfoldable pub on_heap : {A : Type 0} → Cmd Heap A → Cmd Daemon A
on_heap m s = elim (m s.heap) [
  | ok a h ↦ ok a (record s { heap = h })
  | fault ↦ fault
  | out_of_fuel ↦ out_of_fuel
  | exited n h ↦ exited n (record s { heap = h })
]

abbrev pub get : Cmd Daemon Daemon
get s = ok s s

abbrev pub log : Call → Cmd Daemon (Unit {0})
log c s = ok tt (record s { trace = c ∷ s.trace })

abbrev pub set_cache : Ptr → Cmd Daemon (Unit {0})
set_cache p s = ok tt (record s { cache = p })

module _ (sys : System) where
  unfoldable pub sys_sendto_ll : ℤ → Bytes → SockaddrLl → Cmd Daemon Bool
  sys_sendto_ll sock frame dest s =
      ok (sys.sendto_ok s.trace sock frame dest)
        (record s { trace = sendto_ll sock frame dest ∷ s.trace })

  unfoldable pub sys_send_hwaddr : ℤ → Hwaddr → Cmd Daemon Bool
  sys_send_hwaddr sock hw s =
      ok (sys.send_ok s.trace sock hw) (record s { trace = send_hwaddr sock hw ∷ s.trace })

  unfoldable pub sys_recv : ℤ → ℕ → Cmd Daemon (Option Bytes)
  sys_recv sock size s =
      ok (sys.received s.trace sock size) (record s { trace = recv sock size ∷ s.trace })

  unfoldable pub sys_calloc : Cmd Daemon Ptr
  sys_calloc s = ok (sys.allocated s.trace) (record s { trace = calloc ∷ s.trace })

  unfoldable pub sys_select : ℤ → List ℤ → Cmd Daemon (Option (List ℤ))
  sys_select nfds rset s =
      ok (sys.readable s.trace nfds rset) (record s { trace = select nfds rset ∷ s.trace })

  unfoldable pub sys_accept : ℤ → Cmd Daemon ℤ
  sys_accept sock s = ok (sys.accepted s.trace sock) (record s { trace = accept sock ∷ s.trace })

  unfoldable pub sys_recvfrom : ℤ → Cmd Daemon (Option (Bytes × SockaddrLl))
  sys_recvfrom sock s = ok (sys.frame s.trace sock) (record s { trace = recvfrom sock ∷ s.trace })
