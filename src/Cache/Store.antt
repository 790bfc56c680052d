-- ===== src/Cache/Store.antt =====
-- struct hwaddr of api.h, struct Cache of cache.h, and the heap that holds the list's nodes.
use tour.Base.{
  ℕ, Bool, true, false, Option, none, some, ◌==◌, if◌then◌else◌, ℤ, Bytes, fault, ok, Cmd, ◌>>=◌,
}

-- struct hwaddr of api.h.
pub record Hwaddr : Type 0 where
  pub sll_ifindex : ℤ
  pub sll_ifhatype : ℕ
  pub sll_ifhalen : ℕ
  pub sll_ifaddr : Bytes
  pub sll_hatype : ℕ
  pub sll_halen : ℕ
  pub sll_addr : Bytes

-- STATE_CONNECTION, STATE_INCOMPLETE and STATE_COMPLETE.
pub data EntryState : Type 0 where
  connection incomplete complete : EntryState

abbrev pub is_connection : EntryState → Bool
is_connection connection = true
is_connection incomplete = false
is_connection complete = false

abbrev pub is_incomplete : EntryState → Bool
is_incomplete connection = false
is_incomplete incomplete = true
is_incomplete complete = false

abbrev pub is_complete : EntryState → Bool
is_complete connection = false
is_complete incomplete = false
is_complete complete = true

-- The fields of `struct Cache` but for its links. `ipaddress` holds the bytes of a struct sockaddr.
pub record Entry : Type 0 where
  pub ipaddress : Bytes
  pub domain_socket : ℤ
  pub state : EntryState
  pub hw : Hwaddr

abbrev pub sockaddr_size : ℕ
sockaddr_size = 16

abbrev pub Ptr : Type 0
Ptr = ℕ

abbrev pub null : Ptr
null = 0

pub record Cache : Type 0 where
  pub entry : Entry
  pub next : Ptr
  pub prev : Ptr

abbrev pub node : Entry → Ptr → Ptr → Cache
node e n p = record { entry = e; next = n; prev = p }

-- `none` at an address that holds no node: never allocated, or freed.
abbrev pub Heap : Type 0
Heap = Ptr → Option Cache

unfoldable pub write : Heap → Ptr → Option Cache → Heap
write h p c a = if a == p then c else h a

-- `*p`.
unfoldable pub load : Ptr → Cmd Heap Cache
load p h = if p == null then fault else elim (h p) [ none ↦ fault | some c ↦ ok c h ]

-- `*p = c`, at an address that holds a node.
unfoldable pub store : Ptr → Cache → Cmd Heap (Unit {0})
unfolding load
store p c = load p >>= λ old h. ok tt (write h p (some c))

unfoldable pub free : Ptr → Cmd Heap (Unit {0})
unfolding load
free p = load p >>= λ old h. ok tt (write h p none)

unfoldable pub set_next : Ptr → Ptr → Cmd Heap (Unit {0})
unfolding load
set_next p q = load p >>= λ c h. ok tt (write h p (some (record c { next = q })))

unfoldable pub set_prev : Ptr → Ptr → Cmd Heap (Unit {0})
unfolding load
set_prev p q = load p >>= λ c h. ok tt (write h p (some (record c { prev = q })))
