-- ===== src/Cache.antt =====
-- cache.h and cache.c: the doubly linked list of the ARP daemon's entries, over an explicit heap.
-- The node of `struct Cache` is its payload (`Entry`) and its two links. A loop over the list takes
-- fuel; one round for each node and one more are enough.
pub mod Chain
pub mod Dangling
pub mod Entries
pub mod Insert
pub mod Lookup
pub mod Release
pub mod Remove
pub mod Store
pub mod Update
mod Tests
use tour.Base.{
  ℕ, zero, suc, ◌%◌, ◌≡◌, refl, Bool, true, false, ◌&&◌, Option, none, some, List, [], ◌∷◌, ◌==◌,
  if◌then◌else◌, ℤ, eqb_ℤ, Bytes, memcmp_eq, read_at, write_at, Run, out_of_fuel, fault, ok, Cmd,
  pure, ◌>>=◌, ◌>>◌, or_fault,
}
use tour.Cache.Store.{
  Ptr, null, Hwaddr, Entry, Cache, node, Heap, write, load, store, free, set_next, set_prev,
  sockaddr_size,
}

-- `list` is a `Cache **`: `none` if it is NULL, else what it points at. The new head is returned.
unfoldable pub add_to_cache : Option Ptr → Ptr → Cmd Heap (Bool × Option Ptr)
add_to_cache none entry = pure (false, none)
add_to_cache (some head) entry =
    if entry == null
    then pure (false, some head)
    else (if head == null
        then set_next entry null >> set_prev entry null
        else set_next entry head >> set_prev entry null >> set_prev head entry)
      >> pure (true, some entry)

-- The comparison of two distinct nodes by content; each memcmp is reached only if what stands
-- before it in the condition holds.
unfoldable pub same_content : Entry → Entry → Option Bool
same_content a b =
    if eqb_ℤ a.hw.sll_ifindex b.hw.sll_ifindex
    then (elim (memcmp_eq a.hw.sll_addr b.hw.sll_addr b.hw.sll_halen) [
      | none ↦ none
      | some equal ↦ if equal then memcmp_eq a.ipaddress b.ipaddress sockaddr_size else some false
    ])
    else some false

unfoldable pub is_same_cache : Ptr → Ptr → Cmd Heap Bool
unfolding load same_content
is_same_cache c1 c2 =
    if c1 == null
    then pure false
    else if c2 == null
    then pure false
    else if c1 == c2
    then pure true
    else do a ← load c1; b ← load c2; or_fault (same_content a.entry b.entry)

-- `while(node != NULL) if(test) { found = node; break; } else node = node->next;`
unfoldable pub find_loop : (Ptr → Cmd Heap Bool) → ℕ → Ptr → Cmd Heap Ptr
unfolding load
find_loop test zero p = λ _. out_of_fuel
find_loop test (suc k) p =
    if p == null
    then pure null
    else do hit ← test p; if hit then pure p else do c ← load p; find_loop test k c.next

unfoldable pub get_from_cache : ℕ → Ptr → Ptr → Cmd Heap Ptr
get_from_cache fuel list entry =
    if list == null
    then pure null
    else if entry == null
    then pure null
    else find_loop (λ p. is_same_cache p entry) fuel list

unfoldable pub has_socket : ℤ → Ptr → Cmd Heap Bool
unfolding load
has_socket sock p = do c ← load p; pure (eqb_ℤ c.entry.domain_socket sock)

unfoldable pub get_cache_by_socket : ℕ → Ptr → ℤ → Cmd Heap Ptr
unfolding has_socket
get_cache_by_socket fuel list sock =
    if list == null then pure null else find_loop (has_socket sock) fuel list

unfoldable pub has_hw_addr : Bytes → Ptr → Cmd Heap Bool
unfolding load
has_hw_addr if_haddr p = do
  c ← load p
  or_fault (memcmp_eq c.entry.hw.sll_addr if_haddr c.entry.hw.sll_halen)

-- `if_haddr` is `none` for NULL.
unfoldable pub get_cache_by_hw_addr : ℕ → Ptr → Option Bytes → Cmd Heap Ptr
unfolding has_hw_addr
get_cache_by_hw_addr fuel list none = pure null
get_cache_by_hw_addr fuel list (some if_haddr) =
    if list == null then pure null else find_loop (has_hw_addr if_haddr) fuel list

unfoldable pub has_ip_addr : Bytes → Ptr → Cmd Heap Bool
unfolding load
has_ip_addr ipaddress p = do
  c ← load p
  or_fault (memcmp_eq c.entry.ipaddress ipaddress sockaddr_size)

-- `ipaddress` is `none` for NULL.
unfoldable pub get_cache_by_ip_addr : ℕ → Ptr → Option Bytes → Cmd Heap Ptr
unfolding has_ip_addr
get_cache_by_ip_addr fuel list none = pure null
get_cache_by_ip_addr fuel list (some ipaddress) =
    if list == null then pure null else find_loop (has_ip_addr ipaddress) fuel list

-- What updateCache writes into the node that it found.
unfoldable pub updated : Entry → Entry → Option Entry
updated old new = elim (read_at new.hw.sll_addr 0 new.hw.sll_halen) [
  | none ↦ none
  | some addr ↦ elim (write_at old.hw.sll_addr 0 addr) [
    | none ↦ none
    | some sll_addr ↦ some (record old {
      ipaddress = new.ipaddress;
      hw = record (old.hw) {
        sll_ifindex = new.hw.sll_ifindex;
        sll_hatype = new.hw.sll_hatype;
        sll_addr = sll_addr;
      };
    })
  ]
]

unfoldable pub update_cache : ℕ → Ptr → Ptr → Cmd Heap Bool
update_cache fuel list entry =
    if list == null then pure false else if entry == null then pure false else do
      found ← find_loop (λ p. is_same_cache p entry) fuel list
      if found == null then pure false else do
        c ← load found
        e ← load entry
        new ← or_fault (updated c.entry e.entry)
        store found (record c { entry = new })
        pure true

-- The node is taken out of the list and freed. The result is the new `*list`.
unfoldable pub unlink : Ptr → Ptr → Cmd Heap Ptr
unfolding load set_next set_prev free
unlink list found = do
  c ← load found
  head ← if c.prev == null then pure c.next else do
    set_next c.prev c.next
    if c.next == null then pure list else set_prev c.next c.prev >> pure list
  free found
  pure head

unfoldable pub remove_from_cache : ℕ → Option Ptr → Ptr → Cmd Heap (Bool × Option Ptr)
remove_from_cache fuel none entry = pure (false, none)
remove_from_cache fuel (some list) entry = if entry == null then pure (false, some list) else do
  found ← find_loop (λ p. is_same_cache p entry) fuel list
  if found == null
      then pure (false, some list)
      else do head ← unlink list found; pure (true, some head)
