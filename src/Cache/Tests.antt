-- ===== src/Cache/Tests.antt =====
-- The cache at a list of three entries, and the theorems at it.
use tour.Base.{
  ℕ, ◌<◌, ◌≡◌, ◌≢◌, refl, true, false, none, some, [], ◌∷◌, arith, ◌==◌, if◌then◌else◌, pos, Bytes,
  bytes_eq, replicate, ok, fault, length,
}
use tour.Cache.{get_cache_by_ip_addr, update_cache, remove_from_cache}
use tour.Cache.Store.{Ptr, null, Hwaddr, Entry, complete, node, Heap}
use tour.Cache.Chain.{Cells, Chain, SameOutside}
use tour.Cache.Entries.{IsEntry, AreEntries, same_cell, matches}
use tour.Cache.Lookup.{Answer, get_cache_by_ip_addr-first}
use tour.Cache.Insert.{Added, add_to_cache-Chain}
use tour.Cache.Update.{merged, update_cache-merged}
use tour.Cache.Remove.{remove_from_cache-second}
use tour.Cache.Release.{free_cache, Freed, free_cache-Freed}
use tour.Cache.Dangling.{remove_from_cache-twice_faults}

-- An AF_INET socket address 10.0.0.n.
abbrev ip : ℕ → Bytes
ip n = 2 ∷ 0 ∷ 0 ∷ 0 ∷ 10 ∷ 0 ∷ 0 ∷ n ∷ replicate 8 0

abbrev hw_of : ℕ → Hwaddr
hw_of n = record {
  sll_ifindex = pos 2;
  sll_ifhatype = 1;
  sll_ifhalen = 6;
  sll_ifaddr = replicate 8 0;
  sll_hatype = 1;
  sll_halen = 6;
  sll_addr = n ∷ n ∷ n ∷ n ∷ n ∷ n ∷ 0 ∷ 0 ∷ [];
}

abbrev entry_of : ℕ → Entry
entry_of n = record { ipaddress = ip n; domain_socket = pos n; state = complete; hw = hw_of n }

abbrev fresh_entry : Entry
fresh_entry = entry_of 4

-- Nodes 1, 2 and 3 are linked; node 4 stands alone.
abbrev three : Heap
three a =
    if a == 1
    then some (node (entry_of 1) 2 null)
    else if a == 2
    then some (node (entry_of 2) 3 1)
    else if a == 3
    then some (node (entry_of 3) null 2)
    else if a == 4
    then some (node (entry_of 4) 7 7)
    else none

abbrev cells : Cells
cells = (1, entry_of 1) ∷ ((2, entry_of 2) ∷ ((3, entry_of 3) ∷ []))

three-Chain : Chain three null cells
three-Chain = (
  (λ e. absurd (omega arith)),
  refl,
  refl,
  ((λ e. absurd (omega arith)), refl, refl, ((λ e. absurd (omega arith)), refl, refl, tt)),
)

entry_of-IsEntry : (n : ℕ) → IsEntry (entry_of n)
entry_of-IsEntry n = record { ip_size = refl; addr_size = refl; halen = omega arith }

cells-AreEntries : AreEntries cells
cells-AreEntries = (entry_of-IsEntry 1, (entry_of-IsEntry 2, (entry_of-IsEntry 3, tt)))

four-live : ◌≢◌ {A = Ptr} 4 null
four-live e = absurd (omega arith)

two-live : ◌≢◌ {A = Ptr} 2 null
two-live e = absurd (omega arith)

one-live : ◌≢◌ {A = Ptr} 1 null
one-live e = absurd (omega arith)

-- 10.0.0.1 with its own hardware address is another entry than 10.0.0.2.
not_the_first : same_cell 2 (entry_of 2) (1, entry_of 1) ≡ false
unfolding matches bytes_eq
not_the_first = refl

three_fits : length cells < 4
three_fits = omega arith

get_cache_by_ip_addr-first_example :
    (p : Ptr) × (get_cache_by_ip_addr 4 1 (some (ip 3)) three ≡ ok p three)
    × Answer (λ x. bytes_eq x.1.ipaddress (ip 3)) cells p
get_cache_by_ip_addr-first_example =
    get_cache_by_ip_addr-first three null cells 4 three-Chain three_fits (ip 3) refl
      cells-AreEntries

add_to_cache-Chain_example : (g : Heap) × Added three 4 (entry_of 4) cells g
add_to_cache-Chain_example = add_to_cache-Chain three 4 null four-live refl cells three-Chain refl

update_cache-merged_example :
    (g : Heap) × (update_cache 4 1 2 three ≡ ok true g)
    × Chain g null
        ((1, entry_of 1) ∷ ((2, merged (entry_of 2) (entry_of 2)) ∷ ((3, entry_of 3) ∷ [])))
    × ((p : Ptr) → p ≢ 2 → g p ≡ three p)
update_cache-merged_example =
    update_cache-merged three 2 two-live refl (entry_of-IsEntry 2) null ((1, entry_of 1) ∷ []) 2
      (entry_of 2) ((3, entry_of 3) ∷ []) 4 three-Chain cells-AreEntries (entry_of-IsEntry 2)
      (not_the_first, tt) refl three_fits

remove_from_cache-second_example :
    (g : Heap) × (remove_from_cache 4 (some 1) 2 three ≡ ok (true, some 1) g)
    × Chain g null ((1, entry_of 1) ∷ ((3, entry_of 3) ∷ []))
    × (g 2 ≡ none)
    × SameOutside cells three g
remove_from_cache-second_example =
    remove_from_cache-second three 2 two-live refl (entry_of-IsEntry 2) null [] 1 2 (entry_of 1)
      (entry_of 2) ((3, entry_of 3) ∷ []) 4 three-Chain cells-AreEntries tt not_the_first refl
      three_fits

remove_from_cache-twice_faults_example :
    (g : Heap) × (remove_from_cache 4 (some 1) 1 three ≡ ok (true, some 2) g)
    × (remove_from_cache 4 (some 2) 2 g ≡ fault)
remove_from_cache-twice_faults_example =
    remove_from_cache-twice_faults three 1 2 (entry_of 1) (entry_of 2) ((3, entry_of 3) ∷ []) 3
      three-Chain

free_cache-Freed_example :
    (g : Heap) × (free_cache 4 (some 1) three ≡ ok (some null) g) × Freed three cells g
free_cache-Freed_example = free_cache-Freed 4 three null cells three-Chain three_fits
