-- ===== src/Arp/RunTests.antt =====
-- A round of the ARP daemon at caches of two entries.
use tour.Base.{
  ℕ, ◌≡◌, ◌≢◌, refl, All, ℤ, minus_one, inl, true, false, none, some, [], ◌∷◌, ◌==◌, if◌then◌else◌,
  arith, ok, fault, out_of_fuel, pos, eqb_ℤ, bytes_eq,
}
use tour.Cache.{get_cache_by_socket}
use tour.Cache.Store.{Ptr, null, Entry, complete, node, Heap}
use tour.Cache.Chain.{Chain}
use tour.Cache.Entries.{AreEntries, same_cell, matches}
use tour.World.{System, select, accept, calloc, close}
use tour.Arp.Run.{drop_client, accept_client, wait}
use tour.Arp.Run.Watch.{IsBelow, wait-covers, wait-faults}
use tour.Arp.Run.Accept.{new_client, reopened, accept_client-adds, accept_client-cycle}
use tour.Arp.Run.Drop.{closed, drop_client-second, drop_client-other}
use tour.Arp.Fixtures.{
  eth0_only, fresh_client, waiting_client, two, clients, willing, broken, daemon, two-Chain,
  clients-AreEntries,
}

-- A client connects at descriptor 8, and there is memory at address 3.
abbrev connecting : System
connecting = record willing { accepted = λ t sock. pos 8; allocated = λ t. 3 }

-- The same without memory.
abbrev full : System
full = record willing { accepted = λ t sock. pos 8; allocated = λ t. null }

wait-covers_example :
    (nfds : ℤ) × (wait willing 3 eth0_only (pos 4) (pos 3) daemon
      ≡ ok none (record daemon { trace = select nfds (pos 6 ∷ pos 5 ∷ pos 3 ∷ pos 4 ∷ []) ∷ [] }))
    × All (IsBelow nfds) (pos 6 ∷ pos 5 ∷ pos 3 ∷ pos 4 ∷ [])
wait-covers_example =
    wait-covers willing 3 eth0_only (pos 4) (pos 3) daemon null clients refl two-Chain (omega arith)
      refl refl (refl, (refl, tt))

-- An entry in the connection state without a descriptor, alone in the cache.
abbrev stray : Entry
stray = record fresh_client { domain_socket = minus_one }

abbrev one_stray : Heap
one_stray a = if a == 1 then some (node stray null null) else none

stray-Chain : Chain one_stray null ((1, stray) ∷ [])
stray-Chain = ((λ e. absurd (omega arith)), refl, refl, tt)

wait-faults_example :
    wait willing 2 eth0_only (pos 4) (pos 3) (record { heap = one_stray; cache = 1; trace = [] })
    ≡ fault
wait-faults_example =
    wait-faults willing 2 eth0_only (pos 4) (pos 3)
      (record { heap = one_stray; cache = 1; trace = [] }) null ((1, stray) ∷ []) refl stray-Chain
      (omega arith) refl refl minus_one refl (inl refl)

accept_client-adds_example :
    (g : Heap) × (accept_client connecting 3 eth0_only (pos 4) daemon
      ≡ ok tt (record { heap = g; cache = 3; trace = calloc ∷ accept (pos 4) ∷ [] }))
    × Chain g null ((3, new_client (pos 8)) ∷ clients)
    × ((p : Ptr) → p ≢ 3 → p ≢ 1 → g p ≡ two p)
accept_client-adds_example =
    accept_client-adds connecting 3 eth0_only (pos 4) daemon null clients refl two-Chain
      (omega arith) (refl, (refl, tt)) (λ e. absurd (omega arith)) refl

-- The first entry is complete.
abbrev done : Entry
done = record fresh_client { domain_socket = minus_one; state = complete }

abbrev one_done : Heap
one_done a = if a == 1 then some (node done null null) else none

done-Chain : Chain one_done null ((1, done) ∷ [])
done-Chain = ((λ e. absurd (omega arith)), refl, refl, tt)

accept_client-cycle_example :
    (g : Heap) × (accept_client willing 2 eth0_only
        (pos 4)
        (record { heap = one_done; cache = 1; trace = [] })
      ≡ ok tt (record { heap = g; cache = 1; trace = accept (pos 4) ∷ [] }))
    × (g 1 ≡ some (node (reopened done) 1 1))
    × ((sock : ℤ) (k : ℕ)
        → eqb_ℤ minus_one sock ≡ false
        → get_cache_by_socket k 1 sock g ≡ out_of_fuel)
accept_client-cycle_example =
    accept_client-cycle willing 2 eth0_only (pos 4)
      (record { heap = one_done; cache = 1; trace = [] }) null 1 done [] refl done-Chain
      (omega arith) refl

differ : same_cell 2 (closed waiting_client) (1, fresh_client) ≡ false
unfolding matches bytes_eq
differ = refl

drop_client-second_example :
    (g : Heap) × (drop_client broken 3 eth0_only 2 daemon
      ≡ ok tt (record { heap = g; cache = 1; trace = close (pos 6) ∷ [] }))
    × Chain g null ((1, fresh_client) ∷ [])
    × (g 2 ≡ none)
drop_client-second_example =
    drop_client-second broken 3 eth0_only daemon null [] 1 2 fresh_client waiting_client [] refl
      two-Chain clients-AreEntries tt differ (omega arith)

-- Two clients that have just connected.
abbrev other_client : Entry
other_client = record fresh_client { domain_socket = pos 6 }

abbrev twins : Heap
twins a =
    if a == 1
    then some (node fresh_client 2 null)
    else if a == 2
    then some (node other_client null 1)
    else none

twins-Chain : Chain twins null ((1, fresh_client) ∷ ((2, other_client) ∷ []))
twins-Chain =
    ((λ e. absurd (omega arith)), refl, refl, ((λ e. absurd (omega arith)), refl, refl, tt))

twins-AreEntries : AreEntries ((1, fresh_client) ∷ ((2, other_client) ∷ []))
twins-AreEntries = (
  record { ip_size = refl; addr_size = refl; halen = omega arith },
  (record { ip_size = refl; addr_size = refl; halen = omega arith }, tt),
)

alike : matches fresh_client other_client ≡ true
unfolding matches bytes_eq
alike = refl

drop_client-other_example :
    (g : Heap) × (drop_client broken 3 eth0_only 2 (record { heap = twins; cache = 1; trace = [] })
      ≡ ok tt (record { heap = g; cache = 2; trace = close (pos 6) ∷ [] }))
    × (g 1 ≡ none)
    × (g 2 ≡ some (node (closed other_client) null 1))
drop_client-other_example =
    drop_client-other broken 3 eth0_only (record { heap = twins; cache = 1; trace = [] }) 1 2
      fresh_client other_client [] refl twins-Chain twins-AreEntries alike (omega arith)
