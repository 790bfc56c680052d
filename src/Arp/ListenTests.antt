-- ===== src/Arp/ListenTests.antt =====
-- create_unix_domain where bind fails, and get_hw_addrs with two addresses on eth0.
use tour.Base.{
  ℕ, ◌≡◌, refl, Bool, true, false, Option, none, some, List, [], ◌∷◌, ◌++◌, map, ℤ, pos, minus_one,
  Bytes, bytes_eq, read_at, replicate, Run, ok, Ends, Returns,
}
use tour.Unix.{Syscall, Calls, Kernel, socket, bind, malloc, calloc, call, call_for_bytes}
use tour.Arp.Interfaces.{
  Listed, get_hw_addrs, read_table, list_table, items, interfaces, is_eth0, cut_alias, same_name,
  describe, ask_ifreq, leave,
}
use tour.Arp.Descriptor
use tour.Arp.Descriptor.{get_hw_addrs-Left}
use tour.Arp.Listing.{Adds, interfaces-lists}
use tour.Arp.Fixtures.{inet}
use tour.Arp.Listen.{create_unix_domain, Left, create_unix_domain-Left}

abbrev returned : Syscall → ℤ
returned (socket domain kind protocol) = pos 3
returned (bind fd addr) = minus_one
returned _ = pos 0

abbrev occupied : Kernel
occupied = record {
  result = λ t c. returned c;
  stored = λ t c. [];
  source = λ t c. [];
  ready = λ t c. [];
}

create_unix_domain-Left_example : Ends (Left occupied 0 []) (create_unix_domain occupied 0 [])
create_unix_domain-Left_example = create_unix_domain-Left occupied 0 []

-- The item of an interface eth0 with the address 10.0.0.n.
abbrev eth0_item : ℕ → Bytes
eth0_item n = (101 ∷ 116 ∷ 104 ∷ 48 ∷ replicate 12 0) ++ (inet n ++ replicate 8 0)

-- The item of the loopback interface.
abbrev lo_item : Bytes
lo_item = (108 ∷ 111 ∷ replicate 14 0) ++ (inet 1 ++ replicate 8 0)

abbrev table : List Bytes
table = lo_item ∷ (eth0_item 9 ∷ (eth0_item 8 ∷ []))

abbrev found : Syscall → ℤ
found (socket domain kind protocol) = pos 3
found (malloc size) = pos 1
found (calloc size) = pos 2
found _ = pos 0

-- Two addresses on eth0.
abbrev networked : Kernel
networked = record {
  result = λ t c. found c;
  stored = λ t c. lo_item ++ (eth0_item 9 ++ eth0_item 8);
  source = λ t c. [];
  ready = λ t c. [];
}

abbrev listed_by : Run Calls (Option (List Listed)) → Option (List Bool)
listed_by (ok (some hwas) t) = some (map (λ h. h.info.ip_alias) hwas)
listed_by _ = none

-- Two rounds for the table, then both addresses are listed, the second one as an alias.
get_hw_addrs_lists_two : listed_by (get_hw_addrs networked 2 []) ≡ some (false ∷ (true ∷ []))
unfolding get_hw_addrs read_table list_table items interfaces is_eth0 bytes_eq cut_alias same_name
    describe ask_ifreq leave call call_for_bytes read_at
get_hw_addrs_lists_two = refl

get_hw_addrs-Left_example : Returns (Descriptor.Left [] (pos 3)) (get_hw_addrs networked 2 [])
get_hw_addrs-Left_example = get_hw_addrs-Left networked 2 [] refl

interfaces-lists_example :
    Returns
      (λ out _. Adds networked (pos 3) true table [] out)
      (interfaces networked (pos 3) (0 ∷ []) [] table [])
interfaces-lists_example = interfaces-lists networked (pos 3) table []
