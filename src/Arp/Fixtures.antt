-- ===== src/Arp/Fixtures.antt =====
-- A cache of two entries and one interface, for the tests of the handlers.
use tour.Base.{
  minus_one, ℕ, ◌≡◌, ◌≢◌, refl, true, false, none, some, List, [], ◌∷◌, ◌++◌, arith, pos, Bytes,
  replicate, if◌then◌else◌, ◌==◌,
}
use tour.Cache.Store.{null, Hwaddr, Entry, connection, incomplete, node, Heap}
use tour.Cache.Chain.{Cells, Chain}
use tour.Cache.Entries.{AreEntries}
use tour.World.{System, Daemon, SockaddrLl}
use tour.Arp.Device.{HwaInfo, mac_by_ifindex}

-- An AF_INET socket address 10.0.0.n.
abbrev pub inet : ℕ → Bytes
inet n = 2 ∷ 0 ∷ 0 ∷ 0 ∷ 10 ∷ 0 ∷ 0 ∷ n ∷ replicate 8 0

abbrev pub eth0 : HwaInfo
eth0 = record {
  if_name = 101 ∷ 116 ∷ 104 ∷ 48 ∷ [];
  if_haddr = 2 ∷ 0 ∷ 0 ∷ 0 ∷ 0 ∷ 9 ∷ [];
  if_index = pos 2;
  ip_alias = false;
  ip_addr = inet 9;
}

abbrev pub eth0_only : List HwaInfo
eth0_only = eth0 ∷ []

abbrev pub eth0_mac : Bytes
eth0_mac = 2 ∷ 0 ∷ 0 ∷ 0 ∷ 0 ∷ 9 ∷ []

pub eth0_ours : mac_by_ifindex eth0_only (pos 2) ≡ some eth0_mac
unfolding mac_by_ifindex
eth0_ours = refl

abbrev pub no_hw : Hwaddr
no_hw = record {
  sll_ifindex = pos 0;
  sll_ifhatype = 0;
  sll_ifhalen = 0;
  sll_ifaddr = replicate 8 0;
  sll_hatype = 0;
  sll_halen = 0;
  sll_addr = replicate 8 0;
}

-- The client at socket 5 has just connected; the one at socket 6 waits for 10.0.0.7.
abbrev pub fresh_client : Entry
fresh_client = record {
  ipaddress = replicate 16 0;
  domain_socket = pos 5;
  state = connection;
  hw = no_hw;
}

abbrev pub waiting_client : Entry
waiting_client = record {
  ipaddress = inet 7;
  domain_socket = pos 6;
  state = incomplete;
  hw = no_hw;
}

abbrev pub two : Heap
two a =
    if a == 1
    then some (node fresh_client 2 null)
    else if a == 2
    then some (node waiting_client null 1)
    else none

abbrev pub clients : Cells
clients = (1, fresh_client) ∷ ((2, waiting_client) ∷ [])

pub clients-AreEntries : AreEntries clients
clients-AreEntries = (
  record { ip_size = refl; addr_size = refl; halen = omega arith },
  (record { ip_size = refl; addr_size = refl; halen = omega arith }, tt),
)

abbrev pub one_ne : 1 ≢ null
one_ne e = absurd (omega arith)

pub two-Chain : Chain two null clients
two-Chain = ((λ e. absurd (omega arith)), refl, refl, ((λ e. absurd (omega arith)), refl, refl, tt))

-- Every call succeeds, and a client asks for 10.0.0.8.
abbrev pub willing : System
willing = record {
  sendto_ok = λ t sock frame dest. true;
  send_ok = λ t sock hw. true;
  received = λ t sock size. some (inet 8 ++ replicate 4 0);
  allocated = λ t. null;
  readable = λ t nfds rset. none;
  accepted = λ t sock. minus_one;
  frame = λ t sock. none;
}

-- A client's read fails.
abbrev pub broken : System
broken = record {
  sendto_ok = λ t sock frame dest. true;
  send_ok = λ t sock hw. true;
  received = λ t sock size. none;
  allocated = λ t. null;
  readable = λ t nfds rset. none;
  accepted = λ t sock. minus_one;
  frame = λ t sock. none;
}

abbrev pub daemon : Daemon
daemon = record { heap = two; cache = 1; trace = [] }

abbrev pub from_eth0 : SockaddrLl
from_eth0 = record {
  sll_family = 17;
  sll_protocol = 0;
  sll_ifindex = pos 2;
  sll_hatype = 1;
  sll_halen = 6;
  sll_addr = 2 ∷ 0 ∷ 0 ∷ 0 ∷ 0 ∷ 7 ∷ 0 ∷ 0 ∷ [];
}
