-- ===== src/Lib.antt =====
-- tour: a multicast tour over hosts, with an ARP daemon of its own
--
-- Two programs run on each host. `arp` (arp.c, cache.c, get_hw_addrs.c) answers requests of local
-- clients, over a Unix domain socket, for the hardware address of an IP address: from its cache, or
-- by a broadcast of its own Ethernet protocol. `tour` (tour.c, ping.c, api.c) sends a message with a
-- list of hosts from host to host as raw IP packets; each host joins a multicast group and pings its
-- predecessor, for which it asks the daemon. `prhwaddrs` (prhwaddrs.c) prints the interfaces that the
-- daemon would use.
--
-- Files:
--   Base        numbers, Boolean tests, lists, C integers, byte strings (memcpy, memcmp and network
--               byte order), and the monad of C commands: a result with a state, a fault (an access
--               outside an object, or through NULL or a freed pointer), exit, or no fuel
--   World       the state of the daemon: the heap, the static `cache` of arp.c, and the calls made to
--               the system; the answers of the system are an arbitrary function of the calls
--   Cache       cache.c and cache.h: addToCache, isSameCache, updateCache, removeFromCache and the
--               lookups getFromCache, getCacheBySocket, getCacheByHWAddr, getCacheByIpAddr, on a heap
--               of nodes (Cache/Store) with both links; Cache/Release has cache_size and free_cache of
--               minunit_cache.c
--   Frame       send_frame of arp.c and of ping.c
--   Arp/Packet  struct arp_hdr of arp.h; build_arp, valid_arp and ntoh_arp of arp.c
--   Arp/Receive recv_frame, print_addresses and the frame branch of run_arp of arp.c
--   Arp/Device  struct hwa_info of get_hw_addrs.h, hwa_searchbyindex of get_hw_addrs.c, isDestination
--               and mac_by_ifindex of arp.c
--   Arp/Handle  handle_areq of arp.c
--   Arp/Answer  handle_req and handle_reply of arp.c
--   Arp/Select  maxfd of arp.c
--   Arp/Run     run_arp of arp.c: a round waits for the sockets, serves the readable clients, accepts a
--               client and handles a frame; Arp/Run/Asking and Arp/Run/Rounds are about whole rounds,
--               Arp/Run/Client about two rounds that serve a client, and Arp/Run/Exchange about two
--               daemons, one of which answers the other (Arp/ReplyFrame, Arp/Reverse, Arp/Answers and
--               Arp/Fields have its parts)
--   Arp/Listen  create_unix_domain and create_pf_socket of arp.c
--   Arp/Interfaces
--               get_hw_addrs and free_hwa_info of get_hw_addrs.c, as programs over their calls
--   Arp/Main    main, set_sig_cleanup and cleanup of arp.c
--   Unix        the calls of tour, of its threads and of areq: a log of each call with its result,
--               which an arbitrary function of the log gives; Unix/Balance and Unix/Memory count
--               what was opened and closed, allocated and freed
--   Areq        areq and print_hwa of api.c
--   Tour        valid_args, start_tour, forward_tour and send_ip of tour.c, and the checks of run_tour
--               on a received packet, as functions on messages
--   Tour/Sockets, Tour/Run, Tour/Main
--               bind_port, mcast_join, getipbyhost and end_tour, run_tour, and start_tour and main of
--               tour.c, as programs over their calls; run_tour calls create_pingt, forward_tour,
--               end_tour and destroy_pingt, and its state is the list of threads, the log and `binded`
--   Tour/Print  print_tour and print_ip of tour.c, print_mac of ping.c
--   Ping        in_cksum of ping.c, and create_pingt and destroy_pingt on the list of threads
--   Ping/Echo   run_ping_send, which calls areq, and run_ping_recv of ping.c
--   Prhwaddrs   main and ntop of prhwaddrs.c: the text that is printed, and the memory that is freed
-- Names are those of the C code with words divided by underscores. A file beside or below a model has
-- the theorems about it; the Tests files apply them to small inputs.
--
-- Bytes are lists of numbers, and a struct that is sent is the list of its bytes; the machine is
-- little-endian, so a 16-bit number is stored low byte first. A sockaddr is its 16 bytes. Reads and
-- writes outside an array give no result. sizeof(struct arp_hdr) is 58, of struct areq 20.
--
-- Fuel: the loops over the cache take a number of rounds, since a damaged list may be cyclic; one
-- round more than the list has nodes is always enough, and running out is an outcome of its own that
-- the theorems exclude. A tour takes one round for each host and one more. The loops of run_arp,
-- run_tour, end_tour and the two ping threads, and that of get_hw_addrs for the table, run until the
-- system answers so that they end; their fuel cuts them off after any number of rounds, and theorems
-- about them hold for each number. All other loops are structural.
--
-- Parameters: the answers of the system calls, of calloc and of the pthread functions, the resolver
-- of host names, and inet_ntop and inet_ntoa. The count that recv and recvfrom return is that of the bytes that they store, where it
-- is not negative.
--
-- Not modelled: the moment at which the signal handler of arp.c runs; the points at which a ping
-- thread may be cancelled, and the sharing of `host` and `hostip` between threads, which set
-- nothing; the tests of minunit_cache.c, which set fields that struct Cache no longer has; and the
-- messages on the way, but for the reads that they make. The functions of prhwaddrs.c and Tour/Print,
-- which are there to print, are modelled with their text.
pub mod Base
pub mod Unix
pub mod World
pub mod Cache
pub mod Frame
pub mod Arp
pub mod Areq
pub mod Tour
pub mod Ping
pub mod Prhwaddrs
