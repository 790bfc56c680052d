-- ===== src/Tour/HaltTests.antt =====
-- The last node of a tour: it pings the node before it, and hears the end of the tour.
use tour.Base.{
  ◌≡◌, refl, Bool, true, false, none, Run, ok, Option, some, List, [], ◌∷◌, ℤ, pos, Bytes, read_at,
  write_at, ◌==◌, if◌then◌else◌,
}
use tour.Unix.{
  Syscall, Calls, Kernel, fd_set, fd_isset, call, call_for_bytes, call_from, call_select, recvfrom,
  sleep,
}
use tour.Ping.Threads.{
  create, cancel, join, Threads, Library, is_pinging, create_pingt, cancel_all, join_all, free_all,
  destroy_pingt,
}
use tour.Tour.Message.{ip_len_of, ip_id_of, load_tour, accept_tour}
use tour.Tour.Run.{
  Node, is_binded, set_binded, join_group, pass_on, ping_and_pass, enter_group, visit,
  handle_receipt, handle_packet, on_calls, on_threads, hear_end, loop_body, tour_loop, halt_recv,
  finish, run_tour,
}
use tour.Tour.Sockets.{text_of, buffer_text, hear_members, bind_port, mcast_join, end_tour}

-- The message from 10.0.0.1 to 10.0.0.2 with no address left.
abbrev last_hop : Bytes
last_hop =
    0x45 ∷ 0 ∷ 0 ∷ 28 ∷ 0xF3 ∷ 0x1F ∷ 0x40 ∷ 0 ∷ 10 ∷ 237 ∷ 0 ∷ 0 ∷ 10 ∷ 0 ∷ 0 ∷ 1 ∷ 10 ∷ 0 ∷ 0 ∷ 2
    ∷ 239 ∷ 1 ∷ 2 ∷ 3 ∷ 19 ∷ 136 ∷ 0 ∷ 0 ∷ []

-- The raw socket is readable until the node has slept, then the UDP socket.
abbrev arrivals : Calls → List ℤ
arrivals [] = pos 3 ∷ []
arrivals ((sleep n, r) ∷ t) = pos 4 ∷ []
arrivals ((c, r) ∷ t) = arrivals t

abbrev stored_for : Syscall → Bytes
stored_for (recvfrom fd n) = if n == 65535 then last_hop else 60 ∷ 0 ∷ []
stored_for _ = 2 ∷ 0 ∷ 19 ∷ 136 ∷ []

abbrev last_node : Kernel
last_node = record {
  result = λ t c. pos 0;
  stored = λ t c. stored_for c;
  source = λ t c. 2 ∷ 0 ∷ 0 ∷ 0 ∷ 10 ∷ 0 ∷ 0 ∷ 1 ∷ [];
  ready = λ t c. arrivals t;
}

abbrev threads : Library
threads = record { has_memory = λ calls. true; created = λ calls tgtip. some 7 }

abbrev at_start : Node
at_start = record { threads = record { pings = []; calls = [] }; calls = []; binded = false }

abbrev threads_of : Run Node Bool → Option Threads
threads_of (ok done s) = some s.threads
threads_of _ = none

abbrev last_run : Run Node Bool
last_run =
    run_tour last_node threads 9 (98 ∷ []) (10 ∷ 0 ∷ 0 ∷ 2 ∷ []) (pos 3) (pos 4) (pos 5) at_start

run_tour_pings :
    threads_of last_run
    ≡ some (record { pings = []; calls = join 7 ∷ cancel 7 ∷ create (10 ∷ 0 ∷ 0 ∷ 1 ∷ []) ∷ [] })
unfolding run_tour finish halt_recv tour_loop loop_body hear_end on_calls on_threads end_tour
    hear_members text_of buffer_text fd_set fd_isset call call_for_bytes call_select destroy_pingt
    cancel_all join_all free_all read_at write_at is_binded set_binded join_group pass_on
    ping_and_pass enter_group visit handle_receipt handle_packet call_from ip_len_of ip_id_of
    load_tour accept_tour bind_port mcast_join is_pinging create_pingt
run_tour_pings = refl
