-- ===== src/Tour/RunTests.antt =====
-- The tour program on a host whose calls all succeed.
use tour.Base.{
  ◌≡◌, ◌≤◌, refl, true, false, none, Run, ok, Option, some, [], ◌∷◌, ℤ, pos, Returns, read_at,
  write_at, ℕ,
}
use tour.Unix.{
  Syscall, Kernel, fd_set, fd_isset, call, call_for_bytes, call_select, socket, gethostbyname,
  sendto, send,
}
use tour.Ping.Threads.{Library, cancel_all, join_all, free_all, destroy_pingt}
use tour.Tour.Run.{
  Node, on_calls, on_threads, hear_end, loop_body, tour_loop, halt_recv, finish, run_tour,
}
use tour.Tour.Args.{valid_args, no_repeats}
use tour.Tour.Sockets.{text_of, buffer_text, getipbyhost, hear_members, end_tour}
use tour.Tour.Main.{begin, tour_and_run, with_sockets, with_udp_recv, with_rt, main}
use tour.Tour.Closes.{Closed, main-closes}
use tour.Tour.Joins.{joins}
use tour.Tour.Once.{main-joins_once}

abbrev returned : Syscall → ℤ
returned (socket domain kind protocol) = pos protocol
returned (gethostbyname name) = pos 1
returned (sendto fd payload dest) = pos 28
returned (send fd payload) = pos 28
returned _ = pos 0

-- The UDP socket is readable once the program waits.
abbrev calm : Kernel
calm = record {
  result = λ t c. returned c;
  stored = λ t c. 10 ∷ 0 ∷ 0 ∷ 1 ∷ 0 ∷ [];
  source = λ t c. [];
  ready = λ t c. pos 0 ∷ [];
}

abbrev threads : Library
threads = record { has_memory = λ calls. true; created = λ calls tgtip. some 7 }

abbrev at_start : Node
at_start = record { threads = record { pings = []; calls = [] }; calls = []; binded = false }

abbrev status_of : Run Node ℕ → Option ℕ
status_of (ok status s) = some status
status_of _ = none

-- It hears the end of the tour, waits in vain for the others, and leaves with EXIT_SUCCESS.
main_ends : status_of (main calm threads 9 [] (116 ∷ []) at_start) ≡ some 0
unfolding main valid_args no_repeats with_rt with_udp_recv with_sockets tour_and_run begin run_tour
    finish halt_recv tour_loop loop_body hear_end on_calls on_threads end_tour hear_members
    getipbyhost text_of buffer_text fd_set fd_isset call call_for_bytes call_select destroy_pingt
    cancel_all join_all free_all read_at write_at
main_ends = refl

main-closes_example :
    Returns (λ _ s'. Closed [] s'.calls) (main calm threads 9 [] (116 ∷ []) at_start)
main-closes_example = main-closes calm threads 9 [] (116 ∷ []) at_start

main-joins_once_example :
    Returns (λ _ s'. joins s'.calls ≤ 1) (main calm threads 9 [] (116 ∷ []) at_start)
main-joins_once_example = main-joins_once calm threads 9 [] (116 ∷ []) at_start refl
