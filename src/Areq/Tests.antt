-- ===== src/Areq/Tests.antt =====
-- areq with a daemon that answers.
use tour.Base.{[], ◌∷◌, ◌++◌, ℤ, pos, replicate, Ends, refl, read_at, arith}
use tour.Unix.{Syscall, Kernel, socket, select, recv}
use tour.Areq.{show_hwa, print_hwa, areq}
use tour.Areq.Closes.{Closed}
use tour.Areq.Returns.{IsPrinted, areq-returns}

-- The socket is 3, one socket is readable, and the daemon sends a whole struct hwaddr.
abbrev returned : Syscall → ℤ
returned (socket domain kind protocol) = pos 3
returned (select nfds rset timeout) = pos 1
returned (recv fd size) = pos 28
returned _ = pos 0

abbrev serving : Kernel
serving = record {
  result = λ t c. returned c;
  stored = λ t c. replicate 18 0 ++ (6 ∷ replicate 9 2);
  source = λ t c. [];
  ready = λ t c. pos 3 ∷ [];
}

serving-IsPrinted : IsPrinted serving
unfolding show_hwa print_hwa read_at
serving-IsPrinted t fd = (replicate 6 2, refl)

areq-returns_example : Ends (Closed []) (areq serving (replicate 16 0) 16 [])
areq-returns_example =
    areq-returns serving (replicate 16 0) 16 [] serving-IsPrinted (omega arith) (λ open_now. refl)
