-- ===== src/Tour/Joins.antt =====
-- How often run_tour of tour.c joins a multicast group.
use tour.Base.{
  ℕ, suc, ◌≤◌, ◌≡◌, refl, ◌==◌, if◌then◌else◌, Bool, true, false, not, [], ◌∷◌, ℤ, Bytes, arith,
  Run, ok, fault, out_of_fuel, exited, Cmd, pure, is_negative, eqb_ℤ, pos, Returns, Keeps, Leads,
  Leads-then, Leads-bind, Leads-Keeps, Leads-pure, Leads-if, ◌>>=◌, ◌>>◌,
}
use tour.Unix.{
  Syscall, Calls, Kernel, socket, setsockopt, bind, getsockname, connect, listen, chmod, unlink,
  close, send, sendto, recv, recvfrom, select, sleep, gethostname, gethostbyname, gethostbyaddr,
  thread_create, thread_cancel, thread_join, ioctl, malloc, calloc, free, sigaction, call,
}
use tour.Unix.Plain.{
  KeptByPlain, plain-Keeps, plain_for_bytes-Keeps, plain_from-Keeps, plain_select-Keeps,
}
use tour.Tour.Sockets.{mcast_join_group, mcast_join}
use tour.Ping.Threads.{Threads, Library}
use tour.Tour.Message.{TourHdr}
use tour.Tour.Run.{
  Node, put_calls, on_calls, on_threads, is_binded, set_binded, join_group, enter_group, run_tour,
}
use tour.Tour.Loop.{Entered, tour_loop-Leads}
use tour.Tour.Keeps.{on_calls-Leads, bind_port-Keeps, pass_on-Keeps, finish-Keeps}

abbrev pub joined_by : Syscall → ℕ → ℕ
joined_by (setsockopt fd level option value) n = if option == mcast_join_group then suc n else n
joined_by _ n = n

-- How many calls of setsockopt ask to join a group.
abbrev pub joins : Calls → ℕ
joins [] = 0
joins ((c, r) ∷ t) = joined_by c (joins t)

abbrev pub AtMost : ℕ → Calls → Type 0
AtMost n t = joins t ≤ n

pub plain-AtMost : (n : ℕ) → KeptByPlain (AtMost n)
plain-AtMost n (bind fd addr) r t p v = v
plain-AtMost n (getsockname fd) r t p v = v
plain-AtMost n (connect fd addr) r t p v = v
plain-AtMost n (listen fd size) r t p v = v
plain-AtMost n (chmod path mode) r t p v = v
plain-AtMost n (unlink path) r t p v = v
plain-AtMost n (send fd buf) r t p v = v
plain-AtMost n (sendto fd buf addr) r t p v = v
plain-AtMost n (recv fd size) r t p v = v
plain-AtMost n (recvfrom fd size) r t p v = v
plain-AtMost n (select fd rset timeout) r t p v = v
plain-AtMost n (sleep seconds) r t p v = v
plain-AtMost n (gethostname size) r t p v = v
plain-AtMost n (gethostbyname name) r t p v = v
plain-AtMost n (gethostbyaddr addr) r t p v = v
plain-AtMost n thread_create r t p v = v
plain-AtMost n thread_cancel r t p v = v
plain-AtMost n thread_join r t p v = v
plain-AtMost n (ioctl fd request arg) r t p v = v
plain-AtMost n (malloc size) r t p v = v
plain-AtMost n (calloc size) r t p v = v
plain-AtMost n (free address) r t p v = v
plain-AtMost n (sigaction signum) r t p v = v
plain-AtMost n (socket domain kind protocol) r t p v = absurd (cc)
plain-AtMost n (setsockopt fd level option value) r t p v = absurd (cc)
plain-AtMost n (close fd) r t p v = absurd (cc)

-- A node that is not bound has not joined; one that is has joined at most once.
abbrev room : Bool → ℕ
room true = 1
room false = 0

abbrev pub Inv : Node → Type 0
Inv s = AtMost (room s.binded) s.calls

abbrev pub Once : Node → Type 0
Once s = AtMost 1 s.calls

pub Inv-Once : (s : Node) → Inv s → Once s
Inv-Once s v = below s.binded v
  where
    below : (b : Bool) → joins s.calls ≤ room b → joins s.calls ≤ 1
    below true v = v
    below false v = omega arith

keep_Inv :
    {A : Type 0} (s : Node) (r : Run Calls A)
    → Returns (λ _. AtMost (room s.binded)) r
    → Returns (λ _. Inv) (put_calls s r)
keep_Inv s (ok a t) v = v
keep_Inv s fault v = tt
keep_Inv s out_of_fuel v = tt
keep_Inv s (exited n t) v = tt

on_calls-Inv :
    {A : Type 0} {m : Cmd Calls A} → ((n : ℕ) → Keeps (AtMost n) m) → Keeps Inv (on_calls m)
unfolding on_calls
on_calls-Inv {m = m} k = record {
  kept = λ s v. keep_Inv s (m s.calls) ((k (room s.binded)).kept s.calls v);
}

on_threads-Inv : (f : Threads → Bool × Threads) → Keeps Inv (on_threads f)
unfolding on_threads
on_threads-Inv f = record { kept = λ s v. v }

pub AtMost-up : (t : Calls) → AtMost 0 t → AtMost 1 t
AtMost-up t v = omega arith

pub AtMost-Inv : (s : Node) → AtMost 0 s.calls → Inv s
AtMost-Inv s v = fits s.binded
  where
    fits : (b : Bool) → joins s.calls ≤ room b
    fits true = omega arith
    fits false = v

module _ (os : Kernel) where
  pub mcast_join-Leads :
      (sockfd : ℤ) (mcastip : Bytes)
      → Leads (AtMost 0) (λ _. AtMost 1) (mcast_join os sockfd mcastip)
  unfolding mcast_join call
  mcast_join-Leads sockfd mcastip = record { led = λ t v. omega arith }

  join_group-Leads :
      (udp_recv udp_send : ℤ) (tour : TourHdr)
      → Leads (AtMost 0) (λ _. AtMost 1) (join_group os udp_recv udp_send tour)
  unfolding join_group
  join_group-Leads udp_recv udp_send tour =
      Leads-bind (bind_port-Keeps os (plain-AtMost 0) udp_recv tour.mcastport) (λ port.
        Leads-if (is_negative port) (Leads-pure false AtMost-up) (
          Leads-bind (plain-Keeps os (plain-AtMost 0) _ refl) (λ rc.
            Leads-if (is_negative rc) (Leads-pure false AtMost-up)
              (mcast_join-Leads udp_recv tour.mcastip))))

  -- The flag is set once the group has been joined.
  pub bound-Leads :
      (up : Bool)
      → Leads Once (Entered Inv Once) (if up then set_binded >> pure true else pure false)
  unfolding set_binded
  bound-Leads true = record { led = λ s v. v }
  bound-Leads false = Leads-pure false (λ s v. v)

  module _ (lib : Library) (fuel : ℕ) (host hostip : Bytes) (rt udp_recv udp_send : ℤ) where
    enter_group-Leads :
        (tour : TourHdr)
        → Leads Inv
            (Entered Inv Once)
            (enter_group os lib fuel host hostip rt udp_recv udp_send tour)
    unfolding enter_group is_binded
    enter_group-Leads tour = record { led = λ s v. enter s (s.binded) refl v }
      where
        enter :
            (s : Node) (b : Bool)
            → s.binded ≡ b
            → Inv s
            → Returns (Entered Inv Once) (
                (if b
                    then pure true
                    else on_calls (join_group os udp_recv udp_send tour) >>= λ up.
                        if up then set_binded >> pure true else pure false)
                  s)
        enter s true e v = v
        enter s false e v =
            (Leads-then (on_calls-Leads (join_group-Leads udp_recv udp_send tour)) bound-Leads).led
              s (rw e at v)

    pub run_tour-Once :
        Leads Inv (λ _. Once) (run_tour os lib fuel host hostip rt udp_recv udp_send)
    unfolding run_tour
    run_tour-Once = Leads-bind (on_calls-Inv (λ n. plain-Keeps os (plain-AtMost n) _ refl)) (λ err.
        Leads-if (not (eqb_ℤ err (pos 0))) (Leads-pure false Inv-Once) (
          Leads-then
            (tour_loop-Leads os lib fuel host hostip rt udp_recv udp_send Inv-Once
              (λ src_addr. on_threads-Inv _)
              (λ ip_src. on_calls-Inv (λ n. plain-Keeps os (plain-AtMost n) _ refl))
              enter_group-Leads
              (λ tour. on_calls-Inv (λ n.
                pass_on-Keeps os (plain-AtMost n) lib fuel host hostip rt udp_recv udp_send tour))
              (on_calls-Inv (λ n. plain_from-Keeps os (plain-AtMost n) _ refl))
              (on_calls-Inv (λ n. plain_for_bytes-Keeps os (plain-AtMost n) _ refl))
              (λ k rset. on_calls-Inv (λ n. plain_select-Keeps os (plain-AtMost n) _ refl)) fuel)
            (λ step.
              Leads-Keeps
                (finish-Keeps os (plain-AtMost 1) lib fuel host hostip rt udp_recv udp_send step)
                (λ a s v. v))))
