-- ===== src/Tour/Once.antt =====
-- How often main of tour.c joins a multicast group.
use tour.Base.{
  ℕ, ◌≤◌, ◌≡◌, refl, Bool, true, false, not, List, [], ◌∷◌, ℤ, Bytes, arith, Cmd, pure, is_negative,
  Returns, Keeps-bind, Keeps-or_fault, Leads, Leads-then, Leads-bind, Leads-Keeps, Leads-pure,
  Leads-if, ◌>>=◌, ◌>>◌, if◌then◌else◌, Keeps-pure,
}
use tour.Unix.{Kernel, call, socket, close, af_inet, sock_dgram, sock_raw}
use tour.Unix.Keeps.{call-Keeps}
use tour.Unix.Plain.{plain-Keeps, plain_for_bytes-Keeps}
use tour.Ping.Threads.{Library}
use tour.Tour.Args.{valid_args}
use tour.Tour.Message.{ipproto_tour}
use tour.Tour.Sockets.{buffer_text}
use tour.Tour.Run.{Node, on_calls, port_of}
use tour.Tour.Loop.{Entered}
use tour.Tour.Keeps.{on_calls-Keeps, on_calls-Leads, bind_port-Keeps, getipbyhost-Keeps}
use tour.Tour.Opens.{send_first-Keeps}
use tour.Tour.Joins.{
  joins, AtMost, plain-AtMost, Inv, Once, AtMost-up, AtMost-Inv, mcast_join-Leads, bound-Leads,
  run_tour-Once,
}
use tour.Tour.Main.{
  mcast_addr, open_tour, begin, tour_and_run, with_sockets, with_udp_recv, with_rt, main,
}

-- No group has been joined.
abbrev Fresh : Node → Type 0
Fresh s = AtMost 0 s.calls

Fresh-Once : (s : Node) → Fresh s → Once s
Fresh-Once s v = AtMost-up (s.calls) v

module _ (os : Kernel) where
  module _ (hostip : Bytes) (rt udp_recv udp_send : ℤ) where
    open_tour-Leads :
        (hosts : List Bytes)
        → Leads (AtMost 0) (λ _. AtMost 1) (open_tour os hostip rt udp_recv udp_send hosts)
    unfolding open_tour
    open_tour-Leads hosts = Leads-bind (bind_port-Keeps os (plain-AtMost 0) udp_recv 0) (λ port.
        Leads-if (is_negative port) (Leads-pure false AtMost-up) (
          Leads-then (mcast_join-Leads os udp_recv mcast_addr) (λ joined.
            Leads-if (not joined) (Leads-pure false (λ t v. v)) (
              Leads-bind (plain-Keeps os (plain-AtMost 1) _ refl) (λ rc.
                Leads-if (is_negative rc) (Leads-pure false (λ t v. v)) (
                  Leads-Keeps
                    (send_first-Keeps os (plain-AtMost 1) hostip rt udp_recv udp_send (port_of port)
                      hosts)
                    (λ a t v. v)))))))

    begin-Leads :
        (hosts : List Bytes)
        → Leads Fresh (Entered Inv Once) (begin os hostip rt udp_recv udp_send hosts)
    unfolding begin
    begin-Leads [] = Leads-pure true AtMost-Inv
    begin-Leads (h ∷ hs) =
        Leads-then (on_calls-Leads (open_tour-Leads (h ∷ hs))) (λ started. bound-Leads os started)

  begun_or_failed :
      (started : Bool) {m : Cmd Node ℕ}
      → Leads Inv (λ _. Once) m
      → Leads (Entered Inv Once started) (λ _. Once) (if not started then pure 1 else m)
  begun_or_failed true k = k
  begun_or_failed false k = Leads-pure 1 (λ s v. v)

  module _ (lib : Library) (fuel : ℕ) (hosts : List Bytes) where
    tour_and_run-Leads :
        (host hostip : Bytes) (rt udp_recv udp_send : ℤ)
        → Leads Fresh (λ _. Once) (tour_and_run os lib fuel hosts host hostip rt udp_recv udp_send)
    unfolding tour_and_run
    tour_and_run-Leads host hostip rt udp_recv udp_send =
        Leads-then (begin-Leads hostip rt udp_recv udp_send hosts) (λ started.
          begun_or_failed started (
            Leads-then (run_tour-Once os lib fuel host hostip rt udp_recv udp_send)
              (λ ran. Leads-pure _ (λ s v. v))))

    with_sockets-Leads :
        (rt udp_recv udp_send : ℤ)
        → Leads Fresh (λ _. Once) (with_sockets os lib fuel hosts rt udp_recv udp_send)
    unfolding with_sockets
    with_sockets-Leads rt udp_recv udp_send =
        Leads-bind (on_calls-Keeps (plain_for_bytes-Keeps os (plain-AtMost 0) _ refl))
          λ (named, name). Leads-if (is_negative named) (Leads-pure 1 Fresh-Once) (
            Leads-bind (Keeps-or_fault (buffer_text 64 name)) (λ host.
              Leads-bind (on_calls-Keeps (getipbyhost-Keeps os (plain-AtMost 0) host))
                (λ found. tour_and_run-Leads host _ rt udp_recv udp_send)))

-- A socket is opened, used and closed.
scope-Leads :
    (os : Kernel) (domain kind protocol : ℕ) {m : ℤ → Cmd Node ℕ}
    → ((fd : ℤ) → Leads Fresh (λ _. Once) (m fd))
    → Leads Fresh
        (λ _. Once)
        (on_calls (call os (socket domain kind protocol)) >>= λ fd.
          if is_negative fd
          then pure 1
          else m fd >>= λ status. on_calls (call os (close fd)) >> pure status)
scope-Leads os domain kind protocol inner =
    Leads-bind (on_calls-Keeps (call-Keeps _ _ (λ r t v. v))) (λ fd.
      Leads-if (is_negative fd) (Leads-pure 1 Fresh-Once) (
        Leads-then (inner fd) (λ status.
          Leads-Keeps (Keeps-bind (on_calls-Keeps (call-Keeps _ _ (λ r t v. v))) (λ _. Keeps-pure))
            (λ a s v. v))))

module _ (os : Kernel) (lib : Library) (fuel : ℕ) (hosts : List Bytes) where
  with_rt-Leads : (rt : ℤ) → Leads Fresh (λ _. Once) (with_rt os lib fuel hosts rt)
  unfolding with_rt with_udp_recv
  with_rt-Leads rt = Leads-bind (on_calls-Keeps (call-Keeps _ _ (λ r t v. v))) (λ rc.
      Leads-if (is_negative rc) (Leads-pure 1 Fresh-Once) (
        scope-Leads os af_inet sock_dgram 0 (λ udp_recv.
          scope-Leads os af_inet sock_dgram 0
            (λ udp_send. with_sockets-Leads os lib fuel hosts rt udp_recv udp_send))))

  -- From a log without a request to join a multicast group, wherever main returns, the log has at most
  -- one, however many messages have come.
  pub main-joins_once :
      (program : Bytes) (s : Node)
      → joins s.calls ≡ 0
      → Returns (λ _ s'. joins s'.calls ≤ 1) (main os lib fuel hosts program s)
  unfolding main
  main-joins_once program s none_yet =
      (Leads-if (not (valid_args (program ∷ hosts))) (Leads-pure 1 Fresh-Once)
          (scope-Leads os af_inet sock_raw ipproto_tour with_rt-Leads)).led
        s (omega arith)
