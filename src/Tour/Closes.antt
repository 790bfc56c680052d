-- ===== src/Tour/Closes.antt =====
-- The sockets of main of tour.c.
use mathlib.Core.List.{reverse, reverse-append}
use tour.Base.{
  ◌>>=◌, ◌>>◌, ◌∙◌, if◌then◌else◌, ℕ, ◌≡◌, refl, sym, ap, not, List, [], ◌∷◌, ◌++◌, ℤ, is_negative,
  append_assoc, Bytes, Run, ok, fault, out_of_fuel, exited, Cmd, pure, Returns, Keeps, Keeps-bind,
  Keeps-pure, Keeps-if, Keeps-or_fault, Keeps-Leads, Returns-and_then, Bool-cases, inl, inr,
}
use tour.Unix.{
  Calls, Kernel, Syscall, setsockopt, socket, close, af_inet, sock_dgram, sock_raw, call,
}
use tour.Unix.Balance.{opened, closed, Holds}
use tour.Unix.Plain.{KeptByPlain, plain-Keeps, plain-Holds}
use tour.Tour.Opens.{send_first-Keeps}
use tour.Unix.Keeps.{call-Keeps, call_for_bytes-Keeps}
use tour.Ping.Threads.{Library}
use tour.Tour.Args.{valid_args}
use tour.Tour.Message.{ipproto_tour}
use tour.Tour.Sockets.{mcast_join, ipproto_ip, buffer_text}
use tour.Tour.Run.{Node, on_calls, port_of}
use tour.Tour.Keeps.{
  bind_port-Keeps, getipbyhost-Keeps, set_binded-Keeps, on_calls-Keeps, run_tour-Leads,
}
use tour.Tour.Main.{
  ip_hdrincl, mcast_addr, open_tour, begin, tour_and_run, with_sockets, with_udp_recv, with_rt,
  main,
}

module _ (os : Kernel) (fds cs : List ℤ) where
  abbrev grow : KeptByPlain (Holds fds cs)
  grow = plain-Holds fds cs

  mcast_join-Keeps :
      (sockfd : ℤ) (mcastip : Bytes) → Keeps (Holds fds cs) (mcast_join os sockfd mcastip)
  unfolding mcast_join
  mcast_join-Keeps sockfd mcastip = Keeps-bind (call-Keeps _ _ (λ r t v. v)) (λ joined. Keeps-pure)

  module _ (hostip : Bytes) (rt udp_recv udp_send : ℤ) where
    open_tour-Keeps :
        (hosts : List Bytes) → Keeps (Holds fds cs) (open_tour os hostip rt udp_recv udp_send hosts)
    unfolding open_tour
    open_tour-Keeps hosts = Keeps-bind (bind_port-Keeps os grow udp_recv 0) (λ port.
        Keeps-if (is_negative port) Keeps-pure (
          Keeps-bind (mcast_join-Keeps udp_recv mcast_addr) (λ joined.
            Keeps-if (not joined) Keeps-pure (
              Keeps-bind (plain-Keeps os grow _ refl) (λ rc.
                Keeps-if (is_negative rc) Keeps-pure
                  (send_first-Keeps os grow hostip rt udp_recv udp_send (port_of port) hosts))))))

    begin-Keeps :
        (hosts : List Bytes)
        → Keeps (λ s. Holds fds cs s.calls) (begin os hostip rt udp_recv udp_send hosts)
    unfolding begin
    begin-Keeps [] = Keeps-pure
    begin-Keeps (h ∷ hs) = Keeps-bind (on_calls-Keeps (open_tour-Keeps (h ∷ hs))) (λ started.
        Keeps-if started (Keeps-bind (set_binded-Keeps os grow) (λ _. Keeps-pure)) Keeps-pure)

  with_sockets-Keeps :
      (lib : Library) (fuel : ℕ) (hosts : List Bytes) (rt udp_recv udp_send : ℤ)
      → Keeps (λ s. Holds fds cs s.calls) (with_sockets os lib fuel hosts rt udp_recv udp_send)
  unfolding with_sockets tour_and_run
  with_sockets-Keeps lib fuel hosts rt udp_recv udp_send =
      Keeps-bind (on_calls-Keeps (call_for_bytes-Keeps _ _ (λ r t v. v))) (λ (named, name).
        Keeps-if (is_negative named) Keeps-pure (
          Keeps-bind (Keeps-or_fault (buffer_text 64 name)) (λ host.
            Keeps-bind (on_calls-Keeps (getipbyhost-Keeps os grow host)) (λ found.
              Keeps-bind (begin-Keeps _ rt udp_recv udp_send hosts) (λ started.
                Keeps-if (not started) Keeps-pure (
                  Keeps-bind
                    (Keeps-Leads (
                      run_tour-Leads os grow lib fuel host _ rt udp_recv udp_send
                        (λ mcastip. mcast_join-Keeps udp_recv mcastip)))
                    (λ ran. Keeps-pure)))))))

-- The sockets opened since a log are closed again, the last one first.
abbrev pub Closed : Calls → Calls → Type 0
Closed t t' = (new : List ℤ) × (opened t' ≡ new ++ opened t) × (closed t' ≡ reverse new ++ closed t)

abbrev ClosedAfter : Node → Cmd Node ℕ → Type 0
ClosedAfter s m = Returns (λ _ s'. Closed s.calls s'.calls) (m s)

kept-Closed :
    (s : Node) (r : Run Node ℕ)
    → Returns (λ _ s'. Holds (opened s.calls) (closed s.calls) s'.calls) r
    → Returns (λ _ s'. Closed s.calls s'.calls) r
kept-Closed s (ok a s') (o, c) = ([], o, c)
kept-Closed s fault v = tt
kept-Closed s out_of_fuel v = tt
kept-Closed s (exited n s') v = tt

module _ (os : Kernel) (domain kind protocol : ℕ) (m : ℤ → Cmd Node ℕ) where
  -- A socket is opened, used and closed.
  scope-Closed :
      (s : Node)
      → ((fd : ℤ) (s' : Node) → ClosedAfter s' (m fd))
      → ClosedAfter s (
          on_calls (call os (socket domain kind protocol)) >>= λ fd.
          if is_negative fd
          then pure 1
          else m fd >>= λ status. on_calls (call os (close fd)) >> pure status)
  unfolding on_calls call
  scope-Closed s inner = elim (Bool-cases (is_negative fd)) [
    | inl none_left ↦ rw none_left ([], rw none_left refl, refl)
    | inr open_now ↦ rw open_now (
        Returns-and_then (λ _ s'. Closed s1.calls s'.calls) (λ _ s'. Closed s.calls s'.calls)
          (m fd s1) _ (inner fd s1)
          (λ status s' (new, o, c). (
            new ++ (fd ∷ []),
            o ∙ rw open_now (sym (append_assoc new (fd ∷ []) (opened s.calls))),
            ap (λ cs. fd ∷ cs) c
                ∙ ap (λ xs. xs ++ closed s.calls) (sym (reverse-append new (fd ∷ []))),
          )))
  ]
    where
      fd : ℤ
      fd = os.result s.calls (socket domain kind protocol)

      s1 : Node
      s1 = record s { calls = (socket domain kind protocol, fd) ∷ s.calls }

module _ (os : Kernel) (lib : Library) (fuel : ℕ) (hosts : List Bytes) where
  with_udp_recv-Closed :
      (rt udp_recv : ℤ) (s : Node) → ClosedAfter s (with_udp_recv os lib fuel hosts rt udp_recv)
  unfolding with_udp_recv
  with_udp_recv-Closed rt udp_recv s =
      scope-Closed os af_inet sock_dgram 0 (with_sockets os lib fuel hosts rt udp_recv) s
        (λ udp_send s'. kept-Closed s' (with_sockets os lib fuel hosts rt udp_recv udp_send s') (
          (with_sockets-Keeps os (opened s'.calls) (closed s'.calls) lib fuel hosts rt udp_recv
              udp_send).kept
            s' (refl, refl)))

  with_rt-Closed : (rt : ℤ) (s : Node) → ClosedAfter s (with_rt os lib fuel hosts rt)
  unfolding with_rt on_calls call
  with_rt-Closed rt s = elim (Bool-cases (is_negative rc)) [
    | inl bad ↦ rw bad ([], refl, refl)
    | inr good ↦ rw good (
        scope-Closed os af_inet sock_dgram 0 (with_udp_recv os lib fuel hosts rt) s1
          (λ udp_recv s'. with_udp_recv-Closed rt udp_recv s'))
  ]
    where
      opt : Syscall
      opt = setsockopt rt ipproto_ip ip_hdrincl (1 ∷ 0 ∷ 0 ∷ 0 ∷ [])

      rc : ℤ
      rc = os.result s.calls opt

      s1 : Node
      s1 = record s { calls = (opt, rc) ∷ s.calls }

  -- Wherever main returns, it has closed every socket that it opened, the last one first, and no
  -- other descriptor.
  pub main-closes :
      (program : Bytes) (s : Node)
      → Returns (λ _ s'. Closed s.calls s'.calls) (main os lib fuel hosts program s)
  unfolding main
  main-closes program s = elim (Bool-cases (valid_args (program ∷ hosts))) [
    | inl valid ↦ rw valid (
        scope-Closed os af_inet sock_raw ipproto_tour (with_rt os lib fuel hosts) s
          (λ rt s'. with_rt-Closed rt s'))
    | inr invalid ↦ rw invalid ([], refl, refl)
  ]
