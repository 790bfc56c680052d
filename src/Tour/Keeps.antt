-- ===== src/Tour/Keeps.antt =====
-- The calls of run_tour of tour.c among those that open and close sockets.
use tour.Base.{
  ℕ, zero, suc, Bool, not, [], ℤ, pos, is_negative, eqb_ℤ, Bytes, read_at, ok, fault, out_of_fuel,
  exited, Run, Cmd, Returns, Keeps, Keeps-bind, Keeps-pure, Keeps-if, Keeps-or_fault, Leads,
  Leads-bind, Leads-then, Leads-if, Leads-pure, Leads-Keeps, Keeps-Leads, refl, false,
}
use tour.Unix.{Calls, Kernel, fd_set}
use tour.Unix.Plain.{
  KeptByPlain, plain-Keeps, plain_for_bytes-Keeps, plain_from-Keeps, plain_select-Keeps,
}
use tour.Ping.Threads.{Threads, Library}
use tour.Tour.Message.{TourHdr, is_positive, forward_tour}
use tour.Tour.Sockets.{
  ip_mss, buffer_text, bind_port, mcast_join, getipbyhost, hear_members, end_tour,
}
use tour.Tour.Loop.{entered, enter_group-Keeps, tour_loop-Leads}
use tour.Tour.Run.{
  Node, put_calls, on_calls, on_threads, set_binded, Step, again, ended, failed, send_hop,
  join_group, pass_on, tour_loop, halt_recv, cleanup_tlist, finish, run_tour,
}

put_calls-Returns :
    {A : Type 0} (Q : A → Calls → Type 0) (s : Node) (r : Run Calls A)
    → Returns Q r
    → Returns (λ a s'. Q a s'.calls) (put_calls s r)
put_calls-Returns Q s (ok a t) v = v
put_calls-Returns Q s fault v = tt
put_calls-Returns Q s out_of_fuel v = tt
put_calls-Returns Q s (exited n t) v = tt

pub on_calls-Leads :
    {A : Type 0} {P : Calls → Type 0} {Q : A → Calls → Type 0} {m : Cmd Calls A}
    → Leads P Q m
    → Leads (λ s. P s.calls) (λ a s. Q a s.calls) (on_calls m)
unfolding on_calls
on_calls-Leads {Q = Q} {m = m} k = record {
  led = λ s v. put_calls-Returns Q s (m s.calls) (k.led s.calls v);
}

pub on_calls-Keeps :
    {A : Type 0} {P : Calls → Type 0} {m : Cmd Calls A}
    → Keeps P m
    → Keeps (λ s. P s.calls) (on_calls m)
on_calls-Keeps k = Keeps-Leads (on_calls-Leads (Leads-Keeps k (λ a t v. v)))

module _ (os : Kernel) {P : Calls → Type 0} (grow : KeptByPlain P) where
  pub bind_port-Keeps : (sockfd : ℤ) (port : ℕ) → Keeps P (bind_port os sockfd port)
  unfolding bind_port
  bind_port-Keeps sockfd port = Keeps-bind (plain-Keeps os grow _ refl) (λ bound.
      Keeps-if (is_negative bound) Keeps-pure (
        Keeps-bind (plain_for_bytes-Keeps os grow _ refl) (λ (named, addr).
          Keeps-if (is_negative named) Keeps-pure
            (Keeps-bind (Keeps-or_fault (read_at addr 2 2)) (λ sin_port. Keeps-pure)))))

  pub getipbyhost-Keeps : (name : Bytes) → Keeps P (getipbyhost os name)
  unfolding getipbyhost
  getipbyhost-Keeps name = Keeps-bind (plain_for_bytes-Keeps os grow _ refl) (λ (found, addrs).
      Keeps-if (eqb_ℤ found (pos 0)) Keeps-pure
        (Keeps-bind (Keeps-or_fault (read_at addrs 0 4)) (λ hostip. Keeps-pure)))

  hear_members-Keeps : (udp_recv : ℤ) (fuel : ℕ) → Keeps P (hear_members os udp_recv fuel)
  unfolding hear_members
  hear_members-Keeps udp_recv zero = record { kept = λ t v. tt }
  hear_members-Keeps udp_recv (suc k) = Keeps-bind (Keeps-or_fault (fd_set udp_recv [])) (λ rset.
      Keeps-bind (plain-Keeps os grow _ refl) (λ rv. Keeps-if (is_negative rv) Keeps-pure (
        Keeps-if (eqb_ℤ rv (pos 0)) Keeps-pure (
          Keeps-bind (plain_for_bytes-Keeps os grow _ refl) (λ (nread, got).
            Keeps-if (is_negative nread) Keeps-pure (
              Keeps-bind (Keeps-or_fault (buffer_text ip_mss got))
                (λ text. hear_members-Keeps udp_recv k)))))))

  end_tour-Keeps :
      (host : Bytes) (fuel : ℕ) (udp_recv udp_send : ℤ)
      → Keeps P (end_tour os host fuel udp_recv udp_send)
  unfolding end_tour
  end_tour-Keeps host fuel udp_recv udp_send =
      Keeps-bind (plain-Keeps os grow _ refl)
        (λ sent. Keeps-if (is_negative sent) Keeps-pure (hear_members-Keeps udp_recv fuel))

  pub send_hop-Keeps : (hostip : Bytes) (rt : ℤ) (t : TourHdr) → Keeps P (send_hop os hostip rt t)
  unfolding send_hop
  send_hop-Keeps hostip rt tour =
      Keeps-bind (Keeps-or_fault (forward_tour hostip tour))
        (λ (nextip, packet). Keeps-bind (plain-Keeps os grow _ refl) (λ nsent. Keeps-pure))

  join_group-Keeps :
      (udp_recv udp_send : ℤ) (tour : TourHdr)
      → ((mcastip : Bytes) → Keeps P (mcast_join os udp_recv mcastip))
      → Keeps P (join_group os udp_recv udp_send tour)
  unfolding join_group
  join_group-Keeps udp_recv udp_send tour joining_keeps =
      Keeps-bind (bind_port-Keeps udp_recv tour.mcastport) (λ port.
        Keeps-if (is_negative port) Keeps-pure (
          Keeps-bind (plain-Keeps os grow _ refl)
            (λ rc. Keeps-if (is_negative rc) Keeps-pure (joining_keeps tour.mcastip))))

  abbrev N : Node → Type 0
  N s = P s.calls

  on_threads-Keeps : (f : Threads → Bool × Threads) → Keeps N (on_threads f)
  unfolding on_threads
  on_threads-Keeps f = record { kept = λ s v. v }

  pub set_binded-Keeps : Keeps N set_binded
  unfolding set_binded
  set_binded-Keeps = record { kept = λ s v. v }

  module _ (lib : Library) (fuel : ℕ) (host hostip : Bytes) (rt udp_recv udp_send : ℤ) where
    pub pass_on-Keeps :
        (tour : TourHdr) → Keeps P (pass_on os lib fuel host hostip rt udp_recv udp_send tour)
    unfolding pass_on
    pass_on-Keeps tour =
        Keeps-if (is_positive tour.len)
          (Keeps-bind (send_hop-Keeps hostip rt tour) (λ sent. Keeps-pure))
          (Keeps-bind (plain-Keeps os grow _ refl)
            (λ slept. Keeps-bind (plain-Keeps os grow _ refl) (λ nsent. Keeps-pure)))

    halt_recv-Keeps : Keeps P (halt_recv os lib fuel host hostip rt udp_recv udp_send)
    unfolding halt_recv
    halt_recv-Keeps = Keeps-bind (plain-Keeps os grow _ refl) (λ err.
        Keeps-if (not (eqb_ℤ err (pos 0))) Keeps-pure
          (Keeps-bind (plain-Keeps os grow _ refl) (λ err. Keeps-pure)))

    cleanup_tlist-Keeps : Keeps N (cleanup_tlist os lib fuel host hostip rt udp_recv udp_send)
    unfolding cleanup_tlist
    cleanup_tlist-Keeps = Keeps-bind (on_threads-Keeps _) (λ _. Keeps-pure)

    pub finish-Keeps :
        (step : Step) → Keeps N (finish os lib fuel host hostip rt udp_recv udp_send step)
    unfolding finish
    finish-Keeps again = cleanup_tlist-Keeps
    finish-Keeps failed =
        Keeps-bind (on_calls-Keeps (plain-Keeps os grow _ refl))
          λ _. Keeps-bind (on_calls-Keeps (plain-Keeps os grow _ refl)) λ _. cleanup_tlist-Keeps
    finish-Keeps ended = Keeps-bind (on_calls-Keeps halt_recv-Keeps) (λ halted.
        Keeps-if (not halted) cleanup_tlist-Keeps (
          Keeps-bind (on_threads-Keeps _) (λ destroyed.
            Keeps-if (not destroyed) Keeps-pure
              (on_calls-Keeps (end_tour-Keeps host fuel udp_recv udp_send)))))

    module _ (joining_keeps : (mcastip : Bytes) → Keeps P (mcast_join os udp_recv mcastip)) where
      loop-Leads : Leads N (λ _. N) (tour_loop os lib fuel host hostip rt udp_recv udp_send fuel)
      loop-Leads =
          tour_loop-Leads os lib fuel host hostip rt udp_recv udp_send (λ s v. v)
            (λ src_addr. on_threads-Keeps _) (λ ip_src. on_calls-Keeps (plain-Keeps os grow _ refl))
            (λ tour.
              Leads-Keeps
                (enter_group-Keeps os lib fuel host hostip rt udp_recv udp_send tour
                  set_binded-Keeps
                  (on_calls-Keeps (join_group-Keeps udp_recv udp_send tour joining_keeps)))
                (entered N))
            (λ tour. on_calls-Keeps (pass_on-Keeps tour))
            (on_calls-Keeps (plain_from-Keeps os grow _ refl))
            (on_calls-Keeps (plain_for_bytes-Keeps os grow _ refl))
            (λ n rset. on_calls-Keeps (plain_select-Keeps os grow _ refl)) fuel

      pub run_tour-Leads : Leads N (λ _. N) (run_tour os lib fuel host hostip rt udp_recv udp_send)
      unfolding run_tour
      run_tour-Leads = Leads-bind (on_calls-Keeps (plain-Keeps os grow _ refl)) (λ err.
          Leads-if (not (eqb_ℤ err (pos 0))) (Leads-pure false (λ s v. v))
            (Leads-then loop-Leads (λ step. Leads-Keeps (finish-Keeps step) (λ a s v. v))))
