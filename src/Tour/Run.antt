-- ===== src/Tour/Run.antt =====
-- run_tour of tour.c. Its two kinds of calls are kept apart: those on the pinging threads, which
-- ping.c makes, and those of tour.c itself.
use tour.Base.{
  ℕ, zero, suc, Bool, true, false, not, none, [], ◌∷◌, ◌++◌, if◌then◌else◌, ℤ, pos, ltb_ℤ, plus_one,
  is_negative, eqb_ℤ, Bytes, replicate, read_at, write_at, Run, ok, fault, out_of_fuel, exited, Cmd,
  pure, or_fault, ◌>>=◌, ◌>>◌,
}
use tour.Unix.{
  Calls, Kernel, connect, send, sendto, recvfrom, select, sleep, gethostbyaddr, thread_create,
  thread_cancel, thread_join, sockaddr_in, fd_set, fd_isset, call, call_for_bytes, call_from,
  call_select,
}
use tour.Ping.Threads.{Threads, Library, create_pingt, destroy_pingt}
use tour.Tour.Message.{
  TourHdr, is_positive, forward_tour, Receipt, too_short, wrong_id, accepted, accept_tour,
}
use tour.Tour.Sockets.{bind_port, mcast_join, end_tour, printed, buffer_text}

-- IP_MAXPACKET of netinet/ip.h.
abbrev pub ip_maxpacket : ℕ
ip_maxpacket = 65535

pub record Node : Type 0 where
  pub threads : Threads
  pub calls : Calls
  pub binded : Bool

abbrev pub put_calls : {A : Type 0} → Node → Run Calls A → Run Node A
put_calls s (ok a t) = ok a (record s { calls = t })
put_calls s fault = fault
put_calls s out_of_fuel = out_of_fuel
put_calls s (exited n t) = exited n (record s { calls = t })

unfoldable pub on_calls : {A : Type 0} → Cmd Calls A → Cmd Node A
on_calls m s = put_calls s (m s.calls)

unfoldable pub on_threads : (Threads → Bool × Threads) → Cmd Node Bool
on_threads f s = let r = f s.threads in ok r.0 (record s { threads = r.1 })

unfoldable pub is_binded : Cmd Node Bool
is_binded s = ok s.binded s

unfoldable pub set_binded : Cmd Node (Unit {0})
set_binded s = ok tt (record s { binded = true })

-- The word in a port that bind_port returned.
abbrev pub port_of : ℤ → ℕ
port_of (pos n) = n
port_of _ = 0

-- "<<<<< This is node %s. Tour has ended. Group members please identify yourselves. >>>>>"
abbrev pub ended_text : Bytes → Bytes
ended_text host =
    (60 ∷ 60 ∷ 60 ∷ 60 ∷ 60 ∷ 32 ∷ 84 ∷ 104 ∷ 105 ∷ 115 ∷ 32 ∷ 105 ∷ 115 ∷ 32 ∷ 110 ∷ 111 ∷ 100
      ∷ 101 ∷ 32 ∷ [])
    ++ (host
        ++ (46 ∷ 32 ∷ 84 ∷ 111 ∷ 117 ∷ 114 ∷ 32 ∷ 104 ∷ 97 ∷ 115 ∷ 32 ∷ 101 ∷ 110 ∷ 100 ∷ 101 ∷ 100
            ∷ 46 ∷ 32 ∷ 71 ∷ 114 ∷ 111 ∷ 117 ∷ 112 ∷ 32 ∷ 109 ∷ 101 ∷ 109 ∷ 98 ∷ 101 ∷ 114 ∷ 115
            ∷ 32 ∷ 112 ∷ 108 ∷ 101 ∷ 97 ∷ 115 ∷ 101 ∷ 32 ∷ 105 ∷ 100 ∷ 101 ∷ 110 ∷ 116 ∷ 105 ∷ 102
            ∷ 121 ∷ 32 ∷ 121 ∷ 111 ∷ 117 ∷ 114 ∷ 115 ∷ 101 ∷ 108 ∷ 118 ∷ 101 ∷ 115 ∷ 46 ∷ 32 ∷ 62
            ∷ 62 ∷ 62 ∷ 62 ∷ 62 ∷ []))

-- How the body of the loop is left: into the next round, by `break`, or to CLEANUP_THREADS.
pub data Step : Type 0 where
  again ended failed : Step

-- The rounds that are left are made only after `again`.
abbrev pub go_on : Cmd Node Step → Step → Cmd Node Step
go_on rest again = rest
go_on rest ended = pure ended
go_on rest failed = pure failed

-- The call of forward_tour with its send_ip; the result is whether it is not 0.
unfoldable pub send_hop : Kernel → Bytes → ℤ → TourHdr → Cmd Calls Bool
send_hop os hostip rt tour = do
  (nextip, packet) ← or_fault (forward_tour hostip tour)
  nsent ← call os (sendto rt packet (sockaddr_in 0 nextip))
  pure (if is_negative nsent then false else not (eqb_ℤ nsent (pos 0)))

-- The block under `if(!binded)`, but for its last assignment; `false` is a `goto`.
unfoldable pub join_group : Kernel → ℤ → ℤ → TourHdr → Cmd Calls Bool
join_group os udp_recv udp_send tour = do
  port ← bind_port os udp_recv tour.mcastport
  if is_negative port then pure false else do
    rc ← call os (connect udp_send (sockaddr_in (port_of port) tour.mcastip))
    if is_negative rc then pure false else mcast_join os udp_recv tour.mcastip

module _ (os : Kernel) (lib : Library) (fuel : ℕ) (host hostip : Bytes) where
  module _ (rt udp_recv udp_send : ℤ) where
    -- Forward the message, or end the tour at the last node.
    unfoldable pub pass_on : TourHdr → Cmd Calls Step
    pass_on tour =
        if is_positive tour.len
        then (do sent ← send_hop os hostip rt tour; pure (if sent then again else failed))
        else (do
          call os (sleep 5)
          nsent ← call os (send udp_send (printed (ended_text host)))
          pure (if is_negative nsent then failed else again))

    -- What follows the block under `if(!binded)`.
    unfoldable pub ping_and_pass : Bytes → TourHdr → Cmd Node Step
    ping_and_pass src_addr tour = do
      pinging ← on_threads (create_pingt lib src_addr)
      if pinging then on_calls (pass_on tour) else pure failed

    unfoldable pub enter_group : TourHdr → Cmd Node Bool
    enter_group tour = do
      binded ← is_binded
      if binded then pure true else do
        up ← on_calls (join_group os udp_recv udp_send tour)
        if up then set_binded >> pure true else pure false

    unfoldable pub visit : Bytes → Bytes → TourHdr → Cmd Node Step
    visit ip_src src_addr tour = do
      on_calls (call os (gethostbyaddr ip_src))
      up ← enter_group tour
      if up then ping_and_pass src_addr tour else pure failed

    unfoldable pub handle_receipt : Bytes → Bytes → Receipt → Cmd Node Step
    handle_receipt got source too_short = pure again
    handle_receipt got source wrong_id = pure again
    handle_receipt got source (accepted tour) = do
      ip_src ← or_fault (read_at got 12 4)
      src ← or_fault (write_at (replicate 16 0) 0 source)
      src_addr ← or_fault (read_at src 4 4)
      visit ip_src src_addr tour

    -- The raw socket is readable.
    unfoldable pub handle_packet : Cmd Node Step
    handle_packet = do
      (nread, got, source) ← on_calls (call_from os (recvfrom rt ip_maxpacket))
      if is_negative nread then pure failed else do
        receipt ← or_fault (accept_tour (replicate ip_maxpacket 0) got)
        handle_receipt got source receipt

    -- The UDP socket is readable: the message is printed.
    unfoldable pub hear_end : Cmd Node Step
    hear_end = do
      (nread, buf) ← on_calls (call_for_bytes os (recvfrom udp_recv 1024))
      if is_negative nread then pure failed else or_fault (buffer_text 1024 buf) >> pure ended

    unfoldable pub loop_body : Cmd Node Step
    loop_body = do
      rset ← or_fault (fd_set rt [])
      rset ← or_fault (fd_set udp_recv rset)
      (rv, ready) ← on_calls (
          call_select os
            (select (if ltb_ℤ udp_recv rt then plus_one rt else plus_one udp_recv) rset none))
      if is_negative rv then pure failed else do
        heard ← or_fault (fd_isset udp_recv ready)
        if heard then hear_end else do
          arrived ← or_fault (fd_isset rt ready)
          if arrived then handle_packet else pure again

    -- The loop, to the step that left it.
    unfoldable pub tour_loop : ℕ → Cmd Node Step
    tour_loop zero = λ _. out_of_fuel
    tour_loop (suc k) = let rest = tour_loop k in do step ← loop_body; go_on rest step

    -- Whether the ping receive thread was cancelled and joined.
    unfoldable pub halt_recv : Cmd Calls Bool
    halt_recv = do
      err ← call os thread_cancel
      if not (eqb_ℤ err (pos 0))
          then pure false
          else do err ← call os thread_join; pure (eqb_ℤ err (pos 0))

    -- From CLEANUP_TLIST on.
    unfoldable pub cleanup_tlist : Cmd Node Bool
    cleanup_tlist = on_threads destroy_pingt >> pure false

    -- What follows the loop.
    unfoldable pub finish : Step → Cmd Node Bool
    finish again = cleanup_tlist
    finish failed = do
      on_calls (call os thread_cancel)
      on_calls (call os thread_join)
      cleanup_tlist
    finish ended = do
      halted ← on_calls halt_recv
      if not halted then cleanup_tlist else do
        destroyed ← on_threads destroy_pingt
        if not destroyed then pure false else on_calls (end_tour os host fuel udp_recv udp_send)

    unfoldable pub run_tour : Cmd Node Bool
    run_tour = do
      err ← on_calls (call os thread_create)
      if not (eqb_ℤ err (pos 0)) then pure false else do step ← tour_loop fuel; finish step
