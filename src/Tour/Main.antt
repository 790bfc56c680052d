-- ===== src/Tour/Main.antt =====
-- main and start_tour of tour.c, with their calls; the message itself is made as in Start.
use tour.Base.{
  ℕ, ◌-◌, ◌*◌, ◌%◌, Bool, true, false, not, Option, none, some, List, [], ◌∷◌, if◌then◌else◌, ℤ,
  is_negative, Bytes, length, replicate, write_at, Cmd, pure, or_fault, ◌>>=◌, ◌>>◌,
}
use tour.Unix.{
  Calls, Kernel, socket, setsockopt, connect, close, gethostname, af_inet, sock_raw, sock_dgram,
  sockaddr_in, call, call_for_bytes,
}
use tour.Ping.Threads.{Library}
use tour.Tour.Args.{valid_args}
use tour.Tour.Message.{ipproto_tour}
use tour.Tour.Sockets.{ipproto_ip, bind_port, mcast_join, getipbyhost, buffer_text}
use tour.Tour.Run.{Node, on_calls, set_binded, port_of, send_hop, run_tour}

-- IP_HDRINCL of netinet/in.h.
abbrev pub ip_hdrincl : ℕ
ip_hdrincl = 3

-- MCAST_ADDR, "233.3.3.3".
abbrev pub mcast_addr : Bytes
mcast_addr = 233 ∷ 3 ∷ 3 ∷ 3 ∷ []

-- TOUR_MAXPACKET without the fixed part of the header: the memory of `ips`.
abbrev pub tourmsg_ips : ℕ
tourmsg_ips = 65507

-- What follows a result that may be missing, and the return value where it is.
abbrev pub on_some : {S A B : Type 0} → Option A → B → (A → Cmd S B) → Cmd S B
on_some none b k = pure b
on_some (some a) b k = k a

module _ (os : Kernel) where
  -- The loop over the hosts; `none` is the return of 0.
  unfoldable pub fill_hosts : List Bytes → ℕ → Bytes → Cmd Calls (Option Bytes)
  fill_hosts [] j ips = pure (some ips)
  fill_hosts (name ∷ rest) j ips = do
    found ← getipbyhost os name
    on_some found none
        λ a. do ips' ← or_fault (write_at ips (4 * j) a); fill_hosts rest (j - 1) ips'

  module _ (hostip : Bytes) (rt udp_recv udp_send : ℤ) where
    unfoldable pub send_first : ℕ → List Bytes → Cmd Calls Bool
    send_first port hosts = do
      filled ← fill_hosts hosts (length hosts - 1) (replicate tourmsg_ips 0)
      on_some filled false λ ips.
          send_hop os hostip rt (record {
            mcastip = mcast_addr;
            mcastport = port;
            len = length hosts % 65536;
            ips = ips;
          })

    unfoldable pub open_tour : List Bytes → Cmd Calls Bool
    open_tour hosts = do
      port ← bind_port os udp_recv 0
      if is_negative port then pure false else do
        joined ← mcast_join os udp_recv mcast_addr
        if not joined then pure false else do
          rc ← call os (connect udp_send (sockaddr_in (port_of port) mcast_addr))
          if is_negative rc then pure false else send_first (port_of port) hosts

    -- The block under `if(argc > 1)`; `false` is the jump.
    unfoldable pub begin : List Bytes → Cmd Node Bool
    begin [] = pure true
    begin (h ∷ hs) = do
      started ← on_calls (open_tour (h ∷ hs))
      if started then set_binded >> pure true else pure false

  module _ (lib : Library) (fuel : ℕ) (hosts : List Bytes) where
    -- From there to run_tour; the exit status.
    unfoldable pub tour_and_run : Bytes → Bytes → ℤ → ℤ → ℤ → Cmd Node ℕ
    tour_and_run host hostip rt udp_recv udp_send = do
      started ← begin hostip rt udp_recv udp_send hosts
      if not started then pure 1 else do
        ran ← run_tour os lib fuel host hostip rt udp_recv udp_send
        pure (if ran then 0 else 1)

    -- From gethostname to CLOSE_UDP_SEND. The global `hostip` is 0 if the lookup fails.
    unfoldable pub with_sockets : ℤ → ℤ → ℤ → Cmd Node ℕ
    with_sockets rt udp_recv udp_send = do
      (named, name) ← on_calls (call_for_bytes os (gethostname 64))
      if is_negative named then pure 1 else do
        host ← or_fault (buffer_text 64 name)
        found ← on_calls (getipbyhost os host)
        tour_and_run host (elim found [ none ↦ replicate 4 0 | some a ↦ a ]) rt udp_recv udp_send

    -- From the socket that sends to CLOSE_UDP_RECV.
    unfoldable pub with_udp_recv : ℤ → ℤ → Cmd Node ℕ
    with_udp_recv rt udp_recv = do
      udp_send ← on_calls (call os (socket af_inet sock_dgram 0))
      if is_negative udp_send then pure 1 else do
        status ← with_sockets rt udp_recv udp_send
        on_calls (call os (close udp_send))
        pure status

    -- From IP_HDRINCL to CLOSE_RT.
    unfoldable pub with_rt : ℤ → Cmd Node ℕ
    with_rt rt = do
      rc ← on_calls (call os (setsockopt rt ipproto_ip ip_hdrincl (1 ∷ 0 ∷ 0 ∷ 0 ∷ [])))
      if is_negative rc then pure 1 else do
        udp_recv ← on_calls (call os (socket af_inet sock_dgram 0))
        if is_negative udp_recv then pure 1 else do
          status ← with_udp_recv rt udp_recv
          on_calls (call os (close udp_recv))
          pure status

    -- The exit status of main with these host arguments.
    unfoldable pub main : Bytes → Cmd Node ℕ
    main program = if not (valid_args (program ∷ hosts)) then pure 1 else do
      rt ← on_calls (call os (socket af_inet sock_raw ipproto_tour))
      if is_negative rt
          then pure 1
          else do status ← with_rt rt; on_calls (call os (close rt)); pure status
