-- ===== src/Arp/Handle.antt =====
-- handle_areq of arp.c, on the daemon's state.
use tour.Base.{
  ℕ, ◌+◌, Bool, true, false, not, Option, none, some, List, [], ◌∷◌, ◌==◌, if◌then◌else◌, ℤ, Bytes,
  length, drop, read_at, word_of, replicate, exited, Cmd, pure, or_fault, ◌>>=◌, ◌>>◌,
}
use tour.Cache.{get_cache_by_ip_addr}
use tour.Cache.Store.{Ptr, null, incomplete, is_connection, is_complete, load, store}
use tour.World.{System, Daemon, on_heap, get, sys_send_hwaddr, sys_recv}
use tour.Frame.{send_frame}
use tour.Arp.Device.{HwaInfo}
use tour.Arp.Packet.{build_arp, arp_maxlen, arphrd_ether, arpop_request, pf_inet}

-- sizeof(struct areq): a struct sockaddr and a socklen_t.
abbrev pub areq_size : ℕ
areq_size = 20

-- sa_family, the first word of a struct sockaddr.
unfoldable pub sa_family : Bytes → Option ℕ
sa_family (lo ∷ hi ∷ rest) = some (word_of lo hi)
sa_family _ = none

-- What a buffer holds that build_arp may have changed; NULL is never passed here.
abbrev pub buffer : Option Bytes → Bytes
buffer none = []
buffer (some b) = b

module _ (sys : System) where
  -- The request that is broadcast from one interface.
  unfoldable pub send_request : ℤ → Bytes → HwaInfo → Cmd Daemon Bool
  send_request pf_socket addr device = do
    (arpsize, packet) ← or_fault (
        build_arp (some (replicate arp_maxlen 0)) arp_maxlen arphrd_ether pf_inet 6 4 arpop_request
          (record {
            send_hwa = some device.if_haddr;
            send_pro = some (drop 4 device.ip_addr);
            target_hwa = none;
            target_pro = some (drop 4 addr);
          }))
    send_frame sys pf_socket (buffer packet) arpsize (some (replicate 8 0xFF))
        (some device.if_haddr) device.if_index

  -- The loop over the interfaces; it ends at the first frame that cannot be sent.
  unfoldable pub broadcast : ℤ → Bytes → List HwaInfo → Cmd Daemon Bool
  broadcast pf_socket addr [] = pure true
  broadcast pf_socket addr (device ∷ rest) =
      let next = broadcast pf_socket addr rest in
      do sent ← send_request pf_socket addr device; if sent then next else pure false

  -- A request for an address with no complete entry.
  unfoldable pub ask_network : ℤ → Ptr → Bytes → List HwaInfo → Cmd Daemon Bool
  ask_network pf_socket conn_entry addr devices = do
    c ← on_heap (load conn_entry)
    on_heap (
        store conn_entry
          (record c { entry = record (c.entry) { state = incomplete; ipaddress = addr } }))
    broadcast pf_socket addr devices

  -- A request for an IPv4 address.
  unfoldable pub answer_areq : ℕ → ℤ → Ptr → Bytes → List HwaInfo → Cmd Daemon Bool
  answer_areq fuel pf_socket conn_entry addr devices = do
    s ← get
    completed ← on_heap (get_cache_by_ip_addr fuel s.cache (some addr))
    if completed == null then ask_network pf_socket conn_entry addr devices else do
      done ← on_heap (load completed)
      if not (is_complete done.entry.state)
          then ask_network pf_socket conn_entry addr devices
          else do
            conn ← on_heap (load conn_entry)
            sys_send_hwaddr sys conn.entry.domain_socket done.entry.hw
            pure false

  -- The result is whether requests were sent; 0 tells the caller to drop the entry.
  unfoldable pub handle_areq : ℕ → ℤ → Ptr → List HwaInfo → Cmd Daemon Bool
  handle_areq fuel pf_socket conn_entry devices = do
    conn ← on_heap (load conn_entry)
    if not (is_connection conn.entry.state) then exited 1 else do
      got ← sys_recv sys conn.entry.domain_socket (areq_size + 1)
      elim got [
        | none ↦ pure false
        | some recvbuf ↦ if not (length recvbuf == areq_size) then pure false else do
          addr ← or_fault (read_at recvbuf 0 16)
          family ← or_fault (sa_family addr)
          if not (family == pf_inet)
              then pure false
              else answer_areq fuel pf_socket conn_entry addr devices
      ]
