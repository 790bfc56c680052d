-- ===== src/Frame.antt =====
-- send_frame, which arp.c and ping.c define with the same text but for the protocol number.
pub mod Make
pub mod Layout
use tour.Base.{ℕ, Bool, false, Option, ltb, if◌then◌else◌, ℤ, Bytes, Cmd, pure, or_fault, ◌>>=◌}
use tour.World.{System, Daemon, sys_sendto_ll}
use tour.Frame.Make.{eth_data_len, eth_p_arp_sh, eth_p_ip, make_frame}

module _ (sys : System) where
  send_frame_as : ℕ → ℤ → Bytes → ℕ → Option Bytes → Option Bytes → ℤ → Cmd Daemon Bool
  send_frame_as proto sock payload size dstmac srcmac ifi_index =
      if ltb eth_data_len size then pure false else do
        (frame, dest) ← or_fault (make_frame proto payload size dstmac srcmac ifi_index)
        sys_sendto_ll sys sock frame dest

  -- send_frame of arp.c.
  unfoldable pub send_frame : ℤ → Bytes → ℕ → Option Bytes → Option Bytes → ℤ → Cmd Daemon Bool
  unfolding send_frame_as
  send_frame = send_frame_as eth_p_arp_sh

  -- send_frame of ping.c.
  unfoldable pub send_ip_frame : ℤ → Bytes → ℕ → Option Bytes → Option Bytes → ℤ → Cmd Daemon Bool
  unfolding send_frame_as
  send_ip_frame = send_frame_as eth_p_ip
