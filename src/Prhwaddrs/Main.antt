-- ===== src/Prhwaddrs/Main.antt =====
-- main of prhwaddrs.c.
use tour.Base.{ℕ, Option, [], Bytes, map, Cmd, pure, or_fault, ◌>>=◌, ◌>>◌}
use tour.Unix.{Calls, Kernel}
use tour.Arp.Interfaces.{nodes, free_hwa_info, get_hw_addrs}
use tour.Prhwaddrs.{show_interfaces}

-- What main prints; its exit status is always 0. The static buffer of ntop is empty at first.
unfoldable pub prhwaddrs_main : (ℕ → Bytes → Option Bytes) → Kernel → ℕ → Cmd Calls Bytes
prhwaddrs_main inet_ntop os fuel = do
  hwahead ← get_hw_addrs os fuel
  text ← or_fault (show_interfaces inet_ntop [] (map (λ h. h.info) (nodes hwahead)))
  free_hwa_info os (nodes hwahead)
  pure text
