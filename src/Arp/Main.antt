-- ===== src/Arp/Main.antt =====
-- main, set_sig_cleanup and cleanup of arp.c. What run_arp does is on the daemon's state, and every other call
-- in the log of the calls beside it. The moment at which the signal interrupts run_arp is left open.
use tour.Base.{
  ℕ, ◌+◌, Option, none, some, List, [], ◌∷◌, map, if◌then◌else◌, ℤ, is_negative, Bytes, Run, ok,
  fault, out_of_fuel, exited, Cmd, pure, ◌>>=◌, ◌>>◌,
}
use tour.Unix.{Calls, Kernel, close, unlink, sigaction, call}
use tour.World.{System, Daemon}
use tour.Areq.{arp_well_known_path}
use tour.Arp.Device.{HwaInfo}
use tour.Arp.Interfaces.{Listed, get_hw_addrs}
use tour.Arp.Listen.{create_unix_domain, create_pf_socket}
use tour.Arp.Run.{run_arp}

pub record Process : Type 0 where
  pub daemon : Daemon
  pub calls : Calls

-- SIGINT of signal.h.
abbrev pub sigint : ℕ
sigint = 2

abbrev pub put_calls : {A : Type 0} → Process → Run Calls A → Run Process A
put_calls s (ok a t) = ok a (record s { calls = t })
put_calls s fault = fault
put_calls s out_of_fuel = out_of_fuel
put_calls s (exited n t) = exited n (record s { calls = t })

abbrev pub put_daemon : {A : Type 0} → Process → Run Daemon A → Run Process A
put_daemon s (ok a d) = ok a (record s { daemon = d })
put_daemon s fault = fault
put_daemon s out_of_fuel = out_of_fuel
put_daemon s (exited n d) = exited n (record s { daemon = d })

unfoldable pub with_calls : {A : Type 0} → Cmd Calls A → Cmd Process A
with_calls m s = put_calls s (m s.calls)

unfoldable pub with_daemon : {A : Type 0} → Cmd Daemon A → Cmd Process A
with_daemon m s = put_daemon s (m s.daemon)

module _ (os : Kernel) (sys : System) (fuel rounds unset : ℕ) (stack : Bytes) where
  unfoldable pub set_sig_cleanup : Cmd Process (Unit {0})
  set_sig_cleanup = do
    rc ← with_calls (call os (sigaction sigint))
    if is_negative rc then exited 1 else pure tt

  -- The handler of the signal.
  unfoldable pub cleanup : ℕ → Cmd Process (Unit {0})
  cleanup signum = with_calls (call os (unlink arp_well_known_path)) >> exited (128 + signum)

  -- From create_pf_socket to the close at PF_PACKET_FAIL; the exit status.
  unfoldable pub with_unix_domain : List HwaInfo → ℤ → Cmd Process ℕ
  with_unix_domain devices unix_domain = do
    pf_socket ← with_calls (create_pf_socket os)
    status ← if is_negative pf_socket then pure 1 else do
      set_sig_cleanup
      success ← with_daemon (run_arp sys fuel devices stack pf_socket unix_domain rounds)
      with_calls (call os (close pf_socket))
      pure success
    with_calls (call os (close unix_domain))
    pure status

  -- From create_unix_domain to the unlink at UNIX_DOMAIN_FAIL.
  unfoldable pub with_devices : List HwaInfo → Cmd Process ℕ
  with_devices devices = do
    unix_domain ← with_calls (create_unix_domain os unset)
    status ← if is_negative unix_domain then pure 1 else with_unix_domain devices unix_domain
    with_calls (call os (unlink arp_well_known_path))
    pure status

  -- Without a list, or with an empty one, there is nothing to do.
  abbrev pub on_devices : Option (List Listed) → Cmd Process ℕ
  on_devices none = pure 1
  on_devices (some []) = pure 1
  on_devices (some (hwa ∷ rest)) = with_devices (map (λ h. h.info) (hwa ∷ rest))

  unfoldable pub arp_main : Cmd Process ℕ
  arp_main = do devices ← with_calls (get_hw_addrs os fuel); on_devices devices
