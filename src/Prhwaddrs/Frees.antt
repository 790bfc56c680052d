-- ===== src/Prhwaddrs/Frees.antt =====
-- The memory that prhwaddrs.c allocates and frees.
use tour.Base.{
  ℕ, ◌≡◌, refl, false, Option, [], map, arith, ℤ, pos, eqb_ℤ, Bytes, Returns, Keeps-or_fault,
  Leads-then, Leads-bind, Leads-pure,
}
use tour.Unix.{Calls, Kernel, calloc}
use tour.Arp.Interfaces.{nodes}
use tour.Prhwaddrs.{show_interfaces}
use tour.Unix.Memory.{allocs, frees}
use tour.Arp.Memory.{free_hwa_info-Leads, get_hw_addrs-Leads}
use tour.Prhwaddrs.Main.{prhwaddrs_main}

-- Where memory for an address is always found: wherever main returns, every address but NULL has been
-- freed as often as malloc and calloc returned it, the nodes of the list, their addresses and the
-- buffers of the table alike.
pub prhwaddrs_main-frees :
    (inet_ntop : ℕ → Bytes → Option Bytes) (os : Kernel) (fuel : ℕ) (a : ℤ)
    → eqb_ℤ a (pos 0) ≡ false
    → ((t : Calls) → eqb_ℤ (os.result t (calloc 16)) (pos 0) ≡ false)
    → Returns (λ _ t. allocs a t ≡ frees a t) (prhwaddrs_main inet_ntop os fuel [])
unfolding prhwaddrs_main
prhwaddrs_main-frees inet_ntop os fuel a live memory =
    (Leads-then (get_hw_addrs-Leads os a live memory fuel) (λ found.
        Leads-bind (Keeps-or_fault (show_interfaces inet_ntop [] (map (λ h. h.info) (nodes found))))
          (λ text.
            Leads-then (free_hwa_info-Leads os a live (nodes found) 0)
              (λ _. Leads-pure text (λ t v. omega (arith, v)))))).led
      [] refl
