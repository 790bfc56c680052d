-- ===== src/Tour/Opens.antt =====
-- What start_tour of tour.c keeps of the calls before its message is sent.
use tour.Base.{
  ℕ, ◌-◌, ◌*◌, Option, none, some, List, [], ◌∷◌, ℤ, Bytes, length, replicate, write_at, Cmd, Keeps,
  Keeps-bind, Keeps-pure, Keeps-or_fault,
}
use tour.Unix.{Calls, Kernel}
use tour.Unix.Plain.{KeptByPlain}
use tour.Tour.Keeps.{getipbyhost-Keeps, send_hop-Keeps}
use tour.Tour.Main.{tourmsg_ips, on_some, fill_hosts, send_first}

on_some-Keeps :
    {S A B : Type 0} {P : S → Type 0} (found : Option A) (b : B) {k : A → Cmd S B}
    → ((a : A) → Keeps P (k a))
    → Keeps P (on_some found b k)
on_some-Keeps none b k = Keeps-pure
on_some-Keeps (some a) b k = k a

module _ (os : Kernel) {P : Calls → Type 0} (grow : KeptByPlain P) where
  pub fill_hosts-Keeps :
      (hosts : List Bytes) (j : ℕ) (ips : Bytes) → Keeps P (fill_hosts os hosts j ips)
  unfolding fill_hosts
  fill_hosts-Keeps [] j ips = Keeps-pure
  fill_hosts-Keeps (name ∷ rest) j ips = Keeps-bind (getipbyhost-Keeps os grow name) (λ found.
      on_some-Keeps found _ (λ a.
        Keeps-bind (Keeps-or_fault (write_at ips (4 * j) a))
          (λ ips'. fill_hosts-Keeps rest (j - 1) ips')))

  module _ (hostip : Bytes) (rt udp_recv udp_send : ℤ) where
    pub send_first-Keeps :
        (port : ℕ) (hosts : List Bytes)
        → Keeps P (send_first os hostip rt udp_recv udp_send port hosts)
    unfolding send_first
    send_first-Keeps port hosts =
        Keeps-bind (fill_hosts-Keeps hosts (length hosts - 1) (replicate tourmsg_ips 0))
          (λ filled. on_some-Keeps filled _ (λ ips. send_hop-Keeps os grow hostip rt _))
