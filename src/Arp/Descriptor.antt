-- ===== src/Arp/Descriptor.antt =====
-- The socket of get_hw_addrs of get_hw_addrs.c.
use tour.Base.{
  ℕ, zero, suc, ◌+◌, ◌*◌, ◌/◌, ◌≡◌, refl, ap, Bool, false, not, ◌||◌, ◌==◌, Option, none, some,
  List, [], ◌∷◌, ◌++◌, ℤ, pos, is_negative, eqb_ℤ, Bytes, length, drop, take, read_at, Returns,
  Keeps, Returns-and_then, Keeps-bind, Keeps-pure, Keeps-if, Keeps-or_fault,
}
use tour.Unix.{Calls, Kernel, socket, ioctl, af_inet, sock_dgram, call}
use tour.Unix.Balance.{opened, closed, Holds}
use tour.Unix.Keeps.{call-Keeps, call_for_bytes-Keeps}
use tour.Arp.Interfaces.{
  minus_einval, ifreq_size, is_eth0, cut_alias, same_name, Listed, Outcome, listed, free_hwa,
  free_buf, items, free_hwa_info, ask_ifreq, describe, interfaces, read_table, give_up_table, leave,
  list_table, get_hw_addrs,
}

-- A predicate that every ioctl keeps.
module _ (os : Kernel) {P : Calls → Type 0}
    (grow : (fd : ℤ) (request : ℕ) (arg : Bytes) (r : ℤ) (t : Calls)
      → P t
      → P ((ioctl fd request arg, r) ∷ t)) where
  ask_ifreq-Keeps :
      (sockfd : ℤ) (request : ℕ) (ifreq : Bytes) → Keeps P (ask_ifreq os sockfd request ifreq)
  unfolding ask_ifreq
  ask_ifreq-Keeps sockfd request ifreq =
      Keeps-bind (call_for_bytes-Keeps _ _ (λ r t v. grow sockfd request ifreq r t v))
        (λ r. Keeps-pure)

  pub describe-Keeps :
      (sockfd : ℤ) (alias : Bool) (item ifrcopy : Bytes)
      → Keeps P (describe os sockfd alias item ifrcopy)
  unfolding describe
  describe-Keeps sockfd alias item ifrcopy =
      Keeps-bind (Keeps-or_fault (read_at item 16 16)) (λ ip_addr.
        Keeps-bind (ask_ifreq-Keeps sockfd _ ifrcopy) (λ with_hw.
          Keeps-bind (Keeps-or_fault (read_at with_hw 18 6)) (λ if_haddr.
            Keeps-bind (ask_ifreq-Keeps sockfd _ with_hw) (λ with_index.
              Keeps-bind (Keeps-or_fault (read_at with_index 16 4)) (λ if_index. Keeps-pure)))))

module _ (os : Kernel) (fds cs : List ℤ) where
  abbrev H : Calls → Type 0
  H = Holds fds cs

  free_hwa_info-Keeps : (hwas : List Listed) → Keeps H (free_hwa_info os hwas)
  unfolding free_hwa_info
  free_hwa_info-Keeps [] = Keeps-pure
  free_hwa_info-Keeps (hwa ∷ rest) =
      Keeps-bind (Keeps-bind (call-Keeps _ _ (λ r t v. v)) (λ _. call-Keeps _ _ (λ r t v. v)))
        (λ _. free_hwa_info-Keeps rest)

  interfaces-Keeps :
      (sockfd : ℤ) (lastname : Bytes) (sofar : List Listed) (rest : List Bytes)
      → Keeps H (interfaces os sockfd lastname sofar rest)
  unfolding interfaces
  interfaces-Keeps sockfd lastname sofar [] = Keeps-pure
  interfaces-Keeps sockfd lastname sofar (item ∷ rest) =
      Keeps-if (not (is_eth0 item)) (interfaces-Keeps sockfd lastname sofar rest) (
        Keeps-bind (call-Keeps _ _ (λ r t v. v)) (λ hwa. Keeps-if (eqb_ℤ hwa (pos 0)) Keeps-pure (
          Keeps-bind (call-Keeps _ _ (λ r t v. v)) (λ addr.
            Keeps-if (eqb_ℤ addr (pos 0)) Keeps-pure (
              Keeps-bind
                (describe-Keeps os (λ fd request arg r t v. v) sockfd
                  (same_name lastname (cut_alias (take 16 item))) item
                  (cut_alias (take 16 item) ++ drop 16 item))
                (λ info.
                  interfaces-Keeps sockfd (cut_alias (take 16 item))
                    (sofar ++ (record { hwa = hwa; addr = addr; info = info } ∷ [])) rest))))))

  read_table-Keeps : (sockfd : ℤ) (k len lastlen : ℕ) → Keeps H (read_table os sockfd k len lastlen)
  unfolding read_table
  read_table-Keeps sockfd zero len lastlen = record { kept = λ t v. tt }
  read_table-Keeps sockfd (suc k) len lastlen = Keeps-bind (call-Keeps _ _ (λ r t v. v)) (λ buf.
      Keeps-if (eqb_ℤ buf (pos 0)) Keeps-pure (
        Keeps-bind (call_for_bytes-Keeps _ _ (λ r t v. v)) (λ (rc, table).
          Keeps-if (is_negative rc)
            (Keeps-if (not (eqb_ℤ rc minus_einval) || not (lastlen == 0)) Keeps-pure (
              Keeps-bind (call-Keeps _ _ (λ r t v. v))
                (λ _. read_table-Keeps sockfd k (len + 10 * ifreq_size) lastlen)))
            (Keeps-if (length table == lastlen) Keeps-pure (
              Keeps-bind (call-Keeps _ _ (λ r t v. v))
                (λ _. read_table-Keeps sockfd k (len + 10 * ifreq_size) (length table)))))))

-- With the socket open: it is still open if there is a list, and closed if there is none.
abbrev pub Left : Calls → ℤ → Option (List Listed) → Calls → Type 0
Left t sock none t' = Holds (sock ∷ opened t) (sock ∷ closed t) t'
Left t sock (some found) t' = Holds (sock ∷ opened t) (closed t) t'

module _ (os : Kernel) (t : Calls) (sock : ℤ) where
  abbrev Held : Calls → Type 0
  Held = Holds (sock ∷ opened t) (closed t)

  give_up_table-Left :
      (buf : Option ℤ) (t' : Calls) → Held t' → Returns (Left t sock) (give_up_table os sock buf t')
  unfolding give_up_table call
  give_up_table-Left none t' (o, c) = (o, ap (λ cs. sock ∷ cs) c)
  give_up_table-Left (some buf) t' (o, c) = (o, ap (λ cs. sock ∷ cs) c)

  leave-Left :
      (buf : ℤ) (out : Outcome) (t' : Calls)
      → Held t'
      → Returns (Left t sock) (leave os sock buf out t')
  unfolding leave call
  leave-Left buf (listed hwas) t' v = v
  leave-Left buf (free_hwa hwas) t' v =
      Returns-and_then (λ _. Held) (Left t sock) (free_hwa_info os hwas t') _
        ((free_hwa_info-Keeps os (sock ∷ opened t) (closed t) hwas).kept t' v)
        (λ _ s w. give_up_table-Left (some buf) s w)
  leave-Left buf free_buf t' v = give_up_table-Left (some buf) t' v

  list_table-Left :
      (read : Option ℤ × Option Bytes) (t' : Calls)
      → Held t'
      → Returns (Left t sock) (list_table os sock read t')
  unfolding list_table
  list_table-Left (some buf, some table) t' v =
      Returns-and_then (λ _. Held) (Left t sock)
        (interfaces os sock (0 ∷ []) [] (items (length table / ifreq_size) table) t') _
        ((interfaces-Keeps os (sock ∷ opened t) (closed t) sock (0 ∷ []) []
            (items (length table / ifreq_size) table)).kept
          t' v)
        (λ out s w. leave-Left buf out s w)
  list_table-Left (some buf, none) t' v = give_up_table-Left (some buf) t' v
  list_table-Left (none, none) t' v = give_up_table-Left none t' v
  list_table-Left (none, some table) t' v = give_up_table-Left none t' v

-- Where get_hw_addrs opens its socket and returns: with a list, which may be empty, the socket is
-- still open, and nothing was closed; with a NULL of a jump, the socket has been closed.
pub get_hw_addrs-Left :
    (os : Kernel) (fuel : ℕ) (t : Calls)
    → is_negative (os.result t (socket af_inet sock_dgram 0)) ≡ false
    → Returns (Left t (os.result t (socket af_inet sock_dgram 0))) (get_hw_addrs os fuel t)
unfolding get_hw_addrs call
get_hw_addrs-Left os fuel t open_now = rw open_now (
    Returns-and_then (λ _. Held os t sock) (Left t sock)
      (read_table os sock fuel 4000 0 ((socket af_inet sock_dgram 0, sock) ∷ t)) _
      ((read_table-Keeps os (sock ∷ opened t) (closed t) sock fuel 4000 0).kept
        ((socket af_inet sock_dgram 0, sock) ∷ t) (rw open_now refl, refl))
      (λ read s w. list_table-Left os t sock read s w))
  where
    sock : ℤ
    sock = os.result t (socket af_inet sock_dgram 0)
