-- ===== src/Tour/Loop.antt =====
-- The loop of run_tour of tour.c, and run_tour, by what each call keeps and where a failure leads.
use tour.Base.{
  none, ℕ, zero, suc, List, [], ℤ, is_negative, Bytes, read_at, write_at, replicate, Cmd, Keeps,
  Keeps-bind, Keeps-pure, Keeps-if, Keeps-or_fault, Bool, true, false, if◌then◌else◌, pure, Leads,
  Leads-then, Leads-bind, Leads-Keeps, Leads-pure, Leads-if,
}
use tour.Unix.{
  call, call_from, call_for_bytes, call_select, gethostbyaddr, recvfrom, select, Kernel, fd_set,
  fd_isset,
}
use tour.Ping.Threads.{create_pingt, Library}
use tour.Tour.Message.{TourHdr, Receipt, too_short, wrong_id, accepted, accept_tour}
use tour.Tour.Sockets.{buffer_text}
use tour.Tour.Run.{
  ip_maxpacket, Node, on_calls, on_threads, is_binded, set_binded, Step, again, ended, failed,
  go_on, join_group, pass_on, ping_and_pass, enter_group, visit, handle_receipt, handle_packet,
  hear_end, loop_body, tour_loop,
}

-- P holds at the start of each round, and Q where the loop is left.
module _ (P Q : Node → Type 0) where
  abbrev pub After : Step → Node → Type 0
  After again = P
  After ended = Q
  After failed = Q

  module _ (leaves : (s : Node) → P s → Q s) where
    weaken : (step : Step) (s : Node) → P s → After step s
    weaken again s v = v
    weaken ended s v = leaves s v
    weaken failed s v = leaves s v

is_binded-Keeps : {P : Node → Type 0} → Keeps P is_binded
unfolding is_binded
is_binded-Keeps = record { kept = λ s v. v }

-- The state behind the block under `if(!binded)`.
abbrev pub Entered : (Node → Type 0) → (Node → Type 0) → Bool → Node → Type 0
Entered P Q true = P
Entered P Q false = Q

pub entered : (N : Node → Type 0) (up : Bool) (s : Node) → N s → Entered N N up s
entered N true s v = v
entered N false s v = v

-- The block keeps what its calls keep.
pub enter_group-Keeps :
    (os : Kernel) (lib : Library) (fuel : ℕ) (host hostip : Bytes) (rt udp_recv udp_send : ℤ)
    {P : Node → Type 0} (tour : TourHdr)
    → Keeps P set_binded
    → Keeps P (on_calls (join_group os udp_recv udp_send tour))
    → Keeps P (enter_group os lib fuel host hostip rt udp_recv udp_send tour)
unfolding enter_group
enter_group-Keeps os lib fuel host hostip rt udp_recv udp_send tour binding_keeps joining_keeps =
    Keeps-bind is_binded-Keeps (λ binded. Keeps-if binded Keeps-pure (
      Keeps-bind joining_keeps
        (λ up. Keeps-if up (Keeps-bind binding_keeps (λ _. Keeps-pure)) Keeps-pure)))

module _ (os : Kernel) (lib : Library) (fuel : ℕ) (host hostip : Bytes) (rt udp_recv udp_send : ℤ)
    {P Q : Node → Type 0} (leaves : (s : Node) → P s → Q s)
    (pinging_keeps : (src_addr : Bytes) → Keeps P (on_threads (create_pingt lib src_addr)))
    (naming_keeps : (ip_src : Bytes) → Keeps P (on_calls (call os (gethostbyaddr ip_src))))
    (entering : (tour : TourHdr)
      → Leads P (Entered P Q) (enter_group os lib fuel host hostip rt udp_recv udp_send tour))
    (passing_keeps : (tour : TourHdr)
      → Keeps P (on_calls (pass_on os lib fuel host hostip rt udp_recv udp_send tour)))
    (packet_keeps : Keeps P (on_calls (call_from os (recvfrom rt ip_maxpacket))))
    (message_keeps : Keeps P (on_calls (call_for_bytes os (recvfrom udp_recv 1024))))
    (waiting_keeps : (n : ℤ) (rset : List ℤ)
      → Keeps P (on_calls (call_select os (select n rset none)))) where
  abbrev Steps : Cmd Node Step → Type 0
  Steps m = Leads P (After P Q) m

  steps : (step : Step) → Steps (pure step)
  steps step = Leads-pure step (weaken P Q leaves step)

  ping_and_pass-Steps :
      (src_addr : Bytes) (tour : TourHdr)
      → Steps (ping_and_pass os lib fuel host hostip rt udp_recv udp_send src_addr tour)
  unfolding ping_and_pass
  ping_and_pass-Steps src_addr tour = Leads-bind (pinging_keeps src_addr) (λ pinging.
      Leads-if pinging (Leads-Keeps (passing_keeps tour) (weaken P Q leaves)) (steps failed))

  entry_or_failure :
      (up : Bool) {m : Cmd Node Step}
      → Steps m
      → Leads (Entered P Q up) (After P Q) (if up then m else pure failed)
  entry_or_failure true k = k
  entry_or_failure false k = Leads-pure failed (λ s v. v)

  visit-Steps :
      (ip_src src_addr : Bytes) (tour : TourHdr)
      → Steps (visit os lib fuel host hostip rt udp_recv udp_send ip_src src_addr tour)
  unfolding visit
  visit-Steps ip_src src_addr tour = Leads-bind (naming_keeps ip_src) (λ he.
      Leads-then (entering tour) (λ up. entry_or_failure up (ping_and_pass-Steps src_addr tour)))

  handle_receipt-Steps :
      (got source : Bytes) (receipt : Receipt)
      → Steps (handle_receipt os lib fuel host hostip rt udp_recv udp_send got source receipt)
  unfolding handle_receipt
  handle_receipt-Steps got source too_short = steps again
  handle_receipt-Steps got source wrong_id = steps again
  handle_receipt-Steps got source (accepted tour) =
      Leads-bind (Keeps-or_fault (read_at got 12 4)) (λ ip_src.
        Leads-bind (Keeps-or_fault (write_at (replicate 16 0) 0 source)) (λ src.
          Leads-bind (Keeps-or_fault (read_at src 4 4))
            (λ src_addr. visit-Steps ip_src src_addr tour)))

  handle_packet-Steps : Steps (handle_packet os lib fuel host hostip rt udp_recv udp_send)
  unfolding handle_packet
  handle_packet-Steps = Leads-bind packet_keeps (λ (nread, got, source).
      Leads-if (is_negative nread) (steps failed) (
        Leads-bind (Keeps-or_fault (accept_tour (replicate ip_maxpacket 0) got))
          (λ receipt. handle_receipt-Steps got source receipt)))

  hear_end-Steps : Steps (hear_end os lib fuel host hostip rt udp_recv udp_send)
  unfolding hear_end
  hear_end-Steps = Leads-bind message_keeps (λ (nread, buf).
      Leads-if (is_negative nread) (steps failed)
        (Leads-bind (Keeps-or_fault (buffer_text 1024 buf)) (λ text. steps ended)))

  loop_body-Steps : Steps (loop_body os lib fuel host hostip rt udp_recv udp_send)
  unfolding loop_body
  loop_body-Steps = Leads-bind (Keeps-or_fault (fd_set rt [])) (λ rset.
      Leads-bind (Keeps-or_fault (fd_set udp_recv rset)) (λ both.
        Leads-bind (waiting_keeps _ both) (λ (rv, ready). Leads-if (is_negative rv) (steps failed) (
          Leads-bind (Keeps-or_fault (fd_isset udp_recv ready)) (λ heard.
            Leads-if heard hear_end-Steps (
              Leads-bind (Keeps-or_fault (fd_isset rt ready))
                (λ arrived. Leads-if arrived handle_packet-Steps (steps again))))))))

  on_step :
      (step : Step) {rest : Cmd Node Step}
      → Leads P (λ _. Q) rest
      → Leads (After P Q step) (λ _. Q) (go_on rest step)
  on_step again k = k
  on_step ended k = Leads-pure ended (λ s v. v)
  on_step failed k = Leads-pure failed (λ s v. v)

  pub tour_loop-Leads :
      (k : ℕ) → Leads P (λ _. Q) (tour_loop os lib fuel host hostip rt udp_recv udp_send k)
  unfolding tour_loop
  tour_loop-Leads zero = record { led = λ t v. tt }
  tour_loop-Leads (suc k) = Leads-then loop_body-Steps (λ step. on_step step (tour_loop-Leads k))
