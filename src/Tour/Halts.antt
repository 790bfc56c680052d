-- ===== src/Tour/Halts.antt =====
-- The pinging threads at the end of run_tour of tour.c.
use tour.Base.{◌++◌, List, ◌∷◌, ℕ, ◌≡◌, false, [], ℤ, none, some, Bytes, Run}
use tour.Unix.{Kernel}
use tour.Ping.Threads.{
  Pingt, ThreadCall, create, Threads, Library, is_pinging, after, cancels, joins,
}
use tour.Tour.Run.{Node}

-- The threads that were started since the calls were `old`, the last one first: exactly those whose
-- creation the library reports as done, with the id it gives. Every call of pthread_create is for an
-- address that no thread pings yet.
pub data Started (lib : Library) (old : List ThreadCall)
    : List Pingt → List ThreadCall → Type 0 where
  none_yet : Started lib old [] old
  refused :
      {ps : List Pingt} {calls : List ThreadCall} (tgtip : Bytes)
      → is_pinging tgtip ps ≡ false
      → lib.created calls tgtip ≡ none
      → Started lib old ps calls
      → Started lib old ps (create tgtip ∷ calls)
  made :
      {ps : List Pingt} {calls : List ThreadCall} (tgtip : Bytes) (tid : ℕ)
      → is_pinging tgtip ps ≡ false
      → lib.created calls tgtip ≡ some tid
      → Started lib old ps calls
      → Started lib old (record { tgtip = tgtip; tid = tid } ∷ ps) (create tgtip ∷ calls)

abbrev pub IsStarted : Library → List ThreadCall → Node → Type 0
IsStarted lib old s = Started lib old s.threads.pings s.threads.calls

-- Every thread that was started since `old` has been cancelled and then joined, and none is left.
abbrev pub IsHalted : Library → List ThreadCall → Node → Type 0
IsHalted lib old s =
    (ps : List Pingt) × (calls : List ThreadCall) × Started lib old ps calls
    × (s.threads ≡ record { pings = []; calls = after (cancels ps ++ joins ps) calls })

module _ (os : Kernel) (lib : Library) (fuel : ℕ) (host hostip : Bytes) (rt udp_recv udp_send : ℤ)
    (old : List ThreadCall) where
  abbrev T : Threads → Type 0
  T th = Started lib old th.pings th.calls
