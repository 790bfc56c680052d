-- ===== src/Ping/Threads.antt =====
-- create_pingt and destroy_pingt of ping.c, on the list of pinging threads. The list macros of
-- sys/queue.h are the operations of a list. Of struct pingarg only `tgtip` is set.
use tour.Base.{
  ℕ, ◌≡◌, refl, inl, inr, Bool, true, false, ◌||◌, Option, none, some, List, [], ◌∷◌, ◌++◌, map,
  if◌then◌else◌, Bytes, bytes_eq, bytes_eq_iff, Bool-cases, Option-cases,
}

pub record Pingt : Type 0 where
  pub tgtip : Bytes
  pub tid : ℕ

pub data ThreadCall : Type 0 where
  create : Bytes → ThreadCall
  cancel : ℕ → ThreadCall
  join : ℕ → ThreadCall

-- The list, its head first, and the calls made, the last one first.
pub record Threads : Type 0 where
  pub pings : List Pingt
  pub calls : List ThreadCall

-- What the C library answers: whether there is memory, and the id of a new thread, `none` for an
-- error. The answers of pthread_cancel and pthread_join change nothing.
pub record Library : Type 0 where
  pub has_memory : List ThreadCall → Bool
  pub created : List ThreadCall → Bytes → Option ℕ

-- The first loop of create_pingt.
unfoldable pub is_pinging : Bytes → List Pingt → Bool
is_pinging tgtip [] = false
is_pinging tgtip (cur ∷ rest) =
    let more = is_pinging tgtip rest in if bytes_eq cur.tgtip tgtip then true else more

module _ (lib : Library) where
  -- The thread is created; the call is made whether it succeeds or not.
  unfoldable pub start_thread : Bytes → Threads → Bool × Threads
  start_thread tgtip s =
      let calls : List ThreadCall = create tgtip ∷ s.calls in
      elim (lib.created s.calls tgtip) [
        | none ↦ (false, record s { calls = calls })
        | some tid ↦
            (true, record { pings = record { tgtip = tgtip; tid = tid } ∷ s.pings; calls = calls })
      ]

  unfoldable pub create_pingt : Bytes → Threads → Bool × Threads
  unfolding start_thread
  create_pingt tgtip s =
      if is_pinging tgtip s.pings
      then (true, s)
      else if lib.has_memory s.calls
      then start_thread tgtip s
      else (false, s)

unfoldable pub cancel_all : List Pingt → List ThreadCall → List ThreadCall
cancel_all [] calls = calls
cancel_all (cur ∷ rest) calls = cancel_all rest (cancel cur.tid ∷ calls)

unfoldable pub join_all : List Pingt → List ThreadCall → List ThreadCall
join_all [] calls = calls
join_all (cur ∷ rest) calls = join_all rest (join cur.tid ∷ calls)

-- The loop that removes and frees the first element until the list is empty.
unfoldable pub free_all : List Pingt → List Pingt
free_all [] = []
free_all (cur ∷ rest) = free_all rest

-- `status` is 1 from the start, and set to 1 where a join fails.
unfoldable pub destroy_pingt : Threads → Bool × Threads
unfolding cancel_all join_all free_all
destroy_pingt s = (
  true,
  record { pings = free_all s.pings; calls = join_all s.pings (cancel_all s.pings s.calls) },
)

-- No two threads ping the same address.
abbrev pub AreDistinct : List Pingt → Type 0
AreDistinct [] = Unit {0}
AreDistinct (p ∷ rest) = (is_pinging p.tgtip rest ≡ false) × AreDistinct rest

-- What create_pingt leaves: at success the address is pinged, at failure the list is as before; the
-- threads that were there stay, and the addresses stay distinct.
abbrev pub Created : Bytes → Threads → Bool × Threads → Type 0
Created tgtip s (done, s') =
    ((new : List Pingt) × (s'.pings ≡ new ++ s.pings))
    × (is_pinging tgtip s'.pings ≡ (done || is_pinging tgtip s.pings))
    × AreDistinct s'.pings

bytes_eq_self : (a : Bytes) → bytes_eq a a ≡ true
bytes_eq_self a = (bytes_eq_iff a a).1 refl

-- If no two threads ping the same address, then create_pingt keeps this and every thread, and the
-- address is pinged afterwards exactly if it was before or the result is 1.
pub create_pingt-Created :
    (lib : Library) (tgtip : Bytes) (s : Threads)
    → AreDistinct s.pings
    → Created tgtip s (create_pingt lib tgtip s)
unfolding create_pingt start_thread is_pinging
create_pingt-Created lib tgtip s v = elim (Bool-cases (is_pinging tgtip s.pings)) [
  | inl already ↦ rw already (([], refl), already, v)
  | inr fresh ↦ elim (Bool-cases (lib.has_memory s.calls)) [
    | inr full ↦ rw (fresh, full) (([], refl), fresh, v)
    | inl room ↦ elim (Option-cases (lib.created s.calls tgtip)) [
      | inl failed ↦ rw (fresh, room, failed, start_thread) (([], refl), fresh, v)
      | inr (tid, made) ↦
          rw (fresh, room, made, start_thread, bytes_eq_self tgtip)
            ((record { tgtip = tgtip; tid = tid } ∷ [], refl), refl, (fresh, v))
    ]
  ]
]

-- The calls in their order, put before older ones.
abbrev pub after : List ThreadCall → List ThreadCall → List ThreadCall
after [] old = old
after (c ∷ cs) old = after cs (c ∷ old)

abbrev pub cancels : List Pingt → List ThreadCall
cancels = map (λ p. cancel p.tid)

abbrev pub joins : List Pingt → List ThreadCall
joins = map (λ p. join p.tid)

cancel_all-after :
    (ps : List Pingt) (old : List ThreadCall) → cancel_all ps old ≡ after (cancels ps) old
unfolding cancel_all
cancel_all-after [] old = refl
cancel_all-after (p ∷ ps) old = cancel_all-after ps (cancel p.tid ∷ old)

join_all-after : (ps : List Pingt) (old : List ThreadCall) → join_all ps old ≡ after (joins ps) old
unfolding join_all
join_all-after [] old = refl
join_all-after (p ∷ ps) old = join_all-after ps (join p.tid ∷ old)

after_append : (a b old : List ThreadCall) → after b (after a old) ≡ after (a ++ b) old
after_append [] b old = refl
after_append (c ∷ a) b old = after_append a b (c ∷ old)

free_all-empty : (ps : List Pingt) → free_all ps ≡ []
unfolding free_all
free_all-empty [] = refl
free_all-empty (p ∷ ps) = free_all-empty ps

-- destroy_pingt cancels every thread, in the order of the list, and joins each of them after all
-- have been cancelled; it leaves an empty list and returns 1.
pub destroy_pingt_ends :
    (s : Threads)
    → destroy_pingt s
      ≡ (true, record { pings = []; calls = after (cancels s.pings ++ joins s.pings) s.calls })
unfolding destroy_pingt
destroy_pingt_ends s =
    rw
      (
        free_all-empty s.pings,
        cancel_all-after s.pings s.calls,
        join_all-after s.pings (after (cancels s.pings) s.calls),
        after_append (cancels s.pings) (joins s.pings) s.calls,
      )
      refl
