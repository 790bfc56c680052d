-- ===== src/Tour/Visits.antt =====
-- start_tour of tour.c, and the tour of its message.
use tour.Base.{
  ℕ, suc, ◌+◌, ◌-◌, ◌*◌, ◌%◌, ◌≤◌, ◌<◌, ◌≡◌, refl, sym, ap, ◌∙◌, true, Option, none, some, List, [],
  ◌∷◌, ◌++◌, arith, Bytes, length, drop, take, write_at, le→leb, Option-cases, inl, inr,
  length-take, length-append, append_assoc, drop-append_left,
}
use tour.Base.Maybe.{◌>>=◌}
use tour.Tour.Message.{TourHdr, forward_tour}
use tour.Tour.Args.{valid_args, valid_args_iff}
use tour.Tour.Travel.{packed, AreAddrs, length-packed, travel, message}
use tour.Tour.Relay.{forward_tour-accept, travel-visits}
use tour.Tour.Start.{fill_ips, resolve_all, Sockets, initial_message, start_tour}

write_within :
    (xs : Bytes) (off : ℕ) (new : Bytes)
    → off + length new ≤ length xs
    → write_at xs off new ≡ some (take off xs ++ (new ++ drop (off + length new) xs))
unfolding write_at
write_within xs off new h = rw (le→leb (off + length new) (length xs) h)

-- The memory of `ips` after the loop: the addresses, the first host's last, if all are known.
abbrev pub filled : Bytes → ℕ → Option (List Bytes) → Option Bytes
filled ips n none = none
filled ips n (some addrs) = some (packed addrs ++ drop (4 * n) ips)

-- Addresses of four bytes, as many as there are hosts; nothing is said where a host is unknown.
abbrev Resolved : ℕ → Option (List Bytes) → Type 0
Resolved n none = Unit {0}
Resolved n (some addrs) = AreAddrs addrs × (length addrs ≡ n)

filled-cons :
    (ips a : Bytes) (n : ℕ) (addrs : Option (List Bytes))
    → length a ≡ 4
    → 4 * suc n ≤ length ips
    → filled (take (4 * n) ips ++ (a ++ drop (4 * n + length a) ips)) n addrs
      ≡ filled ips (suc n) (addrs >>= λ rest. some (a ∷ rest))
filled-cons ips a n none a4 room = refl
filled-cons ips a n (some rest) a4 room =
    ap (λ w. some (packed rest ++ w))
      (drop-append_left (4 * n) (take (4 * n) ips) (a ++ drop (4 * n + length a) ips)
          (omega (arith, length-take (4 * n) ips))
        ∙ ap (λ k. a ++ drop k ips) (omega arith))
    ∙ ap some (sym (append_assoc (packed rest) a (drop (4 * suc n) ips)))

module _ (resolve : Bytes → Option Bytes)
    (four : (host a : Bytes) → resolve host ≡ some a → length a ≡ 4) where
  resolve_all-Resolved : (hosts : List Bytes) → Resolved (length hosts) (resolve_all resolve hosts)
  unfolding resolve_all
  resolve_all-Resolved [] = (tt, refl)
  resolve_all-Resolved (host ∷ rest) = elim (Option-cases (resolve host)) [
    | inl e ↦ rw e tt
    | inr (a, e) ↦ elim (Option-cases (resolve_all resolve rest)) [
      | inl e' ↦ rw (e, e') tt
      | inr (addrs, e') ↦
          let known = rw e' at (resolve_all-Resolved rest) in
          rw (e, e') ((four host a e, known.0), omega (arith, known.1))
    ]
  ]

  fill_ips-step :
      (host a : Bytes) (rest : List Bytes) (j : ℕ) (ips : Bytes)
      → resolve host ≡ some a
      → fill_ips resolve (host ∷ rest) j ips
        ≡ (write_at ips (4 * j) a >>= fill_ips resolve rest (j - 1))
  unfolding fill_ips
  fill_ips-step host a rest j ips e = rw (e, fill_ips) refl

  -- With a resolver of four-byte addresses and memory for all, the loop of start_tour stays inside
  -- `ips`; it fails exactly if a host is unknown, and else leaves the addresses in reverse order,
  -- and the memory behind them as it was.
  pub fill_ips-filled :
      (hosts : List Bytes) (ips : Bytes)
      → 4 * length hosts ≤ length ips
      → fill_ips resolve hosts (length hosts - 1) ips
        ≡ some (filled ips (length hosts) (resolve_all resolve hosts))
  unfolding fill_ips resolve_all
  fill_ips-filled [] ips room = refl
  fill_ips-filled (host ∷ rest) ips room = elim (Option-cases (resolve host)) [
    | inl e ↦ rw (e, fill_ips) refl
    | inr (a, e) ↦
        let n = length rest in
        let a4 = four host a e in
        let minus : suc n - 1 ≡ n = omega arith in
        let ips' = take (4 * n) ips ++ (a ++ drop (4 * n + length a) ips) in
        rw (e, minus, fill_ips-step host a rest n ips e, write_within ips (4 * n) a (omega arith))
          (fill_ips-filled rest ips' (
              omega (
                arith,
                length-append (take (4 * n) ips) (a ++ drop (4 * n + length a) ips),
                length-take (4 * n) ips,
              ))
            ∙ ap some (filled-cons ips a n (resolve_all resolve rest) a4 room))
  ]

  initial_message-made :
      (m0 m1 m2 m3 port : ℕ) (memory : Bytes) (hosts addrs : List Bytes)
      → 4 * length hosts ≤ length memory
      → length hosts < 65536
      → resolve_all resolve hosts ≡ some addrs
      → length addrs ≡ length hosts
      → initial_message resolve (m0 ∷ m1 ∷ m2 ∷ m3 ∷ []) port hosts memory
        ≡ some (
            some (
              message m0 m1 m2 m3 port
                (length addrs)
                (packed addrs ++ drop (4 * length hosts) memory)))
  unfolding initial_message
  initial_message-made m0 m1 m2 m3 port memory hosts addrs room few known same =
      rw (fill_ips-filled hosts memory room, known)
        (ap
          (λ n.
            some
              (some (message m0 m1 m2 m3 port n (packed addrs ++ drop (4 * length hosts) memory))))
          count)
    where
      count : length hosts % 65536 ≡ length addrs
      count = omega arith

  -- With a resolver of four-byte addresses, start_tour on accepted arguments with at least one host,
  -- all known, and sockets that are bound, joined and connected: it makes a message, takes the first
  -- hop of its tour to the first host, and the tour through nodes that accept their packets into
  -- buffers of 65535 bytes visits the hosts' addresses in the order of the command line.
  pub start_tour-visits :
      (m0 m1 m2 m3 port : ℕ) (name hostip memory buffer host a : Bytes) (hosts addrs : List Bytes)
      → valid_args (name ∷ host ∷ hosts) ≡ true
      → length memory ≡ 65507
      → length buffer ≡ 65535
      → length hostip ≡ 4
      → port < 65536
      → resolve_all resolve (host ∷ hosts) ≡ some (a ∷ addrs)
      → let mcastip : Bytes = m0 ∷ m1 ∷ m2 ∷ m3 ∷ [] in
        let up : Sockets = record { bound = some port; joined = true; connected = true } in
        (t : TourHdr) × (packet : Bytes) × (initial_message resolve mcastip port
            (host ∷ hosts)
            memory
          ≡ some (some t))
        × (forward_tour hostip t ≡ some (a, packet))
        × (start_tour resolve hostip mcastip up (host ∷ hosts) memory ≡ some (some (a, packet)))
        × (travel (suc (suc (length addrs))) buffer hostip t ≡ some (a ∷ addrs))
  unfolding start_tour
  start_tour-visits m0 m1 m2 m3 port name hostip memory buffer host a hosts addrs valid mem room
        host4 small known =
      let all : List Bytes = host ∷ hosts in
      let junk = drop (4 * length all) memory in
      let few : length all ≤ 16376 = ((valid_args_iff name all).0 valid).0 in
      let facts : Resolved (length all) (some (a ∷ addrs)) =
        rw known at (resolve_all-Resolved all) in
      let t = message m0 m1 m2 m3 port (suc (length addrs)) ((packed addrs ++ a) ++ junk) in
      let made =
        initial_message-made m0 m1 m2 m3 port memory all (a ∷ addrs) (omega arith) (omega arith)
          known facts.1 in
      let hop =
        forward_tour-accept m0 m1 m2 m3 port hostip host4 buffer (length addrs) (packed addrs) a
          junk room small (omega (arith, facts.1)) (length-packed addrs facts.0.1) facts.0.0 in
      let forwarded : forward_tour hostip t ≡ some (a, hop.0) =
        rw (append_assoc (packed addrs) a junk) hop.1 in
      (
        t,
        hop.0,
        made,
        forwarded,
        rw (made, append_assoc (packed addrs) a junk, hop.1) refl,
        travel-visits m0 m1 m2 m3 port hostip buffer junk (a ∷ addrs) host4 room small
            (omega (arith, facts.1)) facts.0,
      )
