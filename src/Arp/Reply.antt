-- ===== src/Arp/Reply.antt =====
-- The loop of handle_reply of arp.c.
use tour.Base.{
  ℕ, zero, suc, ◌<◌, ◌≡◌, refl, sym, ap, ◌∙◌, ◌≢◌, Bool, true, false, ◌&&◌, ◌||◌, some, [], ◌∷◌,
  map, arith, ◌==◌, if◌then◌else◌, minus_one, Bytes, bytes_eq, length, ok, Bool-cases, inl, inr,
  memcmp_eq-whole,
}
use tour.Cache.Store.{
  Ptr, null, Hwaddr, Entry, complete, is_incomplete, Cache, node, Heap, write, sockaddr_size,
}
use tour.Cache.Chain.{
  Cells, stands_at, first, ◌∉◌, Chain, SameOutside, Chain-write, write_self, write-other,
  not-mem-tail, ne_of_not_mem,
}
use tour.Cache.Entries.{AreEntries}
use tour.World.{System, Daemon, Trace, send_hwaddr, close, sys_send_hwaddr}
use tour.World.OnHeap.{on_heap-load, on_heap-store}
use tour.Arp.Answer.{complete_entry, reply_loop}

-- Whether an entry waits for the address.
abbrev pub waits : Bytes → Entry → Bool
waits repip e = bytes_eq repip e.ipaddress && is_incomplete e.state

-- The answer is stored, the client's socket is given up.
abbrev pub completed : Hwaddr → Entry → Entry
completed new e = record e { hw = new; domain_socket = minus_one; state = complete }

abbrev pub complete_cell : Hwaddr → Bytes → Ptr × Entry → Ptr × Entry
complete_cell new repip (a, e) = (a, if waits repip e then completed new e else e)

-- The calls: each waiting client is sent the answer and then closed, in the order of the list.
abbrev pub told : Hwaddr → Bytes → Cells → Trace → Trace
told new repip [] t = t
told new repip ((a, e) ∷ xs) t =
    told new repip xs
      (if waits repip e then close e.domain_socket ∷ (send_hwaddr e.domain_socket new ∷ t) else t)

stands_at-complete_cell :
    (a : Ptr) (new : Hwaddr) (repip : Bytes) (xs : Cells)
    → stands_at a (map (complete_cell new repip) xs) ≡ stands_at a xs
stands_at-complete_cell a new repip [] = refl
stands_at-complete_cell a new repip ((p, e) ∷ xs) =
    ap (λ t. (a == p) || t) (stands_at-complete_cell a new repip xs)

first-complete_cell :
    (new : Hwaddr) (repip : Bytes) (xs : Cells)
    → first (map (complete_cell new repip) xs) ≡ first xs
first-complete_cell new repip [] = refl
first-complete_cell new repip ((p, e) ∷ xs) = refl

is_live : (a : Ptr) → a ≢ null → (a == null) ≡ false
is_live a ne = ground arith

module _ (sys : System) (new : Hwaddr) (repip : Bytes) (size : length repip ≡ sockaddr_size) where
  -- The daemon when a waiting entry has been answered.
  abbrev answered : Ptr → Cache → Daemon → Daemon
  answered a c s = record s {
    heap = write s.heap a (some (record c { entry = completed new c.entry }));
    trace = close c.entry.domain_socket ∷ (send_hwaddr c.entry.domain_socket new ∷ s.trace);
  }

  module _ (k : ℕ) (a : Ptr) (c : Cache) (s : Daemon) (ne : a ≢ null) (at : s.heap a ≡ some c)
      (ip : length c.entry.ipaddress ≡ 16) where
    -- One round at an entry that waits, and at any other.
    round-hit :
        waits repip c.entry ≡ true
        → reply_loop sys new repip (suc k) a s ≡ reply_loop sys new repip k c.next (answered a c s)
    unfolding reply_loop complete_entry sys_send_hwaddr
    round-hit hit =
        let d = record c { entry = completed new c.entry } in
        let sent = record s { trace = send_hwaddr c.entry.domain_socket new ∷ s.trace } in
        rw
          (
            is_live a ne,
            on_heap-load s a ne at,
            memcmp_eq-whole repip c.entry.ipaddress 16 size ip,
            hit,
            on_heap-store sent a ne at d,
            on_heap-load (answered a c s) a {c = d} ne (write_self s.heap a (some d)),
          )
          refl

    round-miss :
        waits repip c.entry ≡ false
        → reply_loop sys new repip (suc k) a s ≡ reply_loop sys new repip k c.next s
    unfolding reply_loop
    round-miss miss =
        rw
          (
            is_live a ne,
            on_heap-load s a ne at,
            memcmp_eq-whole repip c.entry.ipaddress 16 size ip,
            miss,
            on_heap-load s a ne at,
          )
          refl

  -- The state after the loop.
  abbrev pub Completes : ℕ → Ptr → Cells → Daemon → Type 0
  Completes k b xs s =
      (g : Heap) × (reply_loop sys new repip k (first xs) s
        ≡ ok tt (record s { heap = g; trace = told new repip xs s.trace }))
      × Chain g b (map (complete_cell new repip) xs)
      × SameOutside xs s.heap g

  -- The first cell in front of a tail that has been worked off.
  cons-Chain :
      (h g : Heap) (b a : Ptr) (e : Entry) (xs : Cells)
      → a ≢ null
      → a ∉ xs
      → h a ≡ some (node e (first xs) b)
      → Chain g a (map (complete_cell new repip) xs)
      → SameOutside xs h g
      → Chain g b ((a, e) ∷ map (complete_cell new repip) xs)
  cons-Chain h g b a e xs ne out at c same = (
    ne,
    same a out ∙ at ∙ ap (λ q. some (node e q b)) (sym (first-complete_cell new repip xs)),
    stands_at-complete_cell a new repip xs ∙ out,
    c,
  )

  pub reply_loop-Completes :
      (k : ℕ) (b : Ptr) (xs : Cells) (s : Daemon)
      → Chain s.heap b xs
      → AreEntries xs
      → length xs < k
      → Completes k b xs s
  unfolding reply_loop
  reply_loop-Completes zero b xs s c v fuel = absurd (omega arith)
  reply_loop-Completes (suc k) b [] s c v fuel = (s.heap, refl, tt, λ a out. refl)
  reply_loop-Completes (suc k) b ((a, e) ∷ xs) s (ne, at, out, c) (v, vs) fuel =
      elim (Bool-cases (waits repip e)) [
        | inl hit ↦
            let cell = node e (first xs) b in
            let cell' = node (completed new e) (first xs) b in
            let s1 = answered a cell s in
            let rest =
              reply_loop-Completes k a xs s1 (Chain-write s.heap a xs a (some cell') c out) vs
                (omega arith) in
            rw hit (
              rest.0,
              round-hit k a cell s ne at v.ip_size hit ∙ rest.1,
              cons-Chain s1.heap rest.0 b a (completed new e) xs ne out
                  (write_self s.heap a (some cell')) rest.2 rest.3,
              λ p o.
                  rest.3 p (not-mem-tail p a e xs o)
                  ∙ write-other s.heap a p (some cell') (λ q. ne_of_not_mem p a e xs o (sym q)),
            )
        | inr miss ↦
            let cell = node e (first xs) b in
            let rest = reply_loop-Completes k a xs s c vs (omega arith) in
            rw miss (
              rest.0,
              round-miss k a cell s ne at v.ip_size miss ∙ rest.1,
              cons-Chain s.heap rest.0 b a e xs ne out at rest.2 rest.3,
              λ p o. rest.3 p (not-mem-tail p a e xs o),
            )
      ]
