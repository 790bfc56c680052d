-- ===== src/Arp/Run/Watch.antt =====
-- What run_arp of arp.c hands to select.
use tour.Base.{
  plus_one, ℕ, zero, suc, ◌<◌, ◌≡◌, refl, ap, ◌⊎◌, inl, inr, true, false, List, [], ◌∷◌, arith,
  ◌==◌, ℤ, pos, negsuc, ltb_ℤ, length, All, ok, fault, Bool-cases,
}
use tour.Cache.Store.{Ptr, null, is_complete, Heap}
use tour.Cache.Chain.{Cells, first, Chain, load-ok}
use tour.World.{System, Daemon, select, sys_select}
use tour.World.OnHeap.{on_head-ok, on_head-fault}
use tour.Arp.Device.{HwaInfo}
use tour.Arp.Select.{maxfd, watched, IsAtMost, IsOneOf, maxfd-highest}
use tour.Unix.{fits_set, fd_set}
use tour.Arp.Run.{watch_loop, wait}

abbrev pub Fits : ℤ → Type 0
Fits fd = fits_set fd ≡ true

-- The descriptors in the order of the calls of FD_SET, the last one first.
abbrev pub onto : List ℤ → List ℤ → List ℤ
onto [] rset = rset
onto (fd ∷ fds) rset = onto fds (fd ∷ rset)

All-onto : (P : ℤ → Type 0) (fds rset : List ℤ) → All P fds → All P rset → All P (onto fds rset)
All-onto P [] rset v w = w
All-onto P (fd ∷ fds) rset (v, vs) w = All-onto P fds (fd ∷ rset) vs (v, w)

module _ (h : Heap) where
  watch_loop-onto :
      (k : ℕ) (rset : List ℤ) (b : Ptr) (xs : Cells)
      → Chain h b xs
      → All Fits (watched xs)
      → length xs < k
      → watch_loop k rset (first xs) h ≡ ok (onto (watched xs) rset) h
  unfolding watch_loop fd_set
  watch_loop-onto zero rset b xs c v enough = absurd (omega arith)
  watch_loop-onto (suc k) rset b [] c v enough = refl
  watch_loop-onto (suc k) rset b ((a, e) ∷ xs) (ne, at, out, c) v enough =
      let live : (a == null) ≡ false = ground arith in
      elim (Bool-cases (is_complete e.state)) [
        | inl done ↦
            rw (live, load-ok h a ne at, done)
              (watch_loop-onto k rset a xs c (rw done at v) (omega arith))
        | inr waits ↦
            let w : All Fits (e.domain_socket ∷ watched xs) = rw waits at v in
            rw (live, load-ok h a ne at, waits, w.0)
              (watch_loop-onto k (e.domain_socket ∷ rset) a xs c w.1 (omega arith))
      ]

  -- A descriptor outside the set, such as the -1 of a closed client.
  watch_loop-fault :
      (k : ℕ) (rset : List ℤ) (b : Ptr) (xs : Cells) (fd : ℤ)
      → Chain h b xs
      → fits_set fd ≡ false
      → IsOneOf fd (watched xs)
      → length xs < k
      → watch_loop k rset (first xs) h ≡ fault
  unfolding watch_loop fd_set
  watch_loop-fault zero rset b xs fd c bad i enough = absurd (omega arith)
  watch_loop-fault (suc k) rset b [] fd c bad i enough = absurd i
  watch_loop-fault (suc k) rset b ((a, e) ∷ xs) fd (ne, at, out, c) bad i enough =
      let live : (a == null) ≡ false = ground arith in
      elim (Bool-cases (is_complete e.state)) [
        | inl done ↦
            rw (live, load-ok h a ne at, done)
              (watch_loop-fault k rset a xs fd c bad (rw done at i) (omega arith))
        | inr waits ↦
            let j : IsOneOf fd (e.domain_socket ∷ watched xs) = rw waits at i in
            elim (Bool-cases (fits_set e.domain_socket)) [
              | inr unfit ↦ rw (live, load-ok h a ne at, waits, unfit) refl
              | inl fit ↦
                  rw (live, load-ok h a ne at, waits, fit)
                    (watch_loop-fault k (e.domain_socket ∷ rset) a xs fd c bad
                      (later e.domain_socket fit j) (omega arith))
            ]
      ]
    where
      later :
          (x : ℤ) → fits_set x ≡ true → (fd ≡ x) ⊎ IsOneOf fd (watched xs) → IsOneOf fd (watched xs)
      later x fit (inr deeper) = deeper
      later x fit (inl same) = absurd (ground (arith, ap fits_set same))

-- The number that select is given is above every descriptor of its set.
abbrev pub IsBelow : ℤ → ℤ → Type 0
IsBelow n fd = ltb_ℤ fd n ≡ true

IsBelow-plus_one : (m fd : ℤ) → IsAtMost m fd → IsBelow (plus_one m) fd
IsBelow-plus_one (pos m) (pos fd) h = ground arith
IsBelow-plus_one (pos m) (negsuc fd) h = refl
IsBelow-plus_one (negsuc m) (pos fd) h = absurd (cc)
IsBelow-plus_one (negsuc zero) (negsuc fd) h = refl
IsBelow-plus_one (negsuc (suc m)) (negsuc fd) h = ground arith

All-IsBelow : (m : ℤ) (fds : List ℤ) → All (IsAtMost m) fds → All (IsBelow (plus_one m)) fds
All-IsBelow m [] v = tt
All-IsBelow m (fd ∷ fds) (v, vs) = (IsBelow-plus_one m fd v, All-IsBelow m fds vs)

-- The set that select is given.
abbrev pub rset_of : ℤ → ℤ → Cells → List ℤ
rset_of unix_domain pf_socket xs = onto (watched xs) (pf_socket ∷ (unix_domain ∷ []))

module _ (sys : System) (fuel : ℕ) (devices : List HwaInfo) (unix_domain pf_socket : ℤ) (s : Daemon)
    (b : Ptr) (xs : Cells) (head : s.cache ≡ first xs) (chain : Chain s.heap b xs)
    (enough : length xs < fuel) (unix_fits : Fits unix_domain) (pf_fits : Fits pf_socket) where
  -- On a well-formed cache whose clients' descriptors fit an fd_set, as the daemon's two sockets do,
  -- with a round for each node and one more, run_arp calls select once: with the two sockets of the daemon and the descriptor of
  -- every entry that is not complete, each of them below the number that it is given.
  pub wait-covers :
      All Fits (watched xs)
      → (nfds : ℤ) × (wait sys fuel devices unix_domain pf_socket s
          ≡ ok
              (sys.readable s.trace nfds (rset_of unix_domain pf_socket xs))
              (record s { trace = select nfds (rset_of unix_domain pf_socket xs) ∷ s.trace }))
        × All (IsBelow nfds) (rset_of unix_domain pf_socket xs)
  unfolding wait fd_set sys_select
  wait-covers v =
      let (m, ran, one, above) =
        maxfd-highest s.heap fuel pf_socket unix_domain b xs chain enough in
      (
        plus_one m,
        rw
            (
              on_head-ok (maxfd fuel pf_socket unix_domain) s (first xs) head m s.heap ran,
              unix_fits,
              pf_fits,
              on_head-ok (watch_loop fuel (pf_socket ∷ (unix_domain ∷ []))) s (first xs) head
                  (rset_of unix_domain pf_socket xs) s.heap
                  (watch_loop-onto s.heap fuel (pf_socket ∷ (unix_domain ∷ [])) b xs chain v
                    enough),
            )
            refl,
        All-onto (IsBelow (plus_one m)) (watched xs) (pf_socket ∷ (unix_domain ∷ []))
            (All-IsBelow m (watched xs) above.1.1)
            (IsBelow-plus_one m pf_socket above.0, (IsBelow-plus_one m unix_domain above.1.0, tt)),
      )

  -- On a well-formed cache, with a round for each node and one more, and sockets of the daemon that
  -- fit an fd_set: with an entry that is not complete and whose descriptor does not fit, such as the -1
  -- of an accept that failed, run_arp sets a bit outside its set.
  pub wait-faults :
      (fd : ℤ)
      → fits_set fd ≡ false
      → IsOneOf fd (watched xs)
      → wait sys fuel devices unix_domain pf_socket s ≡ fault
  unfolding wait fd_set
  wait-faults fd bad i =
      let (m, ran, one, above) =
        maxfd-highest s.heap fuel pf_socket unix_domain b xs chain enough in
      rw
        (
          on_head-ok (maxfd fuel pf_socket unix_domain) s (first xs) head m s.heap ran,
          unix_fits,
          pf_fits,
          on_head-fault (watch_loop fuel (pf_socket ∷ (unix_domain ∷ []))) s (first xs) head (
              watch_loop-fault s.heap fuel (pf_socket ∷ (unix_domain ∷ [])) b xs fd chain bad i
                enough),
        )
        refl
