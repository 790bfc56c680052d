-- ===== src/Arp/Listen.antt =====
-- create_unix_domain and create_pf_socket of arp.c: the daemon's two sockets.
use tour.Base.{
  ℕ, ◌≡◌, refl, ◌⊎◌, inl, inr, true, false, not, [], ◌∷◌, ◌++◌, if◌then◌else◌, ℤ, pos, minus_one,
  is_negative, eqb_ℤ, Bytes, word_bytes, htons, replicate, Cmd, pure, ◌>>=◌, ◌>>◌, Bool-cases, Ends,
}
use tour.Unix.{
  Calls, Kernel, socket, bind, chmod, listen, unlink, close, af_unix, af_packet, sock_stream,
  sock_raw, call,
}
use tour.Unix.Balance.{opened, closed, Holds}
use tour.Areq.{arp_well_known_path}
use tour.Frame.Make.{eth_p_arp_sh}

-- The struct sockaddr_un: strncpy fills its path with zeros up to the last byte, which is not set.
abbrev pub well_known_addr : ℕ → Bytes
well_known_addr unset =
    word_bytes af_unix ++ (arp_well_known_path ++ (replicate 89 0 ++ (unset ∷ [])))

-- S_IRUSR | S_IWUSR | S_IXUSR | S_IWGRP | S_IWOTH, which is 0722.
abbrev pub world_writable : ℕ
world_writable = 466

module _ (os : Kernel) where
  -- What follows a failed chmod or listen.
  unfoldable pub give_up : ℤ → Cmd Calls ℤ
  give_up unix_domain = do
    call os (close unix_domain)
    call os (unlink arp_well_known_path)
    pure minus_one

  unfoldable pub create_unix_domain : ℕ → Cmd Calls ℤ
  create_unix_domain unset = do
    unix_domain ← call os (socket af_unix sock_stream 0)
    if is_negative unix_domain then pure unix_domain else do
      call os (unlink arp_well_known_path)
      bound ← call os (bind unix_domain (well_known_addr unset))
      if not (eqb_ℤ bound (pos 0)) then pure minus_one else do
        changed ← call os (chmod arp_well_known_path world_writable)
        if is_negative changed then give_up unix_domain else do
          listening ← call os (listen unix_domain 5)
          if is_negative listening then give_up unix_domain else pure unix_domain

  unfoldable pub create_pf_socket : Cmd Calls ℤ
  create_pf_socket = call os (socket af_packet sock_raw (htons eth_p_arp_sh))

module _ (os : Kernel) (unset : ℕ) (t : Calls) where
  abbrev sock : ℤ
  sock = os.result t (socket af_unix sock_stream 0)

  abbrev before_bind : Calls
  before_bind =
      let t1 = (socket af_unix sock_stream 0, sock) ∷ t in
      (unlink arp_well_known_path, os.result t1 (unlink arp_well_known_path)) ∷ t1

  abbrev bound : ℤ
  bound = os.result before_bind (bind sock (well_known_addr unset))

  -- What create_unix_domain leaves, by the results of socket and bind.
  abbrev pub Left : ℤ → Calls → Type 0
  Left fd t' =
      ((is_negative sock ≡ true) × (fd ≡ sock) × Holds (opened t) (closed t) t')
      ⊎ (((is_negative sock ≡ false)
            × (eqb_ℤ bound (pos 0) ≡ false)
            × (fd ≡ minus_one)
            × Holds (sock ∷ opened t) (closed t) t')
          ⊎ (((is_negative sock ≡ false)
                × (eqb_ℤ bound (pos 0) ≡ true)
                × (fd ≡ sock)
                × Holds (sock ∷ opened t) (closed t) t')
              ⊎ ((is_negative sock ≡ false)
                  × (eqb_ℤ bound (pos 0) ≡ true)
                  × (fd ≡ minus_one)
                  × Holds (sock ∷ opened t) (sock ∷ closed t) t')))

  -- create_unix_domain always returns. Where socket fails it opens nothing; where bind fails it
  -- returns -1 and leaves the socket open; else it returns the socket, which is open, or it returns
  -- -1 and has closed it.
  pub create_unix_domain-Left : Ends Left (create_unix_domain os unset t)
  unfolding create_unix_domain give_up call
  create_unix_domain-Left = elim (Bool-cases (is_negative sock)) [
    | inl none_left ↦ rw none_left (inl (none_left, refl, (rw none_left refl, refl)))
    | inr open_now ↦
        let held : opened ((socket af_unix sock_stream 0, sock) ∷ t) ≡ sock ∷ opened t =
          rw open_now refl in
        elim (Bool-cases (eqb_ℤ bound (pos 0))) [
          | inr unbound ↦ rw (open_now, unbound) (inr (inl (open_now, unbound, refl, (held, refl))))
          | inl good ↦ elim (Bool-cases (is_negative changed)) [
            | inl refused ↦
                rw (open_now, good, refused) (inr (inr (inr (open_now, good, refl, (held, refl)))))
            | inr allowed ↦ elim (Bool-cases (is_negative listening)) [
              | inl deaf ↦
                  rw (open_now, good, allowed, deaf)
                    (inr (inr (inr (open_now, good, refl, (held, refl)))))
              | inr hears ↦
                  rw (open_now, good, allowed, hears)
                    (inr (inr (inl (open_now, good, refl, (held, refl)))))
            ]
          ]
        ]
  ]
    where
      after_bind : Calls
      after_bind = (bind sock (well_known_addr unset), bound) ∷ before_bind

      changed : ℤ
      changed = os.result after_bind (chmod arp_well_known_path world_writable)

      after_chmod : Calls
      after_chmod = (chmod arp_well_known_path world_writable, changed) ∷ after_bind

      listening : ℤ
      listening = os.result after_chmod (listen sock 5)
