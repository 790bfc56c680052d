-- ===== src/Areq/Closes.antt =====
-- The socket of areq of api.c.
use tour.Base.{
  ℕ, ◌≡◌, refl, ap, ◌⊎◌, inl, inr, Option, none, List, ◌∷◌, ℤ, pos, ltb_ℤ, is_negative, eqb_ℤ,
  Bytes, [], read_at, Bool-cases, Returns, Keeps, Returns-and_then, Keeps-bind, Keeps-pure,
  Keeps-if, Keeps-or_fault,
}
use tour.Unix.{Calls, Kernel, socket, af_unix, sock_stream, fd_set, call}
use tour.Unix.Balance.{opened, closed, Holds}
use tour.Unix.Keeps.{call-Keeps, call_for_bytes-Keeps}
use tour.Areq.{hwaddr_size, show_hwa, receive_hwa, ask, areq}

module _ (os : Kernel) (fds cs : List ℤ) where
  receive_hwa-Keeps : (sock : ℤ) → Keeps (Holds fds cs) (receive_hwa os sock)
  unfolding receive_hwa
  receive_hwa-Keeps sock = Keeps-bind (call_for_bytes-Keeps _ _ (λ r t v. v)) (λ (nread, hwa).
      Keeps-if (is_negative nread) Keeps-pure (
        Keeps-if (ltb_ℤ nread (pos hwaddr_size)) Keeps-pure
          (Keeps-bind (Keeps-or_fault (show_hwa hwa)) (λ text. Keeps-pure))))

  ask-Keeps : (sock : ℤ) (ipa : Bytes) (len : ℕ) → Keeps (Holds fds cs) (ask os sock ipa len)
  unfolding ask
  ask-Keeps sock ipa len = Keeps-bind (call-Keeps _ _ (λ r t v. v)) (λ rc.
      Keeps-if (is_negative rc) Keeps-pure (
        Keeps-bind (Keeps-or_fault (read_at ipa 0 16)) (λ addr.
          Keeps-bind (call-Keeps _ _ (λ r t v. v)) (λ nsent.
            Keeps-if (is_negative nsent) Keeps-pure (
              Keeps-bind (Keeps-or_fault (fd_set sock [])) (λ rset.
                Keeps-bind (call-Keeps _ _ (λ r t v. v)) (λ rv.
                  Keeps-if (is_negative rv) Keeps-pure
                    (Keeps-if (eqb_ℤ rv (pos 0)) Keeps-pure (receive_hwa-Keeps sock)))))))))

-- What areq leaves: it opened one socket and closed it, or it opened none and has no address.
abbrev pub Closed : Calls → Option Bytes → Calls → Type 0
Closed t found t' =
    ((fd : ℤ) × Holds (fd ∷ opened t) (fd ∷ closed t) t')
    ⊎ ((found ≡ none) × Holds (opened t) (closed t) t')

-- Wherever areq returns, it has closed the socket that it opened and no other, or it could not open
-- one, closed none and returns no address.
pub areq-closes :
    (os : Kernel) (ipa : Bytes) (len : ℕ) (t : Calls) → Returns (Closed t) (areq os ipa len t)
unfolding areq call
areq-closes os ipa len t = elim (Bool-cases (is_negative sock)) [
  | inl none_left ↦ rw none_left (inr (refl, (rw none_left refl, refl)))
  | inr open_now ↦ rw open_now (
      Returns-and_then (λ _. Holds (sock ∷ opened t) (closed t)) (Closed t)
        (ask os sock ipa len ((socket af_unix sock_stream 0, sock) ∷ t)) _
        ((ask-Keeps os (sock ∷ opened t) (closed t) sock ipa len).kept
          ((socket af_unix sock_stream 0, sock) ∷ t) (rw open_now refl, refl))
        (λ found t' (o, c). inl (sock, (o, ap (λ cs. sock ∷ cs) c))))
]
  where
    sock : ℤ
    sock = os.result t (socket af_unix sock_stream 0)
