-- ===== src/Areq/Returns.antt =====
-- areq of api.c returns.
use tour.Base.{
  ℕ, ◌≤◌, ◌≡◌, refl, ap, inl, inr, true, false, some, [], List, ◌∷◌, ℤ, pos, ltb_ℤ, is_negative,
  eqb_ℤ, length, Bytes, read_at, read_within, Bool-cases, Ends, Ensures, Ends-and_then,
  Ensures-bind, Ensures-pure, Ensures-if, Ensures-some,
}
use tour.Unix.{
  Calls, Kernel, socket, recv, af_unix, sock_stream, fits_set, fd_set, call, call_for_bytes,
}
use tour.Unix.Balance.{opened, closed, Holds}
use tour.Unix.Keeps.{call-Ensures}
use tour.Areq.{hwaddr_size, show_hwa, receive_hwa, ask, areq}
use tour.Areq.Closes.{Closed}

-- What the daemon sends can be printed: its length byte is at most 8.
abbrev pub IsPrinted : Kernel → Type 0
IsPrinted os =
    (t : Calls) (fd : ℤ)
    → (text : Bytes) × (show_hwa (os.stored t (recv fd hwaddr_size)) ≡ some text)

module _ (os : Kernel) (printed : IsPrinted os) (fds cs : List ℤ) where
  receive_hwa-Ensures : (sock : ℤ) → Ensures (Holds fds cs) (receive_hwa os sock)
  unfolding receive_hwa call_for_bytes
  receive_hwa-Ensures sock = record {
    ended = λ t v.
        let c = recv sock hwaddr_size in
        elim (Bool-cases (is_negative (os.result t c))) [
          | inl bad ↦ rw bad v
          | inr good ↦ elim (Bool-cases (ltb_ℤ (os.result t c) (pos hwaddr_size))) [
            | inl short ↦ rw (good, short) v
            | inr whole ↦ rw (good, whole, (printed t sock).1) v
          ]
        ];
  }

  ask-Ensures :
      (sock : ℤ) (ipa : Bytes) (len : ℕ)
      → fits_set sock ≡ true
      → 16 ≤ length ipa
      → Ensures (Holds fds cs) (ask os sock ipa len)
  unfolding ask fd_set
  ask-Ensures sock ipa len fits whole = Ensures-bind (call-Ensures _ _ (λ r t v. v)) (λ rc.
      Ensures-if (is_negative rc) Ensures-pure (
        Ensures-bind (Ensures-some (read_at ipa 0 16) _ (read_within ipa 0 16 whole)) (λ addr.
          Ensures-bind (call-Ensures _ _ (λ r t v. v)) (λ nsent.
            Ensures-if (is_negative nsent) Ensures-pure (
              Ensures-bind (Ensures-some (fd_set sock []) (sock ∷ []) (rw (fd_set, fits) refl))
                (λ rset. Ensures-bind (call-Ensures _ _ (λ r t v. v)) (λ rv.
                  Ensures-if (is_negative rv) Ensures-pure
                    (Ensures-if (eqb_ℤ rv (pos 0)) Ensures-pure (receive_hwa-Ensures sock)))))))))

-- With an address of at least 16 bytes, answers of the daemon that can be printed, and a socket, if
-- there is one, that fits an fd_set, areq returns; it has then closed the socket that it opened and
-- no other, or it could not open one, closed none and returns no address.
pub areq-returns :
    (os : Kernel) (ipa : Bytes) (len : ℕ) (t : Calls)
    → IsPrinted os
    → 16 ≤ length ipa
    → (is_negative (os.result t (socket af_unix sock_stream 0)) ≡ false
        → fits_set (os.result t (socket af_unix sock_stream 0)) ≡ true)
    → Ends (Closed t) (areq os ipa len t)
unfolding areq call
areq-returns os ipa len t printed whole fits = elim (Bool-cases (is_negative sock)) [
  | inl none_left ↦ rw none_left (inr (refl, (rw none_left refl, refl)))
  | inr open_now ↦ rw open_now (
      Ends-and_then (λ _. Holds (sock ∷ opened t) (closed t)) (Closed t)
        (ask os sock ipa len ((socket af_unix sock_stream 0, sock) ∷ t)) _
        ((ask-Ensures os printed (sock ∷ opened t) (closed t) sock ipa len (fits open_now)
            whole).ended
          ((socket af_unix sock_stream 0, sock) ∷ t) (rw open_now refl, refl))
        (λ found t' (o, c). inl (sock, (o, ap (λ cs. sock ∷ cs) c))))
]
  where
    sock : ℤ
    sock = os.result t (socket af_unix sock_stream 0)
