-- ===== src/Tour/Overread.antt =====
-- The memory behind an accepted message, and forward_tour of tour.c on it.
use tour.Base.{
  ℕ, ◌+◌, ◌-◌, ◌*◌, ◌≤◌, ◌<◌, ◌≡◌, ◌↔◌, refl, sym, ap, ◌∙◌, Bool, true, false, not, Option, none,
  some, [], ◌∷◌, ◌++◌, ◌==◌, ltb, leb, ltb→lt, leb→le, if◌then◌else◌, arith, Bytes, length, take,
  drop, read_beyond, read_within, write_at, htons, length-append, length-drop, Bool-cases, inl, inr,
}
use tour.Base.Maybe.{◌>>=◌}
use tour.Tour.Message.{
  TourHdr, tour_bytes, is_positive, tour_size, send_ip, forward_tour, load_tour, Receipt, too_short,
  wrong_id, accepted, ip_len_of, ip_id_of, ipid_tour, accept_tour,
}

-- The sizes of the parts of a message in the receive buffer.
abbrev pub HasSizes : TourHdr → Type 0
HasSizes t = (length t.mcastip ≡ 4) × (length t.ips ≡ 65507)

abbrev Fits : Option Receipt → Type 0
Fits none = Unit {0}
Fits (some too_short) = Unit {0}
Fits (some wrong_id) = Unit {0}
Fits (some (accepted t)) = HasSizes t

Fits-bind :
    {A : Type 0} (o : Option A) (k : A → Option Receipt)
    → ((a : A) → o ≡ some a → Fits (k a))
    → Fits (o >>= k)
Fits-bind none k q = tt
Fits-bind (some a) k q = q a refl

Fits-if : (b : Bool) (m n : Option Receipt) → Fits m → Fits n → Fits (if b then m else n)
Fits-if true m n p q = p
Fits-if false m n p q = q

length-write_at :
    (buffer got packet : Bytes)
    → write_at buffer 0 got ≡ some packet
    → length packet ≡ length buffer
unfolding write_at
length-write_at buffer got packet e = ground (
  arith,
  length-append got (drop (length got) buffer),
  length-drop (length got) buffer,
  leb→le (length got) (length buffer),
)

load-Fits :
    (w : Bytes)
    → length w ≡ 65515
    → Fits (load_tour w >>= λ t. some (accepted (record t { len = htons t.len })))
unfolding load_tour
load-Fits [] e = tt
load-Fits (a ∷ []) e = tt
load-Fits (a ∷ b ∷ []) e = tt
load-Fits (a ∷ b ∷ c ∷ []) e = tt
load-Fits (a ∷ b ∷ c ∷ d ∷ []) e = tt
load-Fits (a ∷ b ∷ c ∷ d ∷ f ∷ []) e = tt
load-Fits (a ∷ b ∷ c ∷ d ∷ f ∷ g ∷ []) e = tt
load-Fits (a ∷ b ∷ c ∷ d ∷ f ∷ g ∷ h ∷ []) e = tt
load-Fits (a ∷ b ∷ c ∷ d ∷ f ∷ g ∷ h ∷ i ∷ ips) e = (refl, omega (arith, e))

accept_tour-Fits : (buffer got : Bytes) → length buffer ≡ 65535 → Fits (accept_tour buffer got)
unfolding accept_tour
accept_tour-Fits buffer got room = Fits-bind (write_at buffer 0 got) _ λ packet stored.
    Fits-bind (ip_len_of packet) _ λ ip_len _. Fits-bind (ip_id_of packet) _ λ ip_id _.
      Fits-if (ltb (length got) 28) _ _ tt (
        Fits-if (ltb (htons ip_len) 28) _ _ tt (
          Fits-if (not (ip_id == htons ipid_tour)) _ _ tt (
            load-Fits (drop 20 packet) (
              omega
                (arith, length-drop 20 packet, length-write_at buffer got packet stored, room)))))

pub accept_tour-HasSizes :
    (buffer got : Bytes) (t : TourHdr)
    → length buffer ≡ 65535
    → accept_tour buffer got ≡ some (accepted t)
    → HasSizes t
accept_tour-HasSizes buffer got t room e = let f = accept_tour-Fits buffer got room in rw e at f

send_ip-some :
    (hostip payload dstip : Bytes) (len : ℕ)
    → len ≤ length payload
    → (packet : Bytes) × (send_ip hostip payload len dstip ≡ some packet)
unfolding send_ip
send_ip-some hostip payload dstip len fits = rw (read_within payload 0 len (omega arith)) (_, refl)

length-message :
    (mcastip ips : Bytes) (a b c d : ℕ)
    → length mcastip ≡ 4
    → length ips ≡ 65507
    → length (mcastip ++ (a ∷ b ∷ c ∷ d ∷ ips)) ≡ 65515
length-message mcastip ips a b c d ip4 room =
    omega (arith, length-append mcastip (a ∷ b ∷ c ∷ d ∷ ips), ip4, room)

forward_tour-within :
    (hostip : Bytes) (t : TourHdr)
    → HasSizes t
    → is_positive t.len ≡ true
    → t.len ≤ 16376
    → (hop : Bytes × Bytes) × (forward_tour hostip t ≡ some hop)
unfolding forward_tour tour_size tour_bytes
forward_tour-within hostip t (ip4, room) positive within =
    rw
      (
        positive,
        read_within t.ips (4 * (t.len - 1)) 4 (omega (arith, ltb→lt 0 t.len, room, within)),
      )
      (rw (sent.1) (_, refl))
  where
    sent :
        (packet : Bytes) × (send_ip hostip
            (tour_bytes (record t { len = htons (t.len - 1) }))
            (8 + (t.len - 1) * 4)
            (take 4 (drop (4 * (t.len - 1)) t.ips))
          ≡ some packet)
    sent =
        send_ip-some hostip _ _ (8 + (t.len - 1) * 4)
          (omega (arith, within, length-message t.mcastip t.ips _ _ _ _ ip4 room))

forward_tour-beyond :
    (hostip : Bytes) (t : TourHdr)
    → HasSizes t
    → is_positive t.len ≡ true
    → 16376 < t.len
    → forward_tour hostip t ≡ none
unfolding forward_tour
forward_tour-beyond hostip t (ip4, room) positive beyond =
    rw (positive, read_beyond t.ips (4 * (t.len - 1)) 4 (omega (arith, room, beyond))) refl

-- A message that run_tour accepted into its buffer of 65535 bytes, with a positive count: sending it
-- on reads outside the buffer exactly if it counts more than 16376 addresses.
pub forward_tour-overreads :
    (hostip buffer got : Bytes) (t : TourHdr)
    → length buffer ≡ 65535
    → accept_tour buffer got ≡ some (accepted t)
    → is_positive t.len ≡ true
    → (forward_tour hostip t ≡ none) ↔ (16376 < t.len)
forward_tour-overreads hostip buffer got t room e positive = (
  (λ faults. elim (Bool-cases (leb t.len 16376)) [
    | inl within ↦
        let hop = forward_tour-within hostip t sizes positive (leb→le t.len 16376 within) in
        omega (arith, ap count (sym faults ∙ hop.1))
    | inr beyond ↦ ground arith
  ]),
  (λ beyond. forward_tour-beyond hostip t sizes positive beyond),
)
  where
    count : Option (Bytes × Bytes) → ℕ
    count none = 0
    count (some hop) = 1

    sizes : HasSizes t
    sizes = accept_tour-HasSizes buffer got t room e
