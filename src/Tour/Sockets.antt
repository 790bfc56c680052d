-- ===== src/Tour/Sockets.antt =====
-- bind_port, mcast_join, getipbyhost and end_tour of tour.c.
use tour.Base.{
  plus_one, ℕ, zero, suc, Bool, true, false, Option, none, some, [], ◌∷◌, ◌++◌, if◌then◌else◌, ℤ,
  pos, minus_one, is_negative, eqb_ℤ, Bytes, take, replicate, read_at, word_of, out_of_fuel, Cmd,
  pure, or_fault, write_at, ◌==◌, ◌>>=◌, ◌>>◌,
}
use tour.Unix.{
  fd_set, Calls, Kernel, setsockopt, bind, getsockname, send, recvfrom, select, gethostbyname,
  sockaddr_in, call, call_for_bytes,
}

abbrev pub inaddr_any : Bytes
inaddr_any = 0 ∷ 0 ∷ 0 ∷ 0 ∷ []

-- Of netinet/in.h: IPPROTO_IP, and MCAST_JOIN_GROUP with its struct group_req of 136 bytes.
abbrev pub ipproto_ip : ℕ
ipproto_ip = 0

abbrev pub mcast_join_group : ℕ
mcast_join_group = 42

-- IP_MSS of netinet/ip.h.
abbrev pub ip_mss : ℕ
ip_mss = 576

-- The text that snprintf leaves in a buffer of 1024 bytes.
abbrev pub printed : Bytes → Bytes
printed text = take 1023 text

-- "<<<<< Node %s. I am a member of the group. >>>>>"
abbrev pub member_text : Bytes → Bytes
member_text host =
    (60 ∷ 60 ∷ 60 ∷ 60 ∷ 60 ∷ 32 ∷ 78 ∷ 111 ∷ 100 ∷ 101 ∷ 32 ∷ [])
    ++ (host
        ++ (46 ∷ 32 ∷ 73 ∷ 32 ∷ 97 ∷ 109 ∷ 32 ∷ 97 ∷ 32 ∷ 109 ∷ 101 ∷ 109 ∷ 98 ∷ 101 ∷ 114 ∷ 32
            ∷ 111 ∷ 102 ∷ 32 ∷ 116 ∷ 104 ∷ 101 ∷ 32 ∷ 103 ∷ 114 ∷ 111 ∷ 117 ∷ 112 ∷ 46 ∷ 32 ∷ 62
            ∷ 62 ∷ 62 ∷ 62 ∷ 62 ∷ []))

-- The characters before the first NUL, `none` where there is none: printing the buffer then reads
-- on behind it.
unfoldable pub text_of : Bytes → Option Bytes
text_of [] = none
text_of (b ∷ rest) =
    let more = text_of rest in
    if b == 0 then some [] else elim more [ none ↦ none | some text ↦ some (b ∷ text) ]

-- The text of `got` in a zeroed buffer of `size` bytes.
unfoldable pub buffer_text : ℕ → Bytes → Option Bytes
unfolding text_of
buffer_text size got = elim (write_at (replicate size 0) 0 got) [
  | none ↦ none
  | some buf ↦ text_of buf
]

-- The word that two bytes are.
abbrev pub word_at : Bytes → ℕ
word_at (lo ∷ hi ∷ rest) = word_of lo hi
word_at _ = 0

module _ (os : Kernel) where
  -- The port that the socket is bound to, as it stands in memory; -1 for an error. `port` is such a
  -- word, 0 for any.
  unfoldable pub bind_port : ℤ → ℕ → Cmd Calls ℤ
  bind_port sockfd port = do
    bound ← call os (bind sockfd (sockaddr_in port inaddr_any))
    if is_negative bound then pure minus_one else do
      (named, addr) ← call_for_bytes os (getsockname sockfd)
      if is_negative named
          then pure minus_one
          else do sin_port ← or_fault (read_at addr 2 2); pure (pos (word_at sin_port))

  -- The interface is 0 wherever it is called: any.
  unfoldable pub mcast_join : ℤ → Bytes → Cmd Calls Bool
  mcast_join sockfd mcastip = do
    joined ← call os (
        setsockopt sockfd ipproto_ip mcast_join_group
          (replicate 8 0 ++ (sockaddr_in 0 mcastip ++ replicate 112 0)))
    pure (if is_negative joined then false else true)

  -- The first address of the host, `none` for the return of 0.
  unfoldable pub getipbyhost : Bytes → Cmd Calls (Option Bytes)
  getipbyhost hostname = do
    (found, addrs) ← call_for_bytes os (gethostbyname hostname)
    if eqb_ℤ found (pos 0)
        then pure none
        else do hostip ← or_fault (read_at addrs 0 4); pure (some hostip)

  -- The loop that prints the messages of the others until none comes for five seconds.
  unfoldable pub hear_members : ℤ → ℕ → Cmd Calls Bool
  hear_members udp_recv zero = λ _. out_of_fuel
  hear_members udp_recv (suc k) =
      let rest = hear_members udp_recv k in
      do
        rset ← or_fault (fd_set udp_recv [])
        rv ← call os (select (plus_one udp_recv) rset (some 5))
        if is_negative rv then pure false else if eqb_ℤ rv (pos 0) then pure true else do
          (nread, got) ← call_for_bytes os (recvfrom udp_recv ip_mss)
          if is_negative nread then pure false else or_fault (buffer_text ip_mss got) >> rest

  unfoldable pub end_tour : Bytes → ℕ → ℤ → ℤ → Cmd Calls Bool
  unfolding hear_members
  end_tour host fuel udp_recv udp_send = do
    sent ← call os (send udp_send (printed (member_text host)))
    if is_negative sent then pure false else hear_members udp_recv fuel
