-- ===== src/Ping/EchoTests.antt =====
-- An echo request from 10.0.0.1 to 10.0.0.2, and the reply to it.
use tour.Base.{◌≡◌, refl, [], ◌∷◌, ◌++◌, Bytes, drop, replicate, ok}
use tour.Ping.Echo.{icmp_echoreply, icmp_echo_data, icmp_message, reply, hear}
use tour.Ping.Replies.{hear-reply}

abbrev sender : Bytes
sender = 10 ∷ 0 ∷ 0 ∷ 1 ∷ []

abbrev target : Bytes
target = 10 ∷ 0 ∷ 0 ∷ 2 ∷ []

-- The IP header behind its first byte, up to the addresses.
abbrev front : Bytes
front = 0 ∷ 0 ∷ 36 ∷ 0 ∷ 1 ∷ 0 ∷ 0 ∷ 64 ∷ 1 ∷ 0 ∷ 0 ∷ []

hear-reply_example :
    hear (((0x45 ∷ front) ++ (target ++ sender)) ++ icmp_message icmp_echoreply 3) []
    ≡ ok (reply target (icmp_echo_data ++ drop 36 (replicate 1514 0))) []
hear-reply_example = hear-reply front target sender refl refl refl 3 []
