-- ===== src/Arp/SelectTests.antt =====
-- maxfd at a cache of two clients.
use tour.Base.{◌≡◌, ok, List, ◌∷◌, ℤ, pos, arith, All}
use tour.Cache.Store.{null}
use tour.Cache.Chain.{first}
use tour.Arp.Fixtures.{two, clients, two-Chain}
use tour.Arp.Select.{maxfd, watched, IsOneOf, IsAtMost, maxfd-highest}

maxfd-highest_example :
    let all : List ℤ = pos 3 ∷ (pos 4 ∷ watched clients) in
    (m : ℤ) × (maxfd 3 (pos 3) (pos 4) (first clients) two ≡ ok m two)
    × IsOneOf m all
    × All (IsAtMost m) all
maxfd-highest_example = maxfd-highest two 3 (pos 3) (pos 4) null clients two-Chain (omega arith)
