-- ===== src/Unix/Balance.antt =====
-- The sockets that a program opened and closed, by its calls.
use tour.Base.{◌≡◌, List, [], ◌∷◌, if◌then◌else◌, ℤ, is_negative}
use tour.Unix.{Syscall, Calls, socket, close}

abbrev pub opened_by : Syscall → ℤ → List ℤ → List ℤ
opened_by (socket domain kind protocol) r fds = if is_negative r then fds else r ∷ fds
opened_by _ r fds = fds

abbrev pub closed_by : Syscall → List ℤ → List ℤ
closed_by (close fd) fds = fd ∷ fds
closed_by _ fds = fds

-- The descriptors that socket returned, and those given to close, the last one first.
abbrev pub opened : Calls → List ℤ
opened [] = []
opened ((c, r) ∷ t) = opened_by c r (opened t)

abbrev pub closed : Calls → List ℤ
closed [] = []
closed ((c, r) ∷ t) = closed_by c (closed t)

abbrev pub Holds : List ℤ → List ℤ → Calls → Type 0
Holds os cs t = (opened t ≡ os) × (closed t ≡ cs)
