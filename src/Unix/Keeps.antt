-- ===== src/Unix/Keeps.antt =====
-- What a system call keeps: what it keeps of the log, whatever it returns.
use tour.Base.{◌∷◌, ℤ, Keeps, Ensures}
use tour.Unix.{Syscall, Calls, Kernel, call, call_for_bytes, call_from, call_select}

module _ {P : Calls → Type 0} (os : Kernel) (c : Syscall)
    (grow : (r : ℤ) (t : Calls) → P t → P ((c, r) ∷ t)) where
  pub call-Keeps : Keeps P (call os c)
  unfolding call
  call-Keeps = record { kept = λ t v. grow (os.result t c) t v }

  pub call_for_bytes-Keeps : Keeps P (call_for_bytes os c)
  unfolding call_for_bytes
  call_for_bytes-Keeps = record { kept = λ t v. grow (os.result t c) t v }

  pub call_from-Keeps : Keeps P (call_from os c)
  unfolding call_from
  call_from-Keeps = record { kept = λ t v. grow (os.result t c) t v }

  pub call_select-Keeps : Keeps P (call_select os c)
  unfolding call_select
  call_select-Keeps = record { kept = λ t v. grow (os.result t c) t v }

  pub call-Ensures : Ensures P (call os c)
  unfolding call
  call-Ensures = record { ended = λ t v. grow (os.result t c) t v }
