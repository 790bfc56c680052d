-- ===== src/Arp/Memory.antt =====
-- The memory that get_hw_addrs and free_hwa_info of get_hw_addrs.c allocate and free.
use tour.Base.{
  ℕ, zero, suc, ◌+◌, ◌*◌, ◌/◌, ◌≡◌, refl, Bool, false, not, ◌||◌, ◌==◌, Option, none, some, List,
  [], ◌∷◌, ◌++◌, arith, ℤ, pos, is_negative, eqb_ℤ, Bytes, length, take, drop, Keeps, Leads,
  Leads-then, Leads-bind, Leads-Keeps, Leads-pure, Leads-if, Bool-cases, inl, inr,
}
use tour.Unix.{Calls, Kernel, calloc, close, call}
use tour.Unix.Keeps.{call-Keeps, call_for_bytes-Keeps}
use tour.Arp.Interfaces.{
  minus_einval, ifreq_size, hwa_info_size, is_eth0, cut_alias, same_name, Listed, Outcome, nodes,
  listed, free_hwa, free_buf, items, free_hwa_info, describe, interfaces, read_table, give_up_table,
  leave, list_table, get_hw_addrs,
}
use tour.Arp.Descriptor.{describe-Keeps}
use tour.Unix.Memory.{one, Owes, free-Leads, malloc-Leads, calloc-Leads, one-null}

-- How often the address stands in a list.
abbrev pub held : ℤ → List Listed → ℕ
held a [] = 0
held a (h ∷ hs) = one a h.addr + (one a h.hwa + held a hs)

held-snoc :
    (a : ℤ) (hs : List Listed) (h : Listed)
    → held a (hs ++ (h ∷ [])) ≡ one a h.addr + (one a h.hwa + held a hs)
held-snoc a [] h = refl
held-snoc a (x ∷ hs) h = omega (arith, held-snoc a hs h)

module _ (os : Kernel) (a : ℤ) (live : eqb_ℤ a (pos 0) ≡ false) where
  pub free_hwa_info-Leads :
      (hwas : List Listed) (n : ℕ)
      → Leads (Owes a (held a hwas + n)) (λ _. Owes a n) (free_hwa_info os hwas)
  unfolding free_hwa_info
  free_hwa_info-Leads [] n = Leads-pure tt (λ t v. omega (arith, v))
  free_hwa_info-Leads (h ∷ rest) n = record {
    led = λ t v.
        (Leads-then
            (Leads-then (free-Leads os a live h.addr (one a h.hwa + (held a rest + n)))
              (λ _. free-Leads os a live h.hwa (held a rest + n)))
            (λ _. free_hwa_info-Leads rest n)).led
          t (omega (arith, v));
  }

  -- The buffer that read_table leaves is to be freed.
  abbrev BufferOf : Option ℤ × Option Bytes → Calls → Type 0
  BufferOf (some buf, table) = Owes a (one a buf + 0)
  BufferOf (none, table) = Owes a 0

  read_table-Leads :
      (sockfd : ℤ) (k len lastlen : ℕ)
      → Leads (Owes a 0) BufferOf (read_table os sockfd k len lastlen)
  unfolding read_table
  read_table-Leads sockfd zero len lastlen = record { led = λ t v. tt }
  read_table-Leads sockfd (suc k) len lastlen = Leads-then (malloc-Leads os a live len 0) (λ buf.
      elim (Bool-cases (eqb_ℤ buf (pos 0))) [
        | inl full ↦
            rw full (Leads-pure (none, none) (λ t v. omega (arith, v, one-null os a live buf full)))
        | inr room ↦ rw room (
            Leads-bind
              (call_for_bytes-Keeps {P = Owes a (one a buf + 0)} _ _ (λ r t v. omega (arith, v)))
              (λ (rc, table).
                Leads-if (is_negative rc)
                  (Leads-if (not (eqb_ℤ rc minus_einval) || not (lastlen == 0))
                    (Leads-pure (some buf, none) (λ t v. v))
                    (Leads-then (free-Leads os a live buf 0)
                      (λ _. read_table-Leads sockfd k (len + 10 * ifreq_size) lastlen)))
                  (Leads-if (length table == lastlen) (Leads-pure (some buf, some table) (λ t v. v))
                    (Leads-then (free-Leads os a live buf 0)
                      (λ _. read_table-Leads sockfd k (len + 10 * ifreq_size) (length table))))))
      ])

  -- What is left of a list.
  abbrev pub ListOf : Option (List Listed) → Calls → Type 0
  ListOf found = Owes a (held a (nodes found) + 0)

  close-Keeps : (sockfd : ℤ) (n : ℕ) → Keeps (Owes a n) (call os (close sockfd))
  close-Keeps sockfd n = call-Keeps _ _ (λ r t v. omega (arith, v))

  give_up_table-Leads :
      (sockfd : ℤ) (buf : Option ℤ) (table : Option Bytes)
      → Leads (BufferOf (buf, table)) ListOf (give_up_table os sockfd buf)
  unfolding give_up_table
  give_up_table-Leads sockfd none table =
      Leads-bind (close-Keeps sockfd 0) (λ _. Leads-pure none (λ t v. v))
  give_up_table-Leads sockfd (some buf) table =
      Leads-then {R = λ _. Owes a 0}
        (Leads-then (free-Leads os a live buf 0)
          (λ _. Leads-Keeps (close-Keeps sockfd 0) (λ r t v. v)))
        (λ _. Leads-pure none (λ t v. v))

  describe-Owes :
      (sockfd : ℤ) (alias : Bool) (item ifrcopy : Bytes) (n : ℕ)
      → Keeps (Owes a n) (describe os sockfd alias item ifrcopy)
  describe-Owes sockfd alias item ifrcopy n =
      describe-Keeps os {P = Owes a n} (λ fd request arg r t v. omega (arith, v)) sockfd alias item
        ifrcopy

  -- What is owed where the loop over the items ends; it never lacks memory for an address.
  abbrev OwesFor : ℕ → Outcome → Calls → Type 0
  OwesFor n (listed hs) = Owes a (held a hs + n)
  OwesFor n (free_hwa hs) = Owes a (held a hs + n)
  OwesFor n free_buf = λ _. ⊥

  module _ (memory : (t : Calls) → eqb_ℤ (os.result t (calloc 16)) (pos 0) ≡ false) where
    address-Leads :
        (n : ℕ)
        → Leads
            (Owes a n)
            (λ r t. (eqb_ℤ r (pos 0) ≡ false) × Owes a (one a r + n) t)
            (call os (calloc 16))
    unfolding call
    address-Leads n = record { led = λ t v. (memory t, omega (arith, v)) }

    interfaces-Leads :
        (sockfd : ℤ) (lastname : Bytes) (sofar : List Listed) (rest : List Bytes) (n : ℕ)
        → Leads (Owes a (held a sofar + n)) (OwesFor n) (interfaces os sockfd lastname sofar rest)
    unfolding interfaces
    interfaces-Leads sockfd lastname sofar [] n = Leads-pure (listed sofar) (λ t v. v)
    interfaces-Leads sockfd lastname sofar (item ∷ rest) n =
        let cut = cut_alias (take 16 item) in
        Leads-if (not (is_eth0 item)) (interfaces-Leads sockfd lastname sofar rest n) (
          Leads-then (calloc-Leads os a live hwa_info_size (held a sofar + n)) (λ hwa.
            elim (Bool-cases (eqb_ℤ hwa (pos 0))) [
              | inl full ↦ rw full (
                  Leads-pure (free_hwa sofar)
                    (λ t v. omega (arith, v, one-null os a live hwa full)))
              | inr room ↦ rw room (
                  Leads-then (address-Leads (one a hwa + (held a sofar + n))) (λ addr. record {
                    led = λ t (given, v). rw given (
                        (Leads-bind
                            (describe-Owes sockfd (same_name lastname cut) item
                              (cut ++ drop 16 item) (one a addr + (one a hwa + (held a sofar + n))))
                            (λ info. record {
                              led = λ t' v'.
                                  let new : Listed = record {
                                    hwa = hwa;
                                    addr = addr;
                                    info = info;
                                  } in
                                  (interfaces-Leads sockfd cut (sofar ++ (new ∷ [])) rest n).led t'
                                    (omega (arith, v', held-snoc a sofar new));
                            })).led
                          t v);
                  }))
            ]))

    leave-Leads :
        (sockfd buf : ℤ) (out : Outcome)
        → Leads (OwesFor (one a buf + 0) out) ListOf (leave os sockfd buf out)
    unfolding leave
    leave-Leads sockfd buf (listed hwas) = record {
      led = λ t v.
          (Leads-then (free-Leads os a live buf (held a hwas + 0))
              (λ _. Leads-pure (some hwas) (λ t' v'. v'))).led
            t (omega (arith, v));
    }
    leave-Leads sockfd buf (free_hwa hwas) =
        Leads-then (free_hwa_info-Leads hwas (one a buf + 0))
          (λ _. give_up_table-Leads sockfd (some buf) none)
    leave-Leads sockfd buf free_buf = record { led = λ t v. absurd v }

    list_table-Leads :
        (sockfd : ℤ) (read : Option ℤ × Option Bytes)
        → Leads (BufferOf read) ListOf (list_table os sockfd read)
    unfolding list_table
    list_table-Leads sockfd (some buf, some table) = record {
      led = λ t v.
          (Leads-then
              (interfaces-Leads sockfd (0 ∷ []) [] (items (length table / ifreq_size) table)
                (one a buf + 0))
              (λ out. leave-Leads sockfd buf out)).led
            t (omega (arith, v));
    }
    list_table-Leads sockfd (some buf, none) = give_up_table-Leads sockfd (some buf) none
    list_table-Leads sockfd (none, table) = give_up_table-Leads sockfd none table

    pub get_hw_addrs-Leads : (fuel : ℕ) → Leads (Owes a 0) ListOf (get_hw_addrs os fuel)
    unfolding get_hw_addrs
    get_hw_addrs-Leads fuel =
        Leads-bind (call-Keeps {P = Owes a 0} _ _ (λ r t v. omega (arith, v))) (λ sockfd.
          Leads-if (is_negative sockfd) (Leads-pure none (λ t v. v))
            (Leads-then (read_table-Leads sockfd fuel _ 0) (λ read. list_table-Leads sockfd read)))
