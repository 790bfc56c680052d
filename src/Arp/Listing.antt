-- ===== src/Arp/Listing.antt =====
-- The interfaces that get_hw_addrs of get_hw_addrs.c lists.
use tour.Base.{
  ℕ, zero, suc, ◌≡◌, refl, sym, ap, ◌∙◌, inl, inr, Bool, true, false, not, some, List, [], ◌∷◌,
  ◌++◌, if◌then◌else◌, append_assoc, append-nil, ℤ, pos, eqb_ℤ, Bytes, bytes_eq_iff, drop, take,
  read_at, Bool-cases, Option-cases, Returns, Returns-and_then, Returns-and_then_any,
  Returns-weaken, ◌>>=◌, or_fault,
}
use tour.Unix.{Calls, Kernel, calloc, call}
use tour.Arp.Device.{HwaInfo}
use tour.Arp.Interfaces.{
  siocgifhwaddr, siocgifindex, hwa_info_size, is_eth0, cut_alias, same_name, Listed, Outcome,
  listed, free_hwa, free_buf, ask_ifreq, describe, interfaces,
}

-- The items with the name "eth0", in order.
abbrev pub eth0_items : List Bytes → List Bytes
eth0_items [] = []
eth0_items (item ∷ rest) = if is_eth0 item then item ∷ eth0_items rest else eth0_items rest

-- An entry for each item: its name with a NUL at the end, its address, and the alias flag on all but
-- the first.
abbrev pub AreOf : Bool → List Bytes → List Listed → Type 0
AreOf first [] [] = Unit {0}
AreOf first [] (h ∷ hs) = ⊥
AreOf first (item ∷ rest) [] = ⊥
AreOf first (item ∷ rest) (h ∷ hs) =
    (h.info.if_name ≡ take 15 item ++ (0 ∷ []))
    × (read_at item 16 16 ≡ some h.info.ip_addr)
    × (h.info.ip_alias ≡ not first)
    × AreOf false rest hs

-- "eth0" and its NUL.
abbrev eth0_name : Bytes
eth0_name = 101 ∷ 116 ∷ 104 ∷ 48 ∷ 0 ∷ []

take-drop : (n : ℕ) (xs : Bytes) → xs ≡ take n xs ++ drop n xs
take-drop zero xs = refl
take-drop (suc n) [] = refl
take-drop (suc n) (x ∷ xs) = ap (λ ys. x ∷ ys) (take-drop n xs)

eth0-name : (item : Bytes) → is_eth0 item ≡ true → item ≡ eth0_name ++ drop 5 item
unfolding is_eth0
eth0-name item e =
    take-drop 5 item ∙ ap (λ name. name ++ drop 5 item) ((bytes_eq_iff (take 5 item) eth0_name).0 e)

-- Which name came last: none yet, or one of eth0.
abbrev Last : Bool → Bytes → Type 0
Last true lastname = lastname ≡ 0 ∷ []
Last false lastname = (behind : Bytes) × (lastname ≡ eth0_name ++ behind)

cut-name : (item : Bytes) → is_eth0 item ≡ true → Last false (cut_alias (take 16 item))
unfolding cut_alias
cut-name item e = (take 11 (drop 5 item), ap (λ i. cut_alias (take 16 i)) (eth0-name item e))

alias-first :
    (first : Bool) (lastname item : Bytes)
    → Last first lastname
    → is_eth0 item ≡ true
    → same_name lastname (cut_alias (take 16 item)) ≡ not first
unfolding same_name
alias-first true lastname item last e = let (behind, cut) = cut-name item e in rw (last, cut) refl
alias-first false lastname item (before, last) e =
    let (behind, cut) = cut-name item e in rw (last, cut) refl

module _ (os : Kernel) (sockfd : ℤ) where
  abbrev Describes : Bool → Bytes → HwaInfo → Type 0
  Describes alias item info =
      (info.if_name ≡ take 15 item ++ (0 ∷ []))
      × (read_at item 16 16 ≡ some info.ip_addr)
      × (info.ip_alias ≡ alias)

  describe-Describes :
      (alias : Bool) (item ifrcopy : Bytes) (t : Calls)
      → Returns (λ info _. Describes alias item info) (describe os sockfd alias item ifrcopy t)
  unfolding describe
  describe-Describes alias item ifrcopy t = elim (Option-cases (read_at item 16 16)) [
    | inl outside ↦ rw outside tt
    | inr (ip_addr, inside) ↦
        let D : HwaInfo → Calls → Type 0 = λ info _.
          (info.if_name ≡ take 15 item ++ (0 ∷ []))
          × (some ip_addr ≡ some info.ip_addr)
          × (info.ip_alias ≡ alias) in
        rw inside (
          Returns-and_then_any D (ask_ifreq os sockfd siocgifhwaddr ifrcopy t) _ λ with_hw t1.
            Returns-and_then_any D (or_fault (read_at with_hw 18 6) t1) _ λ if_haddr t2.
              Returns-and_then_any D (ask_ifreq os sockfd siocgifindex with_hw t2) _
                λ with_index t3.
                  Returns-and_then_any D (or_fault (read_at with_index 16 4) t3) _
                    λ if_index t4. (refl, refl, refl))
  ]

  -- What the loop adds to the list.
  abbrev pub Adds : Bool → List Bytes → List Listed → Outcome → Type 0
  Adds first rest sofar (listed hs) =
      (new : List Listed) × (hs ≡ sofar ++ new) × AreOf first (eth0_items rest) new
  Adds first rest sofar (free_hwa hs) = Unit {0}
  Adds first rest sofar free_buf = Unit {0}

  Adds-skip :
      (first : Bool) (item : Bytes) (rest : List Bytes) (sofar : List Listed) (out : Outcome)
      → is_eth0 item ≡ false
      → Adds first rest sofar out
      → Adds first (item ∷ rest) sofar out
  Adds-skip first item rest sofar (listed hs) other v = rw other v
  Adds-skip first item rest sofar (free_hwa hs) other v = tt
  Adds-skip first item rest sofar free_buf other v = tt

  Adds-more :
      (first : Bool) (item : Bytes) (rest : List Bytes) (sofar : List Listed) (h : Listed)
      (out : Outcome)
      → is_eth0 item ≡ true
      → Describes (not first) item h.info
      → Adds false rest (sofar ++ (h ∷ [])) out
      → Adds first (item ∷ rest) sofar out
  Adds-more first item rest sofar h (listed hs) mine (name, addr, alias) (new, e, v) =
      rw mine (h ∷ new, e ∙ append_assoc sofar (h ∷ []) new, (name, addr, alias, v))
  Adds-more first item rest sofar h (free_hwa hs) mine d v = tt
  Adds-more first item rest sofar h free_buf mine d v = tt

  interfaces-Adds :
      (first : Bool) (lastname : Bytes) (sofar : List Listed) (rest : List Bytes) (t : Calls)
      → Last first lastname
      → Returns (λ out _. Adds first rest sofar out) (interfaces os sockfd lastname sofar rest t)
  unfolding interfaces
  interfaces-Adds first lastname sofar [] t last = ([], sym (append-nil sofar), tt)
  interfaces-Adds first lastname sofar (item ∷ rest) t last = elim (Bool-cases (is_eth0 item)) [
    | inr other ↦
        let Q : Outcome → Calls → Type 0 = λ out _. Adds first (item ∷ rest) sofar out in
        let skipped : Returns Q (interfaces os sockfd lastname sofar rest t) =
          Returns-weaken (λ out _. Adds first rest sofar out) Q _
            (interfaces-Adds first lastname sofar rest t last)
            (λ out _ v. Adds-skip first item rest sofar out other v) in
        rw other skipped
    | inl mine ↦
        let Q : Outcome → Calls → Type 0 = λ out _. Adds first (item ∷ rest) sofar out in
        let cut = cut_alias (take 16 item) in
        let listed_one : (hwa addr : ℤ) (t1 : Calls)
            → Returns Q (
                (describe os sockfd (same_name lastname cut) item (cut ++ drop 16 item) >>= λ info.
                interfaces os sockfd cut
                  (sofar ++ (record { hwa = hwa; addr = addr; info = info } ∷ [])) rest)
                  t1) =
          λ hwa addr t1.
            Returns-and_then (λ info _. Describes (same_name lastname cut) item info) Q
              (describe os sockfd (same_name lastname cut) item (cut ++ drop 16 item) t1) _
              (describe-Describes (same_name lastname cut) item (cut ++ drop 16 item) t1)
              (λ info t2 (name, at, alias).
                let h : Listed = record { hwa = hwa; addr = addr; info = info } in
                Returns-weaken (λ out _. Adds false rest (sofar ++ (h ∷ [])) out) Q _
                  (interfaces-Adds false cut (sofar ++ (h ∷ [])) rest t2 (cut-name item mine))
                  (λ out _ v.
                    Adds-more first item rest sofar h out mine
                      (name, at, alias ∙ alias-first first lastname item last mine) v)) in
        rw mine (
          Returns-and_then_any Q (call os (calloc hwa_info_size) t) _ λ hwa t1.
            elim (Bool-cases (eqb_ℤ hwa (pos 0))) [
              | inl full ↦ rw full tt
              | inr room ↦ rw room (
                  Returns-and_then_any Q (call os (calloc 16) t1) _ λ addr t2.
                    elim (Bool-cases (eqb_ℤ addr (pos 0))) [
                      | inl full ↦ rw full tt
                      | inr more ↦ rw more (listed_one hwa addr t2)
                    ])
            ])
  ]

  -- Where the loop of get_hw_addrs over the items of the table ends with a list, the list has an
  -- entry for each item with the name "eth0" and no other, in order, with the item's name and
  -- address, and with the alias flag on each but the first.
  pub interfaces-lists :
      (table : List Bytes) (t : Calls)
      → Returns (λ out _. Adds true table [] out) (interfaces os sockfd (0 ∷ []) [] table t)
  interfaces-lists table t = interfaces-Adds true (0 ∷ []) [] table t refl
