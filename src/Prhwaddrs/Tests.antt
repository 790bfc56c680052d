-- ===== src/Prhwaddrs/Tests.antt =====
-- prhwaddrs.c with one interface.
use tour.Base.{
  ◌≡◌, refl, ℕ, some, [], ◌∷◌, ◌++◌, ℤ, pos, Option, Bytes, replicate, arith, Returns, read_at,
}
use tour.Unix.{Syscall, Kernel, socket, malloc, calloc}
use tour.Unix.Memory.{allocs, frees}
use tour.Arp.Device.{HwaInfo}
use tour.Arp.Handle.{sa_family}
use tour.Arp.Fixtures.{eth0, inet}
use tour.Tour.Sockets.{text_of}
use tour.Prhwaddrs.{is_set, hw_loop, ntop, show_interface, show_interfaces}
use tour.Prhwaddrs.Main.{prhwaddrs_main}
use tour.Prhwaddrs.Text.{read_hw, hw_loop-read_hw}
use tour.Prhwaddrs.Frees.{prhwaddrs_main-frees}

-- "10.0.0.9" for every address.
abbrev spelled : ℕ → Bytes → Option Bytes
spelled family addr = some (49 ∷ 48 ∷ 46 ∷ 48 ∷ 46 ∷ 48 ∷ 46 ∷ 57 ∷ [])

abbrev named : HwaInfo
named = record eth0 { if_name = 101 ∷ 116 ∷ 104 ∷ 48 ∷ replicate 12 0 }

-- "eth0 :", "IP addr = 10.0.0.9", "HW addr = 02:00:00:00:00:09 " and "interface index = 2".
shows_eth0 :
    show_interfaces spelled [] (named ∷ [])
    ≡ some (
        (101 ∷ 116 ∷ 104 ∷ 48 ∷ 32 ∷ 58 ∷ 10 ∷ [])
        ++ (replicate 9 32
            ++ ((73 ∷ 80 ∷ 32 ∷ 97 ∷ 100 ∷ 100 ∷ 114 ∷ 32 ∷ 61 ∷ 32 ∷ 49 ∷ 48 ∷ 46 ∷ 48 ∷ 46 ∷ 48
                  ∷ 46 ∷ 57 ∷ 10 ∷ [])
                ++ (replicate 9 32
                    ++ ((72 ∷ 87 ∷ 32 ∷ 97 ∷ 100 ∷ 100 ∷ 114 ∷ 32 ∷ 61 ∷ 32 ∷ 48 ∷ 50 ∷ 58 ∷ 48 ∷ 48
                          ∷ 58 ∷ 48 ∷ 48 ∷ 58 ∷ 48 ∷ 48 ∷ 58 ∷ 48 ∷ 48 ∷ 58 ∷ 48 ∷ 57 ∷ 32 ∷ 10
                          ∷ [])
                        ++ (replicate 9 32
                            ++ (105 ∷ 110 ∷ 116 ∷ 101 ∷ 114 ∷ 102 ∷ 97 ∷ 99 ∷ 101 ∷ 32 ∷ 105 ∷ 110
                                ∷ 100 ∷ 101 ∷ 120 ∷ 32 ∷ 61 ∷ 32 ∷ 50 ∷ 10 ∷ 10 ∷ [])))))))
unfolding show_interfaces show_interface ntop sa_family read_at text_of is_set hw_loop
shows_eth0 = refl

hw_loop-read_hw_example :
    (text : Bytes) × (hw_loop 6 (eth0.if_haddr) ≡ some text) × (read_hw 6 text ≡ eth0.if_haddr)
hw_loop-read_hw_example =
    hw_loop-read_hw 6 (eth0.if_haddr) refl
      (omega arith, (omega arith, (omega arith, (omega arith, (omega arith, (omega arith, tt))))))

abbrev returned : Syscall → ℤ
returned (socket domain kind protocol) = pos 3
returned (malloc size) = pos 1
returned (calloc size) = pos 2
returned _ = pos 0

-- One address on eth0.
abbrev networked : Kernel
networked = record {
  result = λ t c. returned c;
  stored = λ t c. (101 ∷ 116 ∷ 104 ∷ 48 ∷ replicate 12 0) ++ (inet 9 ++ replicate 8 0);
  source = λ t c. [];
  ready = λ t c. [];
}

prhwaddrs_main-frees_example :
    Returns (λ _ t. allocs (pos 2) t ≡ frees (pos 2) t) (prhwaddrs_main spelled networked 2 [])
prhwaddrs_main-frees_example = prhwaddrs_main-frees spelled networked 2 (pos 2) refl (λ t. refl)
