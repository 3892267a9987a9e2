-- ===== src/Net/Wire/Tests.antt =====
-- Packets of src/net/wire.rs with concrete addresses.
use tinyvmm.Prelude.{ℕ, ◌≤◌, ◌≡◌, List, [], ◌∷◌, All, length, drop, map, max, arith}
use tinyvmm.Net.Csum.Reference.{concat}
use tinyvmm.Net.Wire.{Mac, Ip}
use tinyvmm.Net.Wire.Fragments.{ipv4_fragments}
use tinyvmm.Net.Wire.Reassembly.{Placed, ipv4_fragments_lem}

abbrev guest : Ip
guest = record { i0 = 10; i1 = 0; i2 = 0; i3 = 2 }

abbrev gateway : Ip
gateway = record { i0 = 10; i1 = 0; i2 = 0; i3 = 1 }

abbrev card : Mac
card = record { m0 = 0x52; m1 = 0x54; m2 = 0; m3 = 0x12; m4 = 0x34; m5 = 0x56 }

abbrev ten : List ℕ
ten = 0 ∷ 1 ∷ 2 ∷ 3 ∷ 4 ∷ 5 ∷ 6 ∷ 7 ∷ 8 ∷ 9 ∷ []

ipv4_fragments_lem_example :
    let fragments = ipv4_fragments guest gateway 17 5 ten 28 in
    (concat (map (drop 20) fragments) ≡ ten)
    × All (λ f. length f ≤ max 28 28) fragments
    × Placed 0 fragments
ipv4_fragments_lem_example = ipv4_fragments_lem guest gateway 17 5 ten 28 (omega arith)
