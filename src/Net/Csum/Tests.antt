-- ===== src/Net/Csum/Tests.antt =====
-- Checksums of src/net/csum.rs on concrete bytes.
use tinyvmm.Prelude.{◌<◌, ◌≡◌, some, [], ◌∷◌, arith}
use tinyvmm.Net.Csum.{fold_loop, fold16, checksum16}
use tinyvmm.Net.Csum.Folding.{fold16-ends}
use tinyvmm.Net.Csum.Reference.{checksum16_lem}

fold16-ends_example :
    (fold_loop 0x2_0000 0x1_fffe ≡ some 0xffff)
    × (fold16 0x1_fffe < 0x1_0000)
    × (fold16 0x1_fffe ≡ 0xffff)
unfolding fold16
fold16-ends_example = fold16-ends 0x2_0000 0x1_fffe (omega arith)

checksum16_lem_example : checksum16 ((1 ∷ 2 ∷ 3 ∷ []) ∷ (4 ∷ 5 ∷ []) ∷ []) ≡ 0xf6f9
checksum16_lem_example = checksum16_lem ((1 ∷ 2 ∷ 3 ∷ []) ∷ (4 ∷ 5 ∷ []) ∷ [])
