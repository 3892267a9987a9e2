-- ===== src/Virtio/Queue/Buffers/Tests.antt =====
-- Four bytes offered to a buffer that has room for two from the offset on.
use tinyvmm.Prelude.{ℕ, true}
use tinyvmm.Virtio.Queue.Chain.{ChainBuf}

abbrev small : ChainBuf
small = record { ptr = 100; len = 8; write = true }

abbrev blank_ram : ℕ → ℕ
blank_ram i = 0
