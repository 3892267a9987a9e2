-- ===== src/Vmbus.antt =====
-- The paravirtual bus of Hyper-V guests, src/vmbus/.
pub mod Ring
pub mod Protocol
pub mod Host
