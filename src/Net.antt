-- ===== src/Net.antt =====
-- The packets of the user-mode network, src/net/.
pub mod Csum
pub mod Dhcp
pub mod Wire
