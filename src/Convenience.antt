-- ===== src/Convenience.antt =====
-- What the program adds around the virtual machine, src/convenience/.
pub mod Partition
