-- ===== src/Pci.antt =====
-- The PCI devices of src/pci: the configuration space of config.rs, the interrupt table of msix.rs and
-- the host bridge of bus.rs.
pub mod Config
pub mod MsiX
pub mod Bus
