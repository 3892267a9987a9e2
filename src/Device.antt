-- ===== src/Device.antt =====
-- The platform devices of src/devices/ and the buses that route to them.
pub mod IoBus
pub mod MmioBus
pub mod Pit
pub mod Serial
pub mod Pic
