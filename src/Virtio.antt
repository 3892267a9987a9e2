-- ===== src/Virtio.antt =====
-- The virtio devices of src/virtio/.
pub mod Queue
pub mod Transport
