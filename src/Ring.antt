-- ===== src/Ring.antt =====
-- src/ring_buffer: the ring buffers of the receiver and their mirrors at the sender.
pub mod Types
pub mod Log
pub mod Mapping
pub mod Creation
pub mod Magic
pub mod Basic
pub mod Reverse
