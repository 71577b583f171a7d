-- ===== src/Tests.antt =====
-- The modules at concrete inputs.
mod Reverses
mod Rings
mod Layouts
mod Queues
mod Polls
mod Writes
mod Acks
mod Setups
mod Benches
mod Events
