-- ===== src/Setup.antt =====
-- src/endpoint.cpp: how endpoints come to be, `Create`, `Connect`, `Dial`, `Listen` and `Accept`, and
-- how they end. The verbs and the connection manager are parameters.
pub mod Calls
pub mod Effects
pub mod QueuePair
pub mod Accept
pub mod Connect
pub mod Create
pub mod Walk
pub mod Addresses
pub mod Dialing
