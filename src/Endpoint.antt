-- ===== src/Endpoint.antt =====
-- src/endpoint.cpp: queue pairs, their work requests and completions, and how they are connected.
pub mod Requests
pub mod Completions
pub mod Delivery
