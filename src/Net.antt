-- ===== src/Net.antt =====
-- net/: the caller's address and the reading of request bodies.
pub mod ClientIp
pub mod Ingress
