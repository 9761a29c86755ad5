-- ===== src/Endpoints/Udp.antt =====
-- src/src/impl/udpsvr.h.
pub mod Server
mod Tests
