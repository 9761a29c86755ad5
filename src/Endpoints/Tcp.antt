-- ===== src/Endpoints/Tcp.antt =====
-- src/src/impl/tcpsvr.h and src/src/impl/tcpcli.h.
pub mod Stream
pub mod Server
pub mod Client
pub mod Tests
