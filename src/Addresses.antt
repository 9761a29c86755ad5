-- ===== src/Addresses.antt =====
-- The addresses of sockets (src/sockaddr.cpp).
pub mod Order
