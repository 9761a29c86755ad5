-- ===== src/Endpoints.antt =====
-- The endpoints of src/src/impl and the event loop that calls them.
pub mod Os
pub mod Handle
pub mod Triples
pub mod Descriptors
pub mod Closing
pub mod Dispatch
pub mod Dispatched
pub mod Tcp
pub mod Udp
