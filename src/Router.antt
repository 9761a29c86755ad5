-- ===== src/Router.antt =====
-- The program app/uav-router.cpp: where the data of its routes goes.
pub mod Destination
pub mod Names
pub mod Store
pub mod Routes
pub mod Frame
pub mod Isolated
pub mod Delivers
pub mod Loading
pub mod Scanned
pub mod Registered
pub mod Endpoints
pub mod Clients
mod Tests
