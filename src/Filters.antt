-- ===== src/Filters.antt =====
-- The stream filters of src/filters.
pub mod Source
pub mod Calls
pub mod Sinks
pub mod Counted
pub mod Store
pub mod Preamble
pub mod Stream
pub mod Loop
pub mod Scan
pub mod Crc
pub mod Factory
pub mod Mavlink
pub mod MavlinkFilter
pub mod Ubx
pub mod Rtcm
