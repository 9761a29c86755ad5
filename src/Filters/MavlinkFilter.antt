-- ===== src/Filters/MavlinkFilter.antt =====
-- Mavlink_v1_filter of src/filters/mavlink1.h: the filter of MAVLink packets by system, component,
-- message and frequency. Defs is the class, Setup its configuration, Config what
-- holds of every configuration, Laws and Rate what passes.
pub mod Defs
pub mod Setup
pub mod Config
pub mod Laws
pub mod Rate
mod Tests
