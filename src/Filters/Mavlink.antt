-- ===== src/Filters/Mavlink.antt =====
-- Mavlink_v1 of src/filters/mavlink1.h: the recognizer of MAVLink 1 packets. Defs is the class,
-- Config its construction and configuration, Packets the format that it recognizes, Shape its
-- invariant, Start and Load the proof of the rounds of its loop, Laws what one call of `write` does,
-- Writes what many do, Traffic what the counters say of them.
pub mod Defs
pub mod Packets
pub mod Shape
pub mod Start
pub mod Load
pub mod Writes
pub mod Traffic
pub mod Config
mod Tests
pub mod Laws
