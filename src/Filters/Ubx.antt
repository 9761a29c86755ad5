-- ===== src/Filters/Ubx.antt =====
-- UBX of src/filters/ubx.h: the recognizer of u-blox packets. Defs is the class, Packets the format
-- that it recognizes, Start, Load and Laws the proof of its rounds, Writes what `write` does.
pub mod Defs
pub mod Packets
pub mod Shape
pub mod Start
pub mod Load
pub mod Laws
pub mod Writes
mod Tests
