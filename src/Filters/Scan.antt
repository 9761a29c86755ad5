-- ===== src/Filters/Scan.antt =====
-- What a packet recognizer of src/filters promises, apart from its state machine: a scanner that
-- cuts the whole stream into packets and skipped bytes. Defs has the scanner over a packet format,
-- Laws what follows for every format.
mod Defs
mod Laws
unfoldable pub use Defs.*
pub use Laws.*
