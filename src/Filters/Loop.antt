-- ===== src/Filters/Loop.antt =====
-- The loop that the recognizers of src/filters share, `while(len) { switch (state) … }`, and what
-- follows for each of them from its one iteration.
mod Defs
mod Fuel
mod Correct
mod Begin
mod Inside
unfoldable pub use Defs.*
pub use Fuel.*
pub use Begin.*
pub use Inside.*
pub use Correct.*
