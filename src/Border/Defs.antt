-- ===== src/Border/Defs.antt =====
-- The names of the two children: the slots, and the calls.
mod Slots
mod Calls
unfoldable pub use Slots.*
unfoldable pub use Calls.*
