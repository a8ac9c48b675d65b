-- ===== src/Border.antt =====
-- src/plugin/border_highlight_ui.hpp and border_highlight_ui.cpp: the user interface that colours the
-- border of the selected window, and puts back what it found. `Color` and `Capture` are the texts that
-- it writes and reads, `Defs` is the class, `Restore` the theorem.
pub mod Color
pub mod Capture
pub mod Defs
pub mod Watched
pub mod Undo
pub mod Held
pub mod Draw
pub mod Dim
pub mod Frame
pub mod Highlight
pub mod Runs
