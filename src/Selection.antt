-- ===== src/Selection.antt =====
-- src/domain/selection.cpp: the index of the selected window. A std::size_t is a number below
-- 2 ^ 64, and its additions wrap.
pub mod Ring
use mru_switcher.Prelude.{ℕ, ◌+◌, ◌-◌, ◌%◌, ◌^◌, Bool, true, false, ◌==◌, if◌then◌else◌, min}
use mru_switcher.Window.{Direction, next, prev, StartOffset, first, second}

abbrev pub size_mod : ℕ
size_mod = 2 ^ 64

unfoldable pub initial_index : StartOffset → ℕ → ℕ
initial_index first len = if len == 0 then 0 else 0
initial_index second len = if len == 0 then 0 else min 1 (len - 1)

-- One step from an index that is below `len`.
unfoldable pub advance_within : ℕ → Direction → Bool → ℕ → ℕ
advance_within i next false len = min ((i + 1) % size_mod) (len - 1)
advance_within i prev false len = if i == 0 then 0 else i - 1
advance_within i next true len = ((i + 1) % size_mod) % len
advance_within i prev true len = ((i + len - 1) % size_mod) % len

unfoldable pub advance_index : ℕ → Direction → Bool → ℕ → ℕ
unfolding advance_within
advance_index index direction wrap len =
    if len == 0 then 0 else advance_within (min index (len - 1)) direction wrap len
