-- ===== src/Snapshot.antt =====
-- include/mru/domain/snapshot.hpp and src/domain/snapshot.cpp: the frozen list of a session.
-- `at` is `none` where the source's precondition `i < size()` is broken.
pub mod Pruned
use mru_switcher.Prelude.{
  ℕ, Bool, List, Option, none, some, if◌then◌else◌, length, is_empty, get_elem?, filter,
}
use mru_switcher.Window.{WindowRef, Scope}

pub record Snapshot : Type 0 where
  pub windows : List WindowRef
  pub scope : Scope

abbrev pub size : Snapshot → ℕ
size s = length s.windows

abbrev pub empty : Snapshot → Bool
empty s = is_empty s.windows

abbrev pub at : Snapshot → ℕ → Option WindowRef
at s i = get_elem? s.windows i

-- `is_valid` is the window source's, as it stands when the pruning runs.
unfoldable pub pruned : (WindowRef → Bool) → Snapshot → Option Snapshot
pruned is_valid s =
    let survivors = filter is_valid s.windows in
    if is_empty survivors then none else some (record { windows = survivors; scope = s.scope })
