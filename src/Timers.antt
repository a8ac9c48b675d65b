-- ===== src/Timers.antt =====
-- src/plugin/hypr/hypr_scheduler.cpp: the scheduler over the timers of the compositor's event loop. A
-- timer stands in `timers` exactly while the event loop holds it; it is the window that its callback
-- commits.
pub mod Port
use mru_switcher.Prelude.{
  ℕ, ◌+◌, ◌%◌, ◌^◌, Bool, List, [], ◌∷◌, Option, none, some, ◌==◌, if◌then◌else◌, lookup, set,
}
use mru_switcher.Window.{WindowRef}

pub record HyprlandSchedulerPort : Type 0 where
  pub timers : List (ℕ × WindowRef)
  pub next_id : ℕ

-- `timers_.erase(id)`
unfoldable pub erase_key : ℕ → List (ℕ × WindowRef) → List (ℕ × WindowRef)
erase_key k [] = []
erase_key k ((j, r) ∷ m) = if j == k then erase_key k m else (j, r) ∷ erase_key k m

unfoldable pub schedule_after : ℕ → WindowRef → HyprlandSchedulerPort → HyprlandSchedulerPort × ℕ
schedule_after delay_ms r s =
    (record { timers = set s.next_id r s.timers; next_id = (s.next_id + 1) % 2 ^ 64 }, s.next_id)

unfoldable pub cancel : ℕ → HyprlandSchedulerPort → HyprlandSchedulerPort
unfolding erase_key
cancel id s = elim (lookup id s.timers) [
  | none ↦ s
  | some r ↦ record s { timers = erase_key id s.timers }
]

-- What the callback of a timer does before it calls `cb`.
unfoldable pub expire : ℕ → HyprlandSchedulerPort → HyprlandSchedulerPort
unfolding erase_key
expire id s = record s { timers = erase_key id s.timers }
