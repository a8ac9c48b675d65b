-- ===== src/History.antt =====
-- src/domain/history_tracker.cpp: the most-recently-used order. The scheduler's state is a field,
-- and the validator is an argument of the calls that ask it.
pub mod Invariant
pub mod Promotion
pub mod Lock
pub mod Debounce
use mru_switcher.Prelude.{
  ℕ, Bool, true, false, not, ◌&&◌, ◌||◌, List, [], ◌∷◌, ◌++◌, Option, none, some, ◌==◌,
  if◌then◌else◌, min, contains, remove,
}
use mru_switcher.Window.{WindowRef, window_eq}
use mru_switcher.Scheduler.{SchedulerPort, invalid_job_id}

pub record HistoryTracker (S : SchedulerPort) : Type 0 where
  pub scheduler : S.State
  pub debounce_ms : ℕ
  pub locked : Bool
  pub pending : ℕ
  pub pending_ref : Option WindowRef
  pub order : List WindowRef

-- `std::clamp(debounce_ms, 0u, 5000u)`
abbrev pub clamp_ms : ℕ → ℕ
clamp_ms ms = min ms 5000

-- To the front, and nowhere else.
unfoldable pub promote : WindowRef → List WindowRef → List WindowRef
promote ref order = ref ∷ remove ref order

-- The loop of `seed` over the windows that are left, with the order built so far.
unfoldable pub seed_loop : (WindowRef → Bool) → List WindowRef → List WindowRef → List WindowRef
seed_loop is_valid [] order = order
seed_loop is_valid (ref ∷ rest) order =
    seed_loop is_valid rest (
      if not (is_valid ref) then order else if contains order ref then order else order ++ ref ∷ [])

module _ (S : SchedulerPort) where
  unfoldable pub init : S.State → ℕ → HistoryTracker S
  init s debounce_ms = record {
    scheduler = s;
    debounce_ms = clamp_ms debounce_ms;
    locked = false;
    pending = invalid_job_id;
    pending_ref = none;
    order = [];
  }

  unfoldable pub cancel_pending : HistoryTracker S → HistoryTracker S
  cancel_pending t =
      if t.pending == invalid_job_id then record t { pending_ref = none } else record t {
        scheduler = S.cancel t.pending t.scheduler;
        pending = invalid_job_id;
        pending_ref = none;
      }

  schedule : WindowRef → HistoryTracker S → HistoryTracker S
  schedule ref t = record t {
    scheduler = (S.schedule_after t.debounce_ms ref t.scheduler).0;
    pending = (S.schedule_after t.debounce_ms ref t.scheduler).1;
    pending_ref = some ref;
  }

  unfoldable pub on_focus : WindowRef → HistoryTracker S → HistoryTracker S
  unfolding schedule
  on_focus ref t = if t.locked then t else schedule ref (cancel_pending t)

  unfoldable pub set_session_locked : Bool → HistoryTracker S → HistoryTracker S
  set_session_locked locked t =
      if locked && not t.locked
      then record (cancel_pending t) { locked = locked }
      else record t { locked = locked }

  unfoldable pub commit : (WindowRef → Bool) → WindowRef → HistoryTracker S → HistoryTracker S
  unfolding promote
  commit is_valid ref t =
      let t' = record t { pending = invalid_job_id; pending_ref = none } in
      if is_valid ref then record t' { order = promote ref t.order } else t'

  unfoldable pub flush_pending : (WindowRef → Bool) → HistoryTracker S → HistoryTracker S
  flush_pending is_valid t =
      if t.pending == invalid_job_id
      then t
      else elim t.pending_ref [ none ↦ t | some ref ↦ commit is_valid ref (cancel_pending t) ]

  unfoldable pub set_debounce_ms : ℕ → HistoryTracker S → HistoryTracker S
  set_debounce_ms ms t = record t { debounce_ms = clamp_ms ms }

  unfoldable pub seed : (WindowRef → Bool) → List WindowRef → HistoryTracker S → HistoryTracker S
  unfolding seed_loop
  seed is_valid initial t = record t { order = seed_loop is_valid initial [] }

  -- A timer runs out: the scheduler drops its one-shot job and runs the callback `commit(ref)`.
  unfoldable pub fire : (WindowRef → Bool) → ℕ → HistoryTracker S → HistoryTracker S
  fire is_valid id t = elim (S.job t.scheduler id) [
    | none ↦ t
    | some ref ↦ commit is_valid ref (record t { scheduler = S.expire id t.scheduler })
  ]
