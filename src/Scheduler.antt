-- ===== src/Scheduler.antt =====
-- include/mru/domain/scheduler_port.hpp: the port through which the history defers a promotion. The
-- program schedules one callback only, `commit(ref)`, so a job is the window that it commits.
use mru_switcher.Prelude.{ℕ, ◌+◌, ◌<◌, Option, none, some, ◌≡◌, ◌≢◌, ◌==◌, if◌then◌else◌}
use mru_switcher.Window.{WindowRef}

abbrev pub invalid_job_id : ℕ
invalid_job_id = 0

-- `job s i` is what waits under the id `i`; `expire` is the removal of a one-shot job that fires,
-- before its callback runs. Ids are 64-bit counters: `capacity` is how many more can be handed out
-- before the counter wraps round.
pub record SchedulerPort : Type 1 where
  pub State : Type 0
  pub job : State → ℕ → Option WindowRef
  pub schedule_after : ℕ → WindowRef → State → State × ℕ
  pub cancel : ℕ → State → State
  pub expire : ℕ → State → State
  pub IsValid : State → Type 0
  pub capacity : State → ℕ
  pub schedule-id :
      (d : ℕ) (r : WindowRef) (s : State)
      → IsValid s
      → 0 < capacity s
      → (schedule_after d r s).1 ≢ 0
  pub schedule-job :
      (d : ℕ) (r : WindowRef) (s : State) (j : ℕ)
      → IsValid s
      → 0 < capacity s
      → job (schedule_after d r s).0 j ≡ (if (schedule_after d r s).1 == j then some r else job s j)
  pub schedule-IsValid :
      (d : ℕ) (r : WindowRef) (s : State)
      → IsValid s
      → 0 < capacity s
      → IsValid (schedule_after d r s).0
  pub schedule-capacity :
      (d : ℕ) (r : WindowRef) (s : State)
      → 0 < capacity s
      → capacity s ≡ capacity (schedule_after d r s).0 + 1
  pub cancel-job :
      (i : ℕ) (s : State) (j : ℕ) → job (cancel i s) j ≡ (if i == j then none else job s j)
  pub cancel-IsValid : (i : ℕ) (s : State) → IsValid s → IsValid (cancel i s)
  pub cancel-capacity : (i : ℕ) (s : State) → capacity (cancel i s) ≡ capacity s
  pub expire-job :
      (i : ℕ) (s : State) (j : ℕ)
      → IsValid s
      → job (expire i s) j ≡ (if i == j then none else job s j)
  pub expire-IsValid : (i : ℕ) (s : State) → IsValid s → IsValid (expire i s)
  pub expire-capacity : (i : ℕ) (s : State) → capacity (expire i s) ≡ capacity s
