-- ===== src/History/Debounce.antt =====
-- The history over the simulated clock: when a focus event is promoted.
use mru_switcher.Prelude.{
  ℕ, ◌+◌, ◌%◌, ◌^◌, ◌<◌, ◌≡◌, ap, ◌∙◌, Bool, false, ◌&&◌, [], ◌∷◌, leb, if◌then◌else◌, arith,
}
use mru_switcher.Window.{WindowRef}
use mru_switcher.Clock
use mru_switcher.Clock.{
  FakeClock, Job, schedule_after, advance, sweep, sort_pairs, insert_pair, due_jobs, run_due,
  find_job,
}
use mru_switcher.Clock.Port.{clock_port}
use mru_switcher.History.{HistoryTracker, promote, commit, on_focus, schedule, cancel_pending}

-- Time passes, and what is due is committed.
abbrev pub elapse : (WindowRef → Bool) → ℕ → HistoryTracker clock_port → HistoryTracker clock_port
elapse is_valid =
    advance (λ t. t.scheduler) (λ c t. record t { scheduler = c }) (commit clock_port is_valid)

-- One job waits in the clock.
elapse-one :
    (is_valid : WindowRef → Bool) (ms now next id at : ℕ) (r : WindowRef)
    (t : HistoryTracker clock_port)
    → let clock : FakeClock WindowRef = record {
      now = now;
      next_job = next;
      jobs = record { id = id; run_at = at; cb = r } ∷ [];
    } in
      (elapse is_valid ms (record t { scheduler = clock })).order
      ≡ (if leb at ((now + ms) % 2 ^ 32) && is_valid r then promote r t.order else t.order)
unfolding advance sweep run_due sort_pairs insert_pair due_jobs find_job commit
elapse-one is_valid ms now next id at r t = ground arith

-- After a focus event one job waits, when nothing but the one that it replaces did.
on_focus-clock :
    (r : WindowRef) (t : HistoryTracker clock_port)
    → t.locked ≡ false
    → (cancel_pending clock_port t).scheduler.jobs ≡ []
    → let c = (cancel_pending clock_port t).scheduler in
      (on_focus clock_port r t).scheduler ≡ record {
        now = c.now;
        next_job = (c.next_job + 1) % 2 ^ 64;
        jobs = record { id = c.next_job; run_at = (c.now + t.debounce_ms) % 2 ^ 32; cb = r } ∷ [];
      }
unfolding on_focus schedule cancel_pending schedule_after
on_focus-clock r t l e = ground arith

on_focus-order :
    (r : WindowRef) (t : HistoryTracker clock_port)
    → ((on_focus clock_port r t).order ≡ t.order)
      × ((cancel_pending clock_port t).scheduler.now ≡ t.scheduler.now)
unfolding on_focus schedule cancel_pending Clock.cancel
on_focus-order r t = ground arith

-- A focus event of a history that is not locked, when no timer of the simulated clock waits but that of
-- the event it replaces, and then a silence, neither of which wraps the clock: a valid window is
-- promoted as soon as the silence is as long as the debounce time, and not before, and an invalid one
-- never.
pub elapse-on_focus :
    (is_valid : WindowRef → Bool) (ms : ℕ) (r : WindowRef) (t : HistoryTracker clock_port)
    → t.locked ≡ false
    → (cancel_pending clock_port t).scheduler.jobs ≡ []
    → t.scheduler.now + t.debounce_ms < 2 ^ 32
    → t.scheduler.now + ms < 2 ^ 32
    → (elapse is_valid ms (on_focus clock_port r t)).order
      ≡ (if leb t.debounce_ms ms && is_valid r then promote r t.order else t.order)
elapse-on_focus is_valid ms r t l e h k =
    let u = on_focus clock_port r t in
    let c = (cancel_pending clock_port t).scheduler in
    let (same_order, same_now) = on_focus-order r t in
    ap (λ s. (elapse is_valid ms (record u { scheduler = s })).order) (on_focus-clock r t l e)
    ∙ elapse-one is_valid ms c.now ((c.next_job + 1) % 2 ^ 64) c.next_job
        ((c.now + t.debounce_ms) % 2 ^ 32) r u
    ∙ rw (same_order, same_now) (ground arith)
