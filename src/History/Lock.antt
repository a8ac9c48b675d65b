-- ===== src/History/Lock.antt =====
-- What the operations do to the lock, and to nothing else.
use mru_switcher.Prelude.{◌≡◌, refl, Bool, false, some, arith, ℕ}
use mru_switcher.Window.{WindowRef}
use mru_switcher.Scheduler.{SchedulerPort}
use mru_switcher.History.{
  HistoryTracker, set_session_locked, flush_pending, commit, on_focus, schedule, fire,
}
use mru_switcher.History.Invariant.{cancel_pending-Cleared}

module _ (S : SchedulerPort) where
  pub locked-set : (b : Bool) (t : HistoryTracker S) → (set_session_locked S b t).locked ≡ b
  unfolding set_session_locked
  locked-set b t = ground arith

  pub order-set : (b : Bool) (t : HistoryTracker S) → (set_session_locked S b t).order ≡ t.order
  unfolding set_session_locked
  order-set b t = ground (arith, cancel_pending-Cleared S t)

  pub locked-flush :
      (v : WindowRef → Bool) (t : HistoryTracker S) → (flush_pending S v t).locked ≡ t.locked
  unfolding flush_pending commit
  locked-flush v t = ground (arith, cancel_pending-Cleared S t)

  pub locked-on_focus : (r : WindowRef) (t : HistoryTracker S) → (on_focus S r t).locked ≡ t.locked
  unfolding on_focus schedule
  locked-on_focus r t = ground (arith, cancel_pending-Cleared S t)

  pub order-on_focus : (r : WindowRef) (t : HistoryTracker S) → (on_focus S r t).order ≡ t.order
  unfolding on_focus schedule
  order-on_focus r t = ground (arith, cancel_pending-Cleared S t)

  pub locked-fire :
      (v : WindowRef → Bool) (id : ℕ) (t : HistoryTracker S) → (fire S v id t).locked ≡ t.locked
  unfolding fire commit
  locked-fire v id t = ground arith

  pub pending-on_focus :
      (r : WindowRef) (t : HistoryTracker S)
      → t.locked ≡ false
      → (on_focus S r t).pending_ref ≡ some r
  unfolding on_focus schedule
  pending-on_focus r t h = ground arith

  pub pending-unlock :
      (t : HistoryTracker S) → (set_session_locked S false t).pending_ref ≡ t.pending_ref
  unfolding set_session_locked
  pending-unlock t = refl
