-- ===== src/Tests/Sessions.antt =====
-- The theorems on the history and the sessions at concrete inputs.
use mru_switcher.Prelude.{
  ℕ, ◌+◌, ◌%◌, ◌<◌, ◌≡◌, refl, Bool, true, false, not, List, [], ◌∷◌, ◌++◌, Option, none, some,
  arith, contains, is_empty, if◌then◌else◌, filter,
}
use mru_switcher.Window.{WindowRef, ref_eq, window_eq, Scope, next, prev}
use mru_switcher.Snapshot
use mru_switcher.Snapshot.{Snapshot, size}
use mru_switcher.Clock.Port.{clock_port}
use mru_switcher.History
use mru_switcher.History.{HistoryTracker, promote}
use mru_switcher.History.Invariant as Tracker
use mru_switcher.History.Promotion
use mru_switcher.Ports.{UiEndReason}
use mru_switcher.Session.Defs
use mru_switcher.Session.Defs.{
  SessionController, SessionEndReason, CommandResult, Effect, begin_session, session_end,
  end_session, prune_active,
}
use mru_switcher.Session.Apply
use mru_switcher.Session.Apply.{apply, cancel, resolve_and_focus}
use mru_switcher.Session.Step.{
  Event, run, cycles, selects, applies, cancels, focuses, closes, fires, changes,
}
use mru_switcher.Session.Invariant.{IsValid}
use mru_switcher.Session.Outcome.{apply_outcome}
use mru_switcher.Session.Attempts.{Attempts, Ended}
use mru_switcher.Session.Safety.{run_safe}
use mru_switcher.Session.Browse.{SameSession, browse_frozen, cycle_times, cycle_times-wrap}
use mru_switcher.Session.Trace.{InTurn}
use mru_switcher.Session.Trace.Life.{run-InTurn}
use mru_switcher.Session.Pruning.{focused_on}
use mru_switcher.Session.Handover.{
  flushed_order, restored, begin_session-order, apply-begin_session, cancel_outcome,
}
use mru_switcher.Tests.{
  term, mail, web, all_windows, desk, shown_windows, tracker, tracker-IsValid, idle, idle-IsValid,
  browsing, browsing-IsValid, capacity-idle, capacity-browsing,
}

abbrev live : WindowRef → Bool
live = contains all_windows

-- The web window waits for its promotion.
abbrev waiting : HistoryTracker clock_port
waiting = History.on_focus clock_port web tracker

room : 0 < clock_port.capacity tracker.scheduler
unfolding History.seed History.init
room = omega arith

waiting-IsValid : Tracker.IsValid clock_port waiting
waiting-IsValid = Tracker.on_focus-IsValid clock_port tracker-IsValid web room

flush_pending-fire_example :
    let u = History.flush_pending clock_port live waiting in
    (u.order ≡ (History.fire clock_port live waiting.pending waiting).order)
    × (u.pending_ref ≡ none)
    × ((id : ℕ) → (History.fire clock_port live id u).order ≡ u.order)
flush_pending-fire_example = Promotion.flush_pending-fire clock_port live waiting waiting-IsValid

-- A day: a switch back and forth, a window that closes, an apply, and a cancel.
abbrev day : List (Event (List WindowRef))
day =
    focuses mail
    ∷ cycles next none
    ∷ cycles prev none
    ∷ fires 1
    ∷ changes (mail ∷ web ∷ [])
    ∷ closes term
    ∷ applies
    ∷ cycles next (some Scope.app)
    ∷ cancels
    ∷ []

run_safe_example : (d : SessionController clock_port desk) × (run day idle ≡ some d) × IsValid d
run_safe_example = run_safe day idle idle-IsValid (omega (arith, capacity-idle))

run-InTurn_example :
    (d : SessionController clock_port desk) × (run day idle ≡ some d) × IsValid d × InTurn d
unfolding Defs.init
run-InTurn_example =
    run-InTurn day idle idle-IsValid (omega (arith, capacity-idle)) (none, refl, tt)

abbrev browse : List (Event (List WindowRef))
browse = cycles next none ∷ selects 0 ∷ focuses web ∷ fires 1 ∷ []

browse_frozen_example :
    (d : SessionController clock_port desk) × (run browse browsing ≡ some d)
    × SameSession browsing d
browse_frozen_example =
    browse_frozen browse browsing browsing-IsValid refl (omega (arith, capacity-browsing))
      (tt, (tt, (tt, (tt, tt))))

cycle_times-wrap_example :
    (d : SessionController clock_port desk) × (run (cycle_times 5) browsing ≡ some d)
    × (d.index ≡ (browsing.index + 5) % size shown_windows)
cycle_times-wrap_example =
    cycle_times-wrap 5 browsing shown_windows browsing-IsValid refl refl refl (omega arith)

apply_outcome_example :
    (c' : SessionController clock_port desk) × (q : CommandResult) × (fs : List Effect)
    × (w : Option WindowRef) × (apply browsing ≡ some (c', q))
    × Attempts fs w
    × Ended browsing fs w c' q
apply_outcome_example =
    apply_outcome browsing browsing-IsValid refl (omega (arith, capacity-browsing))

begin_session-order_example :
    let answer = desk.candidates (flushed_order idle) Scope.global idle.world in
    let r = begin_session Scope.global idle in
    (r.0.tracker.order ≡ flushed_order idle)
    × (r.1.ok ≡ not (is_empty answer.1))
    × (r.1.ok ≡ true → r.0.snapshot ≡ some (record { windows = answer.1; scope = Scope.global }))
    × (r.1.ok ≡ true → r.0.active ≡ true)
begin_session-order_example = begin_session-order Scope.global idle idle-IsValid

cancel_outcome_example :
    ((cancel browsing).1.ok ≡ true)
    × ((cancel browsing).0.active ≡ false)
    × ((cancel browsing).0.tracker.order ≡ browsing.tracker.order)
    × ((cancel browsing).0.effects ≡ (
        if browsing.active
        then restored browsing ++ session_end UiEndReason.cancelled ∷ browsing.effects
        else browsing.effects))
    × (browsing.active ≡ false → (cancel browsing).0 ≡ browsing)
cancel_outcome_example = cancel_outcome browsing

-- The mail window has been applied.
abbrev over : SessionController clock_port desk
over =
    let c = (end_session SessionEndReason.applied "" (focused_on browsing shown_windows mail)).0 in
    record c { tracker = History.on_focus clock_port mail c.tracker }

apply-over : apply browsing ≡ some (over, record { ok = true; error = "" })
unfolding Apply.apply Apply.resolve_and_focus Apply.resolve_pruned Apply.live_snapshot
    Apply.clamp_and_focus Apply.finish_first Apply.complete_apply Defs.prune_active
    Defs.focus_window Defs.deliver Defs.on_focus Defs.end_session Snapshot.pruned
apply-over = refl

pending-over : over.tracker.pending_ref ≡ some mail
unfolding Defs.end_session History.on_focus History.set_session_locked History.seed History.init
    History.cancel_pending
pending-over = refl

over-valid : desk.is_valid over.world mail ≡ true
unfolding Defs.end_session
over-valid = refl

apply-begin_session_example :
    (begin_session Scope.global over).0.tracker.order
    ≡ mail ∷ filter (λ x. not (ref_eq x mail)) browsing.tracker.order
apply-begin_session_example =
    apply-begin_session Scope.global browsing over (record { ok = true; error = "" }) mail
      browsing-IsValid refl (omega (arith, capacity-browsing)) apply-over pending-over over-valid
