-- ===== src/Tests.antt =====
-- The theorems at concrete inputs: a desktop of three windows, the simulated clock, and a session.
pub mod Values
pub mod Sessions
pub mod Plugin
pub mod Overlay
pub mod Life
pub mod Ui
pub mod Peers
pub mod Host
pub mod Whole
use mru_switcher.Prelude.{
  ℕ, zero, suc, ◌+◌, ◌-◌, ◌^◌, ◌<◌, ◌≤◌, ◌≡◌, refl, Bool, true, false, List, [], ◌∷◌, Option, none,
  some, arith, contains, filter, get_elem?, if◌then◌else◌,
}
use mru_switcher.Window.{
  WindowRef, window_eq, Scope, Direction, StartOffset, SessionPolicy, next, prev,
}
use mru_switcher.Snapshot.{Snapshot, size}
use mru_switcher.Clock
use mru_switcher.Clock.{fresh_clock}
use mru_switcher.Clock.Port as Port
use mru_switcher.Clock.Port.{clock_port}
use mru_switcher.History
use mru_switcher.History.{HistoryTracker}
use mru_switcher.History.Invariant as Tracker
use mru_switcher.Ports.{Ports, FocusResult}
use mru_switcher.Session.Defs
use mru_switcher.Session.Defs.{SessionController, session_start}
use mru_switcher.Session.Invariant.{IsValid, capacity, new-IsValid}

abbrev pub term : WindowRef
term = record { address = 10; generation = 1 }

abbrev pub mail : WindowRef
mail = record { address = 20; generation = 1 }

abbrev pub web : WindowRef
web = record { address = 30; generation = 2 }

abbrev pub all_windows : List WindowRef
all_windows = term ∷ mail ∷ web ∷ []

-- A desktop whose world is the list of its windows: it offers those of the order that are there.
abbrev pub desk : Ports
desk = record {
  World = List WindowRef;
  candidates = λ order scope w. (w, filter (contains w) order);
  is_valid = contains;
  focused = λ w. get_elem? w 0;
  focus = λ r w. record {
    result = if contains w r then FocusResult.applied else FocusResult.invalid_target;
    world = w;
    activated = r ∷ [];
  };
  burst = 1;
  activated-le-burst = λ r w. omega arith;
}

abbrev pub policy : SessionPolicy
policy = record {
  default_scope = Scope.global;
  start_offset = StartOffset.second;
  wrap = true;
  restore_focus_on_cancel = true;
}

pub fresh-IsValid : Port.IsValid {C = WindowRef} fresh_clock
unfolding Clock.find_job
fresh-IsValid = record { unique = tt; below = λ i h. absurd (h refl); positive = omega arith }

abbrev pub tracker : HistoryTracker clock_port
tracker =
    History.seed clock_port (contains all_windows) all_windows
      (History.init clock_port fresh_clock 150)

pub tracker-IsValid : Tracker.IsValid clock_port tracker
unfolding Clock.find_job
tracker-IsValid =
    Tracker.seed-IsValid clock_port
      (Tracker.init-IsValid clock_port fresh_clock 150 fresh-IsValid (λ j. refl))
      (contains all_windows) all_windows

abbrev pub idle : SessionController clock_port desk
idle = Defs.init all_windows tracker policy

pub idle-IsValid : IsValid idle
unfolding History.init History.seed
idle-IsValid = new-IsValid all_windows tracker policy tracker-IsValid refl

abbrev pub shown_windows : Snapshot
shown_windows = record { windows = all_windows; scope = Scope.global }

-- The session that is open on them.
abbrev pub browsing : SessionController clock_port desk
browsing = record {
  tracker = History.set_session_locked clock_port true tracker;
  world = all_windows;
  effects = session_start shown_windows 1 ∷ [];
  policy = policy;
  snapshot_policy = policy;
  active = true;
  snapshot = some shown_windows;
  index = 1;
  session_origin = some term;
  session_id = 1;
  last_end_reason = none;
}

pub browsing-IsValid : IsValid browsing
unfolding History.set_session_locked
browsing-IsValid = record {
  tracker_valid = Tracker.set_session_locked-IsValid clock_port tracker-IsValid true;
  locked = ground arith;
  selected = omega arith;
}

pub capacity-idle : capacity idle ≡ 2 ^ 64 - 2
unfolding History.seed History.init Defs.init
capacity-idle = omega arith

pub capacity-browsing : capacity browsing ≡ 2 ^ 64 - 2
unfolding History.seed History.init
capacity-browsing = Tracker.set_session_locked-capacity clock_port true tracker
