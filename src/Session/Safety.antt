-- ===== src/Session/Safety.antt =====
-- No event of the plugin's life is undefined behaviour, and each keeps the invariant.
use mru_switcher.Prelude.{
  ℕ, ◌+◌, ◌≤◌, ◌<◌, ◌≡◌, refl, ap, ◌∙◌, Bool, true, false, not, ◌&&◌, List, [], ◌∷◌, Option, none,
  some, arith, if_cases, Bool-cases, Option-cases, inl, inr, contains, if◌then◌else◌,
}
use mru_switcher.Window.{WindowRef, window_eq}
use mru_switcher.Snapshot.{Snapshot, size, empty}
use mru_switcher.Scheduler.{SchedulerPort}
use mru_switcher.History
use mru_switcher.History.Invariant as Tracker
use mru_switcher.History.Lock
use mru_switcher.Ports.{Ports}
use mru_switcher.Session.Defs.{
  SessionController, SessionEndReason, CommandResult, done, end_session, clamp_index, prune_active,
}
use mru_switcher.Session.Apply.{
  apply, cancel, restore_focus, plugin_shutdown, on_window_invalid, live_snapshot, set_policy,
}
use mru_switcher.Session.Step.{
  Event, cycles, selects, applies, cancels, shuts_down, focuses, closes, reloads, fires, changes,
  step, run,
}
use mru_switcher.Session.Invariant.{
  IsValid, Selected, capacity, end_session-IsValid, on_focus-IsValid, on_focus-capacity,
  cycle-IsValid, select_index-IsValid, focus_window-IsValid,
}
use mru_switcher.Session.Pruning.{remaining, prune_active-eq, clamp-lt}
use mru_switcher.Session.Outcome.{apply_outcome}

-- How many job ids an event can use up, where a focus call announces at most `burst` windows.
module _ {W : Type 0} (burst : ℕ) where
  abbrev pub cost : Event W → ℕ
  cost applies = 1
  cost cancels = burst
  cost (focuses r) = 1
  cost (cycles dir scope) = 0
  cost (selects i) = 0
  cost shuts_down = 0
  cost (closes r) = 0
  cost (reloads policy ms) = 0
  cost (fires id) = 0
  cost (changes w) = 0

  abbrev pub costs : List (Event W) → ℕ
  costs [] = 0
  costs (e ∷ es) = cost e + costs es

Selected-some :
    (b : Bool) (s : Snapshot) (i : ℕ) (r : Option WindowRef)
    → b ≡ true
    → i < size s
    → Selected b (some s) i r
Selected-some true s i r e h = h
Selected-some false s i r e h = cc

module _ {S : SchedulerPort} {P : Ports} where
  -- A valid state that has kept all but `n` of the job ids of `c`.
  abbrev Keeps : ℕ → SessionController S P → SessionController S P → Type 0
  Keeps n c d = IsValid d × (capacity c ≤ capacity d + n)

  restore_focus-IsValid :
      (b : Bool) (o : Option WindowRef) (c : SessionController S P)
      → IsValid c
      → P.burst ≤ capacity c
      → Keeps P.burst c (restore_focus b o c)
  unfolding restore_focus
  restore_focus-IsValid b none c v room = (v, omega arith)
  restore_focus-IsValid b (some r) c v room =
      if_cases (Keeps P.burst c) (b && P.is_valid c.world r) (λ _. focus_window-IsValid r c v room)
        (λ _. (v, omega arith))

  cancel-IsValid :
      (c : SessionController S P) → IsValid c → P.burst ≤ capacity c → Keeps P.burst c (cancel c).0
  unfolding cancel
  cancel-IsValid c v room =
      if_cases (λ (r : SessionController S P × CommandResult). Keeps P.burst c r.0) (not c.active)
        (λ _. (v, omega arith))
        (λ _.
          let (u, k) = end_session-IsValid SessionEndReason.user_cancel "" c v.tracker_valid in
          let (w, h) =
            restore_focus-IsValid c.snapshot_policy.restore_focus_on_cancel c.session_origin
              (end_session SessionEndReason.user_cancel "" c).0 u (omega arith) in
          (w, omega arith))

  pub shutdown-IsValid : (c : SessionController S P) → IsValid c → Keeps 0 c (plugin_shutdown c)
  unfolding plugin_shutdown
  shutdown-IsValid c v =
      if_cases (Keeps 0 c) (not c.active) (λ _. (v, omega arith))
        (λ _.
          let (u, k) = end_session-IsValid SessionEndReason.plugin_shutdown "" c v.tracker_valid in
          (u, omega arith))

  live-prune :
      (c : SessionController S P) (s : Snapshot)
      → c.snapshot ≡ some s
      → live_snapshot (prune_active c)
        ≡ (if empty (remaining c s) then none else some (remaining c s))
  unfolding live_snapshot
  live-prune c s f = rw (prune_active-eq c s f)

  prune-IsValid :
      (c : SessionController S P) (s : Snapshot)
      → IsValid c
      → c.active ≡ true
      → c.snapshot ≡ some s
      → empty (remaining c s) ≡ false
      → Keeps 0 c (prune_active c)
  prune-IsValid c s v e f h = rw (prune_active-eq c s f) (
    record {
      tracker_valid = v.tracker_valid;
      locked = v.locked;
      selected =
          Selected-some c.active (remaining c s) (clamp_index (remaining c s) c.index)
            c.session_origin e (clamp-lt (remaining c s) c.index h);
    },
    omega arith,
  )

  prune-tracker :
      (c : SessionController S P) (s : Snapshot)
      → c.snapshot ≡ some s
      → (prune_active c).tracker ≡ c.tracker
  prune-tracker c s f = rw (prune_active-eq c s f)

  emptied-IsValid :
      (c : SessionController S P) (s : Snapshot)
      → IsValid c
      → c.snapshot ≡ some s
      → Keeps 0 c (end_session SessionEndReason.no_windows "no windows" (prune_active c)).0
  emptied-IsValid c s v f =
      let same = prune-tracker c s f in
      let (u, k) =
        end_session-IsValid SessionEndReason.no_windows "no windows" (prune_active c)
          (rw same v.tracker_valid) in
      (u, omega (arith, k, ap (λ t. S.capacity t.scheduler) same))

  closed-IsValid :
      (r : WindowRef) (c : SessionController S P) → IsValid c → Keeps 0 c (on_window_invalid r c)
  unfolding on_window_invalid
  closed-IsValid r c v = elim (Option-cases c.snapshot) [
    | inl f ↦ rw (f, on_window_invalid) (v, omega arith)
    | inr (s, f) ↦
        rw (f, on_window_invalid)
          (if_cases (Keeps 0 c) (not c.active) (λ _. (v, omega arith))
            λ act.
              if_cases (Keeps 0 c) (not (contains s.windows r)) (λ _. (v, omega arith))
                λ _. elim (Bool-cases (empty (remaining c s))) [
                  | inl h ↦ rw (live-prune c s f, h) (emptied-IsValid c s v f)
                  | inr h ↦ rw (live-prune c s f, h) (prune-IsValid c s v (ground arith) f h)
                ])
  ]

  apply_idle : (c : SessionController S P) → c.active ≡ false → apply c ≡ some (c, done)
  unfolding apply
  apply_idle c e = ground arith

  -- From a valid state, with job ids enough left, every event returns, reads nothing out of bounds,
  -- and leads to a valid state.
  pub step_safe :
      (e : Event P.World) (c : SessionController S P)
      → IsValid c
      → cost P.burst e ≤ capacity c
      → (d : SessionController S P) × (step e c ≡ some d)
        × IsValid d
        × (capacity c ≤ capacity d + cost P.burst e)
  unfolding step set_policy History.set_debounce_ms History.fire
  step_safe (cycles dir scope) c v room =
      let (d, r, e, u, k) = cycle-IsValid dir scope c v in (d, rw e, u, omega arith)
  step_safe (selects i) c v room =
      let (u, k) = select_index-IsValid i c v in (_, refl, u, omega arith)
  step_safe applies c v room = elim (Bool-cases c.active) [
    | inl e ↦ let (d, q, fs, w, eq, _, u) = apply_outcome c v e room in (d, rw eq, u.valid, u.room)
    | inr e ↦ (c, ground (arith, apply_idle c e), v, omega arith)
  ]
  step_safe cancels c v room = let (u, k) = cancel-IsValid c v room in (_, refl, u, k)
  step_safe shuts_down c v room = let (u, k) = shutdown-IsValid c v in (_, refl, u, k)
  step_safe (focuses r) c v room =
      (_, refl, on_focus-IsValid r c v room, on_focus-capacity r c room)
  step_safe (closes r) c v room = let (u, k) = closed-IsValid r c v in (_, refl, u, k)
  step_safe (reloads policy ms) c v room = (
    _,
    refl,
    record {
      tracker_valid = Tracker.set_debounce_ms-IsValid S v.tracker_valid ms;
      locked = v.locked;
      selected = v.selected;
    },
    omega arith,
  )
  step_safe (fires id) c v room = (
    _,
    refl,
    record {
      tracker_valid = Tracker.fire-IsValid S v.tracker_valid (P.is_valid c.world) id;
      locked = Lock.locked-fire S _ id c.tracker ∙ v.locked;
      selected = v.selected;
    },
    omega (arith, Tracker.fire-capacity S (P.is_valid c.world) id c.tracker),
  )
  step_safe (changes w) c v room = (
    _,
    refl,
    record { tracker_valid = v.tracker_valid; locked = v.locked; selected = v.selected },
    omega arith,
  )

  pub run_keeps :
      (es : List (Event P.World)) (c : SessionController S P)
      → IsValid c
      → costs P.burst es ≤ capacity c
      → (d : SessionController S P) × (run es c ≡ some d)
        × IsValid d
        × (capacity c ≤ capacity d + costs P.burst es)
  unfolding run
  run_keeps [] c v room = (c, refl, v, omega arith)
  run_keeps (e ∷ es) c v room =
      let (d, eq, u, k) = step_safe e c v (omega arith) in
      let (f, eq', w, l) = run_keeps es d u (omega arith) in (f, rw eq eq', w, omega arith)

  -- From a valid state, with job ids enough left, every sequence of events returns, reads nothing out
  -- of bounds, and leads to a valid state.
  pub run_safe :
      (es : List (Event P.World)) (c : SessionController S P)
      → IsValid c
      → costs P.burst es ≤ capacity c
      → (d : SessionController S P) × (run es c ≡ some d) × IsValid d
  run_safe es c v room = let (d, e, u, k) = run_keeps es c v room in (d, e, u)
