-- ===== src/Session/Invariant.antt =====
-- What every event keeps, and the proof that no event reads out of bounds.
use Prim.Native.String.{String}
use mru_switcher.Prelude.{
  ℕ, ◌+◌, ◌≤◌, ◌<◌, ◌≡◌, refl, ◌∙◌, Bool, true, false, not, ◌||◌, leb, List, [], ◌∷◌, Option, none,
  some, arith, length, if_cases, Bool-cases, Option-cases, inl, inr, is_empty, value_or,
}
use mru_switcher.Window.{WindowRef, Scope, Direction, SessionPolicy}
use mru_switcher.Selection.{advance_index}
use mru_switcher.Selection.Ring.{initial_index-lt, advance_index-lt}
use mru_switcher.Snapshot.{Snapshot, size, empty}
use mru_switcher.Scheduler.{SchedulerPort}
use mru_switcher.History
use mru_switcher.History.{HistoryTracker}
use mru_switcher.History.Invariant as Tracker
use mru_switcher.History.Lock
use mru_switcher.Ports.{Ports}
use mru_switcher.Session.Defs.{
  SessionController, SessionEndReason, init, emit, focus_call, selection_changed, done,
  CommandResult, on_focus, deliver, focus_window, begin_session, cycle, select_index, end_session,
}

-- While a session is active there is a snapshot and the index is within it; when none is, there is
-- no snapshot, no origin, and the index is 0.
abbrev pub Selected : Bool → Option Snapshot → ℕ → Option WindowRef → Type 0
Selected true none i o = ⊥
Selected true (some s) i o = i < size s
Selected false none i o = (i ≡ 0) × (o ≡ none)
Selected false (some s) i o = ⊥

pub Selected-live :
    (b : Bool) (o : Option Snapshot) (i : ℕ) (r : Option WindowRef)
    → Selected b o i r
    → b ≡ true
    → (s : Snapshot) × (o ≡ some s) × (i < size s)
Selected-live true none i r h e = absurd h
Selected-live true (some s) i r h e = (s, refl, h)
Selected-live false o i r h e = cc

pub Selected-move :
    (b : Bool) (o : Option Snapshot) (i j : ℕ) (r : Option WindowRef) (s : Snapshot)
    → Selected b o i r
    → b ≡ true
    → o ≡ some s
    → j < size s
    → Selected b o j r
Selected-move true none i j r s h e f lt = h
Selected-move true (some t) i j r s h e f lt = ground arith
Selected-move false o i j r s h e f lt = cc

pub record IsValid {S : SchedulerPort} {P : Ports} (c : SessionController S P) : Type 0 where
  pub tracker_valid : Tracker.IsValid S c.tracker
  pub locked : c.tracker.locked ≡ c.active
  pub selected : Selected c.active c.snapshot c.index c.session_origin

module _ {S : SchedulerPort} {P : Ports} where
  -- How many job ids are left.
  abbrev pub capacity : SessionController S P → ℕ
  capacity c = S.capacity c.tracker.scheduler

  pub new-IsValid :
      (world : P.World) (tracker : HistoryTracker S) (policy : SessionPolicy)
      → Tracker.IsValid S tracker
      → tracker.locked ≡ false
      → IsValid (init {S = S} {P = P} world tracker policy)
  unfolding init
  new-IsValid world tracker policy v open_ = record {
    tracker_valid = v;
    locked = open_;
    selected = (refl, refl);
  }

  pub on_focus-IsValid :
      (r : WindowRef) (c : SessionController S P)
      → IsValid c
      → 0 < capacity c
      → IsValid (on_focus r c)
  unfolding on_focus
  on_focus-IsValid r c v room =
      if_cases IsValid c.active (λ _. v)
        λ _. record {
          tracker_valid = Tracker.on_focus-IsValid S v.tracker_valid r room;
          locked = Lock.locked-on_focus S r c.tracker ∙ v.locked;
          selected = v.selected;
        }

  pub on_focus-capacity :
      (r : WindowRef) (c : SessionController S P)
      → 0 < capacity c
      → capacity c ≤ capacity (on_focus r c) + 1
  unfolding on_focus
  on_focus-capacity r c room = ground (arith, Tracker.on_focus-capacity S r c.tracker)

  deliver-IsValid :
      (rs : List WindowRef) (c : SessionController S P)
      → IsValid c
      → length rs ≤ capacity c
      → IsValid (deliver rs c) × (capacity c ≤ capacity (deliver rs c) + length rs)
  unfolding deliver
  deliver-IsValid [] c v room = (v, omega arith)
  deliver-IsValid (r ∷ rs) c v room =
      let k = on_focus-capacity r c (omega arith) in
      let (u, h) =
        deliver-IsValid rs (on_focus r c) (on_focus-IsValid r c v (omega arith)) (omega arith) in
      (u, omega arith)

  -- A focus call changes the world and what it announces reaches the history.
  pub focus_window-IsValid :
      (r : WindowRef) (c : SessionController S P)
      → IsValid c
      → P.burst ≤ capacity c
      → IsValid (focus_window r c).0 × (capacity c ≤ capacity (focus_window r c).0 + P.burst)
  unfolding focus_window
  focus_window-IsValid r c v room =
      let few = P.activated-le-burst r c.world in
      let (u, h) =
        deliver-IsValid (P.focus r c.world).activated
          (emit (focus_call r (P.focus r c.world).result)
            (record c { world = (P.focus r c.world).world }))
          (record { tracker_valid = v.tracker_valid; locked = v.locked; selected = v.selected })
          (omega arith) in
      (u, omega arith)

  pub end_session-IsValid :
      (reason : SessionEndReason) (e : String) (c : SessionController S P)
      → Tracker.IsValid S c.tracker
      → IsValid (end_session reason e c).0 × (capacity (end_session reason e c).0 ≡ capacity c)
  unfolding end_session
  end_session-IsValid reason e c v = (
    record {
      tracker_valid = Tracker.set_session_locked-IsValid S v false;
      locked = Lock.locked-set S false c.tracker;
      selected = (refl, refl);
    },
    Tracker.set_session_locked-capacity S false c.tracker,
  )

  begin_session-IsValid :
      (scope : Scope) (c : SessionController S P)
      → IsValid c
      → c.active ≡ false
      → IsValid (begin_session scope c).0 × (capacity (begin_session scope c).0 ≡ capacity c)
  unfolding begin_session
  begin_session-IsValid scope c v idle =
      let flushed = Tracker.flush_pending-IsValid S v.tracker_valid (P.is_valid c.world) in
      let kept = Tracker.flush_pending-capacity S (P.is_valid c.world) c.tracker in
      let t = History.flush_pending S (P.is_valid c.world) c.tracker in
      let (w, windows) = P.candidates t.order scope c.world in
      if_cases
        (λ (r : SessionController S P × CommandResult). IsValid r.0 × (capacity r.0 ≡ capacity c))
        (is_empty windows)
        (λ _. (
          record {
            tracker_valid = flushed;
            locked = Lock.locked-flush S _ c.tracker ∙ v.locked;
            selected = v.selected;
          },
          kept,
        ))
        (λ some_left. (
          record {
            tracker_valid = Tracker.set_session_locked-IsValid S flushed true;
            locked = Lock.locked-set S true t;
            selected = initial_index-lt c.policy.start_offset (length windows) (ground arith);
          },
          Tracker.set_session_locked-capacity S true t ∙ kept,
        ))

  -- `cycle` returns, and keeps the invariant.
  pub cycle-IsValid :
      (dir : Direction) (scope : Option Scope) (c : SessionController S P)
      → IsValid c
      → (c' : SessionController S P) × (r : CommandResult) × (cycle dir scope c ≡ some (c', r))
        × IsValid c'
        × (capacity c' ≡ capacity c)
  unfolding cycle
  cycle-IsValid dir scope c v = elim (Bool-cases c.active) [
    | inl e ↦
        let (s, f, lt) = Selected-live c.active c.snapshot c.index c.session_origin v.selected e in
        let i = advance_index c.index dir c.snapshot_policy.wrap (size s) in
        (
          emit (selection_changed i) (record c { index = i }),
          done,
          ground arith,
          record {
            tracker_valid = v.tracker_valid;
            locked = v.locked;
            selected =
                Selected-move c.active c.snapshot c.index i c.session_origin s v.selected e f
                  (advance_index-lt c.index dir c.snapshot_policy.wrap (size s) (omega arith));
          },
          refl,
        )
    | inr e ↦
        let r = begin_session (value_or scope c.policy.default_scope) c in
        let (u, k) = begin_session-IsValid (value_or scope c.policy.default_scope) c v e in
        (r.0, r.1, ground arith, u, k)
  ]

  pub select_index-IsValid :
      (i : ℕ) (c : SessionController S P)
      → IsValid c
      → IsValid (select_index i c).0 × (capacity (select_index i c).0 ≡ capacity c)
  unfolding select_index
  select_index-IsValid i c v = elim (Option-cases c.snapshot) [
    | inl e ↦ rw (e, select_index) (v, refl)
    | inr (s, e) ↦
        rw (e, select_index)
          (if_cases
            (λ (r : SessionController S P × CommandResult).
              IsValid r.0 × (capacity r.0 ≡ capacity c))
            (not c.active || empty s || leb (size s) i) (λ _. (v, refl))
            (λ h. (
              record {
                tracker_valid = v.tracker_valid;
                locked = v.locked;
                selected =
                    Selected-move c.active c.snapshot c.index i c.session_origin s v.selected
                      (ground arith) e (ground arith);
              },
              refl,
            )))
  ]
