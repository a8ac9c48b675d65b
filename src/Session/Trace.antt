-- ===== src/Session/Trace.antt =====
-- What the user interface sees: the calls of its port, replayed.
pub mod Life
use Prim.Native.String.{String}
use mathlib.Core.List.{append_assoc}
use mru_switcher.Prelude.{
  ℕ, ◌≤◌, ◌<◌, ltb, lt→ltb, ◌≡◌, refl, ap, ◌∙◌, sym, Bool, true, false, not, ◌&&◌, ◌||◌, List, [],
  ◌∷◌, ◌++◌, Option, none, some, arith, if_cases, Bool-cases, Option-cases, inl, inr, ◌>>=◌,
  contains, if◌then◌else◌, leb, is_empty, value_or, length,
}
use mru_switcher.Window.{WindowRef, window_eq, Scope, Direction}
use mru_switcher.History
use mru_switcher.Selection.{advance_index}
use mru_switcher.Selection.Ring.{initial_index-lt, advance_index-lt}
use mru_switcher.Snapshot.{Snapshot, size, empty, at}
use mru_switcher.Scheduler.{SchedulerPort}
use mru_switcher.Ports.{Ports, FocusResult}
use mru_switcher.Session.Defs.{
  SessionController, SessionEndReason, CommandResult, Effect, focus_call, session_start,
  selection_changed, session_end, done, end_session, clamp_index, prune_active, focus_window,
  on_focus, deliver, begin_session, cycle, select_index, emit,
}
use mru_switcher.Session.Apply.{
  apply, cancel, restore_focus, plugin_shutdown, on_window_invalid, live_snapshot, set_policy,
}
use mru_switcher.Session.Step.{
  Event, cycles, selects, applies, cancels, shuts_down, focuses, closes, reloads, fires, changes,
  step, run,
}
use mru_switcher.Session.Invariant.{IsValid, capacity, Selected-live}
use mru_switcher.Session.Pruning.{remaining, prune_active-eq}
use mru_switcher.Session.Outcome.{apply_outcome}
use mru_switcher.Session.Attempts.{
  Attempt, nothing, focused, refused, Attempts, once, again, died_twice, dead,
}
use mru_switcher.Session.Safety.{cost, costs, step_safe}

-- What is shown is the number of windows of the session that the user interface was told of, if it
-- shows one. A call changes it; `none` is a call out of turn, or with an index out of range.
abbrev pub after_call : Effect → Option ℕ → Option (Option ℕ)
after_call (session_start s i) none = if ltb i (size s) then some (some (size s)) else none
after_call (session_start s i) (some n) = none
after_call (selection_changed i) none = none
after_call (selection_changed i) (some n) = if ltb i n then some (some n) else none
after_call (session_end reason) none = none
after_call (session_end reason) (some n) = some none
after_call (focus_call r result) shown = some shown

-- The calls, newest first, replayed from the start.
abbrev pub replay : List Effect → Option (Option ℕ)
replay [] = some none
replay (e ∷ es) = replay es >>= after_call e

abbrev pub Shows : Bool → Option Snapshot → Option ℕ → Type 0
Shows true (some s) (some n) = size s ≤ n
Shows true o shown = ⊥
Shows false o none = Unit {0}
Shows false o (some n) = ⊥

replay-focus :
    (r : WindowRef) (result : FocusResult) (o : Option (Option ℕ))
    → (o >>= after_call (focus_call r result)) ≡ o
replay-focus r result none = refl
replay-focus r result (some b) = refl

replay-Attempt :
    (fs : List Effect) (w : Option WindowRef) (es : List Effect)
    → Attempt fs w
    → replay (fs ++ es) ≡ replay es
replay-Attempt fs w es nothing = refl
replay-Attempt fs w es (focused r) = replay-focus r FocusResult.applied (replay es)
replay-Attempt fs w es (refused r) = replay-focus r FocusResult.failed (replay es)

pub replay-Attempts :
    (fs : List Effect) (w : Option WindowRef) (es : List Effect)
    → Attempts fs w
    → replay (fs ++ es) ≡ replay es
replay-Attempts fs w es (once a) = replay-Attempt fs w es a
replay-Attempts fs w es (again q gs a e) =
    rw (e, append_assoc)
      (replay-Attempt gs w (dead q ∷ es) a ∙ replay-focus q FocusResult.invalid_target (replay es))
replay-Attempts fs w es (died_twice q r e _) = rw e (
    replay-focus r FocusResult.invalid_target (replay (dead q ∷ es))
    ∙ replay-focus q FocusResult.invalid_target (replay es))

pub shown_while :
    (b : Bool) (o : Option Snapshot) (shown : Option ℕ)
    → Shows b o shown
    → b ≡ true
    → (s : Snapshot) × (n : ℕ) × (o ≡ some s) × (shown ≡ some n) × (size s ≤ n)
shown_while true none shown h e = absurd h
shown_while true (some s) none h e = absurd h
shown_while true (some s) (some n) h e = (s, n, refl, refl, h)
shown_while false o shown h e = cc

pub shown_idle :
    (b : Bool) (o : Option Snapshot) (shown : Option ℕ) → Shows b o shown → b ≡ false → shown ≡ none
shown_idle true o shown h e = cc
shown_idle false o none h e = refl
shown_idle false o (some n) h e = absurd h

pub shows :
    (b : Bool) (o : Option Snapshot) (s : Snapshot) (n : ℕ)
    → b ≡ true
    → o ≡ some s
    → size s ≤ n
    → Shows b o (some n)
shows true none s n e f h = cc
shows true (some t) s n e f h = ground arith
shows false o s n e f h = cc

module _ {S : SchedulerPort} {P : Ports} where
  -- The calls so far were in turn, and a session is shown exactly when one is active, with at least
  -- as many windows as are left.
  abbrev pub InTurn : SessionController S P → Type 0
  InTurn c = (shown : Option ℕ) × (replay c.effects ≡ some shown) × Shows c.active c.snapshot shown

  deliver-same :
      (rs : List WindowRef) (c : SessionController S P)
      → ((deliver rs c).effects ≡ c.effects)
        × ((deliver rs c).active ≡ c.active)
        × ((deliver rs c).snapshot ≡ c.snapshot)
  unfolding deliver on_focus
  deliver-same [] c = (refl, refl, refl)
  deliver-same (r ∷ rs) c = ground (arith, deliver-same rs (on_focus r c))

  pub focus_window-InTurn :
      (r : WindowRef) (c : SessionController S P) → InTurn c → InTurn (focus_window r c).0
  unfolding focus_window
  focus_window-InTurn r c (shown, t, h) =
      let (e, a, f) = deliver-same (P.focus r c.world).activated (
        emit (focus_call r (P.focus r c.world).result)
          (record c { world = (P.focus r c.world).world })) in
      (shown, rw e (replay-focus r (P.focus r c.world).result (replay c.effects) ∙ t), rw (a, f) h)

  pub end_session-InTurn :
      (reason : SessionEndReason) (m : String) (c : SessionController S P)
      → InTurn c
      → c.active ≡ true
      → InTurn (end_session reason m c).0
  unfolding end_session
  end_session-InTurn reason m c (shown, t, h) a =
      let (s, n, _, e, _) = shown_while c.active c.snapshot shown h a in (none, rw (t, e), tt)

  pub begin_session-InTurn :
      (scope : Scope) (c : SessionController S P)
      → InTurn c
      → c.active ≡ false
      → InTurn (begin_session scope c).0
  unfolding begin_session
  begin_session-InTurn scope c (shown, t, h) a =
      let e = shown_idle c.active c.snapshot shown h a in
      let w =
        (P.candidates (History.flush_pending S (P.is_valid c.world) c.tracker).order scope
          c.world).1 in
      if_cases (λ (r : SessionController S P × CommandResult). InTurn r.0) (is_empty w)
        (λ _. (shown, t, h))
        (λ full.
          let lt = initial_index-lt c.policy.start_offset (length w) (ground arith) in
          (some (length w), rw (t, e, lt→ltb _ _ lt), omega arith))

  pub cycle-InTurn :
      (dir : Direction) (o : Option Scope) (c : SessionController S P) (d : SessionController S P)
      (r : CommandResult)
      → IsValid c
      → InTurn c
      → cycle dir o c ≡ some (d, r)
      → InTurn d
  unfolding cycle
  cycle-InTurn dir o c d r v (shown, t, h) e = elim (Bool-cases c.active) [
    | inl a ↦
        let (s, n, f, g, le) = shown_while c.active c.snapshot shown h a in
        let (s', f', lt) =
          Selected-live c.active c.snapshot c.index c.session_origin v.selected a in
        let i = advance_index c.index dir c.snapshot_policy.wrap (size s) in
        let same : s' ≡ s = cc in
        let lt' =
          advance_index-lt c.index dir c.snapshot_policy.wrap (size s)
            (omega (arith, ap (λ (x : Snapshot). size x) same)) in
        let eq : d ≡ emit (selection_changed i) (record c { index = i }) = ground arith in
        rw eq (some n, rw (t, g, lt→ltb i n (omega arith)), shows c.active c.snapshot s n a f le)
    | inr a ↦
        let eq : d ≡ (begin_session (value_or o c.policy.default_scope) c).0 = ground arith in
        rw eq (begin_session-InTurn _ c (shown, t, h) a)
  ]
